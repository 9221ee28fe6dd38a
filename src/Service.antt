-- ===== src/Service.antt =====
-- internal/service and its structs, internal/service/dto: the business logic over the interfaces of
-- the storages. A request struct with one field is passed as that field, and a response struct with
-- one field is returned as that field.
pub mod Ports
pub mod Session
pub mod Account
pub mod Title
pub mod Reaction
pub mod Event
pub mod Review
pub mod Dedup
pub mod Ranking
pub mod Recommendation
use ndbx.Prelude.{ℕ, String, Bool, Option, List}
use ndbx.GoTime.{Time}

pub record EventLocation : Type 0 where
  pub address : String
  pub city : String

pub record EventReactions : Type 0 where
  pub likes : ℕ
  pub dislikes : ℕ

pub record EventReviewsSummary : Type 0 where
  pub count : ℕ
  pub rating : ℕ

pub record EventData : Type 0 where
  pub id : String
  pub title : String
  pub category : String
  pub price : ℕ
  pub description : String
  pub location : EventLocation
  pub created_at : Time
  pub created_by : String
  pub started_at : Time
  pub finished_at : Time
  pub reactions : EventReactions
  pub reviews : EventReviewsSummary

pub record CreateEventReq : Type 0 where
  pub title : String
  pub description : String
  pub address : String
  pub started_at : Time
  pub finished_at : Time
  pub created_by : String

pub record GetEventsReq : Type 0 where
  pub id : String
  pub title : String
  pub category : String
  pub price_from : Option ℕ
  pub price_to : Option ℕ
  pub address : String
  pub city : String
  pub date_from : Option Time
  pub date_to : Option Time
  pub user_id : String
  pub user : String
  pub limit : ℕ
  pub offset : ℕ
  pub include_reactions : Bool
  pub include_reviews : Bool

pub record GetEventReq : Type 0 where
  pub id : String
  pub include_reactions : Bool
  pub include_reviews : Bool

pub record ReactEventReq : Type 0 where
  pub id : String
  pub user_id : String

pub record PatchEventReq : Type 0 where
  pub id : String
  pub created_by : String
  pub category : Option String
  pub city : Option String
  pub price : Option ℕ

pub record ReviewData : Type 0 where
  pub id : String
  pub event_id : String
  pub rating : ℕ
  pub comment : String
  pub created_at : Time
  pub created_by : String
  pub updated_at : Time

pub record CreateReviewReq : Type 0 where
  pub event_id : String
  pub user_id : String
  pub comment : String
  pub rating : ℕ

pub record GetReviewsReq : Type 0 where
  pub event_id : String
  pub limit : ℕ
  pub offset : ℕ

pub record UpdateReviewReq : Type 0 where
  pub event_id : String
  pub review_id : String
  pub user_id : String
  pub rating : Option ℕ
  pub comment : Option String

pub record CreateSessionResp : Type 0 where
  pub sid : String
  pub ttl : ℕ

pub record CreateOrExtendSessionReq : Type 0 where
  pub sid : String
  pub user_id : String

pub record CreateOrExtendSessionResp : Type 0 where
  pub sid : String
  pub ttl : ℕ
  pub is_created : Bool

pub record UserData : Type 0 where
  pub id : String
  pub full_name : String
  pub username : String

pub record RegisterReq : Type 0 where
  pub full_name : String
  pub username : String
  pub password : String

pub record AuthenticateReq : Type 0 where
  pub username : String
  pub password : String

pub record GetUsersReq : Type 0 where
  pub id : String
  pub name : String
  pub limit : ℕ
  pub offset : ℕ

pub record GetReviewsResp : Type 0 where
  pub reviews : List ReviewData
  pub count : ℕ
