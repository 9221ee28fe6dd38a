-- ===== src/Service/Ports.antt =====
-- The interfaces that the services take: internal/service/session.go, user.go, event.go, review.go
-- and recommendation.go.
use ndbx.Prelude.{ℕ, String, Option, List}
use ndbx.Errors.{Err}
use ndbx.Exec.{Exec}
use ndbx.GoTime.{Time}
use ndbx.Redis.Session
use ndbx.Redis.Session.{SessionValue}
use ndbx.Redis.Reaction.{Reactions, SetReactionsReq}
use ndbx.Redis.Review.{Reviews, SetReviewsReq}
use ndbx.Redis.Recommendation.{RecommendationEvent, SetRecommendationReq}
use ndbx.Mongo
use ndbx.Cassandra.{ReactionCounts, Review, ReviewStats}
use ndbx.Graph.{RecommendedEvent}
use ndbx.Service.{EventReviewsSummary}

pub record SessionStorage (W : Type 0) : Type 0 where
  pub get : String → Exec Err W SessionValue
  pub set : Session.SetReq → Exec Err W (Unit {0})
  pub set_or_update : Session.SetOrUpdateReq → Exec Err W Session.SetOrUpdateResp
  pub delete : String → Exec Err W (Unit {0})

pub record UserStorage (W : Type 0) : Type 0 where
  pub create : Mongo.CreateUserReq → Exec Err W Mongo.User
  pub get_by_username : String → Exec Err W Mongo.User
  pub get_users : Mongo.GetUsersReq → Exec Err W (List Mongo.User)
  pub get_by_id : String → Exec Err W Mongo.User

pub record EventStorage (W : Type 0) : Type 0 where
  pub create : Mongo.CreateEventReq → Exec Err W Mongo.Event
  pub get_events : Mongo.GetEventsReq → Exec Err W (List Mongo.Event)
  pub get_event : String → Exec Err W Mongo.Event
  pub get_events_by_title : String → Exec Err W (List Mongo.Event)
  pub patch_event : Mongo.PatchEventReq → Exec Err W (Unit {0})

pub record EventReactionStorage (W : Type 0) : Type 0 where
  pub upsert_reaction : String → String → ℕ → Time → Exec Err W (Unit {0})
  pub count_by_event_ids : List String → Exec Err W ReactionCounts

pub record EventReactionCache (W : Type 0) : Type 0 where
  pub get : String → Exec Err W Reactions
  pub set : SetReactionsReq → Exec Err W (Unit {0})

pub record ReviewStorage (W : Type 0) : Type 0 where
  pub create_review : String → String → ℕ → String → Time → Exec Err W String
  pub get_reviews_by_event_id : String → Exec Err W (List Review)
  pub get_review : String → String → Exec Err W Review
  pub update_review : String → String → Option ℕ → Option String → Time → Exec Err W (Unit {0})
  pub get_review_stats_by_event_ids : List String → Exec Err W ReviewStats

pub record ReviewCache (W : Type 0) : Type 0 where
  pub get : String → Exec Err W Reviews
  pub set : SetReviewsReq → Exec Err W (Unit {0})

-- The part of the review service that the event service calls.
pub record ReviewSummaries (W : Type 0) : Type 0 where
  pub get_reviews_by_title : String → Exec Err W EventReviewsSummary

pub record GraphStorage (W : Type 0) : Type 0 where
  pub create_user : String → Exec Err W (Unit {0})
  pub create_event : String → String → Exec Err W (Unit {0})
  pub add_like : String → String → String → Exec Err W (Unit {0})
  pub get_recommended_event_ids : String → Exec Err W (List RecommendedEvent)

pub record RecommendationCache (W : Type 0) : Type 0 where
  pub get : String → Exec Err W (List RecommendationEvent)
  pub set : SetRecommendationReq → Exec Err W (Unit {0})
