-- ===== src/Router.antt =====
-- internal/router: the answers of the API, the errors of internal/router/errors.go, and the
-- interfaces of the services. The structs of internal/router/ogen, which is generated, are the
-- constructors of Response and the records of requests and parameters.
pub mod Cookie
pub mod View
pub mod Auth
pub mod Sessions
pub mod Events
pub mod Listing
pub mod Users
pub mod Reactions
pub mod Reviews
pub mod Recommendations
pub mod Guarded
pub mod Calls
use ndbx.Prelude.{ℕ, String, Bool, Option, none, some, List}
use ndbx.Errors.{Err}
use ndbx.Exec.{Exec, Result, ok, err, lift, map_err}
use ndbx.Redis.Session.{SessionValue}
use ndbx.Service

-- OptString, OptInt64, OptInt32, OptEventCategory, …: Value and Set
pub record Opt (A : Type 0) : Type 0 where
  pub value : A
  pub set : Bool

pub record OasLocation : Type 0 where
  pub address : String
  pub city : Option String

pub record OasReactions : Type 0 where
  pub likes : ℕ
  pub dislikes : ℕ

pub record OasReviews : Type 0 where
  pub count : ℕ
  pub rating : ℕ

pub record OasEventData : Type 0 where
  pub id : String
  pub title : String
  pub category : Option String
  pub price : Option ℕ
  pub description : Opt String
  pub location : OasLocation
  pub started_at : String
  pub finished_at : String
  pub created_at : String
  pub created_by : String
  pub reactions : Option OasReactions
  pub reviews : Option OasReviews

pub record OasReviewData : Type 0 where
  pub id : String
  pub event_id : String
  pub comment : String
  pub created_at : String
  pub created_by : String
  pub rating : ℕ
  pub updated_at : String

-- The answers; a text is the Set-Cookie header.
pub data Response : Type 0 where
  -- ErrorResponseStatusCodeWithHeaders
  error : (status : ℕ) (set_cookie message : String) → Response
  health : Opt String → (status : String) → Response
  session_created session_ok register_created login_no_content : String → Response
  logout_no_content logout_unauthorized : String → Response
  create_event_unauthorized patch_event_unauthorized patch_event_no_content : String → Response
  create_event_created : (set_cookie id : String) → Response
  events : (set_cookie : String) → List OasEventData → (count : ℕ) → Response
  event : (set_cookie : String) → OasEventData → Response
  users : (set_cookie : String) → List Service.UserData → (count : ℕ) → Response
  user : (set_cookie : String) → Service.UserData → Response
  -- these have no Set-Cookie header
  like_event_unauthorized dislike_event_unauthorized : Response
  create_review_unauthorized update_review_unauthorized recommendations_unauthorized : Response
  like_event_no_content dislike_event_no_content : String → Response
  create_review_created : (set_cookie id : String) → Response
  create_review_conflict update_review_not_found : (set_cookie message : String) → Response
  update_review_no_content : String → Response
  reviews : (set_cookie : String) → List OasReviewData → (count : ℕ) → Response
  recommendations : (set_cookie : String) → List OasEventData → Response

abbrev pub new_internal_error : Response
new_internal_error = error 500 "" "internal error"

abbrev pub new_bad_request_error : String → String → Response
new_bad_request_error set_cookie message = error 400 set_cookie message

abbrev pub new_conflict_error : String → String → Response
new_conflict_error set_cookie message = error 409 set_cookie message

abbrev pub new_not_found_error : String → String → Response
new_not_found_error set_cookie message = error 404 set_cookie message

abbrev pub new_invalid_credentials_error : String → Response
new_invalid_credentials_error set_cookie = error 401 set_cookie "invalid credentials"

pub record SessionService (W : Type 0) : Type 0 where
  pub get_session : String → Exec Err W SessionValue
  pub create_session : String → Exec Err W Service.CreateSessionResp
  pub create_or_extend_session :
      Service.CreateOrExtendSessionReq → Exec Err W Service.CreateOrExtendSessionResp
  pub delete_session : String → Exec Err W (Unit {0})

pub record UserService (W : Type 0) : Type 0 where
  pub register : Service.RegisterReq → Exec Err W String
  pub authenticate : Service.AuthenticateReq → Exec Err W String
  pub get_users : Service.GetUsersReq → Exec Err W (List Service.UserData)
  pub get_user : String → Exec Err W Service.UserData

pub record EventService (W : Type 0) : Type 0 where
  pub create_event : Service.CreateEventReq → Exec Err W String
  pub get_events : Service.GetEventsReq → Exec Err W (List Service.EventData)
  pub get_event : Service.GetEventReq → Exec Err W Service.EventData
  pub patch_event : Service.PatchEventReq → Exec Err W (Unit {0})
  pub like_event : Service.ReactEventReq → Exec Err W (Unit {0})
  pub dislike_event : Service.ReactEventReq → Exec Err W (Unit {0})

pub record ReviewService (W : Type 0) : Type 0 where
  pub create_review : Service.CreateReviewReq → Exec Err W String
  pub get_reviews : Service.GetReviewsReq → Exec Err W Service.GetReviewsResp
  pub update_review : Service.UpdateReviewReq → Exec Err W (Unit {0})

pub record RecommendationService (W : Type 0) : Type 0 where
  pub get_recommendations : String → Exec Err W (List Service.EventData)

-- A handler always answers: its Go error is nil on every path.
abbrev pub Handler : Type 0 → Type 0
Handler W = W → Response × W

abbrev pub answer_of : Result Response Response → Response
answer_of (ok r) = r
answer_of (err r) = r

-- The body of a handler, whose early returns are failures.
abbrev pub answering : {W : Type 0} → Exec Response W Response → Handler W
answering body w = let (r, w') = body w in (answer_of r, w')

-- `if err != nil { return NewBadRequestError(setCookie, err), nil }`
abbrev pub valid : {W A : Type 0} → String → Result String A → Exec Response W A
valid set_cookie r = map_err (new_bad_request_error set_cookie) (lift r)
