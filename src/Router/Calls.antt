-- ===== src/Router/Calls.antt =====
-- The operations of the API: the interface Handler of internal/router/ogen/oas_server_gen.go, and
-- the Handler of internal/router/handler.go, which implements it with its services.
pub mod Keeping
pub mod Handling
use ndbx.Prelude.{ℕ, String, Option}
use ndbx.GoTime.{Time, Rfc3339}
use ndbx.Router.{
  Opt, SessionService, UserService, EventService, ReviewService, RecommendationService, Handler,
}
use ndbx.Router.Sessions.{
  UserRegisterRequest, LoginRequest, api_health, api_session, api_register, api_login, api_logout,
}
use ndbx.Router.Events.{
  CreateEventRequest, PatchEventRequest, api_create_event, api_get_event, api_patch_event,
}
use ndbx.Router.Listing.{EventsQuery, api_get_events, api_get_user_events}
use ndbx.Router.Users.{UsersQuery, api_get_users, api_get_user}
use ndbx.Router.Reactions.{api_like_event, api_dislike_event}
use ndbx.Router.Reviews.{
  ReviewRequest, api_create_event_review, api_get_event_reviews, api_update_event_review,
}
use ndbx.Router.Recommendations.{api_get_recommendations}

-- The fields of the Handler struct, with the two forms of times that it reads.
pub record Services (W : Type 0) : Type 0 where
  pub clock : Rfc3339
  pub parse_date : String → Option Time
  pub sessions : SessionService W
  pub accounts : UserService W
  pub events : EventService W
  pub reviews : ReviewService W
  pub recommendations : RecommendationService W
  pub session_ttl_seconds : ℕ

-- A call of an operation: its body and its parameters, but for the cookie, which all have.
pub data Call : Type 0 where
  create_event : CreateEventRequest → Call
  create_event_review : ReviewRequest → (event_id : String) → Call
  dislike_event like_event : (id : String) → Call
  get_event : (id : String) → (include : Opt String) → Call
  get_event_reviews : (event_id : String) → (limit offset : Opt ℕ) → Call
  get_events : EventsQuery → Call
  get_recommendations : Call
  get_user : (id : String) → Call
  get_user_events : (id : String) → EventsQuery → Call
  get_users : UsersQuery → Call
  health : Call
  login : LoginRequest → Call
  logout : Call
  patch_event : PatchEventRequest → (id : String) → Call
  register : UserRegisterRequest → Call
  session : Call
  update_event_review : ReviewRequest → (event_id review_id : String) → Call

module _ {W : Type 0} (s : Services W) where
  abbrev pub handle : Call → Opt String → Handler W
  handle (create_event req) cookie =
      api_create_event s.clock s.sessions s.events s.session_ttl_seconds req cookie
  handle (create_event_review req event_id) cookie =
      api_create_event_review s.clock s.sessions s.reviews s.session_ttl_seconds req event_id cookie
  handle (dislike_event id) cookie =
      api_dislike_event s.sessions s.events s.session_ttl_seconds id cookie
  handle (like_event id) cookie = api_like_event s.sessions s.events s.session_ttl_seconds id cookie
  handle (get_event id include) cookie =
      api_get_event s.clock s.sessions s.events s.session_ttl_seconds id include cookie
  handle (get_event_reviews event_id limit offset) cookie =
      api_get_event_reviews s.clock s.sessions s.reviews s.session_ttl_seconds event_id limit offset
        cookie
  handle (get_events q) cookie =
      api_get_events s.clock s.parse_date s.events s.accounts s.session_ttl_seconds q cookie
  handle get_recommendations cookie =
      api_get_recommendations s.clock s.sessions s.recommendations s.session_ttl_seconds cookie
  handle (get_user id) cookie = api_get_user s.accounts s.session_ttl_seconds id cookie
  handle (get_user_events id q) cookie =
      api_get_user_events s.clock s.parse_date s.events s.accounts s.session_ttl_seconds id q cookie
  handle (get_users q) cookie = api_get_users s.accounts s.session_ttl_seconds q cookie
  handle health cookie = api_health s.sessions s.accounts s.session_ttl_seconds cookie
  handle (login req) cookie = api_login s.sessions s.accounts s.session_ttl_seconds req cookie
  handle logout cookie = api_logout s.sessions s.accounts s.session_ttl_seconds cookie
  handle (patch_event req id) cookie =
      api_patch_event s.clock s.sessions s.events s.session_ttl_seconds req id cookie
  handle (register req) cookie = api_register s.sessions s.accounts s.session_ttl_seconds req cookie
  handle session cookie = api_session s.sessions s.accounts s.session_ttl_seconds cookie
  handle (update_event_review req event_id review_id) cookie =
      api_update_event_review s.clock s.sessions s.reviews s.session_ttl_seconds req event_id
        review_id cookie
