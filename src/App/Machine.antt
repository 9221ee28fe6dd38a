-- ===== src/App/Machine.antt =====
-- The running program as a state machine: the requests that internal/router/handler.go serves, over
-- the services and the Redis storage of sessions, and the sessions that lapse. Its state is the
-- world and the users that Authenticate and Register have answered with so far.
pub mod Storage
pub mod Reading
pub mod Sessions
pub mod Entries
pub mod Reachable
pub mod Liveness
use ndbx.Prelude.{ℕ, String, ◌==◌, ◌≡◌, ◌⊎◌, Option, none, List, [], ◌∷◌, In, if◌then◌else◌}
use ndbx.Errors.{Err}
use ndbx.Exec.{Result, ok, err, Exec}
use ndbx.GoTime.{Time, Rfc3339, Host}
use ndbx.Redis.{RedisClient, RedisLaws}
use ndbx.Redis.Session.{created_at_field, session_key}
use ndbx.Service
use ndbx.Router.{Opt, UserService, EventService, ReviewService, RecommendationService}
use ndbx.Router.Calls.{Services, Call, login, register, handle}
use ndbx.App.{session_service}

-- What the program takes besides its storage of sessions.
pub record Surroundings (W : Type 0) : Type 0 where
  pub host : Host W
  pub ttl : ℕ
  pub parse_date : String → Option Time
  pub accounts : UserService W
  pub events : EventService W
  pub reviews : ReviewService W
  pub recommendations : RecommendationService W

pub record State (W : Type 0) : Type 0 where
  pub world : W
  pub granted : List String

abbrev pub grant : Result Err String → List String → List String
grant (ok user_id) users = user_id ∷ users
grant (err e) users = users

module _ {W : Type 0} (accounts : UserService W) where
  -- The users after a call: a login or a registration that passes the checks of its handler asks the
  -- user service.
  abbrev pub admitted : Call → W → List String → List String
  admitted (login req) w users =
      if req.username == ""
      then users
      else if req.password == ""
      then users
      else grant
          (accounts.authenticate (record { username = req.username; password = req.password }) w).0
          users
  admitted (register req) w users =
      if req.full_name == ""
      then users
      else if req.username == ""
      then users
      else if req.password == ""
      then users
      else grant
          (accounts.register
            (record { full_name = req.full_name; username = req.username; password = req.password })
            w).0
          users
  admitted _ w users = users

module _ (clock : Rfc3339) {W : Type 0} (client : RedisClient W) (around : Surroundings W) where
  abbrev pub program : Services W
  program = record {
    clock = clock;
    parse_date = around.parse_date;
    sessions = session_service clock client around.host around.ttl;
    accounts = around.accounts;
    events = around.events;
    reviews = around.reviews;
    recommendations = around.recommendations;
    session_ttl_seconds = around.ttl;
  }

  module _ (laws : RedisLaws client) where
    -- Keys lapse: a session is as it was, or is gone.
    abbrev pub Lapses : W → W → Type 0
    Lapses w w' =
        (sid : String)
        → ((f : String) → laws.hash w' (session_key sid) f ≡ laws.hash w (session_key sid) f)
          ⊎ (laws.hash w' (session_key sid) created_at_field ≡ none)

    pub data Step : State W → State W → Type 0 where
      served :
          (m : State W) (call : Call) (cookie : Opt String)
          → Step m (record {
            world = (handle program call cookie m.world).1;
            granted = admitted around.accounts call m.world m.granted;
          })
      lapsed :
          (m : State W) (w : W)
          → Lapses m.world w
          → Step m (record { world = w; granted = m.granted })

    pub data Reach (start : State W) : State W → Type 0 where
      here : Reach start start
      next : {m n : State W} → Reach start m → Step m n → Reach start n

    -- A session may have no user, or one that was granted.
    abbrev pub Granted : List String → String → Type 0
    Granted users user_id = (user_id ≡ "") ⊎ In user_id users

    -- The action leaves the keys of sessions alone.
    abbrev pub Leaves : {A : Type 0} → Exec Err W A → Type 0
    Leaves m =
        (w : W) (sid f : String)
        → laws.hash (m w).1 (session_key sid) f ≡ laws.hash w (session_key sid) f

  -- The services that the storage of sessions does not serve leave its keys alone.
  pub record Aside (laws : RedisLaws client) : Type 0 where
    pub register : (req : Service.RegisterReq) → Leaves laws (around.accounts.register req)
    pub authenticate :
        (req : Service.AuthenticateReq) → Leaves laws (around.accounts.authenticate req)
    pub get_users : (req : Service.GetUsersReq) → Leaves laws (around.accounts.get_users req)
    pub get_user : (id : String) → Leaves laws (around.accounts.get_user id)
    pub create_event : (req : Service.CreateEventReq) → Leaves laws (around.events.create_event req)
    pub get_events : (req : Service.GetEventsReq) → Leaves laws (around.events.get_events req)
    pub get_event : (req : Service.GetEventReq) → Leaves laws (around.events.get_event req)
    pub patch_event : (req : Service.PatchEventReq) → Leaves laws (around.events.patch_event req)
    pub like_event : (req : Service.ReactEventReq) → Leaves laws (around.events.like_event req)
    pub dislike_event :
        (req : Service.ReactEventReq) → Leaves laws (around.events.dislike_event req)
    pub create_review :
        (req : Service.CreateReviewReq) → Leaves laws (around.reviews.create_review req)
    pub get_reviews : (req : Service.GetReviewsReq) → Leaves laws (around.reviews.get_reviews req)
    pub update_review :
        (req : Service.UpdateReviewReq) → Leaves laws (around.reviews.update_review req)
    pub get_recommendations :
        (user_id : String) → Leaves laws (around.recommendations.get_recommendations user_id)
