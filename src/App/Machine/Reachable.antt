-- ===== src/App/Machine/Reachable.antt =====
-- What holds of the sessions in every state that the running program reaches.
use ndbx.Prelude.{String, List, ◌≡◌, ◌⊎◌, inl, inr, none, arith}
use ndbx.Errors.{Err, sentinel, wrap, not_found, is}
use ndbx.Exec.{Result, Exec, ok, err}
use ndbx.Exec.Keeps.{Keeps, Anything}
use ndbx.GoTime.{Rfc3339}
use ndbx.Redis.{RedisClient, RedisLaws}
use ndbx.Redis.Session.{SessionValue, created_at_field, session_key, get}
use ndbx.Service.Session.{get_session}
use ndbx.Router.{Opt}
use ndbx.Router.Calls.{
  Call, create_event, create_event_review, dislike_event, like_event, get_event, get_event_reviews,
  get_events, get_recommendations, get_user, get_user_events, get_users, health, login, logout,
  patch_event, register, session, update_event_review, handle,
}
use ndbx.Router.Calls.Handling.{KeepsServices, IsEntry, handle-keeps}
use ndbx.App.{session_storage}
use ndbx.App.Machine.{
  Surroundings, State, program, admitted, Granted, Leaves, Aside, Step, served, lapsed, Reach, here,
  next, Lapses,
}
use ndbx.App.Machine.Storage.{WholeCommands, vacant, same-Seat}
use ndbx.App.Machine.Reading.{Tells, get-Tells}
use ndbx.App.Machine.Sessions.{HostLaws}
use ndbx.App.Machine.Entries.{SoundFor, Leaves-SoundFor, keeps, login-SoundFor, register-SoundFor}

module _ (clock : Rfc3339) {W : Type 0} (client : RedisClient W) (around : Surroundings W)
    (laws : RedisLaws client) (whole : WholeCommands client laws)
    (quiet : HostLaws around.host client laws) (aside : Aside clock client around laws) where
  abbrev I : List String → W → Type 0
  I users = SoundFor clock client around laws whole quiet aside users

  leaves :
      {A : Type 0} (users : List String) (m : Exec Err W A)
      → Leaves clock client around laws m
      → Keeps (I users) m (Anything (I users))
  leaves users m same w sound = (
    Leaves-SoundFor clock client around laws whole quiet aside users w _ (same w) sound,
    λ a e. tt,
  )

  services : (users : List String) → KeepsServices (program clock client around) (I users)
  services users = record {
    get_users = λ req. leaves users _ (aside.get_users req);
    get_user = λ id. leaves users _ (aside.get_user id);
    create_event = λ req. leaves users _ (aside.create_event req);
    get_events = λ req. leaves users _ (aside.get_events req);
    get_event = λ req. leaves users _ (aside.get_event req);
    patch_event = λ req. leaves users _ (aside.patch_event req);
    like_event = λ req. leaves users _ (aside.like_event req);
    dislike_event = λ req. leaves users _ (aside.dislike_event req);
    create_review = λ req. leaves users _ (aside.create_review req);
    get_reviews = λ req. leaves users _ (aside.get_reviews req);
    update_review = λ req. leaves users _ (aside.update_review req);
    get_recommendations = λ u. leaves users _ (aside.get_recommendations u);
  }

  others :
      (users : List String) (call : Call) (cookie : Opt String) (w : W)
      → ¬ IsEntry call
      → I users w
      → I users (handle (program clock client around) call cookie w).1
  others users call cookie w other =
      handle-keeps (program clock client around) (I users) (Granted clock client around laws users)
        (keeps clock client around laws whole quiet aside users) (services users) call other cookie
        w

  served-SoundFor :
      (users : List String) (call : Call) (cookie : Opt String) (w : W)
      → I users w
      → I
          (admitted around.accounts call w users)
          (handle (program clock client around) call cookie w).1
  served-SoundFor users (login req) cookie w =
      login-SoundFor clock client around laws whole quiet aside req cookie users w
  served-SoundFor users (register req) cookie w =
      register-SoundFor clock client around laws whole quiet aside req cookie users w
  served-SoundFor users (create_event req) cookie w =
      others users (create_event req) cookie w (λ e. e)
  served-SoundFor users (create_event_review req id) cookie w =
      others users (create_event_review req id) cookie w (λ e. e)
  served-SoundFor users (dislike_event id) cookie w =
      others users (dislike_event id) cookie w (λ e. e)
  served-SoundFor users (like_event id) cookie w = others users (like_event id) cookie w (λ e. e)
  served-SoundFor users (get_event id include) cookie w =
      others users (get_event id include) cookie w (λ e. e)
  served-SoundFor users (get_event_reviews id limit offset) cookie w =
      others users (get_event_reviews id limit offset) cookie w (λ e. e)
  served-SoundFor users (get_events q) cookie w = others users (get_events q) cookie w (λ e. e)
  served-SoundFor users get_recommendations cookie w =
      others users get_recommendations cookie w (λ e. e)
  served-SoundFor users (get_user id) cookie w = others users (get_user id) cookie w (λ e. e)
  served-SoundFor users (get_user_events id q) cookie w =
      others users (get_user_events id q) cookie w (λ e. e)
  served-SoundFor users (get_users q) cookie w = others users (get_users q) cookie w (λ e. e)
  served-SoundFor users health cookie w = others users health cookie w (λ e. e)
  served-SoundFor users logout cookie w = others users logout cookie w (λ e. e)
  served-SoundFor users (patch_event req id) cookie w =
      others users (patch_event req id) cookie w (λ e. e)
  served-SoundFor users session cookie w = others users session cookie w (λ e. e)
  served-SoundFor users (update_event_review req id review_id) cookie w =
      others users (update_event_review req id review_id) cookie w (λ e. e)

  lapsed-SoundFor :
      (users : List String) (w w' : W)
      → Lapses clock client around laws w w'
      → I users w
      → I users w'
  lapsed-SoundFor users w w' lapse sound sid = elim (lapse sid) [
    | inl same ↦ same-Seat clock client laws _ w w' sid same (sound sid)
    | inr gone ↦ vacant gone
  ]

  Step-SoundFor :
      {m n : State W}
      → Step clock client around laws m n
      → I m.granted m.world
      → I n.granted n.world
  Step-SoundFor (served m call cookie) sound = served-SoundFor m.granted call cookie m.world sound
  Step-SoundFor (lapsed m w lapse) sound = lapsed-SoundFor m.granted m.world w lapse sound

  Reach-SoundFor :
      {start n : State W}
      → I start.granted start.world
      → Reach clock client around laws start n
      → I n.granted n.world
  Reach-SoundFor sound here = sound
  Reach-SoundFor sound (next run step) = Step-SoundFor step (Reach-SoundFor sound run)

  -- No key holds a session.
  abbrev pub IsFresh : W → Type 0
  IsFresh w = (sid : String) → laws.hash w (session_key sid) created_at_field ≡ none

  pub reached :
      {start n : State W}
      → IsFresh start.world
      → Reach clock client around laws start n
      → I n.granted n.world
  reached fresh run = Reach-SoundFor (λ sid. vacant (fresh sid)) run

  -- What GetSession tells in a state: a session whose user is granted, or nobody; ErrNotFound; or a
  -- failure of HMGET.
  abbrev pub TellsGranted : List String → Result Err SessionValue → Type 0
  TellsGranted users got =
      ((v : SessionValue) × (got ≡ ok v) × Granted clock client around laws users v.user_id)
      ⊎ (got ≡ err (sentinel not_found))
      ⊎ ((e : Err) × (got ≡ err (wrap "get session" (wrap "hmget" e))))

  told :
      (users : List String) (sid : String) (w : W)
      → Tells clock client laws sid w
          (Granted clock client around laws users)
          (get clock client sid w).0
      → TellsGranted users
          (get_session around.host (session_storage clock client) around.ttl sid w).0
  unfolding get_session is
  told users sid w (inl (v, got, fair)) = inl (v, ground arith, fair)
  told users sid w (inr (inl gone)) = inr (inl (ground arith))
  told users sid w (inr (inr (e, failed, other))) = inr (inr (e, ground arith))

  -- In every state that requests, in any number and order, and sessions that lapse lead to from a
  -- Redis without sessions, and for every sid: GetSession gives a session, whose user is empty or one
  -- that Authenticate or Register has answered with; or ErrNotFound; or a failure of HMGET. It never
  -- fails on a session that cannot be read. The other services leave the keys of sessions alone.
  pub Reach-TellsGranted :
      {start n : State W} (sid : String)
      → IsFresh start.world
      → Reach clock client around laws start n
      → TellsGranted n.granted
          (get_session around.host (session_storage clock client) around.ttl sid n.world).0
  Reach-TellsGranted {n} sid fresh run = told n.granted sid n.world (
      get-Tells clock client laws sid n.world (Granted clock client around laws n.granted)
        (reached fresh run sid))
