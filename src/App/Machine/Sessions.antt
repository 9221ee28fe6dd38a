-- ===== src/App/Machine/Sessions.antt =====
-- The session service of internal/service/session.go over its Redis storage keeps every session one
-- that can be read, of a user that it may have.
use ndbx.Prelude.{ℕ, String, ◌≡◌, ◌∙◌}
use ndbx.Exec.Keeps.{Keeps, Anything, pure-Keeps, bind-Keeps, map_err-Keeps}
use ndbx.GoTime.{Rfc3339, Host, utc, seconds}
use ndbx.Cryptic.{must_sid}
use ndbx.Redis.{RedisClient, RedisLaws}
use ndbx.Redis.Session.{SessionValue, SetReq, SetOrUpdateReq, session_key, set}
use ndbx.Redis.Session.RoundTrip.{InYears}
use ndbx.Service.Session.{get_session, create_session, create_or_extend_session, delete_session}
use ndbx.Router.Calls.Keeping.{KeepsSessions}
use ndbx.App.{session_storage, session_service}
use ndbx.App.Machine.Storage.{
  WholeCommands, Sound, same-Seat, set_value-Keeps, delete-Keeps, set_or_update-Keeps,
}
use ndbx.App.Machine.Reading.{get-Keeps}

module _ {W : Type 0} (host : Host W) (ttl : ℕ) where
  -- What CreateSession and CreateOrExtendSession draw: a sid, then the time.
  abbrev pub drawn : W → W
  drawn w = (host.now (must_sid host w).1).1

  abbrev pub fresh_session : String → W → SessionValue
  fresh_session user_id w = record {
    created_at = utc (host.now (must_sid host w).1).0;
    updated_at = utc (host.now (must_sid host w).1).0;
    user_id = user_id;
  }

  -- What CreateSession asks Set for, and CreateOrExtendSession SetOrUpdate.
  abbrev pub new_req : String → W → SetReq
  new_req user_id w = record {
    sid = (must_sid host w).0;
    value = fresh_session user_id w;
    ttl = seconds ttl;
  }

  abbrev pub update_req : String → String → W → SetOrUpdateReq
  update_req sid user_id w = record {
    sid = sid;
    new_sid = (must_sid host w).0;
    new_value = fresh_session user_id w;
    ttl = seconds ttl;
  }

-- Reading the clock and the random source changes nothing in Redis, and the clock's years have four
-- digits.
pub record HostLaws {W : Type 0} (host : Host W) (client : RedisClient W) (laws : RedisLaws client)
    : Type 0 where
  pub now_keeps : (w : W) (k f : String) → laws.hash (host.now w).1 k f ≡ laws.hash w k f
  pub rand_keeps :
      (n : ℕ) (w : W) (k f : String) → laws.hash (host.rand_read n w).1 k f ≡ laws.hash w k f
  pub in_years : (w : W) → InYears (host.now w).0

module _ (clock : Rfc3339) {W : Type 0} (client : RedisClient W) (laws : RedisLaws client)
    (whole : WholeCommands client laws) (host : Host W) (quiet : HostLaws host client laws)
    (ttl : ℕ) (Fair : String → Type 0) (nobody : Fair "") where
  abbrev I : W → Type 0
  I = Sound clock client laws Fair

  pub drawn-Sound : (w : W) → I w → I (drawn host ttl w)
  unfolding must_sid
  drawn-Sound w sound sid =
      same-Seat clock client laws Fair w _ sid
        (λ f.
          quiet.now_keeps (host.rand_read 32 w).1 (session_key sid) f
          ∙ quiet.rand_keeps 32 w (session_key sid) f)
        (sound sid)

  create_session-Keeps :
      (user_id : String)
      → Fair user_id
      → Keeps I (create_session host (session_storage clock client) ttl user_id) (Anything I)
  unfolding create_session set
  create_session-Keeps user_id fair w sound =
      let year = quiet.in_years (must_sid host w).1 in
      bind-Keeps I (Anything I) (Anything I) _ _
        (map_err-Keeps I (Anything I) _ _ (
          set_value-Keeps clock client laws Fair whole (new_req host ttl user_id w) (year, year)
            fair))
        (λ _ _. pure-Keeps I (Anything I) _ tt) _ (drawn-Sound w sound)

  create_or_extend_session-Keeps :
      (sid user_id : String)
      → Fair user_id
      → Keeps I
          (create_or_extend_session host
            (session_storage clock client)
            ttl
            (record { sid = sid; user_id = user_id }))
          (Anything I)
  unfolding create_or_extend_session
  create_or_extend_session-Keeps sid user_id fair w sound =
      let year = quiet.in_years (must_sid host w).1 in
      bind-Keeps I (Anything I) (Anything I) _ _
        (map_err-Keeps I (Anything I) _ _ (
          set_or_update-Keeps clock client laws Fair whole (update_req host ttl sid user_id w)
            (year, year) fair))
        (λ _ _. pure-Keeps I (Anything I) _ tt) _ (drawn-Sound w sound)

  pub session_service-keeps : KeepsSessions (session_service clock client host ttl) I Fair
  unfolding get_session delete_session
  session_service-keeps = record {
    nobody = nobody;
    get = λ sid. map_err-Keeps I (λ v. Fair v.user_id) _ _ (get-Keeps clock client laws Fair sid);
    create = create_session-Keeps;
    extend = create_or_extend_session-Keeps;
    delete =
        λ sid. map_err-Keeps I (Anything I) _ _ (delete-Keeps clock client laws Fair whole sid);
  }
