-- ===== src/App/Extension.antt =====
-- What CreateOrExtendSession of internal/service/session.go, and a visit of APISession of
-- internal/router/handler.go, do to a session that is there.
use ndbx.Prelude.{ℕ, String, ◌≡◌, ◌≢◌, some, inl, inr, arith, eq_iff, false}
use ndbx.Errors.{Err}
use ndbx.Exec.{ok, err, Result-cases}
use ndbx.GoTime.{Time, Rfc3339, Host, utc, seconds}
use ndbx.Cryptic.{must_sid}
use ndbx.Redis.{RedisClient, RedisLaws}
use ndbx.Redis.Session.{
  SetOrUpdateReq, SetOrUpdateResp, created_at_field, session_key, set_or_update,
}
use ndbx.Redis.Session.RoundTrip.{InYears, stored}
use ndbx.Redis.Session.Update.{extended, set_or_update-present}
use ndbx.Service.{CreateOrExtendSessionReq, CreateOrExtendSessionResp}
use ndbx.Service.Session.{get_session, create_or_extend_session}
use ndbx.Router.{Opt, session_ok, UserService}
use ndbx.Router.Cookie.{extract_sid}
use ndbx.Router.Sessions.{api_session}
use ndbx.App.{session_storage, session_service}
use ndbx.App.Login.{Finds, get_session-Finds}

module _ (clock : Rfc3339) {W : Type 0} (client : RedisClient W) (laws : RedisLaws client)
    (host : Host W) (ttl : ℕ) where
  -- The key of the sid holds a creation time that can be read.
  abbrev pub IsLive : String → Time → W → Type 0
  IsLive sid t w =
      (raw : String) × (laws.hash w (session_key sid) created_at_field ≡ some raw)
      × (clock.parse raw ≡ some t)

  -- What CreateOrExtendSession draws: a sid, then the time.
  abbrev pub drawn : W → W
  drawn w = (host.now (must_sid host w).1).1

  abbrev pub clock_time : W → Time
  clock_time w = utc (host.now (must_sid host w).1).0

  abbrev pub update_req : CreateOrExtendSessionReq → W → SetOrUpdateReq
  update_req req w = record {
    sid = req.sid;
    new_sid = (must_sid host w).0;
    new_value = record {
      created_at = clock_time w;
      updated_at = clock_time w;
      user_id = req.user_id;
    };
    ttl = seconds ttl;
  }

  extend_runs :
      (req : CreateOrExtendSessionReq) (w : W) (resp : CreateOrExtendSessionResp)
      → (create_or_extend_session host (session_storage clock client) ttl req w).0 ≡ ok resp
      → (r : SetOrUpdateResp) × ((set_or_update clock client (update_req req w) (drawn w)).0 ≡ ok r)
        × (resp ≡ record { sid = r.sid; ttl = seconds ttl; is_created = r.is_created })
        × ((create_or_extend_session host (session_storage clock client) ttl req w).1
            ≡ (set_or_update clock client (update_req req w) (drawn w)).1)
  unfolding create_or_extend_session
  extend_runs req w resp done =
      elim (Result-cases (set_or_update clock client (update_req req w) (drawn w)).0) [
        | inl (r, did) ↦ (r, did, ground arith, ground arith)
        | inr (e, failed) ↦ ground arith
      ]

  module _ (in_years : (w : W) → InYears (host.now w).0)
      (host_keeps : (w : W) (k f : String) → laws.hash (drawn w) k f ≡ laws.hash w k f) where
    -- When CreateOrExtendSession succeeds for a sid whose session was created at a time, it answers
    -- with that sid, as not created; GetSession then gives the session with its creation time, the
    -- present time as its update time and the user of the request, or an error of the storage.
    -- Years have four digits, and reading the clock and the random source changes nothing in Redis.
    pub create_or_extend_session-get_session :
        (req : CreateOrExtendSessionReq) (t : Time) (w : W) (resp : CreateOrExtendSessionResp)
        → InYears t
        → IsLive req.sid t w
        → (create_or_extend_session host (session_storage clock client) ttl req w).0 ≡ ok resp
        → (resp ≡ record { sid = req.sid; ttl = seconds ttl; is_created = false })
          × Finds
              (get_session host
                (session_storage clock client)
                ttl
                req.sid
                (create_or_extend_session host (session_storage clock client) ttl req w).1).0
              (stored (extended t (update_req req w)))
    create_or_extend_session-get_session req t w resp year (raw, there, read) done =
        let (r, did, answer, world) = extend_runs req w resp done in
        let there' : laws.hash (drawn w) (session_key req.sid) created_at_field ≡ some raw =
          rw host_keeps there in
        let (same, finds) =
          set_or_update-present clock client laws (update_req req w) (drawn w) r raw t
            (year, in_years (must_sid host w).1) there' read did in
        (
          cc (answer, same),
          rw world (
              get_session-Finds clock client host ttl req.sid
                (stored (extended t (update_req req w))) _ finds),
        )

    api_session-world :
        (accounts : UserService W) (cookie : Opt String) (w : W)
        → extract_sid cookie.value ≢ ""
        → (api_session (session_service clock client host ttl) accounts ttl cookie w).1
          ≡ (create_or_extend_session host
              (session_storage clock client)
              ttl
              (record { sid = extract_sid cookie.value; user_id = "" })
              w).1
    unfolding api_session
    api_session-world accounts cookie w sent = ground (arith, eq_iff (extract_sid cookie.value) "")

    api_session-fails :
        (accounts : UserService W) (cookie : Opt String) (w : W) (set_cookie : String) (e : Err)
        → extract_sid cookie.value ≢ ""
        → (create_or_extend_session host
            (session_storage clock client)
            ttl
            (record { sid = extract_sid cookie.value; user_id = "" })
            w).0
          ≡ err e
        → (api_session (session_service clock client host ttl) accounts ttl cookie w).0
          ≡ session_ok set_cookie
        → ⊥
    unfolding api_session
    api_session-fails accounts cookie w set_cookie e sent failed done =
        ground (arith, eq_iff (extract_sid cookie.value) "")

    -- A visit of APISession with the cookie of a session that is there, when it succeeds, leaves
    -- the session without a user: GetSession gives it with an empty user id, or an error of the
    -- storage. Years have four digits, and reading the clock and the random source changes nothing
    -- in Redis.
    pub api_session-drops_user :
        (accounts : UserService W) (cookie : Opt String) (t : Time) (w : W) (set_cookie : String)
        → extract_sid cookie.value ≢ ""
        → InYears t
        → IsLive (extract_sid cookie.value) t w
        → (api_session (session_service clock client host ttl) accounts ttl cookie w).0
          ≡ session_ok set_cookie
        → Finds
            (get_session host
              (session_storage clock client)
              ttl
              (extract_sid cookie.value)
              (api_session (session_service clock client host ttl) accounts ttl cookie w).1).0
            (stored (record { created_at = t; updated_at = clock_time w; user_id = "" }))
    api_session-drops_user accounts cookie t w set_cookie sent year live done =
        let sid = extract_sid cookie.value in
        let req : CreateOrExtendSessionReq = record { sid = sid; user_id = "" } in
        elim (Result-cases
          (create_or_extend_session host (session_storage clock client) ttl req w).0) [
            | inr (e, failed) ↦
                absurd (api_session-fails accounts cookie w set_cookie e sent failed done)
            | inl (resp, extended_ok) ↦
                rw (api_session-world accounts cookie w sent)
                  ((create_or_extend_session-get_session req t w resp year live extended_ok).1)
          ]
