-- ===== src/App/Logout.antt =====
-- What APILogout of internal/router/handler.go leaves of a session, over the service and the
-- storage.
use ndbx.Prelude.{ℕ, String, ◌≡◌, ◌≢◌, ◌⊎◌, inl, inr, ◌==◌, eq_iff, arith, Bool-cases}
use ndbx.Errors.{Err, wrap, sentinel, redis_nil, not_found, is}
use ndbx.Exec.{Result, Result-cases, ok, err}
use ndbx.GoTime.{Rfc3339, Host}
use ndbx.Redis.{RedisClient, RedisLaws, Answers}
use ndbx.Redis.Session
use ndbx.Redis.Session.{SessionValue, get}
use ndbx.Redis.Session.RoundTrip.{get-delete}
use ndbx.Service.Session.{get_session, delete_session}
use ndbx.Router.{Opt, UserService, logout_no_content}
use ndbx.Router.Cookie.{extract_sid, form_set_cookie}
use ndbx.Router.Sessions.{api_logout}
use ndbx.App.{session_storage, session_service}

-- What GetSession gives for a session that is not there: ErrNotFound, or an error of the storage.
abbrev pub Misses : Result Err SessionValue → Type 0
Misses got = (got ≡ err (sentinel not_found)) ⊎ ((e : Err) × (got ≡ err (wrap "get session" e)))

module _ (clock : Rfc3339) {W : Type 0} (client : RedisClient W) (laws : RedisLaws client)
    (host : Host W) (ttl : ℕ) (accounts : UserService W) (cookie : Opt String) (w : W) where
  abbrev deleted : Result Err (Unit {0}) × W
  deleted = Session.delete clock client (extract_sid cookie.value) w

  logout_runs :
      (set_cookie : String)
      → (api_logout (session_service clock client host ttl) accounts ttl cookie w).0
        ≡ logout_no_content set_cookie
      → (extract_sid cookie.value ≢ "")
        × (set_cookie ≡ form_set_cookie (extract_sid cookie.value) 0)
        × (deleted.0 ≡ ok tt)
        × ((api_logout (session_service clock client host ttl) accounts ttl cookie w).1 ≡ deleted.1)
  unfolding api_logout delete_session
  logout_runs set_cookie done = elim (Bool-cases (extract_sid cookie.value == "")) [
    | inl none_sent ↦ ground arith
    | inr sent ↦ elim (Result-cases deleted.0) [
      | inr (e, failed) ↦ ground arith
      | inl (_, did) ↦
          (ground (arith, eq_iff (extract_sid cookie.value) ""), ground arith, did, ground arith)
    ]
  ]

  get_session-Misses :
      (sid : String) (v : W)
      → Answers (get clock client sid v).0 (err (sentinel redis_nil))
      → Misses (get_session host (session_storage clock client) ttl sid v).0
  unfolding get_session is
  get_session-Misses sid v (inl gone) = inl (ground arith)
  get_session-Misses sid v (inr (e, failed, other)) = inr (e, ground arith)

  -- A logout that is answered with no content came with a session id, tells the client to drop the
  -- cookie at once, and has deleted the session: GetSession of the id then gives ErrNotFound, or an
  -- error of the storage.
  pub api_logout-get_session :
      (set_cookie : String)
      → (api_logout (session_service clock client host ttl) accounts ttl cookie w).0
        ≡ logout_no_content set_cookie
      → (extract_sid cookie.value ≢ "")
        × (set_cookie ≡ form_set_cookie (extract_sid cookie.value) 0)
        × Misses
            (get_session host
              (session_storage clock client)
              ttl
              (extract_sid cookie.value)
              (api_logout (session_service clock client host ttl) accounts ttl cookie w).1).0
  api_logout-get_session set_cookie done =
      let (sent, dropped, did, world) = logout_runs set_cookie done in
      (
        sent,
        dropped,
        rw world (
            get_session-Misses (extract_sid cookie.value) deleted.1
              (get-delete clock client laws (extract_sid cookie.value) w did)),
      )
