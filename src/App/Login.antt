-- ===== src/App/Login.antt =====
-- From a new session, or a login, to the request that comes with its cookie:
-- internal/router/handler.go over internal/service/session.go and internal/storage/redis/session.go.
use ndbx.Prelude.{ℕ, String, ◌≡◌, ◌⊎◌, inl, inr, arith, eq_iff}
use ndbx.Errors.{Err, wrap}
use ndbx.Exec.{Result, ok, err, Result-cases}
use ndbx.GoTime.{Rfc3339, Host, utc, seconds}
use ndbx.Cryptic.{must_sid}
use ndbx.Redis.{RedisClient, RedisLaws, Answers}
use ndbx.Redis.Session.{SessionValue, SetReq, get, set}
use ndbx.Redis.Session.RoundTrip.{InYears, stored, set-Answers}
use ndbx.Service.{CreateSessionResp}
use ndbx.Service.Session.{get_session, create_session}
use ndbx.Cryptic.Hex.{IsHex, encode_to_string-IsHex}
use ndbx.HttpServer.{not_empty}
use ndbx.Service.{AuthenticateReq}
use ndbx.Router.{Opt, login_no_content, UserService}
use ndbx.Router.Cookie.{extract_sid, form_set_cookie}
use ndbx.Router.Cookie.RoundTrip.{extract_sid-form_set_cookie}
use ndbx.Router.Sessions.{LoginRequest, login_session, api_login}
use ndbx.App.{session_storage, session_service}

-- What GetSession gives for a session that is there: it, or an error that came from the storage.
abbrev pub Finds : Result Err SessionValue → SessionValue → Type 0
Finds got v = (got ≡ ok v) ⊎ ((e : Err) × (got ≡ err (wrap "get session" e)))

module _ (clock : Rfc3339) {W : Type 0} (client : RedisClient W) (host : Host W) (ttl : ℕ) where
  pub get_session-Finds :
      (sid : String) (v : SessionValue) (w : W)
      → Answers (get clock client sid w).0 (ok v)
      → Finds (get_session host (session_storage clock client) ttl sid w).0 v
  unfolding get_session
  get_session-Finds sid v w (inl got) = inl (ground arith)
  get_session-Finds sid v w (inr (e, got, other)) = inr (e, ground arith)

module _ (clock : Rfc3339) {W : Type 0} (client : RedisClient W) (laws : RedisLaws client)
    (host : Host W) (ttl : ℕ) (in_years : (w : W) → InYears (host.now w).0) where
  must_sid-IsHex : (w : W) → IsHex (must_sid host w).0
  unfolding must_sid
  must_sid-IsHex w = encode_to_string-IsHex (host.rand_read 32 w).0

  -- The session that CreateSession writes.
  abbrev pub new_session : String → W → SessionValue
  new_session user_id w = record {
    created_at = utc (host.now (must_sid host w).1).0;
    updated_at = utc (host.now (must_sid host w).1).0;
    user_id = user_id;
  }

  -- The world and the request with which CreateSession calls Set.
  abbrev before_set : W → W
  before_set w = (host.now (must_sid host w).1).1

  abbrev new_req : String → W → SetReq
  new_req user_id w = record {
    sid = (must_sid host w).0;
    value = new_session user_id w;
    ttl = seconds ttl;
  }

  create_session-sets :
      (user_id : String) (w : W) (resp : CreateSessionResp)
      → (create_session host (session_storage clock client) ttl user_id w).0 ≡ ok resp
      → ((set clock client (new_req user_id w) (before_set w)).0 ≡ ok tt)
        × (resp.sid ≡ (must_sid host w).0)
        × ((create_session host (session_storage clock client) ttl user_id w).1
            ≡ (set clock client (new_req user_id w) (before_set w)).1)
  unfolding create_session
  create_session-sets user_id w resp done =
      elim (Result-cases (set clock client (new_req user_id w) (before_set w)).0) [
        | inl (_, did) ↦ (did, ground arith, ground arith)
        | inr (e, failed) ↦ ground arith
      ]

  -- After a successful CreateSession, GetSession of the sid that it gave returns a session of the
  -- user, created when CreateSession read the clock, or an error of the storage. The clock's years
  -- have four digits.
  create_session-get_session :
      (user_id : String) (w : W) (resp : CreateSessionResp)
      → (create_session host (session_storage clock client) ttl user_id w).0 ≡ ok resp
      → (resp.sid ≡ (must_sid host w).0)
        × Finds
            (get_session host
              (session_storage clock client)
              ttl
              resp.sid
              (create_session host (session_storage clock client) ttl user_id w).1).0
            (stored (new_session user_id w))
  create_session-get_session user_id w resp done =
      let (did, same, world) = create_session-sets user_id w resp done in
      (
        same,
        rw (same, world)
            (get_session-Finds clock client host ttl (must_sid host w).0
              (stored (new_session user_id w)) _
              (set-Answers clock client laws (new_req user_id w) (before_set w)
                (in_years (must_sid host w).1, in_years (must_sid host w).1) did)),
      )

  module _ (accounts : UserService W) (req : LoginRequest) (cookie : Opt String) (w : W) where
    abbrev pub credentials : AuthenticateReq
    credentials = record { username = req.username; password = req.password }

    -- The world after Authenticate.
    abbrev authenticated : W
    authenticated = (accounts.authenticate credentials w).1

    login_runs :
        (set_cookie : String)
        → extract_sid cookie.value ≡ ""
        → (api_login (session_service clock client host ttl) accounts ttl req cookie w).0
          ≡ login_no_content set_cookie
        → (user_id : String) × ((accounts.authenticate credentials w).0 ≡ ok user_id)
          × (resp : CreateSessionResp) × ((create_session host
                (session_storage clock client)
                ttl
                user_id
                authenticated).0
              ≡ ok resp)
          × (set_cookie ≡ form_set_cookie resp.sid ttl)
          × ((api_login (session_service clock client host ttl) accounts ttl req cookie w).1
              ≡ (create_session host (session_storage clock client) ttl user_id authenticated).1)
    unfolding api_login login_session not_empty
    login_runs set_cookie fresh done =
        let empty = (eq_iff (extract_sid cookie.value) "").1 fresh in
        elim (Result-cases (accounts.authenticate credentials w).0) [
          | inr (e, failed) ↦ ground arith
          | inl (user_id, known) ↦
              elim (Result-cases
                (create_session host (session_storage clock client) ttl user_id authenticated).0) [
                  | inr (e, failed) ↦ ground arith
                  | inl (resp, made) ↦
                      (user_id, known, resp, made, ground (arith, empty), ground (arith, empty))
                ]
        ]

    -- The login has authenticated a user, whose session is found with the cookie.
    abbrev pub LogsIn : String → Type 0
    LogsIn set_cookie =
        (user_id : String) × ((accounts.authenticate credentials w).0 ≡ ok user_id)
        × Finds
            (get_session host (session_storage clock client) ttl (extract_sid set_cookie)
              (api_login (session_service clock client host ttl) accounts ttl req cookie w).1).0
            (stored (new_session user_id (accounts.authenticate credentials w).1))

    -- A login without a session cookie that succeeds has authenticated a user, and a request that
    -- comes with the cookie of its answer finds a session of that user, created when the login read
    -- the clock, or an error of the storage. The clock's years have four digits.
    pub api_login-get_session :
        (set_cookie : String)
        → extract_sid cookie.value ≡ ""
        → (api_login (session_service clock client host ttl) accounts ttl req cookie w).0
          ≡ login_no_content set_cookie
        → LogsIn set_cookie
    api_login-get_session set_cookie fresh done =
        let (user_id, known, resp, made, sent, world) = login_runs set_cookie fresh done in
        let (same, finds) = create_session-get_session user_id authenticated resp made in
        let hex : IsHex resp.sid = rw same (must_sid-IsHex authenticated) in
        (user_id, known, rw (sent, (extract_sid-form_set_cookie resp.sid ttl hex).1, world) finds)
