-- ===== src/Router/Sessions.antt =====
-- APIHealth, APISession, APIRegister, APILogin and APILogout of internal/router/handler.go
use ndbx.Prelude.{ℕ, String, ◌==◌, if◌then◌else◌}
use ndbx.Errors.{Err, is, user_already_exists, invalid_credentials}
use ndbx.Exec.{Exec, pure, map_err, ◌>>=◌, ◌>>◌}
use ndbx.GoTime.{to_seconds}
use ndbx.HttpServer.{not_empty}
use ndbx.Router.{
  Opt, Response, health, session_created, session_ok, register_created, login_no_content,
  logout_no_content, logout_unauthorized, new_internal_error, new_conflict_error,
  new_invalid_credentials_error, SessionService, UserService, Handler, answering, valid,
}
use ndbx.Router.Cookie.{extract_sid, form_set_cookie}

pub record UserRegisterRequest : Type 0 where
  pub full_name : String
  pub username : String
  pub password : String

pub record LoginRequest : Type 0 where
  pub username : String
  pub password : String

abbrev pub internal : Err → Response
internal e = new_internal_error

module _ {W : Type 0} (sessions : SessionService W) (accounts : UserService W)
    (session_ttl_seconds : ℕ) where
  unfoldable pub api_health : Opt String → Handler W
  api_health cookie w = (
    health
        (record {
          value = form_set_cookie (extract_sid cookie.value) session_ttl_seconds;
          set = cookie.set;
        })
        "ok",
    w,
  )

  unfoldable pub api_session : Opt String → Handler W
  api_session cookie =
      let sid = extract_sid cookie.value in
      answering (
        if sid == ""
        then (do
          session ← map_err internal (sessions.create_session "")
          pure (session_created (form_set_cookie session.sid (to_seconds session.ttl))))
        else (do
          session ←
              map_err internal
                (sessions.create_or_extend_session (record { sid = sid; user_id = "" }))
          let set_cookie = form_set_cookie session.sid (to_seconds session.ttl)
          pure (if session.is_created then session_created set_cookie else session_ok set_cookie)))

  -- A new session for a user who came without one.
  unfoldable pub session_for : String → String → Exec Response W String
  session_for sid user_id =
      if sid == ""
      then (do
        session ← map_err internal (sessions.create_session user_id)
        pure (form_set_cookie session.sid session_ttl_seconds))
      else pure (form_set_cookie sid session_ttl_seconds)

  unfoldable pub api_register : UserRegisterRequest → Opt String → Handler W
  api_register req cookie =
      let sid = extract_sid cookie.value in
      let set_cookie = form_set_cookie sid session_ttl_seconds in
      answering (do
        valid set_cookie (not_empty "full_name" req.full_name)
        valid set_cookie (not_empty "username" req.username)
        valid set_cookie (not_empty "password" req.password)
        user_id ←
            map_err
              (λ e.
                if is e user_already_exists
                then new_conflict_error set_cookie "user already exists"
                else new_internal_error)
              (accounts.register (record {
                full_name = req.full_name;
                username = req.username;
                password = req.password;
              }))
        cookie' ← session_for sid user_id
        pure (register_created cookie'))

  -- The session after a login: a new one, or the one of the cookie, which gets the user.
  unfoldable pub login_session : String → String → Exec Response W String
  login_session sid user_id =
      if sid == ""
      then (do
        session ← map_err internal (sessions.create_session user_id)
        pure (form_set_cookie session.sid session_ttl_seconds))
      else (do
        session ←
            map_err internal
              (sessions.create_or_extend_session (record { sid = sid; user_id = user_id }))
        pure (form_set_cookie session.sid session_ttl_seconds))

  unfoldable pub api_login : LoginRequest → Opt String → Handler W
  api_login req cookie =
      let sid = extract_sid cookie.value in
      let refused = new_invalid_credentials_error (form_set_cookie sid session_ttl_seconds) in
      answering (do
        map_err (λ _. refused) (λ w. (not_empty "username" req.username, w))
        map_err (λ _. refused) (λ w. (not_empty "password" req.password, w))
        user_id ←
            map_err (λ e. if is e invalid_credentials then refused else new_internal_error)
              (accounts.authenticate (record { username = req.username; password = req.password }))
        cookie' ← login_session sid user_id
        pure (login_no_content cookie'))

  unfoldable pub api_logout : Opt String → Handler W
  api_logout cookie =
      let sid = extract_sid cookie.value in
      answering (
        if sid == ""
        then pure (logout_unauthorized (form_set_cookie sid session_ttl_seconds))
        else (do
          map_err internal (sessions.delete_session sid)
          pure (logout_no_content (form_set_cookie sid 0))))
