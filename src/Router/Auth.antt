-- ===== src/Router/Auth.antt =====
-- How the handlers of internal/router/handler.go find the user of a request: the lines that five
-- handlers share, validateReactionSession and extendSession.
use ndbx.Prelude.{ℕ, String, Bool, true, false, ◌==◌, if◌then◌else◌}
use ndbx.Errors.{is, not_found}
use ndbx.Exec.{Exec, pure, fail, attempt, map_err, logged, ◌>>=◌}
use ndbx.Router.{Response, SessionService, new_internal_error}
use ndbx.Router.Cookie.{form_set_cookie}

pub record ReactionSessionState : Type 0 where
  pub sid : String
  pub user_id : String
  pub set_cookie : String
  pub authorized : Bool

module _ {W : Type 0} (sessions : SessionService W) where
  -- GetSession, its errors, and the test that the session has a user. `unauthorized` is the
  -- handler's answer to a request without a user.
  unfoldable pub session_user : Response → String → Exec Response W String
  session_user unauthorized sid = do
    session ←
        map_err (λ e. if is e not_found then unauthorized else new_internal_error)
          (sessions.get_session sid)
    if session.user_id == "" then fail unauthorized else pure session.user_id

  -- With the test for a cookie in front.
  unfoldable pub authorized_user : Response → String → Exec Response W String
  authorized_user unauthorized sid =
      if sid == "" then fail unauthorized else session_user unauthorized sid

  unfoldable pub validate_reaction_session : ℕ → String → Exec Response W ReactionSessionState
  validate_reaction_session session_ttl_seconds sid =
      let set_cookie = form_set_cookie sid session_ttl_seconds in
      let anonymous : ReactionSessionState = record {
        sid = sid;
        user_id = "";
        set_cookie = set_cookie;
        authorized = false;
      } in
      if sid == ""
      then pure anonymous
      else attempt (sessions.get_session sid)
          (λ e. if is e not_found then pure anonymous else fail new_internal_error)
          λ session.
            if session.user_id == ""
            then pure anonymous
            else pure (record {
              sid = sid;
              user_id = session.user_id;
              set_cookie = set_cookie;
              authorized = true;
            })

  -- A failure is only logged.
  unfoldable pub extend_session : String → String → Exec Response W (Unit {0})
  extend_session sid user_id =
      logged (sessions.create_or_extend_session (record { sid = sid; user_id = user_id }))
