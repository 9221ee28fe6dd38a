-- ===== src/Router/Calls/Keeping.antt =====
-- What the handlers of internal/router/handler.go do with sessions, whatever services they stand on:
-- a handler gives a session no other user than the one that the session has, none, or the one that
-- logs in or registers.
use ndbx.Prelude.{ℕ, String, ◌==◌}
use ndbx.Errors.{Err, is, not_found}
use ndbx.Exec.{Exec}
use ndbx.Exec.Keeps.{
  Keeps, Anything, pure-Keeps, fail-Keeps, if-Keeps, bind-Keeps, attempt-Keeps, map_err-Keeps,
  logged-Keeps,
}
use ndbx.Service
use ndbx.Router.{Opt, Response, SessionService, EventService, answering}
use ndbx.Router.Cookie.{extract_sid}
use ndbx.Router.Reactions.{react}
use ndbx.Router.Auth.{session_user, authorized_user, validate_reaction_session, extend_session}

-- The services keep `I`; `Fair` are the users that a session may have.
pub record KeepsSessions {W : Type 0} (sessions : SessionService W) (I : W → Type 0)
    (Fair : String → Type 0) : Type 0 where
  pub nobody : Fair ""
  pub get : (sid : String) → Keeps I (sessions.get_session sid) (λ v. Fair v.user_id)
  pub create :
      (user_id : String) → Fair user_id → Keeps I (sessions.create_session user_id) (Anything I)
  pub extend :
      (sid user_id : String)
      → Fair user_id
      → Keeps I
          (sessions.create_or_extend_session (record { sid = sid; user_id = user_id }))
          (Anything I)
  pub delete : (sid : String) → Keeps I (sessions.delete_session sid) (Anything I)

module _ {W : Type 0} (sessions : SessionService W) (I : W → Type 0) (Fair : String → Type 0)
    (k : KeepsSessions sessions I Fair) where
  pub answering-keeps :
      (Q : Response → Type 0) (body : Exec Response W Response)
      → Keeps I body Q
      → (w : W) → I w
      → I (answering body w).1
  answering-keeps Q body keeps w i = (keeps w i).0

  pub session_user-Keeps :
      (unauthorized : Response) (sid : String)
      → Keeps I (session_user sessions unauthorized sid) Fair
  unfolding session_user
  session_user-Keeps unauthorized sid =
      bind-Keeps I (λ v. Fair v.user_id) Fair _ _
        (map_err-Keeps I (λ v. Fair v.user_id) _ _ (k.get sid))
        λ v fair.
          if-Keeps I Fair (v.user_id == "") _ _ (λ t. fail-Keeps I Fair unauthorized)
            (λ t. pure-Keeps I Fair v.user_id fair)

  pub authorized_user-Keeps :
      (unauthorized : Response) (sid : String)
      → Keeps I (authorized_user sessions unauthorized sid) Fair
  unfolding authorized_user
  authorized_user-Keeps unauthorized sid =
      if-Keeps I Fair (sid == "") _ _ (λ t. fail-Keeps I Fair unauthorized)
        (λ t. session_user-Keeps unauthorized sid)

  pub extend_session-Keeps :
      (sid user_id : String)
      → Fair user_id
      → Keeps I (extend_session sessions sid user_id) (Anything I)
  unfolding extend_session
  extend_session-Keeps sid user_id fair = logged-Keeps I (Anything I) _ (k.extend sid user_id fair)

  pub validate_reaction_session-Keeps :
      (ttl : ℕ) (sid : String)
      → Keeps I (validate_reaction_session sessions ttl sid) (λ s. Fair s.user_id)
  unfolding validate_reaction_session
  validate_reaction_session-Keeps ttl sid =
      if-Keeps I (λ s. Fair s.user_id) (sid == "") _ _
        (λ t. pure-Keeps I (λ s. Fair s.user_id) _ k.nobody)
        λ t.
          attempt-Keeps I (λ v. Fair v.user_id) (λ s. Fair s.user_id) _ _ _ (k.get sid)
            (λ e.
              if-Keeps I (λ s. Fair s.user_id) (is e not_found) _ _
                (λ t. pure-Keeps I (λ s. Fair s.user_id) _ k.nobody)
                (λ t. fail-Keeps I (λ s. Fair s.user_id) _))
            λ v fair.
              if-Keeps I (λ s. Fair s.user_id) (v.user_id == "") _ _
                (λ t. pure-Keeps I (λ s. Fair s.user_id) _ k.nobody)
                (λ t. pure-Keeps I (λ s. Fair s.user_id) _ fair)

  pub react-keeps :
      (operation : Service.ReactEventReq → Exec Err W (Unit {0})) (ttl : ℕ)
      (unauthorized : Response) (no_content : String → Response) (id : String) (cookie : Opt String)
      → ((req : Service.ReactEventReq) → Keeps I (operation req) (Anything I))
      → (events : EventService W) (w : W) → I w
      → I (react sessions events ttl operation unauthorized no_content id cookie w).1
  unfolding react
  react-keeps operation ttl unauthorized no_content id cookie runs events =
      answering-keeps (Anything I) _ (
        bind-Keeps I (λ s. Fair s.user_id) (Anything I) _ _
          (validate_reaction_session-Keeps ttl (extract_sid cookie.value))
          λ s fair.
            if-Keeps I (Anything I) s.authorized _ _
              (λ t.
                bind-Keeps I (Anything I) (Anything I) _ _
                  (map_err-Keeps I (Anything I) _ _ (runs _))
                  λ _ _.
                    bind-Keeps I (Anything I) (Anything I) _ _
                      (extend_session-Keeps s.sid s.user_id fair)
                      λ _ _. pure-Keeps I (Anything I) _ tt)
              (λ t. fail-Keeps I (Anything I) unauthorized))
