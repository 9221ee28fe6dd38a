-- ===== src/Router/Reactions.antt =====
-- APILikeEvent and APIDislikeEvent of internal/router/handler.go
use ndbx.Prelude.{ℕ, String, if◌then◌else◌}
use ndbx.Errors.{Err, is, not_found}
use ndbx.Exec.{Exec, pure, fail, map_err, ◌>>=◌, ◌>>◌}
use ndbx.Service
use ndbx.Router.{
  Opt, Response, like_event_unauthorized, dislike_event_unauthorized, like_event_no_content,
  dislike_event_no_content, new_internal_error, new_not_found_error, SessionService, EventService,
  Handler, answering,
}
use ndbx.Router.Cookie.{extract_sid}
use ndbx.Router.Auth.{validate_reaction_session, extend_session}

module _ {W : Type 0} (sessions : SessionService W) (service : EventService W)
    (session_ttl_seconds : ℕ) where
  -- The two handlers differ in the service's operation and in their answers.
  unfoldable pub react :
      (Service.ReactEventReq → Exec Err W (Unit {0}))
      → Response
      → (String → Response)
      → String
      → Opt String
      → Handler W
  react operation unauthorized no_content id cookie = answering (do
    state ← validate_reaction_session sessions session_ttl_seconds (extract_sid cookie.value)
    if state.authorized
        then (do
          map_err
              (λ e.
                if is e not_found
                then new_not_found_error state.set_cookie "event not found"
                else new_internal_error)
              (operation (record { id = id; user_id = state.user_id }))
          extend_session sessions state.sid state.user_id
          pure (no_content state.set_cookie))
        else fail unauthorized)

  unfoldable pub api_like_event : String → Opt String → Handler W
  api_like_event id cookie =
      react service.like_event like_event_unauthorized like_event_no_content id cookie

  unfoldable pub api_dislike_event : String → Opt String → Handler W
  api_dislike_event id cookie =
      react service.dislike_event dislike_event_unauthorized dislike_event_no_content id cookie
