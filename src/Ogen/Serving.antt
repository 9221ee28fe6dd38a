-- ===== src/Ogen/Serving.antt =====
-- How the server serves a request: the handlers of internal/router/ogen/oas_handlers_gen.go, each of
-- which decodes the parameters and the body, calls the operation and encodes its answer. There is no
-- middleware, as in internal/app/app.go; spans, metrics and the raw body are left out.
pub mod Encoding
pub mod Steps
pub mod Answers
pub mod Accounts
pub mod Written
use ndbx.Prelude.{if◌then◌else◌, String, Bool, Option, none, some, List, [], ◌∷◌}
use ndbx.Errors.{is, internal_server_error_response, Err}
use ndbx.Exec.{Result, ok, err}
use ndbx.Router.{Response, Handler}
use ndbx.Router.Calls.{
  Services, create_event, create_event_review, dislike_event, like_event, get_event,
  get_event_reviews, get_events, get_recommendations, get_user, get_user_events, get_users, health,
  login, logout, patch_event, register, session, update_event_review, handle,
}
use ndbx.Ogen.{
  Operation, api_create_event, api_create_event_review, api_dislike_event, api_get_event,
  api_get_event_reviews, api_get_events, api_get_recommendations, api_get_user, api_get_user_events,
  api_get_users, api_health, api_like_event, api_login, api_logout, api_patch_event, api_register,
  api_session, api_update_event_review,
}
use ndbx.Ogen.Params.{
  DecodeParamError, Reader, decode_api_create_event_params, decode_api_create_event_review_params,
  decode_api_dislike_event_params, decode_api_get_event_params, decode_api_get_event_reviews_params,
  decode_api_get_events_params, decode_api_get_recommendations_params, decode_api_get_user_params,
  decode_api_get_user_events_params, decode_api_get_users_params, decode_api_health_params,
  decode_api_like_event_params, decode_api_login_params, decode_api_logout_params,
  decode_api_patch_event_params, decode_api_register_params, decode_api_session_params,
  decode_api_update_event_review_params,
}
use ndbx.Ogen.Bodies.{
  Json, RequestError, RequestBody, decode_api_create_event_request,
  decode_api_create_event_review_request, decode_api_login_request, decode_api_patch_event_request,
  decode_api_register_request, decode_api_update_event_review_request,
}
use ndbx.Ogen.Responses.{
  Reply, encode_api_create_event_response, encode_api_create_event_review_response,
  encode_api_dislike_event_response, encode_api_get_event_response,
  encode_api_get_event_reviews_response, encode_api_get_events_response,
  encode_api_get_recommendations_response, encode_api_get_user_response,
  encode_api_get_user_events_response, encode_api_get_users_response, encode_api_health_response,
  encode_api_like_event_response, encode_api_login_response, encode_api_logout_response,
  encode_api_patch_event_response, encode_api_register_response, encode_api_session_response,
  encode_api_update_event_review_response,
}

-- What the error handler of the server is called with.
pub data Failure : Type 0 where
  decode_params : Operation → DecodeParamError → Failure
  decode_request : Operation → RequestError → Failure
  encode_response : Err → Failure

-- What becomes of a request that is routed to an operation.
pub data Served : Type 0 where
  replied : Reply → Served
  failed : Failure → Served
  -- the error handler is called after the answer was written
  answered_and_failed : Reply → Failure → Served

-- The request as the decoders take it.
pub record Incoming : Type 0 where
  pub reader : Reader
  pub args_escaped : Bool
  pub body : RequestBody

-- The end of a handler: the error handler is not called for ErrInternalServerErrorResponse.
abbrev pub written : Result Err Reply → Served
written (ok reply) = elim reply.returned [
  | none ↦ replied reply
  | some e ↦
      if is e internal_server_error_response
      then replied reply
      else answered_and_failed reply (encode_response e)
]
written (err e) = failed (encode_response e)

module _ {W : Type 0} where
  -- The stages of a handler: an error of one is handed to the error handler.
  abbrev pub with_params :
      {P : Type 0} → Operation → Result DecodeParamError P → (P → W → Served × W) → W → Served × W
  with_params op (ok params) next w = next params w
  with_params op (err e) next w = (failed (decode_params op e), w)

  abbrev pub with_request :
      {R : Type 0} → Operation → Result RequestError R → (R → W → Served × W) → W → Served × W
  with_request op (ok request) next w = next request w
  with_request op (err e) next w = (failed (decode_request op e), w)

  abbrev pub replying : (Response → Result Err Reply) → Handler W → W → Served × W
  replying encode handler w = let (response, w') = handler w in (written (encode response), w')

module _ {W V : Type 0} (s : Services W) (json : Json V)
    (encode_header : String → Result Err String) (r : Incoming) where
  unfoldable pub handle_api_create_event_request : W → Served × W
  handle_api_create_event_request =
      with_params api_create_event (decode_api_create_event_params r.reader) λ cookie.
        with_request api_create_event (decode_api_create_event_request json r.body) λ req.
          replying (encode_api_create_event_response encode_header)
            (handle s (create_event req) cookie)

  unfoldable pub handle_api_create_event_review_request : String → W → Served × W
  handle_api_create_event_review_request arg =
      with_params api_create_event_review
        (decode_api_create_event_review_params r.reader r.args_escaped arg)
        λ (event_id, cookie).
          with_request api_create_event_review (decode_api_create_event_review_request json r.body)
            λ req.
              replying (encode_api_create_event_review_response encode_header)
                (handle s (create_event_review req event_id) cookie)

  unfoldable pub handle_api_dislike_event_request : String → W → Served × W
  handle_api_dislike_event_request arg =
      with_params api_dislike_event (decode_api_dislike_event_params r.reader r.args_escaped arg)
        λ (id, cookie).
          replying (encode_api_dislike_event_response encode_header)
            (handle s (dislike_event id) cookie)

  unfoldable pub handle_api_get_event_request : String → W → Served × W
  handle_api_get_event_request arg =
      with_params api_get_event (decode_api_get_event_params r.reader r.args_escaped arg)
        λ (id, include, cookie).
          replying (encode_api_get_event_response encode_header)
            (handle s (get_event id include) cookie)

  unfoldable pub handle_api_get_event_reviews_request : String → W → Served × W
  handle_api_get_event_reviews_request arg =
      with_params api_get_event_reviews
        (decode_api_get_event_reviews_params r.reader r.args_escaped arg)
        λ (event_id, limit, offset, cookie).
          replying (encode_api_get_event_reviews_response encode_header)
            (handle s (get_event_reviews event_id limit offset) cookie)

  unfoldable pub handle_api_get_events_request : W → Served × W
  handle_api_get_events_request =
      with_params api_get_events (decode_api_get_events_params r.reader) λ (q, cookie).
        replying (encode_api_get_events_response encode_header) (handle s (get_events q) cookie)

  unfoldable pub handle_api_get_recommendations_request : W → Served × W
  handle_api_get_recommendations_request =
      with_params api_get_recommendations (decode_api_get_recommendations_params r.reader) λ cookie.
        replying (encode_api_get_recommendations_response encode_header)
          (handle s get_recommendations cookie)

  unfoldable pub handle_api_get_user_request : String → W → Served × W
  handle_api_get_user_request arg =
      with_params api_get_user (decode_api_get_user_params r.reader r.args_escaped arg)
        λ (id, cookie).
          replying (encode_api_get_user_response encode_header) (handle s (get_user id) cookie)

  unfoldable pub handle_api_get_user_events_request : String → W → Served × W
  handle_api_get_user_events_request arg =
      with_params api_get_user_events
        (decode_api_get_user_events_params r.reader r.args_escaped arg)
        λ (id, q, cookie).
          replying (encode_api_get_user_events_response encode_header)
            (handle s (get_user_events id q) cookie)

  unfoldable pub handle_api_get_users_request : W → Served × W
  handle_api_get_users_request =
      with_params api_get_users (decode_api_get_users_params r.reader) λ (q, cookie).
        replying (encode_api_get_users_response encode_header) (handle s (get_users q) cookie)

  unfoldable pub handle_api_health_request : W → Served × W
  handle_api_health_request =
      with_params api_health (decode_api_health_params r.reader)
        λ cookie. replying (encode_api_health_response encode_header) (handle s health cookie)

  unfoldable pub handle_api_like_event_request : String → W → Served × W
  handle_api_like_event_request arg =
      with_params api_like_event (decode_api_like_event_params r.reader r.args_escaped arg)
        λ (id, cookie).
          replying (encode_api_like_event_response encode_header) (handle s (like_event id) cookie)

  unfoldable pub handle_api_login_request : W → Served × W
  handle_api_login_request = with_params api_login (decode_api_login_params r.reader) λ cookie.
      with_request api_login (decode_api_login_request json r.body)
        λ req. replying (encode_api_login_response encode_header) (handle s (login req) cookie)

  unfoldable pub handle_api_logout_request : W → Served × W
  handle_api_logout_request =
      with_params api_logout (decode_api_logout_params r.reader)
        λ cookie. replying (encode_api_logout_response encode_header) (handle s logout cookie)

  unfoldable pub handle_api_patch_event_request : String → W → Served × W
  handle_api_patch_event_request arg =
      with_params api_patch_event (decode_api_patch_event_params r.reader r.args_escaped arg)
        λ (id, cookie).
          with_request api_patch_event (decode_api_patch_event_request json r.body) λ req.
            replying (encode_api_patch_event_response encode_header)
              (handle s (patch_event req id) cookie)

  unfoldable pub handle_api_register_request : W → Served × W
  handle_api_register_request =
      with_params api_register (decode_api_register_params r.reader) λ cookie.
        with_request api_register (decode_api_register_request json r.body) λ req.
          replying (encode_api_register_response encode_header) (handle s (register req) cookie)

  unfoldable pub handle_api_session_request : W → Served × W
  handle_api_session_request =
      with_params api_session (decode_api_session_params r.reader)
        λ cookie. replying (encode_api_session_response encode_header) (handle s session cookie)

  unfoldable pub handle_api_update_event_review_request : (arg0 arg1 : String) → W → Served × W
  handle_api_update_event_review_request arg0 arg1 =
      with_params api_update_event_review
        (decode_api_update_event_review_params r.reader r.args_escaped arg0 arg1)
        λ (event_id, review_id, cookie).
          with_request api_update_event_review (decode_api_update_event_review_request json r.body)
            λ req.
              replying (encode_api_update_event_review_response encode_header)
                (handle s (update_event_review req event_id review_id) cookie)

  -- The handler that the router calls, with the arguments of the path.
  abbrev pub handle_operation : Operation → List String → W → Option (Served × W)
  handle_operation api_create_event [] w = some (handle_api_create_event_request w)
  handle_operation api_create_event_review (x ∷ []) w =
      some (handle_api_create_event_review_request x w)
  handle_operation api_dislike_event (x ∷ []) w = some (handle_api_dislike_event_request x w)
  handle_operation api_get_event (x ∷ []) w = some (handle_api_get_event_request x w)
  handle_operation api_get_event_reviews (x ∷ []) w =
      some (handle_api_get_event_reviews_request x w)
  handle_operation api_get_events [] w = some (handle_api_get_events_request w)
  handle_operation api_get_recommendations [] w = some (handle_api_get_recommendations_request w)
  handle_operation api_get_user (x ∷ []) w = some (handle_api_get_user_request x w)
  handle_operation api_get_user_events (x ∷ []) w = some (handle_api_get_user_events_request x w)
  handle_operation api_get_users [] w = some (handle_api_get_users_request w)
  handle_operation api_health [] w = some (handle_api_health_request w)
  handle_operation api_like_event (x ∷ []) w = some (handle_api_like_event_request x w)
  handle_operation api_login [] w = some (handle_api_login_request w)
  handle_operation api_logout [] w = some (handle_api_logout_request w)
  handle_operation api_patch_event (x ∷ []) w = some (handle_api_patch_event_request x w)
  handle_operation api_register [] w = some (handle_api_register_request w)
  handle_operation api_session [] w = some (handle_api_session_request w)
  handle_operation api_update_event_review (x ∷ y ∷ []) w =
      some (handle_api_update_event_review_request x y w)
  handle_operation _ _ w = none
