-- ===== src/Ogen/Responses.antt =====
-- How the server writes an answer: internal/router/ogen/oas_response_encoders_gen.go. The header
-- encoder of ogen's package uri is a parameter; the JSON of a body stands for itself, and writing to
-- the connection does not fail.
use ndbx.Strconv.{format_int}
use ndbx.Prelude.{text_append, ltb, ℕ, String, Option, none, some, List, nat_eq, if◌then◌else◌}
use ndbx.Errors.{sentinel, internal_server_error_response, Err, plain, wrap}
use ndbx.Exec.{Result, ok, err}
use ndbx.Service
use ndbx.Router.{
  OasEventData, OasReviewData, Response, error, health, session_created, session_ok,
  register_created, login_no_content, logout_no_content, logout_unauthorized,
  create_event_unauthorized, patch_event_unauthorized, patch_event_no_content, create_event_created,
  events, event, users, user, like_event_unauthorized, dislike_event_unauthorized,
  create_review_unauthorized, update_review_unauthorized, recommendations_unauthorized,
  like_event_no_content, dislike_event_no_content, create_review_created, create_review_conflict,
  update_review_not_found, update_review_no_content, reviews, recommendations,
}
use ndbx.Ogen.Params.{◌>>=◌, map_error}

-- The object that is encoded as JSON.
pub data Body : Type 0 where
  message_body status_body id_body : String → Body
  event_body : OasEventData → Body
  events_body : List OasEventData → (count : ℕ) → Body
  recommendations_body : List OasEventData → Body
  user_body : Service.UserData → Body
  users_body : List Service.UserData → (count : ℕ) → Body
  reviews_body : List OasReviewData → (count : ℕ) → Body

-- The header Set-Cookie comes with Access-Control-Expose-Headers, and a body with Content-Type.
pub record Reply : Type 0 where
  pub status : ℕ
  pub set_cookie : Option String
  pub body : Option Body
  -- the error that the encoder returns although it has written the answer
  pub returned : Option Err

-- An answer without headers.
abbrev pub bare : ℕ → Reply
bare status = record { status = status; set_cookie = none; body = none; returned = none }

abbrev pub unexpected : Err
unexpected = plain "unexpected response type"

-- `code := response.StatusCode; if code == 0 { code = http.StatusOK }`
abbrev pub or_ok : ℕ → ℕ
or_ok code = if nat_eq code 0 then 200 else code

-- `http.StatusText(code)`, from 500 on
abbrev pub status_text : ℕ → String
status_text code =
    if nat_eq code 500
    then "Internal Server Error"
    else if nat_eq code 501
    then "Not Implemented"
    else if nat_eq code 502
    then "Bad Gateway"
    else if nat_eq code 503
    then "Service Unavailable"
    else if nat_eq code 504
    then "Gateway Timeout"
    else if nat_eq code 505
    then "HTTP Version Not Supported"
    else if nat_eq code 506
    then "Variant Also Negotiates"
    else if nat_eq code 507
    then "Insufficient Storage"
    else if nat_eq code 508
    then "Loop Detected"
    else if nat_eq code 510
    then "Not Extended"
    else if nat_eq code 511
    then "Network Authentication Required"
    else ""

-- errors.Wrapf(ht.ErrInternalServerErrorResponse, "code: %d, message: %s", …)
abbrev pub wrapped : ℕ → Err
wrapped code =
    wrap
      (text_append "code: "
        (text_append (format_int code) (text_append ", message: " (status_text code))))
      (sentinel internal_server_error_response)

-- What the encoder returns after it has written an answer with this status.
abbrev pub internal_error : ℕ → Option Err
internal_error code = if ltb code 500 then none else some (wrapped code)

-- The header encoder gives the text that it writes.
module _ (encode_header : String → Result Err String) where
  abbrev pub ok_reply : ℕ → String → Option Body → Result Err Reply
  ok_reply status set_cookie body = do
    written ← map_error (wrap "encode Set-Cookie header") (encode_header set_cookie)
    ok (record { status = status; set_cookie = some written; body = body; returned = none })

  abbrev pub error_reply : ℕ → String → String → Result Err Reply
  error_reply status c message = do
    reply ← ok_reply (or_ok status) c (some (message_body message))
    ok (record reply { returned = internal_error (or_ok status) })

  unfoldable pub encode_api_create_event_response : Response → Result Err Reply
  encode_api_create_event_response (create_event_created c id) = ok_reply 201 c (some (id_body id))
  encode_api_create_event_response (create_event_unauthorized c) = ok_reply 401 c none
  encode_api_create_event_response (error status c message) = error_reply status c message
  encode_api_create_event_response _ = err unexpected

  unfoldable pub encode_api_create_event_review_response : Response → Result Err Reply
  encode_api_create_event_review_response (create_review_created c id) =
      ok_reply 201 c (some (id_body id))
  encode_api_create_event_review_response create_review_unauthorized = ok (bare 401)
  encode_api_create_event_review_response (create_review_conflict c message) =
      ok_reply 409 c (some (message_body message))
  encode_api_create_event_review_response (error status c message) = error_reply status c message
  encode_api_create_event_review_response _ = err unexpected

  unfoldable pub encode_api_dislike_event_response : Response → Result Err Reply
  encode_api_dislike_event_response (dislike_event_no_content c) = ok_reply 204 c none
  encode_api_dislike_event_response dislike_event_unauthorized = ok (bare 401)
  encode_api_dislike_event_response (error status c message) = error_reply status c message
  encode_api_dislike_event_response _ = err unexpected

  unfoldable pub encode_api_get_event_response : Response → Result Err Reply
  encode_api_get_event_response (event c e) = ok_reply 200 c (some (event_body e))
  encode_api_get_event_response (error status c message) = error_reply status c message
  encode_api_get_event_response _ = err unexpected

  unfoldable pub encode_api_get_event_reviews_response : Response → Result Err Reply
  encode_api_get_event_reviews_response (reviews c list count) =
      ok_reply 200 c (some (reviews_body list count))
  encode_api_get_event_reviews_response (error status c message) = error_reply status c message
  encode_api_get_event_reviews_response _ = err unexpected

  unfoldable pub encode_api_get_events_response : Response → Result Err Reply
  encode_api_get_events_response (events c list count) =
      ok_reply 200 c (some (events_body list count))
  encode_api_get_events_response (error status c message) = error_reply status c message
  encode_api_get_events_response _ = err unexpected

  unfoldable pub encode_api_get_recommendations_response : Response → Result Err Reply
  encode_api_get_recommendations_response (recommendations c list) =
      ok_reply 200 c (some (recommendations_body list))
  encode_api_get_recommendations_response recommendations_unauthorized = ok (bare 401)
  encode_api_get_recommendations_response (error status c message) = error_reply status c message
  encode_api_get_recommendations_response _ = err unexpected

  unfoldable pub encode_api_get_user_response : Response → Result Err Reply
  encode_api_get_user_response (user c u) = ok_reply 200 c (some (user_body u))
  encode_api_get_user_response (error status c message) = error_reply status c message
  encode_api_get_user_response _ = err unexpected

  unfoldable pub encode_api_get_user_events_response : Response → Result Err Reply
  encode_api_get_user_events_response (events c list count) =
      ok_reply 200 c (some (events_body list count))
  encode_api_get_user_events_response (error status c message) = error_reply status c message
  encode_api_get_user_events_response _ = err unexpected

  unfoldable pub encode_api_get_users_response : Response → Result Err Reply
  encode_api_get_users_response (users c list count) = ok_reply 200 c (some (users_body list count))
  encode_api_get_users_response (error status c message) = error_reply status c message
  encode_api_get_users_response _ = err unexpected

  unfoldable pub encode_api_health_response : Response → Result Err Reply
  encode_api_health_response (health c status) =
      if c.set
      then ok_reply 200 c.value (some (status_body status))
      else ok (record {
        status = 200;
        set_cookie = none;
        body = some (status_body status);
        returned = none;
      })
  encode_api_health_response _ = err unexpected

  unfoldable pub encode_api_like_event_response : Response → Result Err Reply
  encode_api_like_event_response (like_event_no_content c) = ok_reply 204 c none
  encode_api_like_event_response like_event_unauthorized = ok (bare 401)
  encode_api_like_event_response (error status c message) = error_reply status c message
  encode_api_like_event_response _ = err unexpected

  unfoldable pub encode_api_login_response : Response → Result Err Reply
  encode_api_login_response (login_no_content c) = ok_reply 204 c none
  encode_api_login_response (error status c message) = error_reply status c message
  encode_api_login_response _ = err unexpected

  unfoldable pub encode_api_logout_response : Response → Result Err Reply
  encode_api_logout_response (logout_no_content c) = ok_reply 204 c none
  encode_api_logout_response (logout_unauthorized c) = ok_reply 401 c none
  encode_api_logout_response (error status c message) = error_reply status c message
  encode_api_logout_response _ = err unexpected

  unfoldable pub encode_api_patch_event_response : Response → Result Err Reply
  encode_api_patch_event_response (patch_event_no_content c) = ok_reply 204 c none
  encode_api_patch_event_response (patch_event_unauthorized c) = ok_reply 401 c none
  encode_api_patch_event_response (error status c message) = error_reply status c message
  encode_api_patch_event_response _ = err unexpected

  unfoldable pub encode_api_register_response : Response → Result Err Reply
  encode_api_register_response (register_created c) = ok_reply 201 c none
  encode_api_register_response (error status c message) = error_reply status c message
  encode_api_register_response _ = err unexpected

  unfoldable pub encode_api_session_response : Response → Result Err Reply
  encode_api_session_response (session_ok c) = ok_reply 200 c none
  encode_api_session_response (session_created c) = ok_reply 201 c none
  encode_api_session_response (error status c message) = error_reply status c message
  encode_api_session_response _ = err unexpected

  unfoldable pub encode_api_update_event_review_response : Response → Result Err Reply
  encode_api_update_event_review_response (update_review_no_content c) = ok_reply 204 c none
  encode_api_update_event_review_response update_review_unauthorized = ok (bare 401)
  encode_api_update_event_review_response (update_review_not_found c message) =
      ok_reply 404 c (some (message_body message))
  encode_api_update_event_review_response (error status c message) = error_reply status c message
  encode_api_update_event_review_response _ = err unexpected
