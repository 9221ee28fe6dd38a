-- ===== src/Ogen/Serving/Encoding.antt =====
-- Each handler of internal/router/handler.go answers with a response of its own operation, which
-- internal/router/ogen/oas_response_encoders_gen.go can write.
use ndbx.Ogen.Serving.{written, replied}
use ndbx.Prelude.{
  arith, ◌∙◌, none, ltb, Bool-cases, inl, inr, some, ℕ, String, ◌≡◌, refl, Option, some,
}
use ndbx.Errors.{is, Err}
use ndbx.Exec.{Result, ok}
use ndbx.Router.{Response, error}
use ndbx.Router.Calls.{
  Call, create_event, create_event_review, dislike_event, like_event, get_event, get_event_reviews,
  get_events, get_recommendations, get_user, get_user_events, get_users, health, login, logout,
  patch_event, register, session, update_event_review,
}
use ndbx.Ogen.{
  Operation, api_create_event, api_create_event_review, api_dislike_event, api_get_event,
  api_get_event_reviews, api_get_events, api_get_recommendations, api_get_user, api_get_user_events,
  api_get_users, api_health, api_like_event, api_login, api_logout, api_patch_event, api_register,
  api_session, api_update_event_review,
}
use ndbx.Ogen.Responses.{
  wrapped, error_reply, or_ok, internal_error, message_body, Body, Reply, ok_reply,
  encode_api_create_event_response, encode_api_create_event_review_response,
  encode_api_dislike_event_response, encode_api_get_event_response,
  encode_api_get_event_reviews_response, encode_api_get_events_response,
  encode_api_get_recommendations_response, encode_api_get_user_response,
  encode_api_get_user_events_response, encode_api_get_users_response, encode_api_health_response,
  encode_api_like_event_response, encode_api_login_response, encode_api_logout_response,
  encode_api_patch_event_response, encode_api_register_response, encode_api_session_response,
  encode_api_update_event_review_response,
}

-- The operation of a call.
abbrev pub operation_of : Call → Operation
operation_of (create_event req) = api_create_event
operation_of (create_event_review req id) = api_create_event_review
operation_of (dislike_event id) = api_dislike_event
operation_of (get_event id include) = api_get_event
operation_of (get_event_reviews id limit offset) = api_get_event_reviews
operation_of (get_events q) = api_get_events
operation_of get_recommendations = api_get_recommendations
operation_of (get_user id) = api_get_user
operation_of (get_user_events id q) = api_get_user_events
operation_of (get_users q) = api_get_users
operation_of health = api_health
operation_of (like_event id) = api_like_event
operation_of (login req) = api_login
operation_of logout = api_logout
operation_of (patch_event req id) = api_patch_event
operation_of (register req) = api_register
operation_of session = api_session
operation_of (update_event_review req id review_id) = api_update_event_review

-- The operations that can be answered with an error: all but the health check.
abbrev pub CanFail : Operation → Type 0
CanFail api_health = ⊥
CanFail _ = Unit

module _ (encode_header : String → Result Err String) where
  -- How the answer to an operation is written.
  abbrev pub encoder : Operation → Response → Result Err Reply
  encoder api_create_event = encode_api_create_event_response encode_header
  encoder api_create_event_review = encode_api_create_event_review_response encode_header
  encoder api_dislike_event = encode_api_dislike_event_response encode_header
  encoder api_get_event = encode_api_get_event_response encode_header
  encoder api_get_event_reviews = encode_api_get_event_reviews_response encode_header
  encoder api_get_events = encode_api_get_events_response encode_header
  encoder api_get_recommendations = encode_api_get_recommendations_response encode_header
  encoder api_get_user = encode_api_get_user_response encode_header
  encoder api_get_user_events = encode_api_get_user_events_response encode_header
  encoder api_get_users = encode_api_get_users_response encode_header
  encoder api_health = encode_api_health_response encode_header
  encoder api_like_event = encode_api_like_event_response encode_header
  encoder api_login = encode_api_login_response encode_header
  encoder api_logout = encode_api_logout_response encode_header
  encoder api_patch_event = encode_api_patch_event_response encode_header
  encoder api_register = encode_api_register_response encode_header
  encoder api_session = encode_api_session_response encode_header
  encoder api_update_event_review = encode_api_update_event_review_response encode_header

  -- The encoder of the operation writes the answer, and the error handler is not called after that.
  abbrev pub IsEncoded : Operation → Response → Type 0
  IsEncoded op r =
      (reply : Reply) × (encoder op r ≡ ok reply) × (written (ok reply) ≡ replied reply)

  -- Every text can be a header.
  abbrev pub Writes : Type 0
  Writes = (text : String) → (written : String) × (encode_header text ≡ ok written)

  module _ (writes : Writes) where
    pub ok_reply-written :
        (status : ℕ) (c : String) (body : Option Body)
        → (reply : Reply) × (ok_reply encode_header status c body ≡ ok reply)
          × (written (ok reply) ≡ replied reply)
    ok_reply-written status c body =
        let (text, e) = writes c in
        (
          record { status = status; set_cookie = some text; body = body; returned = none },
          rw e refl,
          refl,
        )

    -- An error of the server is reported by the encoder, but not handled again.
    internal_error-quiet :
        (code : ℕ) (reply : Reply)
        → reply.returned ≡ internal_error code
        → written (ok reply) ≡ replied reply
    unfolding is
    internal_error-quiet code reply returned = elim (Bool-cases (ltb code 500)) [
      | inl low ↦ let nothing : reply.returned ≡ none = returned ∙ rw low refl in ground arith
      | inr high ↦
          let something : reply.returned ≡ some (wrapped code) = returned ∙ rw high refl in
          ground arith
    ]

    pub error_reply-written :
        (status : ℕ) (c message : String)
        → (reply : Reply) × (error_reply encode_header status c message ≡ ok reply)
          × (written (ok reply) ≡ replied reply)
    error_reply-written status c message =
        let (text, e) = writes c in
        let reply : Reply = record {
          status = or_ok status;
          set_cookie = some text;
          body = some (message_body message);
          returned = internal_error (or_ok status);
        } in
        (reply, rw e refl, internal_error-quiet (or_ok status) reply refl)

    pub error-IsEncoded :
        (op : Operation)
        → CanFail op
        → (status : ℕ) (c message : String) → IsEncoded op (error status c message)
    unfolding encode_api_create_event_response encode_api_create_event_review_response
        encode_api_dislike_event_response encode_api_get_event_response
        encode_api_get_event_reviews_response encode_api_get_events_response
        encode_api_get_recommendations_response encode_api_get_user_response
        encode_api_get_user_events_response encode_api_get_users_response
        encode_api_like_event_response encode_api_login_response encode_api_logout_response
        encode_api_patch_event_response encode_api_register_response encode_api_session_response
        encode_api_update_event_review_response
    error-IsEncoded api_create_event other status c message = error_reply-written status c message
    error-IsEncoded api_create_event_review other status c message =
        error_reply-written status c message
    error-IsEncoded api_dislike_event other status c message = error_reply-written status c message
    error-IsEncoded api_get_event other status c message = error_reply-written status c message
    error-IsEncoded api_get_event_reviews other status c message =
        error_reply-written status c message
    error-IsEncoded api_get_events other status c message = error_reply-written status c message
    error-IsEncoded api_get_recommendations other status c message =
        error_reply-written status c message
    error-IsEncoded api_get_user other status c message = error_reply-written status c message
    error-IsEncoded api_get_user_events other status c message =
        error_reply-written status c message
    error-IsEncoded api_get_users other status c message = error_reply-written status c message
    error-IsEncoded api_health other status c message = absurd other
    error-IsEncoded api_like_event other status c message = error_reply-written status c message
    error-IsEncoded api_login other status c message = error_reply-written status c message
    error-IsEncoded api_logout other status c message = error_reply-written status c message
    error-IsEncoded api_patch_event other status c message = error_reply-written status c message
    error-IsEncoded api_register other status c message = error_reply-written status c message
    error-IsEncoded api_session other status c message = error_reply-written status c message
    error-IsEncoded api_update_event_review other status c message =
        error_reply-written status c message
