-- ===== src/Router/Reviews.antt =====
-- APICreateEventReview, APIGetEventReviews and APIUpdateEventReview of internal/router/handler.go
pub mod Rating
use ndbx.Prelude.{ℕ, String, not, ◌||◌, Option, none, some, map, ◌==◌, if◌then◌else◌}
use ndbx.Prelude.Words.{to_int8, int8_to_int32}
use ndbx.Errors.{is, not_found, already_exists, forbidden}
use ndbx.Exec.{pure, fail, map_err, ◌>>=◌, ◌>>◌}
use ndbx.GoTime.{Rfc3339}
use ndbx.Service
use ndbx.Router.{
  Opt, OasReviewData, create_review_unauthorized, create_review_conflict, create_review_created,
  update_review_unauthorized, update_review_not_found, update_review_no_content, reviews,
  new_internal_error, new_bad_request_error, new_not_found_error, SessionService, ReviewService,
  Handler, answering,
}
use ndbx.Router.Cookie.{extract_sid, form_set_cookie}
use ndbx.Router.Listing.{default_limit, default_offset, checked_or}
use ndbx.Router.Auth.{authorized_user, extend_session}
use ndbx.Router.Events.{pointer}

-- The ratings are int32 values.
pub record ReviewRequest : Type 0 where
  pub comment : Opt String
  pub rating : Opt ℕ

module _ (clock : Rfc3339) {W : Type 0} (sessions : SessionService W) (service : ReviewService W)
    (session_ttl_seconds : ℕ) where
  unfoldable pub api_create_event_review : ReviewRequest → String → Opt String → Handler W
  api_create_event_review req event_id cookie =
      let sid = extract_sid cookie.value in
      let set_cookie = form_set_cookie sid session_ttl_seconds in
      answering (
        if not req.comment.set || req.comment.value == ""
        then fail (new_bad_request_error set_cookie "field \"comment\" is required")
        else if not req.rating.set
        then fail (new_bad_request_error set_cookie "field \"rating\" is required")
        else (do
          user_id ← authorized_user sessions create_review_unauthorized sid
          id ←
              map_err
                (λ e.
                  if is e already_exists
                  then create_review_conflict set_cookie "review already exists"
                  else if is e not_found
                  then new_not_found_error set_cookie "Not found"
                  else new_internal_error)
                (service.create_review (record {
                  event_id = event_id;
                  user_id = user_id;
                  comment = req.comment.value;
                  rating = to_int8 req.rating.value;
                }))
          extend_session sessions sid user_id
          pure (create_review_created set_cookie id)))

  abbrev pub oas_review_data : Service.ReviewData → OasReviewData
  oas_review_data r = record {
    id = r.id;
    event_id = r.event_id;
    comment = r.comment;
    created_at = clock.format r.created_at;
    created_by = r.created_by;
    rating = int8_to_int32 r.rating;
    updated_at = clock.format r.updated_at;
  }

  unfoldable pub api_get_event_reviews : String → (limit offset : Opt ℕ) → Opt String → Handler W
  api_get_event_reviews event_id limit offset cookie =
      let set_cookie = form_set_cookie (extract_sid cookie.value) session_ttl_seconds in
      answering (do
        limit' ← checked_or set_cookie "limit" default_limit limit
        offset' ← checked_or set_cookie "offset" default_offset offset
        resp ←
            map_err
              (λ e.
                if is e not_found
                then new_not_found_error set_cookie "Not found"
                else new_internal_error)
              (service.get_reviews
                (record { event_id = event_id; limit = limit'; offset = offset' }))
        pure (reviews set_cookie (map oas_review_data resp.reviews) resp.count))

  abbrev pub rating_pointer : Opt ℕ → Option ℕ
  rating_pointer r = if r.set then some (to_int8 r.value) else none

  unfoldable pub api_update_event_review :
      ReviewRequest → (event_id review_id : String) → Opt String → Handler W
  api_update_event_review req event_id review_id cookie =
      let sid = extract_sid cookie.value in
      let set_cookie = form_set_cookie sid session_ttl_seconds in
      answering (do
        user_id ← authorized_user sessions update_review_unauthorized sid
        map_err
            (λ e.
              if is e not_found || is e forbidden
              then update_review_not_found set_cookie "review not found"
              else new_internal_error)
            (service.update_review (record {
              event_id = event_id;
              review_id = review_id;
              user_id = user_id;
              rating = rating_pointer req.rating;
              comment = pointer req.comment;
            }))
        extend_session sessions sid user_id
        pure (update_review_no_content set_cookie))
