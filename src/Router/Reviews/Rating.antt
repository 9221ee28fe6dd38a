-- ===== src/Router/Reviews/Rating.antt =====
-- What of a rating reaches the service: APICreateEventReview of internal/router/handler.go.
use ndbx.Router.Auth.{authorized_user, extend_session}
use ndbx.Router.Cookie.{extract_sid, form_set_cookie}
use ndbx.Exec.{Result, ok}
use ndbx.Prelude.{eq_iff, ◌≢◌, arith, ℕ, ◌%◌, String, ◌≡◌, true}
use ndbx.GoTime.{Rfc3339}
use ndbx.Router.{
  Response, create_review_unauthorized, create_review_created, Opt, SessionService, ReviewService,
}
use ndbx.Router.Reviews.{api_create_event_review}

module _ (clock : Rfc3339) {W : Type 0} (sessions : SessionService W) (service : ReviewService W)
    (ttl : ℕ) where
  -- The user of the request, and the world after its session is read.
  abbrev pub user_of : Opt String → W → Result Response String × W
  user_of cookie = authorized_user sessions create_review_unauthorized (extract_sid cookie.value)

  -- A rating is not checked: whatever it is, when the comment is not empty and the request has a
  -- user, the service is asked for a review with the rating modulo 256, and if it creates one, the
  -- handler answers that the review was created.
  pub api_create_event_review-rating :
      (comment event_id user_id id : String) (rating : ℕ) (cookie : Opt String) (w : W)
      → comment ≢ ""
      → (user_of cookie w).0 ≡ ok user_id
      → (service.create_review
          (record {
            event_id = event_id;
            user_id = user_id;
            comment = comment;
            rating = rating % 256;
          })
          (user_of cookie w).1).0
        ≡ ok id
      → (api_create_event_review clock sessions service ttl
          (record {
            comment = record { value = comment; set = true };
            rating = record { value = rating; set = true };
          })
          event_id
          cookie
          w).0
        ≡ create_review_created (form_set_cookie (extract_sid cookie.value) ttl) id
  unfolding api_create_event_review extend_session
  api_create_event_review-rating comment event_id user_id id rating cookie w named user created =
      ground (arith, eq_iff comment "")
