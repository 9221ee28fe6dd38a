-- ===== src/Service/Review/Author.antt =====
-- Who may change a review: UpdateReview of internal/service/review.go.
use ndbx.Prelude.{inl, inr, ℕ, String, ◌≡◌, ◌≢◌, eq_iff, arith}
use ndbx.Errors.{sentinel, forbidden}
use ndbx.Exec.{Result-cases, ok, err}
use ndbx.GoTime.{Host}
use ndbx.Float64.{Float64}
use ndbx.Mongo
use ndbx.Cassandra
use ndbx.Service.{UpdateReviewReq}
use ndbx.Service.Ports.{EventStorage, ReviewStorage, ReviewCache}
use ndbx.Service.Review.{update_found, update_review}

module _ {W : Type 0} (host : Host W) (floats : Float64) (title_md5 : String → String)
    (events : EventStorage W) (reviews : ReviewStorage W) (cache : ReviewCache W) (ttl : ℕ)
    (req : UpdateReviewReq) (w : W) where
  abbrev pub looked_up : W
  looked_up = (events.get_event req.event_id w).1

  -- The event and the review of the request are there, and its user is the review's author.
  abbrev pub UpdatesOwn : Type 0
  UpdatesOwn =
      (event : Mongo.Event) × ((events.get_event req.event_id w).0 ≡ ok event)
      × (review : Cassandra.Review) × ((reviews.get_review req.event_id req.review_id looked_up).0
          ≡ ok review)
      × (review.created_by ≡ req.user_id)

  -- The event and a review of another author are there.
  abbrev pub IsOthers : Type 0
  IsOthers =
      (event : Mongo.Event) × ((events.get_event req.event_id w).0 ≡ ok event)
      × (review : Cassandra.Review) × ((reviews.get_review req.event_id req.review_id looked_up).0
          ≡ ok review)
      × (review.created_by ≢ req.user_id)

  -- An UpdateReview that succeeds has found the event and the review, whose author is the user of
  -- the request. For a review of another author, it fails with ErrForbidden after it has read the
  -- event and the review, and does nothing else.
  pub update_review-author :
      ((update_review host floats title_md5 events reviews cache ttl req w).0 ≡ ok tt → UpdatesOwn)
      × (IsOthers
          → update_review host floats title_md5 events reviews cache ttl req w ≡ (
            err (sentinel forbidden),
            (reviews.get_review req.event_id req.review_id looked_up).1,
          ))
  unfolding update_review update_found
  update_review-author = (
    λ done. elim (Result-cases (events.get_event req.event_id w).0) [
      | inr (e, failed) ↦ ground arith
      | inl (event, found) ↦
          elim (Result-cases (reviews.get_review req.event_id req.review_id looked_up).0) [
            | inr (e, failed) ↦ ground arith
            | inl (review, got) ↦
                (event, found, review, got, ground (arith, eq_iff review.created_by req.user_id))
          ]
    ],
    λ (event, found, review, got, other). ground (arith, eq_iff review.created_by req.user_id),
  )
