-- ===== src/Service/Review.antt =====
-- internal/service/review.go
pub mod Author
pub mod Paging
use ndbx.Prelude.{ℕ, String, not, map, length, ◌==◌, if◌then◌else◌}
use ndbx.Prelude.Words.{lt64}
use ndbx.Errors.{
  Err, sentinel, wrap, is, redis_nil, mongo_not_found, review_already_exists, review_not_found,
  not_found, already_exists, forbidden,
}
use ndbx.Exec.{Exec, pure, fail, always, attempt, map_err, logged, wrapping, ◌>>=◌, ◌>>◌}
use ndbx.GoTime.{Host, now_utc}
use ndbx.Float64.{Float64}
use ndbx.Mongo
use ndbx.Cassandra
use ndbx.Service.{
  EventReviewsSummary, ReviewData, CreateReviewReq, GetReviewsReq, GetReviewsResp, UpdateReviewReq,
}
use ndbx.Service.Ports.{EventStorage, ReviewStorage, ReviewCache}

abbrev pub review_data : Cassandra.Review → ReviewData
review_data r = record {
  id = r.id;
  event_id = r.event_id;
  rating = r.rating;
  comment = r.comment;
  created_at = r.created_at;
  created_by = r.created_by;
  updated_at = r.updated_at;
}

-- The average rating, rounded to one decimal place; 0 if there are no reviews.
unfoldable pub average_rating : Float64 → Cassandra.ReviewStats → ℕ
average_rating floats stats =
    if lt64 0 stats.count
    then floats.div
        (floats.round (
          floats.mul (floats.div (floats.of_int64 stats.sum) (floats.of_int64 stats.count))
            (floats.of_int64 10)))
        (floats.of_int64 10)
    else 0

module _ {W : Type 0} (host : Host W) (floats : Float64) (title_md5 : String → String)
    (events : EventStorage W) (reviews : ReviewStorage W) (cache : ReviewCache W)
    (review_ttl : ℕ) where
  -- GetEvent, with the error's translation that three operations share but for the text.
  abbrev pub find_event : String → String → Exec Err W Mongo.Event
  find_event message id =
      map_err (λ e. if is e mongo_not_found then sentinel not_found else wrap message e)
        (events.get_event id)

  unfoldable pub reviews_by_title_no_cache : String → Exec Err W EventReviewsSummary
  unfolding average_rating
  reviews_by_title_no_cache title = do
    events_by_title ← wrapping "get events by title" (events.get_events_by_title title)
    stats ←
        wrapping "get review stats"
          (reviews.get_review_stats_by_event_ids (map (λ (e : Mongo.Event). e.id) events_by_title))
    pure (record { count = stats.count; rating = average_rating floats stats })

  abbrev pub set_cache : String → EventReviewsSummary → Exec Err W (Unit {0})
  set_cache title s = cache.set (record {
    title_hash = title_md5 title;
    reviews = record { count = s.count; rating = s.rating };
    ttl = review_ttl;
  })

  unfoldable pub update_review_cache : String → Exec Err W (Unit {0})
  update_review_cache event_id = do
    event ← wrapping "get event for review cache update" (events.get_event event_id)
    summary ← wrapping "calculate reviews summary" (reviews_by_title_no_cache event.title)
    wrapping "set reviews cache" (set_cache event.title summary)

  unfoldable pub create_review : CreateReviewReq → Exec Err W String
  create_review req = do
    find_event "get event before review" req.event_id
    now ← always (now_utc host)
    id ←
        map_err
          (λ e.
            if is e review_already_exists then sentinel already_exists else wrap "create review" e)
          (reviews.create_review req.event_id req.user_id req.rating req.comment now)
    logged (update_review_cache req.event_id)
    pure id

  -- `int64(len(result))`; the request's Limit and Offset are not read.
  unfoldable pub get_reviews : GetReviewsReq → Exec Err W GetReviewsResp
  get_reviews req = do
    find_event "get event for reviews" req.event_id
    found ← wrapping "get reviews by event id" (reviews.get_reviews_by_event_id req.event_id)
    pure (record { reviews = map review_data found; count = length found })

  -- What UpdateReview does once it has the review.
  unfoldable pub update_found : Cassandra.Review → UpdateReviewReq → Exec Err W (Unit {0})
  update_found review req =
      if not (review.created_by == req.user_id) then fail (sentinel forbidden) else (do
        now ← always (now_utc host)
        map_err (λ e. if is e review_not_found then sentinel not_found else wrap "update review" e)
            (reviews.update_review req.event_id req.user_id req.rating req.comment now)
        logged (update_review_cache req.event_id))

  unfoldable pub update_review : UpdateReviewReq → Exec Err W (Unit {0})
  update_review req = do
    find_event "get event before review update" req.event_id
    review ←
        map_err
          (λ e.
            if is e review_not_found then sentinel not_found else wrap "get review for update" e)
          (reviews.get_review req.event_id req.review_id)
    update_found review req

  -- GetReviewsByTitle after a miss
  unfoldable pub sum_and_cache : String → Exec Err W EventReviewsSummary
  sum_and_cache title = do
    summary ← reviews_by_title_no_cache title
    if lt64 0 summary.count
        then (do wrapping "set reviews to cache" (set_cache title summary); pure summary)
        else pure summary

  unfoldable pub get_reviews_by_title : String → Exec Err W EventReviewsSummary
  get_reviews_by_title title =
      attempt (cache.get (title_md5 title))
        (λ e.
          if is e redis_nil then sum_and_cache title else fail (wrap "get reviews from cache" e))
        λ cached. pure (record { count = cached.count; rating = cached.rating })
