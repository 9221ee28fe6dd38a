-- ===== src/Cassandra/ReviewStorage.antt =====
-- internal/storage/cassandra/review.go. A rating is an int8.
pub mod Update
pub mod Sums
use ndbx.Prelude.{ℕ, String, Option, none, some, List, [], ◌∷◌, ◌==◌, if◌then◌else◌}
use ndbx.Prelude.Words.{add64, from_int8}
use ndbx.Errors.{Err, sentinel, wrap, is, gocql_not_found, review_already_exists, review_not_found}
use ndbx.Exec.{Exec, pure, fail, always, attempt, map_err, wrapping, ◌>>=◌, ◌>>◌}
use ndbx.GoTime.{Time, utc}
use ndbx.Cassandra.{CassandraSession, Review, ReviewStats}

abbrev pub no_stats : ReviewStats
no_stats = record { count = 0; sum = 0 }

unfoldable pub add_ratings : ReviewStats → List ℕ → ReviewStats
add_ratings stats [] = stats
add_ratings stats (rating ∷ rows) =
    add_ratings (record { count = add64 stats.count 1; sum = add64 stats.sum (from_int8 rating) })
      rows

-- The first row with the id, as the scan loop of GetReview finds it.
unfoldable pub find_review : String → List Review → Option Review
find_review review_id [] = none
find_review review_id (r ∷ rows) = if r.id == review_id then some r else find_review review_id rows

abbrev pub or_kept : {A : Type 0} → Option A → A → A
or_kept none old = old
or_kept (some new) old = new

module _ {W : Type 0} (session : CassandraSession W) where
  -- The INSERT of CreateReview, after its SELECT has failed.
  unfoldable pub insert_new : String → String → ℕ → String → Time → Exec Err W String
  insert_new event_id user_id rating comment created_at = do
    id ← always session.new_uuid
    wrapping "insert review" (
        session.insert_review (record {
          id = id;
          event_id = event_id;
          rating = rating;
          comment = comment;
          created_at = utc created_at;
          created_by = user_id;
          updated_at = utc created_at;
        }))
    pure id

  -- Whatever the error of the SELECT, the review is inserted.
  unfoldable pub create_review : String → String → ℕ → String → Time → Exec Err W String
  create_review event_id user_id rating comment created_at =
      attempt (session.select_review_id event_id user_id)
        (λ _. insert_new event_id user_id rating comment created_at)
        λ _. fail (sentinel review_already_exists)

  unfoldable pub get_reviews_by_event_id : String → Exec Err W (List Review)
  get_reviews_by_event_id event_id = do
    iter ← always (session.select_reviews event_id)
    elim iter.close [ none ↦ pure iter.rows | some e ↦ fail (wrap "iterate reviews by event id" e) ]

  unfoldable pub get_review : String → String → Exec Err W Review
  get_review event_id review_id = do
    iter ← always (session.select_reviews event_id)
    elim (find_review review_id iter.rows) [
      | some r ↦ elim iter.close [
        | none ↦ pure r
        | some e ↦ fail (wrap "close iterator after finding review" e)
      ]
      | none ↦ elim iter.close [
        | none ↦ fail (sentinel review_not_found)
        | some e ↦ fail (wrap "iterate reviews" e)
      ]
    ]

  unfoldable pub update_review :
      String → String → Option ℕ → Option String → Time → Exec Err W (Unit {0})
  update_review event_id user_id rating comment updated_at = do
    existing ←
        map_err
          (λ e.
            if is e gocql_not_found
            then sentinel review_not_found
            else wrap "get review for update" e)
          (session.select_review event_id user_id)
    wrapping "update review" (
        session.insert_review (record {
          id = existing.id;
          event_id = event_id;
          rating = or_kept rating existing.rating;
          comment = or_kept comment existing.comment;
          created_at = existing.created_at;
          created_by = user_id;
          updated_at = utc updated_at;
        }))

  -- The loop over the event ids, from the sums so far.
  unfoldable pub add_events : ReviewStats → List String → Exec Err W ReviewStats
  add_events stats [] = pure stats
  add_events stats (event_id ∷ ids) = do
    iter ← always (session.select_ratings event_id)
    elim iter.close [
      | none ↦ add_events (add_ratings stats iter.rows) ids
      | some e ↦ fail (wrap "iterate reviews stats" e)
    ]

  unfoldable pub get_review_stats_by_event_ids : List String → Exec Err W ReviewStats
  get_review_stats_by_event_ids ids = add_events no_stats ids
