-- ===== src/Cassandra/ReviewStorage/Sums.antt =====
-- What the loops of GetReviewStatsByEventIDs of internal/storage/cassandra/review.go count and add.
use ndbx.Prelude.{
  ℕ, ◌+◌, ◌%◌, ◌<◌, ◌≡◌, String, List, [], ◌∷◌, ◌++◌, length, length-append, arith, Option-cases,
  inl, inr,
}
use ndbx.Prelude.Words.{two64, add64, from_int8}
use ndbx.Exec.{ok}
use ndbx.Cassandra.{CassandraSession, ReviewStats}
use ndbx.Cassandra.ReviewStorage.{no_stats, add_ratings, add_events, get_review_stats_by_event_ids}

-- The sum of the ratings as int64 patterns.
unfoldable pub sum_of_ratings : List ℕ → ℕ
sum_of_ratings [] = 0
sum_of_ratings (rating ∷ rows) = from_int8 rating + sum_of_ratings rows

sum_of_ratings-append :
    (xs ys : List ℕ) → sum_of_ratings (xs ++ ys) ≡ sum_of_ratings xs + sum_of_ratings ys
unfolding sum_of_ratings
sum_of_ratings-append [] ys = omega arith
sum_of_ratings-append (x ∷ xs) ys = omega (arith, sum_of_ratings-append xs ys)

abbrev InRange : ReviewStats → Type 0
InRange s = (s.count < two64) × (s.sum < two64)

add_ratings-InRange : (s : ReviewStats) (rows : List ℕ) → InRange s → InRange (add_ratings s rows)
unfolding add_ratings
add_ratings-InRange s [] h = h
add_ratings-InRange s (r ∷ rows) h =
    let s' : ReviewStats = record { count = add64 s.count 1; sum = add64 s.sum (from_int8 r) } in
    add_ratings-InRange s' rows (omega arith, omega arith)

count-add_ratings :
    (s : ReviewStats) (rows : List ℕ)
    → InRange s
    → (add_ratings s rows).count ≡ (s.count + length rows) % two64
unfolding add_ratings
count-add_ratings s [] (c, t) = omega arith
count-add_ratings s (r ∷ rows) (c, t) =
    let s' : ReviewStats = record { count = add64 s.count 1; sum = add64 s.sum (from_int8 r) } in
    omega (arith, count-add_ratings s' rows (omega arith, omega arith))

sum-add_ratings :
    (s : ReviewStats) (rows : List ℕ)
    → InRange s
    → (add_ratings s rows).sum ≡ (s.sum + sum_of_ratings rows) % two64
unfolding add_ratings sum_of_ratings
sum-add_ratings s [] (c, t) = omega arith
sum-add_ratings s (r ∷ rows) (c, t) =
    let s' : ReviewStats = record { count = add64 s.count 1; sum = add64 s.sum (from_int8 r) } in
    omega (arith, sum-add_ratings s' rows (omega arith, omega arith))

module _ {W : Type 0} (session : CassandraSession W) where
  -- The ratings that the queries for the events yield, one query after the other.
  unfoldable pub ratings_read : List String → W → List ℕ
  ratings_read [] w = []
  ratings_read (id ∷ ids) w =
      let (iter, w') = session.select_ratings id w in iter.rows ++ ratings_read ids w'

  add_events_lem :
      (s : ReviewStats) (ids : List String) (w : W) (r : ReviewStats)
      → InRange s
      → (add_events session s ids w).0 ≡ ok r
      → (r.count ≡ (s.count + length (ratings_read ids w)) % two64)
        × (r.sum ≡ (s.sum + sum_of_ratings (ratings_read ids w)) % two64)
  unfolding add_events ratings_read sum_of_ratings
  add_events_lem s [] w r (c, t) done = ground arith
  add_events_lem s (id ∷ ids) w r h done =
      let iter = (session.select_ratings id w).0 in
      let w' = (session.select_ratings id w).1 in
      elim (Option-cases iter.close) [
        | inr (e, failed) ↦ ground arith
        | inl closed ↦
            let added =
              add_events_lem (add_ratings s iter.rows) ids w' r (add_ratings-InRange s iter.rows h)
                (rw closed at done) in
            ground (
              arith,
              added.0,
              added.1,
              count-add_ratings s iter.rows h,
              sum-add_ratings s iter.rows h,
              length-append iter.rows (ratings_read ids w'),
              sum_of_ratings-append iter.rows (ratings_read ids w'),
            )
      ]

  -- The statistics of a successful GetReviewStatsByEventIDs are the number of the rows of the
  -- events and the sum of their ratings, as int64 values.
  pub get_review_stats_by_event_ids_lem :
      (ids : List String) (w : W) (r : ReviewStats)
      → (get_review_stats_by_event_ids session ids w).0 ≡ ok r
      → (r.count ≡ length (ratings_read ids w) % two64)
        × (r.sum ≡ sum_of_ratings (ratings_read ids w) % two64)
  unfolding get_review_stats_by_event_ids
  get_review_stats_by_event_ids_lem ids w r done =
      let added = add_events_lem no_stats ids w r (omega arith, omega arith) done in
      ground (arith, added.0, added.1)
