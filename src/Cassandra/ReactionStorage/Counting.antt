-- ===== src/Cassandra/ReactionStorage/Counting.antt =====
-- What the loops over the rows in internal/storage/cassandra/reaction.go count.
use ndbx.Prelude.{
  Option-cases, inl, inr, suc, ℕ, ◌+◌, ◌%◌, ◌<◌, ◌≡◌, List, [], ◌∷◌, ◌++◌, nat_eq, if◌then◌else◌,
  arith, String,
}
use ndbx.Prelude.Words.{two64}
use ndbx.Exec.{ok}
use ndbx.Cassandra.{CassandraSession, ReactionCounts}
use ndbx.Cassandra.ReactionStorage.{
  like_value, dislike_value, no_counts, count_row, count_rows, count_events, count_by_event_ids,
}

-- How often a value stands among the rows.
unfoldable pub occurrences : ℕ → List ℕ → ℕ
occurrences v [] = 0
occurrences v (x ∷ xs) = let rest = occurrences v xs in if nat_eq x v then suc rest else rest

abbrev InRange : ReactionCounts → Type 0
InRange c = (c.likes < two64) × (c.dislikes < two64)

count_row-InRange : (c : ReactionCounts) (v : ℕ) → InRange c → InRange (count_row c v)
unfolding count_row
count_row-InRange c v (l, d) = ground arith

likes-count_rows :
    (c : ReactionCounts) (rows : List ℕ)
    → InRange c
    → (count_rows c rows).likes ≡ (c.likes + occurrences like_value rows) % two64
unfolding count_rows count_row occurrences
likes-count_rows c [] (l, d) = omega arith
likes-count_rows c (v ∷ rows) (l, d) =
    ground (arith, likes-count_rows (count_row c v) rows (count_row-InRange c v (l, d)))

dislikes-count_rows :
    (c : ReactionCounts) (rows : List ℕ)
    → InRange c
    → (count_rows c rows).dislikes ≡ (c.dislikes + occurrences dislike_value rows) % two64
unfolding count_rows count_row occurrences
dislikes-count_rows c [] (l, d) = omega arith
dislikes-count_rows c (v ∷ rows) (l, d) =
    ground (arith, dislikes-count_rows (count_row c v) rows (count_row-InRange c v (l, d)))

count_rows-InRange : (c : ReactionCounts) (rows : List ℕ) → InRange c → InRange (count_rows c rows)
unfolding count_rows
count_rows-InRange c [] h = h
count_rows-InRange c (v ∷ rows) h =
    count_rows-InRange (count_row c v) rows (count_row-InRange c v h)

occurrences-append :
    (v : ℕ) (xs ys : List ℕ) → occurrences v (xs ++ ys) ≡ occurrences v xs + occurrences v ys
unfolding occurrences
occurrences-append v [] ys = omega arith
occurrences-append v (x ∷ xs) ys = ground (arith, occurrences-append v xs ys)

module _ {W : Type 0} (session : CassandraSession W) where
  -- The rows that the queries for the events yield, one query after the other.
  unfoldable pub rows_read : List String → W → List ℕ
  rows_read [] w = []
  rows_read (id ∷ ids) w =
      let (iter, w') = session.select_like_values id w in iter.rows ++ rows_read ids w'

  count_events_lem :
      (c : ReactionCounts) (ids : List String) (w : W) (r : ReactionCounts)
      → InRange c
      → (count_events session c ids w).0 ≡ ok r
      → (r.likes ≡ (c.likes + occurrences like_value (rows_read ids w)) % two64)
        × (r.dislikes ≡ (c.dislikes + occurrences dislike_value (rows_read ids w)) % two64)
  unfolding count_events rows_read occurrences
  count_events_lem c [] w r (l, d) done = ground (arith)
  count_events_lem c (id ∷ ids) w r h done =
      let iter = (session.select_like_values id w).0 in
      let w' = (session.select_like_values id w).1 in
      elim (Option-cases iter.close) [
        | inr (e, failed) ↦ ground arith
        | inl closed ↦
            let counted =
              count_events_lem (count_rows c iter.rows) ids w' r (count_rows-InRange c iter.rows h)
                (rw closed at done) in
            ground (
              arith,
              counted.0,
              counted.1,
              likes-count_rows c iter.rows h,
              dislikes-count_rows c iter.rows h,
              occurrences-append like_value iter.rows (rows_read ids w'),
              occurrences-append dislike_value iter.rows (rows_read ids w'),
            )
      ]

  -- The counts of a successful CountByEventIDs are the numbers of rows 1 and -1 among all the rows
  -- of the events, as int64 values.
  pub count_by_event_ids_lem :
      (ids : List String) (w : W) (r : ReactionCounts)
      → (count_by_event_ids session ids w).0 ≡ ok r
      → (r.likes ≡ occurrences like_value (rows_read ids w) % two64)
        × (r.dislikes ≡ occurrences dislike_value (rows_read ids w) % two64)
  unfolding count_by_event_ids
  count_by_event_ids_lem ids w r done =
      let counted = count_events_lem no_counts ids w r (omega arith, omega arith) done in
      ground (arith, counted.0, counted.1)
