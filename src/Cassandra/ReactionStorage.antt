-- ===== src/Cassandra/ReactionStorage.antt =====
-- internal/storage/cassandra/reaction.go. A like value is an int8: 1, or -1 as the pattern 255.
pub mod Counting
use ndbx.Prelude.{ℕ, String, none, some, List, [], ◌∷◌, nat_eq, if◌then◌else◌}
use ndbx.Prelude.Words.{add64}
use ndbx.Errors.{Err, wrap}
use ndbx.Exec.{Exec, pure, fail, always, wrapping, ◌>>=◌}
use ndbx.GoTime.{Time, utc}
use ndbx.Cassandra.{CassandraSession, ReactionCounts}

abbrev pub like_value : ℕ
like_value = 1

abbrev pub dislike_value : ℕ
dislike_value = 255

abbrev pub no_counts : ReactionCounts
no_counts = record { likes = 0; dislikes = 0 }

-- The switch on a row's value.
unfoldable pub count_row : ReactionCounts → ℕ → ReactionCounts
count_row counts v =
    if nat_eq v like_value
    then record counts { likes = add64 counts.likes 1 }
    else if nat_eq v dislike_value
    then record counts { dislikes = add64 counts.dislikes 1 }
    else counts

unfoldable pub count_rows : ReactionCounts → List ℕ → ReactionCounts
count_rows counts [] = counts
count_rows counts (v ∷ rows) = count_rows (count_row counts v) rows

module _ {W : Type 0} (session : CassandraSession W) where
  unfoldable pub upsert_reaction : String → String → ℕ → Time → Exec Err W (Unit {0})
  upsert_reaction event_id user_id value created_at =
      wrapping "upsert reaction" (session.insert_reaction event_id user_id value (utc created_at))

  -- The loop over the event ids, from the counts so far.
  unfoldable pub count_events : ReactionCounts → List String → Exec Err W ReactionCounts
  count_events counts [] = pure counts
  count_events counts (event_id ∷ ids) = do
    iter ← always (session.select_like_values event_id)
    elim iter.close [
      | none ↦ count_events (count_rows counts iter.rows) ids
      | some e ↦ fail (wrap "iterate reactions by event id" e)
    ]

  unfoldable pub count_by_event_ids : List String → Exec Err W ReactionCounts
  count_by_event_ids ids = count_events no_counts ids
