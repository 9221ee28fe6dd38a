-- ===== src/Service/Dedup.antt =====
-- deduplicateByTitle of internal/service/recommendation.go. `none` would be the panic of an index
-- out of range.
pub mod Spec
pub mod Correct
use ndbx.Prelude.{
  ℕ, String, Bool, Option, none, some, List, [], ◌∷◌, ◌++◌, ◌==◌, lookup, insert, length, get_elem?,
  set, if◌then◌else◌,
}
use ndbx.GoTime.{before}
use ndbx.Service.{EventData}

-- The two locals of the loop: the index in the result of each title that was seen, and the result.
pub record Progress : Type 0 where
  pub seen : List (String × ℕ)
  pub result : List EventData

-- The body for a title that was seen: the earlier event takes the place.
unfoldable pub replace_if_earlier : Progress → EventData → ℕ → Option Progress
replace_if_earlier p event idx = elim (get_elem? p.result idx) [
  | none ↦ none
  | some old ↦ some (
      if before event.started_at old.started_at
      then record p { result = set p.result idx event }
      else p)
]

-- The body of the loop.
unfoldable pub dedup_step : Progress → EventData → Option Progress
unfolding replace_if_earlier
dedup_step p event = elim (lookup event.title p.seen) [
  | some idx ↦ replace_if_earlier p event idx
  | none ↦ some (record {
    seen = insert event.title (length p.result) p.seen;
    result = p.result ++ event ∷ [];
  })
]

unfoldable pub dedup_loop : Progress → List EventData → Option Progress
unfolding dedup_step
dedup_loop p [] = some p
dedup_loop p (event ∷ events) = elim (dedup_step p event) [
  | none ↦ none
  | some p' ↦ dedup_loop p' events
]

abbrev pub result_of : Option Progress → Option (List EventData)
result_of none = none
result_of (some p) = some p.result

unfoldable pub deduplicate_by_title : List EventData → Option (List EventData)
unfolding dedup_loop
deduplicate_by_title events = result_of (dedup_loop (record { seen = []; result = [] }) events)
