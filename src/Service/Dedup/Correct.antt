-- ===== src/Service/Dedup/Correct.antt =====
-- The loop of deduplicateByTitle, of internal/service/recommendation.go, with its map of indices, and
-- the description without indices.
use ndbx.Prelude.{
  ℕ, zero, suc, ◌≡◌, ◌≢◌, inl, inr, refl, sym, ap, ◌∙◌, String, Option, none, some, List, [], ◌∷◌,
  ◌++◌, ◌==◌, eq_iff, if◌then◌else◌, arith, Option-cases, lookup, insert, lookup-insert, length,
  get_elem?, set,
}
use ndbx.GoTime.{before}
use ndbx.Service.{EventData}
use ndbx.Service.Dedup.{
  Progress, replace_if_earlier, dedup_step, dedup_loop, deduplicate_by_title, result_of,
}
use ndbx.Service.Dedup.Spec.{earlier, merge, merge_all, IsDeduplicated, merge_all-IsDeduplicated}

abbrev next : Option ℕ → Option ℕ
next none = none
next (some i) = some (suc i)

-- Where the first event with a title stands.
index_of : String → List EventData → Option ℕ
index_of title [] = none
index_of title (r ∷ rs) = if r.title == title then some 0 else next (index_of title rs)

merge_of_found :
    (event : EventData) (rs : List EventData) (i : ℕ)
    → index_of event.title rs ≡ some i
    → (old : EventData) × (get_elem? rs i ≡ some old)
      × ((if before event.started_at old.started_at then set rs i event else rs) ≡ merge event rs)
unfolding index_of merge earlier
merge_of_found event [] i h = cc
merge_of_found event (r ∷ rs) zero h = (r, refl, ground arith)
merge_of_found event (r ∷ rs) (suc i) h =
    let found : index_of event.title rs ≡ some i = ground arith in
    let (old, here, same) = merge_of_found event rs i found in (old, here, ground arith)

merge_of_missing :
    (event : EventData) (rs : List EventData)
    → index_of event.title rs ≡ none
    → merge event rs ≡ rs ++ event ∷ []
unfolding index_of merge
merge_of_missing event [] h = refl
merge_of_missing event (r ∷ rs) h = ground (arith, merge_of_missing event rs)

index_of-merge :
    (title : String) (event : EventData) (rs : List EventData)
    → index_of event.title rs ≢ none
    → index_of title (merge event rs) ≡ index_of title rs
unfolding index_of merge earlier
index_of-merge title event [] h = absurd (h refl)
index_of-merge title event (r ∷ rs) h = ground (
  arith,
  eq_iff r.title event.title,
  eq_iff r.title title,
  eq_iff event.title title,
  index_of-merge title event rs,
)

index_of-append :
    (title : String) (event : EventData) (rs : List EventData)
    → index_of event.title rs ≡ none
    → index_of title (rs ++ event ∷ [])
      ≡ (if event.title == title then some (length rs) else index_of title rs)
unfolding index_of
index_of-append title event [] h = refl
index_of-append title event (r ∷ rs) h = ground (
  arith,
  eq_iff r.title event.title,
  eq_iff r.title title,
  eq_iff event.title title,
  index_of-append title event rs,
)

-- The map gives for each title the index of its event.
abbrev Agrees : Progress → Type 0
Agrees p = (title : String) → lookup title p.seen ≡ index_of title p.result

-- A step succeeds, merges its event, and keeps the map right.
dedup_step-merges :
    (p : Progress) (event : EventData)
    → Agrees p
    → (p' : Progress) × (dedup_step p event ≡ some p')
      × (p'.result ≡ merge event p.result)
      × Agrees p'
unfolding dedup_step
dedup_step-merges p event agrees = elim (Option-cases (lookup event.title p.seen)) [
  | inl missing ↦
      let absent = sym (agrees event.title) ∙ missing in
      let p' : Progress = record {
        seen = insert event.title (length p.result) p.seen;
        result = p.result ++ event ∷ [];
      } in
      (
        p',
        rw (missing, dedup_step),
        sym (merge_of_missing event p.result absent),
        λ title.
            lookup-insert event.title title (length p.result) p.seen
            ∙ ap (λ o. if event.title == title then some (length p.result) else o) (agrees title)
            ∙ sym (index_of-append title event p.result absent),
      )
  | inr (i, found) ↦
      let there = sym (agrees event.title) ∙ found in
      let (old, here, same) = merge_of_found event p.result i there in
      let p' : Progress = record { seen = p.seen; result = merge event p.result } in
      (
        p',
        rw (found, dedup_step) (rw (here, replace_if_earlier) (ground (arith, same))),
        refl,
        λ title. agrees title ∙ sym (index_of-merge title event p.result (λ e. cc)),
      )
]

dedup_loop-merge_all :
    (p : Progress) (events : List EventData)
    → Agrees p
    → result_of (dedup_loop p events) ≡ some (merge_all p.result events)
unfolding dedup_loop merge_all
dedup_loop-merge_all p [] agrees = refl
dedup_loop-merge_all p (e ∷ es) agrees =
    let (p', step, merged, agrees') = dedup_step-merges p e agrees in
    rw (step, dedup_loop) (rw (← merged) (dedup_loop-merge_all p' es agrees'))

-- deduplicateByTitle never indexes out of range, and its result has distinct titles, holds only
-- events of its input, and has for each event of its input one with its title that starts no later.
pub deduplicate_by_title-IsDeduplicated :
    (events : List EventData)
    → (result : List EventData) × (deduplicate_by_title events ≡ some result)
      × IsDeduplicated events result
unfolding deduplicate_by_title index_of lookup
deduplicate_by_title-IsDeduplicated events = (
  merge_all [] events,
  dedup_loop-merge_all (record { seen = []; result = [] }) events (λ title. refl),
  merge_all-IsDeduplicated events,
)
