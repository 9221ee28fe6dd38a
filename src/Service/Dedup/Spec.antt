-- ===== src/Service/Dedup/Spec.antt =====
-- A description of deduplicateByTitle, of internal/service/recommendation.go, without indices: each
-- event is merged into the list, in the place of the one with its title if it starts earlier.
use mathlib.Core.Path.{subst}
use ndbx.Prelude.{
  ◌≤◌, ◌≡◌, ◌≢◌, ◌⊎◌, inl, inr, refl, sym, String, List, [], ◌∷◌, ◌==◌, eq_iff, All, In,
  if◌then◌else◌, arith, Bool-cases,
}
use ndbx.GoTime.{before}
use ndbx.Service.{EventData}

unfoldable pub earlier : EventData → EventData → EventData
earlier event old = if before event.started_at old.started_at then event else old

unfoldable pub merge : EventData → List EventData → List EventData
unfolding earlier
merge event [] = event ∷ []
merge event (old ∷ rest) =
    if old.title == event.title then earlier event old ∷ rest else old ∷ merge event rest

unfoldable pub merge_all : List EventData → List EventData → List EventData
unfolding merge
merge_all result [] = result
merge_all result (event ∷ events) = merge_all (merge event result) events

abbrev pub Untitled : String → List EventData → Type 0
Untitled title = All (λ e. e.title ≢ title)

-- No two events have one title.
abbrev pub DistinctTitles : List EventData → Type 0
DistinctTitles [] = Unit
DistinctTitles (e ∷ es) = Untitled e.title es × DistinctTitles es

-- Some event of the list has this one's title, and starts no later.
abbrev pub Covered : EventData → List EventData → Type 0
Covered e [] = ⊥
Covered e (r ∷ rs) =
    ((r.title ≡ e.title) × (r.started_at.nanos ≤ e.started_at.nanos)) ⊎ Covered e rs

merge-Untitled :
    (title : String) (event : EventData) (rs : List EventData)
    → event.title ≢ title
    → Untitled title rs
    → Untitled title (merge event rs)
unfolding merge
merge-Untitled title event [] ne h = (ne, tt)
merge-Untitled title event (r ∷ rs) ne (p, h) = ground (arith, merge-Untitled title event rs ne h)

title-earlier :
    (event old : EventData) → old.title ≡ event.title → (earlier event old).title ≡ old.title
unfolding earlier
title-earlier event old same = ground arith

merge-DistinctTitles :
    (event : EventData) (rs : List EventData) → DistinctTitles rs → DistinctTitles (merge event rs)
unfolding merge
merge-DistinctTitles event [] h = (tt, tt)
merge-DistinctTitles event (r ∷ rs) (p, h) = elim (Bool-cases (r.title == event.title)) [
  | inl same ↦
      rw same (subst (λ t. Untitled t rs) (sym (title-earlier event r ((eq_iff _ _).0 same))) p, h)
  | inr other ↦ rw other (
    merge-Untitled r.title event rs (λ e. cc (other, (eq_iff r.title event.title).1 (sym e))) p,
    merge-DistinctTitles event rs h,
  )
]

merge-covers_self : (event : EventData) (rs : List EventData) → Covered event (merge event rs)
unfolding merge
merge-covers_self event [] = inl (refl, omega arith)
merge-covers_self event (r ∷ rs) =
    ground (arith, eq_iff r.title event.title, merge-covers_self event rs)

merge-Covered :
    (e event : EventData) (rs : List EventData) → Covered e rs → Covered e (merge event rs)
unfolding merge
merge-Covered e event [] h = absurd h
merge-Covered e event (r ∷ rs) (inl h) = ground (arith, eq_iff r.title event.title)
merge-Covered e event (r ∷ rs) (inr h) =
    ground (arith, eq_iff r.title event.title, merge-Covered e event rs h)

merge-All :
    (P : EventData → Type 0) (event : EventData) (rs : List EventData)
    → P event
    → All P rs
    → All P (merge event rs)
unfolding merge
merge-All P event [] p h = (p, tt)
merge-All P event (r ∷ rs) p (q, h) = ground (arith, merge-All P event rs p h)

merge_all-DistinctTitles :
    (rs events : List EventData) → DistinctTitles rs → DistinctTitles (merge_all rs events)
unfolding merge_all
merge_all-DistinctTitles rs [] h = h
merge_all-DistinctTitles rs (e ∷ es) h =
    merge_all-DistinctTitles (merge e rs) es (merge-DistinctTitles e rs h)

merge_all-All :
    (P : EventData → Type 0) (rs events : List EventData)
    → All P rs
    → All P events
    → All P (merge_all rs events)
unfolding merge_all
merge_all-All P rs [] h k = h
merge_all-All P rs (e ∷ es) h (p, k) = merge_all-All P (merge e rs) es (merge-All P e rs p h) k

merge_all-Covered :
    (e : EventData) (rs events : List EventData) → Covered e rs → Covered e (merge_all rs events)
unfolding merge_all
merge_all-Covered e rs [] h = h
merge_all-Covered e rs (x ∷ es) h = merge_all-Covered e (merge x rs) es (merge-Covered e x rs h)

merge_all-covers : (rs events : List EventData) → All (λ e. Covered e (merge_all rs events)) events
unfolding merge_all
merge_all-covers rs [] = tt
merge_all-covers rs (e ∷ es) =
    (merge_all-Covered e (merge e rs) es (merge-covers_self e rs), merge_all-covers (merge e rs) es)

All-In : (events : List EventData) → All (λ e. In e events) events
All-In events = weaken events events (λ e m. m)
  where
    weaken :
        (all es : List EventData) → ((e : EventData) → In e es → In e all) → All (λ e. In e all) es
    weaken all [] up = tt
    weaken all (e ∷ es) up = (up e (inl refl), weaken all es (λ x m. up x (inr m)))

-- What deduplication promises of its result: distinct titles, only events of the input, and for
-- each event of the input one with its title that starts no later.
pub record IsDeduplicated (events result : List EventData) : Type 0 where
  pub distinct : DistinctTitles result
  pub from_input : All (λ e. In e events) result
  pub covers : All (λ e. Covered e result) events

pub merge_all-IsDeduplicated :
    (events : List EventData) → IsDeduplicated events (merge_all [] events)
merge_all-IsDeduplicated events = record {
  distinct = merge_all-DistinctTitles [] events tt;
  from_input = merge_all-All (λ e. In e events) [] events tt (All-In events);
  covers = merge_all-covers [] events;
}
