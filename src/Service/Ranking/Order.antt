-- ===== src/Service/Ranking/Order.antt =====
-- The order of the ranked recommendations, of internal/service/recommendation.go, and their scores.
use mathlib.Core.Path.{subst, fun_ext}
use mathlib.Core.List.{append-nil, append_assoc}
use ndbx.Prelude.{
  ℕ, ◌+◌, ◌%◌, ◌≤◌, ◌<◌, ◌≡◌, refl, sym, ap, ◌∙◌, Bool, String, List, [], ◌∷◌, ◌++◌, ◌==◌, eq_iff,
  lookup, insert, lookup-insert, ltb, nat_eq, if◌then◌else◌, arith, Bool-cases, All, All-map, inl,
  inr,
}
use ndbx.Prelude.Words.{two63, two64, add64}
use ndbx.Graph.{RecommendedEvent}
use ndbx.Service.{EventData}
use ndbx.Service.Ranking.{
  score_or_zero, add_scores, title_score, insert_stable, sort_into, sort_stable, scores_higher,
  rank,
}

-- The sum of the scores of a title, as an int64.
unfoldable pub sum_of_scores : String → List RecommendedEvent → ℕ
sum_of_scores title [] = 0
sum_of_scores title (rec ∷ recs) =
    let rest = sum_of_scores title recs in if rec.title == title then add64 rec.score rest else rest

module _ {A : Type 0} (key : A → ℕ) where
  -- Higher keys come first.
  abbrev pub higher : A → A → Bool
  higher a b = ltb (key b) (key a)

  abbrev pub IsSorted : List A → Type 0
  IsSorted [] = Unit
  IsSorted (x ∷ xs) = All (λ y. key y ≤ key x) xs × IsSorted xs

  -- The elements with a key, in their order.
  abbrev pub with_key : ℕ → List A → List A
  with_key k [] = []
  with_key k (x ∷ xs) = if nat_eq (key x) k then x ∷ with_key k xs else with_key k xs

  insert-All :
      (n : ℕ) (a : A) (xs : List A)
      → key a ≤ n
      → All (λ y. key y ≤ n) xs
      → All (λ y. key y ≤ n) (insert_stable higher a xs)
  unfolding insert_stable
  insert-All n a [] h k = (h, tt)
  insert-All n a (x ∷ xs) h (p, k) = ground (arith, insert-All n a xs h k)

  All-weaken : (m n : ℕ) (xs : List A) → n ≤ m → All (λ y. key y ≤ n) xs → All (λ y. key y ≤ m) xs
  All-weaken m n [] h k = tt
  All-weaken m n (x ∷ xs) h (p, k) = (omega arith, All-weaken m n xs h k)

  insert-IsSorted : (a : A) (xs : List A) → IsSorted xs → IsSorted (insert_stable higher a xs)
  unfolding insert_stable
  insert-IsSorted a [] h = (tt, tt)
  insert-IsSorted a (x ∷ xs) (p, h) = elim (Bool-cases (higher a x)) [
    | inl first ↦
        let le : key x ≤ key a = ground arith in
        rw first ((le, All-weaken (key a) (key x) xs le p), (p, h))
    | inr later ↦ rw later (insert-All (key x) a xs (ground arith) p, insert-IsSorted a xs h)
  ]

  with_key-nil : (k : ℕ) (xs : List A) → All (λ y. key y < k) xs → with_key k xs ≡ []
  with_key-nil k [] h = refl
  with_key-nil k (x ∷ xs) (p, h) = ground (arith, with_key-nil k xs h)

  before-All :
      (k : ℕ) (a x : A) (xs : List A)
      → All (λ y. key y ≤ key x) xs
      → key x < key a
      → with_key k (a ∷ x ∷ xs) ≡ with_key k (x ∷ xs) ++ with_key k (a ∷ [])
  before-All k a x xs p lt = elim (Bool-cases (nat_eq (key a) k)) [
    | inl same ↦
        let under : key x < k = ground arith in
        let e =
          with_key-nil k (x ∷ xs)
            (under, All-map (λ y. key y ≤ key x) (λ y. key y < k) (λ y le. omega arith) xs p) in
        rw same (rw e refl)
    | inr other ↦ rw other (sym (append-nil _))
  ]

  after_first :
      (k : ℕ) (a x : A) (xs : List A)
      → with_key k (insert_stable higher a xs) ≡ with_key k xs ++ with_key k (a ∷ [])
      → with_key k (x ∷ insert_stable higher a xs) ≡ with_key k (x ∷ xs) ++ with_key k (a ∷ [])
  after_first k a x xs ih = elim (Bool-cases (nat_eq (key x) k)) [
    | inl same ↦ rw same (ap (λ l. x ∷ l) ih)
    | inr other ↦ rw other ih
  ]

  -- An inserted element comes after the elements with its key.
  with_key-insert :
      (k : ℕ) (a : A) (xs : List A)
      → IsSorted xs
      → with_key k (insert_stable higher a xs) ≡ with_key k xs ++ with_key k (a ∷ [])
  unfolding insert_stable
  with_key-insert k a [] h = refl
  with_key-insert k a (x ∷ xs) (p, h) = elim (Bool-cases (higher a x)) [
    | inl first ↦ rw first (before-All k a x xs p (ground arith))
    | inr later ↦ rw later (after_first k a x xs (with_key-insert k a xs h))
  ]

  sort_into-IsSorted :
      (sorted rest : List A) → IsSorted sorted → IsSorted (sort_into higher sorted rest)
  unfolding sort_into
  sort_into-IsSorted sorted [] h = h
  sort_into-IsSorted sorted (a ∷ rest) h =
      sort_into-IsSorted (insert_stable higher a sorted) rest (insert-IsSorted a sorted h)

  with_key-cons :
      (k : ℕ) (a : A) (rest : List A)
      → with_key k (a ∷ rest) ≡ with_key k (a ∷ []) ++ with_key k rest
  with_key-cons k a rest = elim (Bool-cases (nat_eq (key a) k)) [
    | inl same ↦ rw same
    | inr other ↦ rw other
  ]

  with_key-sort_into :
      (k : ℕ) (sorted rest : List A)
      → IsSorted sorted
      → with_key k (sort_into higher sorted rest) ≡ with_key k sorted ++ with_key k rest
  unfolding sort_into
  with_key-sort_into k sorted [] h = sym (append-nil _)
  with_key-sort_into k sorted (a ∷ rest) h =
      with_key-sort_into k (insert_stable higher a sorted) rest (insert-IsSorted a sorted h)
      ∙ ap (λ l. l ++ with_key k rest) (with_key-insert k a sorted h)
      ∙ append_assoc (with_key k sorted) (with_key k (a ∷ [])) (with_key k rest)
      ∙ ap (λ l. with_key k sorted ++ l) (sym (with_key-cons k a rest))

  -- The result is in order, and has the same elements with each key, in the same order.
  pub sort_stable_lem :
      (xs : List A)
      → IsSorted (sort_stable higher xs)
        × ((k : ℕ) → with_key k (sort_stable higher xs) ≡ with_key k xs)
  unfolding sort_stable
  sort_stable_lem xs = (sort_into-IsSorted [] xs tt, λ k. with_key-sort_into k [] xs tt)

-- The order of int64 values.
abbrev pub signed : ℕ → ℕ
signed a = (a + two63) % two64

abbrev pub event_key : List RecommendedEvent → EventData → ℕ
event_key recommended e = signed (sum_of_scores e.title recommended)

-- The map after one more score.
score-insert :
    (m : List (String × ℕ)) (rec : RecommendedEvent) (title : String)
    → score_or_zero
        (lookup title (insert rec.title (add64 (score_or_zero (lookup rec.title m)) rec.score) m))
      ≡ (if rec.title == title
          then add64 (score_or_zero (lookup title m)) rec.score
          else score_or_zero (lookup title m))
score-insert m rec title = rw lookup-insert (elim (Bool-cases (rec.title == title)) [
  | inl same ↦
      rw same (ap (λ t. add64 (score_or_zero (lookup t m)) rec.score) ((eq_iff _ _).0 same))
  | inr other ↦ rw other
])

add64_assoc : (a b c : ℕ) → add64 (add64 a b) c ≡ add64 a (add64 b c)
add64_assoc a b c = omega arith

add_scores_lem :
    (m : List (String × ℕ)) (recs : List RecommendedEvent) (title : String)
    → score_or_zero (lookup title m) < two64
    → score_or_zero (lookup title (add_scores m recs))
      ≡ add64 (score_or_zero (lookup title m)) (sum_of_scores title recs)
unfolding add_scores sum_of_scores
add_scores_lem m [] title h = omega arith
add_scores_lem m (rec ∷ recs) title h =
    let m' = insert rec.title (add64 (score_or_zero (lookup rec.title m)) rec.score) m in
    let now = score-insert m rec title in
    elim (Bool-cases (rec.title == title)) [
      | inl same ↦
          let now' = rw same at now in
          add_scores_lem m' recs title (rw now' (omega arith))
          ∙ ap (λ (n : ℕ). add64 n (sum_of_scores title recs)) now'
          ∙ rw same
              (add64_assoc (score_or_zero (lookup title m)) rec.score (sum_of_scores title recs))
      | inr other ↦
          let now' = rw other at now in
          add_scores_lem m' recs title (rw now' h)
          ∙ ap (λ (n : ℕ). add64 n (sum_of_scores title recs)) now'
          ∙ rw other
    ]

sum_of_scores-lt :
    (title : String) (recs : List RecommendedEvent) → sum_of_scores title recs < two64
unfolding sum_of_scores
sum_of_scores-lt title [] = omega arith
sum_of_scores-lt title (rec ∷ recs) = elim (Bool-cases (rec.title == title)) [
  | inl same ↦ rw same (omega arith)
  | inr other ↦ rw other (sum_of_scores-lt title recs)
]

-- The loop over the recommendations gives each title the sum of its scores, as an int64, and 0 to a
-- title that has none.
title_score_lem :
    (recs : List RecommendedEvent) (title : String)
    → title_score recs title ≡ sum_of_scores title recs
unfolding title_score lookup
title_score_lem recs title =
    add_scores_lem [] recs title (omega arith) ∙ omega (arith, sum_of_scores-lt title recs)

-- The ranked events stand in falling order of the sums of their titles' scores, and those with one
-- sum are the same as before, in the order that they had.
pub rank_lem :
    (recs : List RecommendedEvent) (events : List EventData)
    → IsSorted (event_key recs) (rank recs events)
      × ((k : ℕ)
          → with_key (event_key recs) k (rank recs events) ≡ with_key (event_key recs) k events)
unfolding rank
rank_lem recs events =
    subst {A = String → ℕ}
      (λ score.
        IsSorted (event_key recs) (sort_stable (scores_higher score) events)
        × ((k : ℕ)
            → with_key (event_key recs) k (sort_stable (scores_higher score) events)
              ≡ with_key (event_key recs) k events))
      (sym (fun_ext (title_score_lem recs))) (sort_stable_lem (event_key recs) events)
