-- ===== src/Service/Ranking.antt =====
-- The ranking of internal/service/recommendation.go: titleScore and sort.SliceStable. The stable
-- sort of Go's standard library is modelled by insertion from the left.
pub mod Order
use ndbx.Prelude.{
  ℕ, ◌+◌, ◌%◌, String, Bool, Option, none, some, List, [], ◌∷◌, lookup, insert, ltb, if◌then◌else◌,
}
use ndbx.Prelude.Words.{add64, lt64}
use ndbx.Graph.{RecommendedEvent}
use ndbx.Service.{EventData}

-- titleScore[title], 0 for a missing title
abbrev pub score_or_zero : Option ℕ → ℕ
score_or_zero none = 0
score_or_zero (some n) = n

-- titleScore[rec.Title] += rec.Score, for each rec
unfoldable pub add_scores : List (String × ℕ) → List RecommendedEvent → List (String × ℕ)
add_scores m [] = m
add_scores m (rec ∷ recs) =
    add_scores (insert rec.title (add64 (score_or_zero (lookup rec.title m)) rec.score) m) recs

unfoldable pub title_score : List RecommendedEvent → String → ℕ
unfolding add_scores
title_score recommended title = score_or_zero (lookup title (add_scores [] recommended))

module _ {A : Type 0} (less : A → A → Bool) where
  -- After the elements that it is not less than.
  unfoldable pub insert_stable : A → List A → List A
  insert_stable a [] = a ∷ []
  insert_stable a (x ∷ xs) = if less a x then a ∷ x ∷ xs else x ∷ insert_stable a xs

  unfoldable pub sort_into : List A → List A → List A
  sort_into sorted [] = sorted
  sort_into sorted (a ∷ rest) = sort_into (insert_stable a sorted) rest

  -- sort.SliceStable
  unfoldable pub sort_stable : List A → List A
  unfolding sort_into
  sort_stable xs = sort_into [] xs

-- The order of the recommendations: higher scores first.
abbrev pub scores_higher : (String → ℕ) → EventData → EventData → Bool
scores_higher score a b = lt64 (score b.title) (score a.title)

unfoldable pub rank : List RecommendedEvent → List EventData → List EventData
rank recommended events = sort_stable (scores_higher (title_score recommended)) events
