-- ===== src/GoStrings/Laws.antt =====
-- Splitting, trimming and prefixes of joined texts, for Go's package strings.
use Prim.Native.Char.{Char, code}
use Prim.Native.String.{[], ◌∷◌}
use mathlib.Core.List
use text.Mathlib.TextLemmas.{nil-append, cons-append}
use ndbx.Prelude.{
  not, ◌&&◌, ℕ, String, text_append, ◌≡◌, ◌≢◌, refl, Bool, true, false, some, nat_eq, arith,
}
use ndbx.GoStrings.{split, is_space, trim_left, trim_right, trim_space, has_prefix, after_first}

-- No character of the text has this code.
abbrev pub Free : ℕ → String → Type 0
Free sep [] = Unit
Free sep (c ∷ s) = (code c ≢ sep) × Free sep s

-- No character of the text is a space.
abbrev pub Solid : String → Type 0
Solid [] = Unit
Solid (c ∷ s) = (is_space (code c) ≡ false) × Solid s

-- A text without the separator is the first part, up to a separator that follows.
pub split-append :
    (s : String) (d : Char) (t : String)
    → Free (code d) s
    → split (code d) (text_append s (d ∷ t)) ≡ List.◌∷◌ s (split (code d) t)
unfolding split
split-append [] d t h = rw (nil-append (d ∷ t)) (ground arith)
split-append (c ∷ s) d t (ne, h) =
    rw (cons-append c s (d ∷ t)) (ground (arith, split-append s d t h))

pub split_whole : (sep : ℕ) (s : String) → Free sep s → split sep s ≡ List.◌∷◌ s List.[]
unfolding split
split_whole sep [] h = refl
split_whole sep (c ∷ s) (ne, h) = ground (arith, split_whole sep s h)

trim_left-Solid : (s : String) → Solid s → trim_left s ≡ s
unfolding trim_left
trim_left-Solid [] h = refl
trim_left-Solid (c ∷ s) (p, h) = rw p refl

trim_right-Solid : (s : String) → Solid s → trim_right s ≡ s
unfolding trim_right
trim_right-Solid [] h = refl
trim_right-Solid (c ∷ s) (p, h) = rw (p, trim_right-Solid s h) refl

pub trim_space-Solid : (s : String) → Solid s → trim_space s ≡ s
unfolding trim_space
trim_space-Solid s h = rw (trim_left-Solid s h) (trim_right-Solid s h)

-- A space in front goes.
pub trim_space-blank : (s : String) → Solid s → trim_space (text_append " " s) ≡ s
unfolding trim_space trim_left is_space
trim_space-blank s h = rw (cons-append " " "" s, nil-append s) (trim_space-Solid s h)

pub has_prefix-append : (p s : String) → has_prefix (text_append p s) p ≡ true
unfolding has_prefix
has_prefix-append [] s = refl
has_prefix-append (c ∷ p) s = rw (cons-append c p s) (ground (arith, has_prefix-append p s))

pub after_first-append :
    (p : String) (d : Char) (s : String)
    → Free (code d) p
    → after_first (code d) (text_append p (d ∷ s)) ≡ some s
unfolding after_first
after_first-append [] d s h = rw (nil-append (d ∷ s)) (ground arith)
after_first-append (c ∷ p) d s (ne, h) =
    rw (cons-append c p (d ∷ s)) (ground (arith, after_first-append p d s h))

pub Free-append : (sep : ℕ) (s t : String) → Free sep s → Free sep t → Free sep (text_append s t)
Free-append sep [] t h k = rw (nil-append t) k
Free-append sep (c ∷ s) t (p, h) k = rw (cons-append c s t) (p, Free-append sep s t h k)

pub Solid-append : (s t : String) → Solid s → Solid t → Solid (text_append s t)
Solid-append [] t h k = rw (nil-append t) k
Solid-append (c ∷ s) t (p, h) k = rw (cons-append c s t) (p, Solid-append s t h k)

-- The tests of the two predicates, for a text that is known.
unfoldable pub is_free : ℕ → String → Bool
is_free sep [] = true
is_free sep (c ∷ s) = not (nat_eq (code c) sep) && is_free sep s

unfoldable pub is_solid : String → Bool
is_solid [] = true
is_solid (c ∷ s) = not (is_space (code c)) && is_solid s

pub is_free-Free : (sep : ℕ) (s : String) → is_free sep s ≡ true → Free sep s
unfolding is_free
is_free-Free sep [] h = tt
is_free-Free sep (c ∷ s) h = ground (arith, is_free-Free sep s)

pub is_solid-Solid : (s : String) → is_solid s ≡ true → Solid s
unfolding is_solid
is_solid-Solid [] h = tt
is_solid-Solid (c ∷ s) h = ground (arith, is_solid-Solid s)
