-- ===== src/Ogen/Texts.antt =====
-- The steps of the generated router of internal/router/ogen/oas_router_gen.go on the rest of a path.
-- Its bytes are the code points of the model: the characters that it looks for are ASCII.
use Prim.Native.Char.{Char, code}
use Prim.Native.String.{[], ◌∷◌}
use text.Mathlib.TextLemmas.{nil-append, cons-append}
use text.Mathlib.TextEquality.{Char-path}
use ndbx.Prelude.{
  ℕ, String, text_append, ◌≡◌, refl, Bool, true, false, Option, none, some, nat_eq, arith, ◌||◌,
  sym, ap, ◌∙◌, if◌then◌else◌, inl, inr, Bool-cases,
}
use ndbx.GoStrings.Laws.{Free}

-- len(elem) == 0
abbrev pub is_empty : String → Bool
is_empty [] = true
is_empty (c ∷ s) = false

-- the case of `switch elem[0]` for a byte
unfoldable pub first_is : ℕ → String → Bool
first_is b [] = false
first_is b (c ∷ s) = nat_eq (code c) b

-- if l := len(p); len(elem) >= l && elem[0:l] == p { elem = elem[l:] } else { break }
unfoldable pub cut : String → String → Option String
cut s [] = some s
cut [] (p ∷ prefix) = none
cut (c ∷ s) (p ∷ prefix) = if nat_eq (code c) (code p) then cut s prefix else none

-- elem[:idx] and elem[idx:], where idx is that of the first slash, or len(elem)
unfoldable pub before_slash : String → String
before_slash [] = []
before_slash (c ∷ s) = let rest = before_slash s in if nat_eq (code c) b'/' then [] else c ∷ rest

unfoldable pub from_slash : String → String
from_slash [] = []
from_slash (c ∷ s) = if nat_eq (code c) b'/' then c ∷ s else from_slash s

-- strings.IndexByte(elem, '/') >= 0
unfoldable pub has_slash : String → Bool
has_slash [] = false
has_slash (c ∷ s) = nat_eq (code c) b'/' || has_slash s

-- A text without a slash.
abbrev pub IsSegment : String → Type 0
IsSegment s = Free b'/' s

pub cut-append : (p s : String) → cut (text_append p s) p ≡ some s
unfolding cut
cut-append [] s = rw (nil-append s) refl
cut-append (c ∷ p) s = rw (cons-append c p s) (ground (arith, cut-append p s))

some_same : {s t : String} → some s ≡ some t → s ≡ t
some_same e = ground arith

same_cons : (d c : Char) (s t : String) → d ≡ c → s ≡ t → d ∷ s ≡ c ∷ t
same_cons d c s t head tail = rw (head, tail) refl

pub cut-some : (p s rest : String) → cut s p ≡ some rest → s ≡ text_append p rest
unfolding cut
cut-some [] s rest e = rw (nil-append rest) (some_same e)
cut-some (c ∷ p) [] rest e = ground arith
cut-some (c ∷ p) (d ∷ s) rest e = elim (Bool-cases (nat_eq (code d) (code c))) [
  | inr other ↦ ground arith
  | inl same ↦ rw (cons-append c p rest) (
      same_cons d c s (text_append p rest) (Char-path d c (ground arith))
        (cut-some p s rest (rw same at e)))
]

pub is_empty-true : (s : String) → is_empty s ≡ true → s ≡ ""
is_empty-true [] e = refl
is_empty-true (c ∷ s) e = ground arith

pub before_slash-append :
    (x s : String) → IsSegment x → before_slash (text_append x (text_append "/" s)) ≡ x
unfolding before_slash
before_slash-append [] s free = rw (nil-append (text_append "/" s), cons-append "/" [] s) refl
before_slash-append (c ∷ x) s (ne, free) =
    rw (cons-append c x (text_append "/" s)) (ground (arith, before_slash-append x s free))

pub from_slash-append :
    (x s : String)
    → IsSegment x
    → from_slash (text_append x (text_append "/" s)) ≡ text_append "/" s
unfolding from_slash
from_slash-append [] s free = rw (nil-append (text_append "/" s), cons-append "/" [] s) refl
from_slash-append (c ∷ x) s (ne, free) =
    rw (cons-append c x (text_append "/" s)) (ground (arith, from_slash-append x s free))

pub before_slash_whole : (x : String) → IsSegment x → before_slash x ≡ x
unfolding before_slash
before_slash_whole [] free = refl
before_slash_whole (c ∷ x) (ne, free) = ground (arith, before_slash_whole x free)

pub from_slash_whole : (x : String) → IsSegment x → from_slash x ≡ ""
unfolding from_slash
from_slash_whole [] free = refl
from_slash_whole (c ∷ x) (ne, free) = ground (arith, from_slash_whole x free)

pub before_slash-IsSegment : (s : String) → IsSegment (before_slash s)
unfolding before_slash
before_slash-IsSegment [] = tt
before_slash-IsSegment (c ∷ s) = elim (Bool-cases (nat_eq (code c) b'/')) [
  | inl here ↦ rw here tt
  | inr other ↦ rw other (ground arith, before_slash-IsSegment s)
]

pub slash_parts : (s : String) → s ≡ text_append (before_slash s) (from_slash s)
unfolding before_slash from_slash
slash_parts [] = sym (nil-append [])
slash_parts (c ∷ s) = elim (Bool-cases (nat_eq (code c) b'/')) [
  | inl here ↦ rw here (sym (nil-append (c ∷ s)))
  | inr other ↦
      rw other
        (ap (λ t. c ∷ t) (slash_parts s) ∙ sym (cons-append c (before_slash s) (from_slash s)))
]

pub has_slash-IsSegment : (s : String) → has_slash s ≡ false → IsSegment s
unfolding has_slash
has_slash-IsSegment [] e = tt
has_slash-IsSegment (c ∷ s) e = (ground arith, has_slash-IsSegment s (ground arith))

pub IsSegment-has_slash : (s : String) → IsSegment s → has_slash s ≡ false
unfolding has_slash
IsSegment-has_slash [] free = refl
IsSegment-has_slash (c ∷ s) (ne, free) = ground (arith, IsSegment-has_slash s free)

pub first_is-append :
    (b : ℕ) (p s : String) → is_empty p ≡ false → first_is b (text_append p s) ≡ first_is b p
unfolding first_is
first_is-append b [] s e = ground arith
first_is-append b (c ∷ p) s e = rw (cons-append c p s) refl

pub is_empty-append : (p s : String) → is_empty p ≡ false → is_empty (text_append p s) ≡ false
is_empty-append [] s e = ground arith
is_empty-append (c ∷ p) s e = rw (cons-append c p s) refl
