-- ===== src/Strconv/RoundTrip.antt =====
-- Decimal texts of int64 values, written and read.
use Prim.Native.Char.{code}
use Prim.Native.String.{[], ◌∷◌}
use native.Mathlib.Nat.{pow-suc}
use ndbx.Prelude.{
  ℕ, zero, suc, ◌+◌, ◌-◌, ◌*◌, ◌/◌, ◌%◌, ◌^◌, ◌≤◌, ◌<◌, String, ◌≡◌, refl, some, arith, ap, ◌∙◌,
  inl, inr, Bool-cases, le→leb, leb→le, Option, true, false, lt→ltb, ltb,
}
use ndbx.Prelude.Words.{two63, two64, is_neg64}
use ndbx.Strconv.{
  digit, digits_before, decimal, minus, parse_digits, magnitude, positive, negative, format_int,
  parse_int,
}

code-digit : (n : ℕ) → n < 10 → code (digit n) ≡ n + 48
unfolding digit
code-digit zero h = refl
code-digit (suc zero) h = refl
code-digit (suc (suc zero)) h = refl
code-digit (suc (suc (suc zero))) h = refl
code-digit (suc (suc (suc (suc zero)))) h = refl
code-digit (suc (suc (suc (suc (suc zero))))) h = refl
code-digit (suc (suc (suc (suc (suc (suc zero)))))) h = refl
code-digit (suc (suc (suc (suc (suc (suc (suc zero))))))) h = refl
code-digit (suc (suc (suc (suc (suc (suc (suc (suc zero)))))))) h = refl
code-digit n h = ground arith

-- Reading a digit that was written goes on with its value.
parse_digits-digit :
    (acc d : ℕ) (rest : String)
    → d < 10
    → parse_digits acc (digit d ∷ rest) ≡ parse_digits (acc * 10 + d) rest
unfolding parse_digits
parse_digits-digit acc d rest h =
    rw (code-digit d h, le→leb 48 (d + 48) (omega arith), le→leb (d + 48) 57 (omega arith))
      (ap (λ (k : ℕ). parse_digits (acc * 10 + k) rest) (omega arith))

-- Reading the digits back gives the number that they were made from.
parse_digits-digits_before :
    (fuel n : ℕ) (rest : String)
    → n < 10 ^ fuel
    → parse_digits 0 (digits_before fuel n rest) ≡ parse_digits n rest
unfolding digits_before
parse_digits-digits_before zero n rest h = ap (λ k. parse_digits k rest) (omega arith)
parse_digits-digits_before (suc fuel) n rest h = elim (Bool-cases (ltb n 10)) [
  | inl small ↦ rw small (
      parse_digits-digit 0 n rest (ground arith)
      ∙ ap (λ (k : ℕ). parse_digits k rest) (omega arith))
  | inr large ↦ rw large (
      parse_digits-digits_before fuel (n / 10) (digit (n % 10) ∷ rest)
        (let e : 10 ^ suc fuel ≡ 10 ^ fuel * 10 = pow-suc 10 fuel in omega arith)
      ∙ parse_digits-digit (n / 10) (n % 10) rest (omega arith)
      ∙ ap (λ (k : ℕ). parse_digits k rest) (omega arith))
]

-- A text that begins with a digit, or at least with no sign.
abbrev BeginsWithDigit : String → Type 0
BeginsWithDigit [] = ⊥
BeginsWithDigit (c ∷ s) = 48 ≤ code c

digit-le_code : (n : ℕ) → n < 10 → 48 ≤ code (digit n)
digit-le_code n h = rw (code-digit n h) (omega arith)

digits_before-BeginsWithDigit :
    (fuel n : ℕ) (rest : String)
    → BeginsWithDigit rest
    → BeginsWithDigit (digits_before fuel n rest)
unfolding digits_before
digits_before-BeginsWithDigit zero n rest h = h
digits_before-BeginsWithDigit (suc fuel) n rest h = elim (Bool-cases (ltb n 10)) [
  | inl small ↦ rw small (digit-le_code n (ground arith))
  | inr large ↦ rw large (
      digits_before-BeginsWithDigit fuel (n / 10) (digit (n % 10) ∷ rest)
        (digit-le_code (n % 10) (omega arith)))
]

some_digits : (n : ℕ) → BeginsWithDigit (decimal n)
unfolding decimal
some_digits n = elim (Bool-cases (ltb n 10)) [
  | inl small ↦ rw small (digit-le_code n (ground arith))
  | inr large ↦ rw large (
      digits_before-BeginsWithDigit 19 (n / 10) (digit (n % 10) ∷ [])
        (digit-le_code (n % 10) (omega arith)))
]

magnitude_of_digits : (s : String) → BeginsWithDigit s → magnitude s ≡ parse_digits 0 s
unfolding magnitude
magnitude_of_digits [] h = absurd h
magnitude_of_digits (c ∷ s) h = refl

parse_int_of_digits : (s : String) → BeginsWithDigit s → parse_int s ≡ positive (parse_digits 0 s)
unfolding parse_int
parse_int_of_digits [] h = absurd h
parse_int_of_digits (c ∷ s) h = ground arith

read_decimal : (n : ℕ) → n < 10 ^ 20 → parse_digits 0 (decimal n) ≡ some n
read_decimal n h = unfold decimal parse_digits in parse_digits-digits_before 20 n [] h

parse_int-minus :
    (s : String) → BeginsWithDigit s → parse_int (minus ∷ s) ≡ negative (parse_digits 0 s)
unfolding parse_int
parse_int-minus s h = ap negative (magnitude_of_digits s h)

negative_lem : (v : ℕ) → two63 ≤ v → v < two64 → negative (some (two64 - v)) ≡ some v
unfolding negative
negative_lem v h k =
    rw (le→leb (two64 - v) two63 (omega arith)) (ap {B = Option ℕ} some (omega arith))

positive_lem : (v : ℕ) → v < two63 → positive (some v) ≡ some v
unfolding positive
positive_lem v h = rw (lt→ltb v two63 h)

format_int_neg : (v : ℕ) → is_neg64 v ≡ true → format_int v ≡ minus ∷ decimal (two64 - v)
unfolding format_int
format_int_neg v e = rw e

format_int_pos : (v : ℕ) → is_neg64 v ≡ false → format_int v ≡ decimal v
unfolding format_int
format_int_pos v e = rw e

-- Every int64, negative or not, is read back from its text.
pub parse_int-format_int : (v : ℕ) → v < two64 → parse_int (format_int v) ≡ some v
parse_int-format_int v h = elim (Bool-cases (is_neg64 v)) [
  | inl neg ↦ rw (format_int_neg v neg) (
      parse_int-minus (decimal (two64 - v)) (some_digits (two64 - v))
      ∙ ap negative (read_decimal (two64 - v) (omega arith))
      ∙ negative_lem v (leb→le two63 v neg) h)
  | inr pos ↦ rw (format_int_pos v pos) (
      parse_int_of_digits (decimal v) (some_digits v)
      ∙ ap positive (read_decimal v (omega arith))
      ∙ positive_lem v (ground arith))
]
