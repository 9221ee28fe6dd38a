-- ===== src/Strconv.antt =====
-- strconv.FormatInt and strconv.ParseInt of Go's standard library, in base 10 and for 64 bits; the
-- first is also `%d` of fmt for an int.
use Prim.Native.Char.{Char, code}
use Prim.Native.String.{[], ◌∷◌}
pub mod RoundTrip
use ndbx.Prelude.{
  ℕ, zero, suc, ◌+◌, ◌-◌, ◌*◌, ◌/◌, ◌%◌, ◌^◌, ◌≤◌, ◌<◌, String, ◌≡◌, refl, sym, Bool, ◌&&◌, Option,
  none, some, arith, ap, ◌∙◌, inl, inr, Bool-cases, le→leb, ltb, leb, nat_eq, if◌then◌else◌,
}
use ndbx.Prelude.Words.{two63, two64, is_neg64}

digit : ℕ → Char
digit zero = "0"
digit (suc zero) = "1"
digit (suc (suc zero)) = "2"
digit (suc (suc (suc zero))) = "3"
digit (suc (suc (suc (suc zero)))) = "4"
digit (suc (suc (suc (suc (suc zero))))) = "5"
digit (suc (suc (suc (suc (suc (suc zero)))))) = "6"
digit (suc (suc (suc (suc (suc (suc (suc zero))))))) = "7"
digit (suc (suc (suc (suc (suc (suc (suc (suc zero)))))))) = "8"
digit n = "9"

-- The digits of `n` in front of `rest`, with fuel for so many digits.
digits_before : ℕ → ℕ → String → String
digits_before zero n rest = rest
digits_before (suc fuel) n rest =
    let longer = digits_before fuel (n / 10) (digit (n % 10) ∷ rest) in
    if ltb n 10 then digit n ∷ rest else longer

-- 2 ^ 63 has 19 digits.
unfoldable pub decimal : ℕ → String
unfolding digits_before digit
decimal n = digits_before 20 n []

abbrev minus : Char
minus = "-"

unfoldable pub format_int : ℕ → String
format_int v = if is_neg64 v then minus ∷ decimal (two64 - v) else decimal v

-- The value of the digits, after those that gave `acc`.
parse_digits : ℕ → String → Option ℕ
parse_digits acc [] = some acc
parse_digits acc (c ∷ s) =
    let rest = parse_digits (acc * 10 + (code c - 48)) s in
    if leb 48 (code c) && leb (code c) 57 then rest else none

magnitude : String → Option ℕ
magnitude [] = none
magnitude (c ∷ s) = parse_digits 0 (c ∷ s)

positive : Option ℕ → Option ℕ
positive none = none
positive (some n) = if ltb n two63 then some n else none

negative : Option ℕ → Option ℕ
negative none = none
negative (some n) = if leb n two63 then some ((two64 - n) % two64) else none

-- `none` is a syntax or range error.
unfoldable pub parse_int : String → Option ℕ
unfolding parse_digits magnitude positive negative
parse_int [] = none
parse_int (c ∷ s) =
    if nat_eq (code c) b'-'
    then negative (magnitude s)
    else if nat_eq (code c) b'+'
    then positive (magnitude s)
    else positive (magnitude (c ∷ s))
