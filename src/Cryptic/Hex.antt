-- ===== src/Cryptic/Hex.antt =====
-- The texts of session ids, of pkg/cryptic/sid.go.
use Prim.Native.Char.{Char, code}
use Prim.Native.String.{[], ◌∷◌, count}
use text.Mathlib.TextLemmas.{
  length-nil, length-cons, nil≢cons, head-eq_of_cons-eq, tail-eq_of_cons-eq,
}
use mathlib.Core.Path.{ap₂}
use ndbx.Prelude.{
  sym, ◌∙◌, ap, leb, if◌then◌else◌, ◌-◌, ℕ, zero, suc, ◌*◌, ◌/◌, ◌%◌, ◌≤◌, ◌<◌, ◌⊎◌, String, List,
  ◌≡◌, refl, arith, length, All,
}
use ndbx.GoTime.{Host}
use ndbx.Cryptic.{hex_digit, encode_to_string, must_sid}

abbrev pub IsHexChar : Char → Type 0
IsHexChar c = ((48 ≤ code c) × (code c ≤ 57)) ⊎ ((97 ≤ code c) × (code c ≤ 102))

abbrev pub IsHex : String → Type 0
IsHex [] = Unit
IsHex (c ∷ s) = IsHexChar c × IsHex s

hex_digit-IsHexChar : (n : ℕ) → IsHexChar (hex_digit n)
unfolding hex_digit
hex_digit-IsHexChar zero = omega arith
hex_digit-IsHexChar (suc zero) = omega arith
hex_digit-IsHexChar (suc (suc zero)) = omega arith
hex_digit-IsHexChar (suc (suc (suc zero))) = omega arith
hex_digit-IsHexChar (suc (suc (suc (suc zero)))) = omega arith
hex_digit-IsHexChar (suc (suc (suc (suc (suc zero))))) = omega arith
hex_digit-IsHexChar (suc (suc (suc (suc (suc (suc zero)))))) = omega arith
hex_digit-IsHexChar (suc (suc (suc (suc (suc (suc (suc zero))))))) = omega arith
hex_digit-IsHexChar (suc (suc (suc (suc (suc (suc (suc (suc zero)))))))) = omega arith
hex_digit-IsHexChar (suc (suc (suc (suc (suc (suc (suc (suc (suc zero))))))))) = omega arith
hex_digit-IsHexChar (suc (suc (suc (suc (suc (suc (suc (suc (suc (suc zero)))))))))) = omega arith
hex_digit-IsHexChar (suc (suc (suc (suc (suc (suc (suc (suc (suc (suc (suc zero))))))))))) =
    omega arith
hex_digit-IsHexChar (suc (suc (suc (suc (suc (suc (suc (suc (suc (suc (suc (suc zero)))))))))))) =
    omega arith
hex_digit-IsHexChar
      (suc (suc (suc (suc (suc (suc (suc (suc (suc (suc (suc (suc (suc zero))))))))))))) =
    omega arith
hex_digit-IsHexChar
      (suc (suc (suc (suc (suc (suc (suc (suc (suc (suc (suc (suc (suc (suc zero)))))))))))))) =
    omega arith
hex_digit-IsHexChar n = omega arith

pub encode_to_string-IsHex : (bytes : List ℕ) → IsHex (encode_to_string bytes)
unfolding encode_to_string
encode_to_string-IsHex List.[] = tt
encode_to_string-IsHex (List.◌∷◌ b bytes) =
    (hex_digit-IsHexChar (b / 16), (hex_digit-IsHexChar (b % 16), encode_to_string-IsHex bytes))

pub count-encode_to_string : (bytes : List ℕ) → count (encode_to_string bytes) ≡ 2 * length bytes
unfolding encode_to_string
count-encode_to_string List.[] = length-nil
count-encode_to_string (List.◌∷◌ b bytes) =
    rw (length-cons, length-cons) (omega (arith, count-encode_to_string bytes))

-- The value of a digit.
abbrev digit_value : Char → ℕ
digit_value c = if leb 97 (code c) then code c - 87 else code c - 48

digit_value-hex_digit : (n : ℕ) → n < 16 → digit_value (hex_digit n) ≡ n
unfolding hex_digit
digit_value-hex_digit zero h = refl
digit_value-hex_digit (suc zero) h = refl
digit_value-hex_digit (suc (suc zero)) h = refl
digit_value-hex_digit (suc (suc (suc zero))) h = refl
digit_value-hex_digit (suc (suc (suc (suc zero)))) h = refl
digit_value-hex_digit (suc (suc (suc (suc (suc zero))))) h = refl
digit_value-hex_digit (suc (suc (suc (suc (suc (suc zero)))))) h = refl
digit_value-hex_digit (suc (suc (suc (suc (suc (suc (suc zero))))))) h = refl
digit_value-hex_digit (suc (suc (suc (suc (suc (suc (suc (suc zero)))))))) h = refl
digit_value-hex_digit (suc (suc (suc (suc (suc (suc (suc (suc (suc zero))))))))) h = refl
digit_value-hex_digit (suc (suc (suc (suc (suc (suc (suc (suc (suc (suc zero)))))))))) h = refl
digit_value-hex_digit (suc (suc (suc (suc (suc (suc (suc (suc (suc (suc (suc zero))))))))))) h =
    refl
digit_value-hex_digit (suc (suc (suc (suc (suc (suc (suc (suc (suc (suc (suc (suc zero))))))))))))
      h =
    refl
digit_value-hex_digit
      (suc (suc (suc (suc (suc (suc (suc (suc (suc (suc (suc (suc (suc zero))))))))))))) h =
    refl
digit_value-hex_digit
      (suc (suc (suc (suc (suc (suc (suc (suc (suc (suc (suc (suc (suc (suc zero)))))))))))))) h =
    refl
digit_value-hex_digit n h = ground arith

hex_digit_injective : (m n : ℕ) → m < 16 → n < 16 → hex_digit m ≡ hex_digit n → m ≡ n
hex_digit_injective m n h k e =
    sym (digit_value-hex_digit m h) ∙ ap digit_value e ∙ digit_value-hex_digit n k

abbrev pub AreBytes : List ℕ → Type 0
AreBytes = All (λ b. b < 256)

pub encode_to_string_injective :
    (xs ys : List ℕ)
    → AreBytes xs
    → AreBytes ys
    → encode_to_string xs ≡ encode_to_string ys
    → xs ≡ ys
unfolding encode_to_string
encode_to_string_injective List.[] List.[] h k e = refl
encode_to_string_injective List.[] (List.◌∷◌ b ys) h k e = absurd (nil≢cons e)
encode_to_string_injective (List.◌∷◌ a xs) List.[] h k e = absurd (nil≢cons (sym e))
encode_to_string_injective (List.◌∷◌ a xs) (List.◌∷◌ b ys) (ha, h) (kb, k) e =
    let high =
      hex_digit_injective (a / 16) (b / 16) (omega arith) (omega arith) (head-eq_of_cons-eq e) in
    let low =
      hex_digit_injective (a % 16) (b % 16) (omega arith) (omega arith)
        (head-eq_of_cons-eq (tail-eq_of_cons-eq e)) in
    let same : a ≡ b = omega (arith, high, low) in
    ap₂ List.◌∷◌ same
      (encode_to_string_injective xs ys h k (tail-eq_of_cons-eq (tail-eq_of_cons-eq e)))

-- A new session id is lower-case hexadecimal, 64 characters of it, and two ids are the same only if
-- their random bytes are. The random source gives so many bytes as it is asked for.
pub must_sid_lem :
    {W : Type 0} (host : Host W) (w v : W)
    → ((n : ℕ) (w' : W) → (length (host.rand_read n w').0 ≡ n) × AreBytes (host.rand_read n w').0)
    → IsHex (must_sid host w).0
      × (count (must_sid host w).0 ≡ 64)
      × ((must_sid host w).0 ≡ (must_sid host v).0
          → (host.rand_read 32 w).0 ≡ (host.rand_read 32 v).0)
unfolding must_sid
must_sid_lem host w v fills = (
  encode_to_string-IsHex (host.rand_read 32 w).0,
  omega (arith, count-encode_to_string (host.rand_read 32 w).0, (fills 32 w).0),
  λ e. encode_to_string_injective _ _ (fills 32 w).1 (fills 32 v).1 e,
)
