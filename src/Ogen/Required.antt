-- ===== src/Ogen/Required.antt =====
-- How the Decode methods of internal/router/ogen/oas_json_gen.go list the required fields that a
-- document does not have: one byte of bits, a mask, and a loop over the bits that are missing.
pub mod Listed
use ndbx.Prelude.{
  zero, suc, ℕ, String, Bool, true, false, if◌then◌else◌, Option, none, some, List, [], ◌∷◌, set,
  get_elem?,
}
use ndbx.Strconv.{format_int}

-- A uint8, its lowest bit first.
abbrev pub Bits : Type 0
Bits = List Bool

abbrev pub no_bits : Bits
no_bits = false ∷ false ∷ false ∷ false ∷ false ∷ false ∷ false ∷ false ∷ []

-- bits.OnesCount8 and bits.TrailingZeros8
abbrev pub ones_count : Bits → ℕ
ones_count [] = 0
ones_count (true ∷ bits) = suc (ones_count bits)
ones_count (false ∷ bits) = ones_count bits

abbrev pub trailing_zeros : Bits → ℕ
trailing_zeros [] = 0
trailing_zeros (true ∷ bits) = 0
trailing_zeros (false ∷ bits) = suc (trailing_zeros bits)

-- (bits & mask) ^ mask
abbrev pub unset_bits : Bits → Bits → Bits
unset_bits (b ∷ bits) (true ∷ mask) = (if b then false else true) ∷ unset_bits bits mask
unset_bits (b ∷ bits) (false ∷ mask) = false ∷ unset_bits bits mask
unset_bits [] mask = mask
unset_bits (b ∷ bits) [] = []

-- The name of a field, or its index in digits where it has none.
abbrev pub field_name : List String → ℕ → String
field_name names i = elim (get_elem? names i) [ some name ↦ name | none ↦ format_int i ]

-- for bitN := 0; bitN < missed; bitN++
unfoldable pub missed_loop : (ℕ → String) → ℕ → Bits → List String
missed_loop name zero result = []
missed_loop name (suc missed) result =
    let bit_idx = trailing_zeros result in
    name bit_idx ∷ missed_loop name missed (set result bit_idx false)

-- The names of the field errors.
unfoldable pub failures : (names : List String) (mask bits : Bits) → List String
failures names mask bits =
    let result = unset_bits bits mask in missed_loop (field_name names) (ones_count result) result
