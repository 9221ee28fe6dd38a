-- ===== src/Ogen/Required/Listed.antt =====
-- The loop over missing bits at the end of the Decode methods of internal/router/ogen/oas_json_gen.go.
use ndbx.Prelude.{
  ℕ, suc, zero, String, true, false, ◌≡◌, refl, some, List, [], ◌∷◌, set, get_elem?, arith,
}
use ndbx.Ogen.Required.{
  Bits, ones_count, trailing_zeros, unset_bits, field_name, missed_loop, failures,
}

-- The names of the bits that are set, from the lowest to the highest.
abbrev pub names_of : (ℕ → String) → Bits → List String
names_of name [] = []
names_of name (true ∷ bits) = name 0 ∷ names_of (λ i. name (suc i)) bits
names_of name (false ∷ bits) = names_of (λ i. name (suc i)) bits

missed_loop-false :
    (name : ℕ → String) (n : ℕ) (bits : Bits)
    → missed_loop name n (false ∷ bits) ≡ missed_loop (λ i. name (suc i)) n bits
unfolding missed_loop
missed_loop-false name zero bits = refl
missed_loop-false name (suc n) bits =
    rw (missed_loop-false name n (set bits (trailing_zeros bits) false)) refl

-- As many rounds as bits are set: the loop lists the name of each bit that is set once, from the
-- lowest to the highest, and no other name.
pub missed_loop_lem :
    (name : ℕ → String) (bits : Bits) → missed_loop name (ones_count bits) bits ≡ names_of name bits
unfolding missed_loop
missed_loop_lem name [] = refl
missed_loop_lem name (true ∷ bits) =
    rw (missed_loop-false name (ones_count bits) bits, missed_loop_lem (λ i. name (suc i)) bits)
      refl
missed_loop_lem name (false ∷ bits) =
    rw (missed_loop-false name (ones_count bits) bits, missed_loop_lem (λ i. name (suc i)) bits)
      refl

-- A required field that is not missed has its bit set.
names_of-none :
    (name : ℕ → String) (bits mask : Bits)
    → names_of name (unset_bits bits mask) ≡ []
    → (i : ℕ) → get_elem? mask i ≡ some true
    → get_elem? bits i ≡ some true
names_of-none name (true ∷ bits) (true ∷ mask) none_missed zero required = refl
names_of-none name (true ∷ bits) (true ∷ mask) none_missed (suc i) required =
    names_of-none (λ i. name (suc i)) bits mask none_missed i required
names_of-none name (false ∷ bits) (true ∷ mask) none_missed i required = ground arith
names_of-none name (b ∷ bits) (false ∷ mask) none_missed zero required = ground arith
names_of-none name (b ∷ bits) (false ∷ mask) none_missed (suc i) required =
    names_of-none (λ i. name (suc i)) bits mask none_missed i required
names_of-none name [] (true ∷ mask) none_missed i required = ground arith
names_of-none name [] (false ∷ mask) none_missed zero required = ground arith
names_of-none name [] (false ∷ mask) none_missed (suc i) required =
    names_of-none (λ i. name (suc i)) [] mask none_missed i required
names_of-none name bits [] none_missed i required = ground arith

names_of-full :
    (name : ℕ → String) (bits mask : Bits)
    → ((i : ℕ) → get_elem? mask i ≡ some true → get_elem? bits i ≡ some true)
    → names_of name (unset_bits bits mask) ≡ []
names_of-full name (true ∷ bits) (true ∷ mask) full = names_of-full _ bits mask (λ i. full (suc i))
names_of-full name (false ∷ bits) (true ∷ mask) full = absurd (ground (arith, full 0 refl))
names_of-full name (b ∷ bits) (false ∷ mask) full = names_of-full _ bits mask (λ i. full (suc i))
names_of-full name [] (true ∷ mask) full = absurd (ground (arith, full 0 refl))
names_of-full name [] (false ∷ mask) full = names_of-full _ [] mask (λ i. full (suc i))
names_of-full name [] [] full = refl
names_of-full name (b ∷ bits) [] full = refl

module _ (names : List String) (mask bits : Bits) where
  pub failures-none :
      failures names mask bits ≡ []
      → (i : ℕ) → get_elem? mask i ≡ some true
      → get_elem? bits i ≡ some true
  unfolding failures
  failures-none none_missed =
      names_of-none (field_name names) bits mask
        (cc (none_missed, missed_loop_lem (field_name names) (unset_bits bits mask)))

  pub failures-full :
      ((i : ℕ) → get_elem? mask i ≡ some true → get_elem? bits i ≡ some true)
      → failures names mask bits ≡ []
  unfolding failures
  failures-full full = cc (
    names_of-full (field_name names) bits mask full,
    missed_loop_lem (field_name names) (unset_bits bits mask),
  )
