-- ===== src/Ogen/Bodies/Fields.antt =====
-- The pieces of the Decode methods of internal/router/ogen/oas_json_gen.go: a field, a value that is
-- skipped, and the end, where required fields must be there.
use ndbx.Prelude.{
  ◌⊎◌, set, ℕ, String, true, false, ◌≡◌, refl, Option, some, List, [], ◌∷◌, inl, inr, get_elem?,
  arith, Option-cases,
}
use ndbx.Errors.{Err}
use ndbx.Exec.{Result, ok, err, Result-cases}
use ndbx.Ogen.Required.{Bits, failures}
use ndbx.Ogen.Params.{map_error}
use ndbx.Ogen.Bodies.{Json, take_str, skipped, with_required}
use ndbx.Ogen.Bodies.Members.{Holds, get_elem?-set, get_elem?-set_other}

module _ {V : Type 0} (json : Json V) where
  pub take_str-ok :
      {S : Type 0} (name : String) (v : V) (update : String → S) (s : S)
      → take_str json name v update ≡ ok s
      → (x : String) × (json.str v ≡ ok x) × (s ≡ update x)
  take_str-ok name v update s took = elim (Result-cases (json.str v)) [
    | inl (x, e) ↦ (x, e, ground arith)
    | inr (x, e) ↦ ground arith
  ]

  pub skipped-ok :
      {S : Type 0} (v : V) (s s' : S)
      → skipped json v s ≡ ok s'
      → (done : Unit {0}) × (json.skip v ≡ ok done) × (s' ≡ s)
  skipped-ok v s s' took = elim (Result-cases (json.skip v)) [
    | inl (done, e) ↦ (done, e, ground arith)
    | inr (x, e) ↦ ground arith
  ]

  pub take_str-reads :
      {S : Type 0} (name : String) (v : V) (update : String → S) (x : String)
      → json.str v ≡ ok x
      → (s : S) × (take_str json name v update ≡ ok s)
  take_str-reads name v update x e = (update x, rw e refl)

  pub skipped-reads :
      {S : Type 0} (v : V) (s : S) (done : Unit {0})
      → json.skip v ≡ ok done
      → (s' : S) × (skipped json v s ≡ ok s')
  skipped-reads v s done e = (s, rw e refl)

  module _ (before : Option V) (s : String) (bits : Bits) where
    pub Holds-set :
        (v : V) (i : ℕ) (x : String)
        → json.str v ≡ ok x
        → Holds json before s (get_elem? bits i)
        → Holds json (some v) x (get_elem? (set bits i true) i)
    Holds-set v i x e holds = (e, there)
      where
        there : get_elem? (set bits i true) i ≡ some true
        there = elim (Option-cases before) [
          | inl missed ↦ get_elem?-set bits i false true (ground arith)
          | inr (u, had) ↦ get_elem?-set bits i true true (ground arith)
        ]

    pub Holds-other :
        (i j : ℕ)
        → ¬ (i ≡ j)
        → Holds json before s (get_elem? bits j)
        → Holds json before s (get_elem? (set bits i true) j)
    Holds-other i j apart holds = rw (get_elem?-set_other bits i j true apart) holds

List-cases : {A : Type 0} (xs : List A) → (xs ≡ []) ⊎ ((x : A) × (more : List A) × (xs ≡ x ∷ more))
List-cases [] = inl refl
List-cases (x ∷ more) = inr (x, more, refl)

-- The end of Decode succeeds when no required field is missed.
module _ {S : Type 0} (names : List String) (mask : Bits) (f : Err → Err) where
  pub with_required-ok :
      (r : Result Err (S × Bits)) (s : S)
      → with_required names mask (map_error f r) ≡ ok s
      → (bits : Bits) × (r ≡ ok (s, bits)) × (failures names mask bits ≡ [])
  with_required-ok (err e) s done = ground arith
  with_required-ok (ok (t, bits)) s done = elim (List-cases (failures names mask bits)) [
    | inl none_missed ↦ (bits, ground arith, none_missed)
    | inr (name, more, some_missed) ↦ ground arith
  ]

  pub with_required-full :
      (r : Result Err (S × Bits)) (s : S) (bits : Bits)
      → r ≡ ok (s, bits)
      → failures names mask bits ≡ []
      → with_required names mask (map_error f r) ≡ ok s
  with_required-full (err x) s bits e none_missed = ground arith
  with_required-full (ok x) s bits e none_missed = ground arith
