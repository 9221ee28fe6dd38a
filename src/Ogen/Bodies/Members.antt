-- ===== src/Ogen/Bodies/Members.antt =====
-- What the Decode methods of internal/router/ogen/oas_json_gen.go read from the members of a document:
-- for each field, the last member with its key.
use ndbx.Prelude.{
  zero, suc, set, sym, ◌∙◌, ℕ, String, ◌==◌, Bool, true, false, ◌≡◌, refl, Option, none, some, List,
  [], ◌∷◌, All, inl, inr, if◌then◌else◌, get_elem?, arith, Option-cases,
}
use ndbx.Errors.{Err}
use ndbx.Exec.{Result, ok, Result-cases}
use ndbx.Ogen.Required.{Bits}
use ndbx.Ogen.Bodies.{Json, each_member}

-- k is one of the fields.
abbrev pub is_field : String → List String → Bool
is_field k [] = false
is_field k (name ∷ names) = if k == name then true else is_field k names

-- Setting a bit changes this bit only.
pub get_elem?-set :
    (bits : Bits) (i : ℕ) (b c : Bool)
    → get_elem? bits i ≡ some b
    → get_elem? (set bits i c) i ≡ some c
get_elem?-set [] i b c there = ground arith
get_elem?-set (x ∷ bits) zero b c there = refl
get_elem?-set (x ∷ bits) (suc i) b c there = get_elem?-set bits i b c there

pub get_elem?-set_other :
    (bits : Bits) (i j : ℕ) (c : Bool) → ¬ (i ≡ j) → get_elem? (set bits i c) j ≡ get_elem? bits j
get_elem?-set_other [] i j c apart = refl
get_elem?-set_other (x ∷ bits) zero zero c apart = absurd (apart refl)
get_elem?-set_other (x ∷ bits) zero (suc j) c apart = refl
get_elem?-set_other (x ∷ bits) (suc i) zero c apart = refl
get_elem?-set_other (x ∷ bits) (suc i) (suc j) c apart =
    get_elem?-set_other bits i j c (λ e. apart (rw e refl))

-- The two ways of a step, for a property of its result.
pub if-holds :
    {A : Type 0} (P : A → Type 0) (test : Bool) (a b : A)
    → (test ≡ true → P a)
    → (test ≡ false → P b)
    → P (if test then a else b)
if-holds P true a b then_holds else_holds = then_holds refl
if-holds P false a b then_holds else_holds = else_holds refl

-- The member of a field is a text, and any other can be skipped.
pub data IsReadable {V : Type 0} (json : Json V) (names : List String) (k : String) (v : V)
    : Type 0 where
  text_field :
      is_field k names ≡ true → (s : String) → json.str v ≡ ok s → IsReadable json names k v
  other_field :
      is_field k names ≡ false
      → (done : Unit {0}) → json.skip v ≡ ok done
      → IsReadable json names k v

module _ {V : Type 0} where
  -- The value of the last member with a key, or what is there before.
  abbrev pub latest : String → Option V → List (String × V) → Option V
  latest key before [] = before
  latest key before ((k, v) ∷ members) = latest key (if k == key then some v else before) members

  abbrev pub AllReadable : (String → V → Type 0) → List (String × V) → Type 0
  AllReadable Readable = All (λ (k, v). Readable k v)

  module _ (json : Json V) where
    -- A field holds the text of a value, and its bit is set, or it is empty and not set.
    abbrev pub Holds : Option V → String → Option Bool → Type 0
    Holds none s bit = (s ≡ "") × (bit ≡ some false)
    Holds (some v) s bit = (json.str v ≡ ok s) × (bit ≡ some true)

    -- The document has the field: its last member with the key is a text.
    abbrev pub Has : String → List (String × V) → String → Type 0
    Has key members s = (v : V) × (latest key none members ≡ some v) × (json.str v ≡ ok s)

    pub Holds-Has :
        (key : String) (members : List (String × V)) (s : String) (bit : Option Bool)
        → Holds (latest key none members) s bit
        → bit ≡ some true
        → Has key members s
    Holds-Has key members s bit holds there = elim (Option-cases (latest key none members)) [
      | inl missed ↦ ground arith
      | inr (v, found) ↦ (v, found, ground arith)
    ]

    pub Has-Holds :
        (key : String) (members : List (String × V)) (s t : String) (bit : Option Bool)
        → Has key members s
        → Holds (latest key none members) t bit
        → (t ≡ s) × (bit ≡ some true)
    Has-Holds key members s t bit (v, found, text) holds = ground arith

  module _ {S : Type 0} (step : S × Bits → String → V → Result Err (S × Bits))
      (Readable : String → V → Type 0) where
    each_member-cons :
        (st one : S × Bits) (k : String) (v : V) (members : List (String × V))
        (failure : Option Err)
        → step st k v ≡ ok one
        → each_member step st ((k, v) ∷ members) failure ≡ each_member step one members failure
    unfolding each_member
    each_member-cons st one k v members failure took = ground arith

    -- The step fails on no member that can be read, and on all others.
    pub record Reads : Type 0 where
      pub reads :
          (st : S × Bits) (k : String) (v : V)
          → Readable k v
          → (st' : S × Bits) × (step st k v ≡ ok st')
      pub readable : (st st' : S × Bits) (k : String) (v : V) → step st k v ≡ ok st' → Readable k v

    module _ (r : Reads) where
      pub each_member-ok :
          (st : S × Bits) (members : List (String × V))
          → AllReadable Readable members
          → (st' : S × Bits) × (each_member step st members none ≡ ok st')
      unfolding each_member
      each_member-ok st [] all = (st, refl)
      each_member-ok st ((k, v) ∷ members) (one, all) =
          let (st', took) = r.reads st k v one in
          let (st'', done) = each_member-ok st' members all in
          (st'', each_member-cons st st' k v members none took ∙ done)

      pub each_member-AllReadable :
          (st st' : S × Bits) (members : List (String × V)) (failure : Option Err)
          → each_member step st members failure ≡ ok st'
          → AllReadable Readable members × (failure ≡ none)
      unfolding each_member
      each_member-AllReadable st st' [] none done = (tt, refl)
      each_member-AllReadable st st' [] (some e) done = ground arith
      each_member-AllReadable st st' ((k, v) ∷ members) failure done =
          elim (Result-cases (step st k v)) [
            | inl (one, took) ↦
                let (all, ended) =
                  each_member-AllReadable one st' members failure
                    (sym (each_member-cons st one k v members failure took) ∙ done) in
                ((r.readable st one k v took, all), ended)
            | inr (e, failed) ↦ ground arith
          ]

    -- A field of the record, with its key and the index of its bit, that a step sets from the members
    -- with the key only.
    abbrev pub Follows : Json V → String → (S → String) → ℕ → Type 0
    Follows json key field i =
        (st st' : S × Bits) (k : String) (v : V) (before : Option V)
        → step st k v ≡ ok st'
        → Holds json before (field st.0) (get_elem? st.1 i)
        → Holds json (if k == key then some v else before) (field st'.0) (get_elem? st'.1 i)

    pub each_member-Holds :
        (json : Json V) (key : String) (field : S → String) (i : ℕ)
        → Follows json key field i
        → (st st' : S × Bits) (members : List (String × V)) (failure : Option Err)
          (before : Option V)
        → each_member step st members failure ≡ ok st'
        → Holds json before (field st.0) (get_elem? st.1 i)
        → Holds json (latest key before members) (field st'.0) (get_elem? st'.1 i)
    unfolding each_member
    each_member-Holds json key field i follows st st' [] none before done holds = ground arith
    each_member-Holds json key field i follows st st' [] (some e) before done holds = ground arith
    each_member-Holds json key field i follows st st' ((k, v) ∷ members) failure before done holds =
        elim (Result-cases (step st k v)) [
          | inl (one, took) ↦
              each_member-Holds json key field i follows one st' members failure _
                (sym (each_member-cons st one k v members failure took) ∙ done)
                (follows st one k v before took holds)
          | inr (e, failed) ↦ ground arith
        ]
