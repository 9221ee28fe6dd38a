-- ===== src/Ogen/Bodies/Described.antt =====
-- UserRegisterRequest.Decode of internal/router/ogen/oas_json_gen.go: which documents it takes, and
-- what it reads from them.
use ndbx.Prelude.{
  zero, suc, ◌∙◌, ℕ, String, true, false, ◌≡◌, ◌↔◌, refl, Option, none, some, List, [], ◌∷◌,
  get_elem?, arith,
}
use ndbx.Errors.{Err}
use ndbx.Exec.{Result, ok}
use ndbx.Router.Sessions.{UserRegisterRequest}
use ndbx.Ogen.Required.{Bits, no_bits, failures}
use ndbx.Ogen.Required.Listed.{failures-none, failures-full}
use ndbx.Ogen.Bodies.{
  Json, each_member, register_member, register_fields, register_mask, decode_user_register_request,
}
use ndbx.Ogen.Bodies.Members.{
  Has, Holds, AllReadable, each_member-ok, each_member-AllReadable, each_member-Holds, Holds-Has,
  Has-Holds, latest,
}
use ndbx.Ogen.Bodies.Register.{
  Readable, register_member-Reads, full_name-Follows, username-Follows, password-Follows,
}
use ndbx.Ogen.Bodies.Fields.{with_required-ok, with_required-full}

module _ {V : Type 0} (json : Json V) where
  abbrev empty : UserRegisterRequest × Bits
  empty = (record { full_name = ""; username = ""; password = "" }, no_bits)

  -- A document from which the fields of `req` are read.
  abbrev pub Describes : List (String × V) × Option Err → UserRegisterRequest → Type 0
  Describes (members, failure) req =
      (failure ≡ none)
      × AllReadable (Readable json) members
      × Has json "full_name" members req.full_name
      × Has json "username" members req.username
      × Has json "password" members req.password

  module _ (members : List (String × V)) (req : UserRegisterRequest) (bits : Bits)
      (failure : Option Err)
      (took : each_member (register_member json) empty members failure ≡ ok (req, bits)) where
    full_name-Holds : Holds json (latest "full_name" none members) req.full_name (get_elem? bits 0)
    full_name-Holds =
        each_member-Holds (register_member json) (Readable json) json "full_name" (λ s. s.full_name)
          0 (full_name-Follows json) empty (req, bits) members failure none took (refl, refl)

    username-Holds : Holds json (latest "username" none members) req.username (get_elem? bits 1)
    username-Holds =
        each_member-Holds (register_member json) (Readable json) json "username" (λ s. s.username) 1
          (username-Follows json) empty (req, bits) members failure none took (refl, refl)

    password-Holds : Holds json (latest "password" none members) req.password (get_elem? bits 2)
    password-Holds =
        each_member-Holds (register_member json) (Readable json) json "password" (λ s. s.password) 2
          (password-Follows json) empty (req, bits) members failure none took (refl, refl)

    took-Describes :
        failures register_fields register_mask bits ≡ [] → Describes (members, failure) req
    took-Describes none_missed =
        let (all, ended) =
          each_member-AllReadable (register_member json) (Readable json)
            (register_member-Reads json) empty (req, bits) members failure took in
        let set = failures-none register_fields register_mask bits none_missed in
        (
          ended,
          all,
          Holds-Has json "full_name" members req.full_name _ full_name-Holds (set 0 refl),
          Holds-Has json "username" members req.username _ username-Holds (set 1 refl),
          Holds-Has json "password" members req.password _ password-Holds (set 2 refl),
        )

  -- The mask has three bits.
  in_mask :
      (P : ℕ → Type 0) → P 0 → P 1 → P 2 → (i : ℕ) → get_elem? register_mask i ≡ some true → P i
  in_mask P first second third zero required = first
  in_mask P first second third (suc zero) required = second
  in_mask P first second third (suc (suc zero)) required = third
  in_mask P first second third (suc (suc (suc i))) required = absurd (beyond i required)
    where
      beyond : (i : ℕ) → ¬ (get_elem? (false ∷ false ∷ false ∷ false ∷ false ∷ []) i ≡ some true)
      beyond zero e = ground arith
      beyond (suc zero) e = ground arith
      beyond (suc (suc zero)) e = ground arith
      beyond (suc (suc (suc zero))) e = ground arith
      beyond (suc (suc (suc (suc zero)))) e = ground arith
      beyond (suc (suc (suc (suc (suc i))))) e = ground arith

  same_state :
      (t req : UserRegisterRequest) (bits : Bits)
      → t.full_name ≡ req.full_name
      → t.username ≡ req.username
      → t.password ≡ req.password
      → ◌≡◌ {A = Result Err (UserRegisterRequest × Bits)} (ok (t, bits)) (ok (req, bits))
  same_state t req bits name user secret = rw (← name, ← user, ← secret) refl

  described-took :
      (members : List (String × V)) (req : UserRegisterRequest)
      → Describes (members, none) req
      → (bits : Bits) × (each_member (register_member json) empty members none ≡ ok (req, bits))
        × (failures register_fields register_mask bits ≡ [])
  described-took members req (ended, all, name, user, secret) =
      let ((t, bits), took) =
        each_member-ok (register_member json) (Readable json) (register_member-Reads json) empty
          members all in
      let (same_name, bit0) =
        Has-Holds json "full_name" members req.full_name t.full_name _ name
          (full_name-Holds members t bits none took) in
      let (same_user, bit1) =
        Has-Holds json "username" members req.username t.username _ user
          (username-Holds members t bits none took) in
      let (same_password, bit2) =
        Has-Holds json "password" members req.password t.password _ secret
          (password-Holds members t bits none took) in
      (
        bits,
        took ∙ same_state t req bits same_name same_user same_password,
        failures-full register_fields register_mask bits
            (in_mask (λ i. get_elem? bits i ≡ some true) bit0 bit1 bit2),
      )

  -- UserRegisterRequest.Decode takes a document exactly when it is an object, in which every member
  -- of a field is a text and every other can be skipped, and which has the three fields. The last
  -- member of each field is the one that it reads.
  pub decode_user_register_request_lem :
      (doc : String) (req : UserRegisterRequest)
      → decode_user_register_request json doc ≡ ok req ↔ Describes (json.members doc) req
  unfolding decode_user_register_request
  decode_user_register_request_lem doc req = (
    (λ done.
        let (bits, took, none_missed) =
          with_required-ok register_fields register_mask _ _ req done in
        took-Describes (json.members doc).0 req bits (json.members doc).1 took none_missed),
    λ described.
        let (bits, took, none_missed) =
          described-took (json.members doc).0 req
            (refl, described.1, described.2, described.3, described.4) in
        with_required-full register_fields register_mask _ _ req bits (rw (described.0) took)
          none_missed,
  )
