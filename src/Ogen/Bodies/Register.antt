-- ===== src/Ogen/Bodies/Register.antt =====
-- UserRegisterRequest.Decode of internal/router/ogen/oas_json_gen.go: what one member of a
-- document changes.
use ndbx.Prelude.{String, ◌==◌, true, false, ◌≡◌, refl, set, arith, eq_iff}
use ndbx.Errors.{Err}
use ndbx.Exec.{Result, ok}
use ndbx.Router.Sessions.{UserRegisterRequest}
use ndbx.Ogen.Required.{Bits}
use ndbx.Ogen.Bodies.{Json, register_member, register_fields}
use ndbx.Ogen.Bodies.Members.{
  IsReadable, text_field, other_field, is_field, Reads, Follows, if-holds,
}
use ndbx.Ogen.Bodies.Fields.{
  take_str-ok, skipped-ok, take_str-reads, skipped-reads, Holds-set, Holds-other,
}

module _ {V : Type 0} (json : Json V) where
  abbrev pub Readable : String → V → Type 0
  Readable = IsReadable json register_fields

  -- What a step did: it set one field, or it skipped a value.
  data Took (s : UserRegisterRequest) (bits : Bits) (k : String) (v : V)
      (st' : UserRegisterRequest × Bits) : Type 0 where
    full_name :
        k ≡ "full_name"
        → (x : String) → json.str v ≡ ok x
        → st' ≡ (record s { full_name = x }, set bits 0 true)
        → Took s bits k v st'
    username :
        k ≡ "username"
        → (x : String) → json.str v ≡ ok x
        → st' ≡ (record s { username = x }, set bits 1 true)
        → Took s bits k v st'
    password :
        k ≡ "password"
        → (x : String) → json.str v ≡ ok x
        → st' ≡ (record s { password = x }, set bits 2 true)
        → Took s bits k v st'
    none_of_them :
        is_field k register_fields ≡ false
        → (done : Unit {0}) → json.skip v ≡ ok done
        → st' ≡ (s, bits)
        → Took s bits k v st'

  -- A step goes on.
  abbrev Steps : Result Err (UserRegisterRequest × Bits) → Type 0
  Steps r = (st' : UserRegisterRequest × Bits) × (r ≡ ok st')

  -- The fields by their names: one excludes the others.
  register_member-Took :
      (s : UserRegisterRequest) (bits : Bits) (st' : UserRegisterRequest × Bits) (k : String)
      (v : V)
      → register_member json (s, bits) k v ≡ ok st'
      → Took s bits k v st'
  unfolding register_member
  register_member-Took s bits st' k v =
      if-holds (λ (r : Result Err (UserRegisterRequest × Bits)). r ≡ ok st' → Took s bits k v st')
        (k == "full_name") _ _
        (λ t took.
          let (x, e, same) = take_str-ok json "full_name" v _ st' took in
          full_name ((eq_iff k "full_name").0 t) x e same)
        λ f.
          if-holds
            (λ (r : Result Err (UserRegisterRequest × Bits)). r ≡ ok st' → Took s bits k v st')
            (k == "username") _ _
            (λ t took.
              let (x, e, same) = take_str-ok json "username" v _ st' took in
              username ((eq_iff k "username").0 t) x e same)
            λ u.
              if-holds
                (λ (r : Result Err (UserRegisterRequest × Bits)). r ≡ ok st' → Took s bits k v st')
                (k == "password") _ _
                (λ t took.
                  let (x, e, same) = take_str-ok json "password" v _ st' took in
                  password ((eq_iff k "password").0 t) x e same)
                λ p took.
                  let (done, e, same) = skipped-ok json v (s, bits) st' took in
                  none_of_them (ground arith) done e same

  -- A text is there for each field, and a value to skip otherwise.
  register_member-text :
      (st : UserRegisterRequest × Bits) (k : String) (v : V) (x : String)
      → is_field k register_fields ≡ true
      → json.str v ≡ ok x
      → (st' : UserRegisterRequest × Bits) × (register_member json st k v ≡ ok st')
  unfolding register_member
  register_member-text (s, bits) k v x known e =
      if-holds Steps (k == "full_name") _ _ (λ t. take_str-reads json "full_name" v _ x e)
        λ f.
          if-holds Steps (k == "username") _ _ (λ t. take_str-reads json "username" v _ x e)
            λ u.
              if-holds Steps (k == "password") _ _ (λ t. take_str-reads json "password" v _ x e)
                λ p. absurd (ground arith)

  register_member-other :
      (st : UserRegisterRequest × Bits) (k : String) (v : V) (done : Unit {0})
      → is_field k register_fields ≡ false
      → json.skip v ≡ ok done
      → (st' : UserRegisterRequest × Bits) × (register_member json st k v ≡ ok st')
  unfolding register_member
  register_member-other (s, bits) k v done unknown e =
      if-holds Steps (k == "full_name") _ _ (λ t. absurd (ground arith))
        λ f.
          if-holds Steps (k == "username") _ _ (λ t. absurd (ground arith))
            λ u.
              if-holds Steps (k == "password") _ _ (λ t. absurd (ground arith))
                λ p. skipped-reads json v _ done e

  pub register_member-Reads : Reads (register_member json) Readable
  register_member-Reads = record {
    reads = λ st k v readable. elim readable [
      | text_field known x e ↦ register_member-text st k v x known e
      | other_field unknown done e ↦ register_member-other st k v done unknown e
    ];
    readable = λ (s, bits) st' k v took. elim (register_member-Took s bits st' k v took) [
      | full_name is_it x e same ↦ text_field (rw is_it refl) x e
      | username is_it x e same ↦ text_field (rw is_it refl) x e
      | password is_it x e same ↦ text_field (rw is_it refl) x e
      | none_of_them other done e same ↦ other_field other done e
    ];
  }

  pub full_name-Follows :
      Follows (register_member json) Readable json "full_name" (λ s. s.full_name) 0
  full_name-Follows (s, bits) st' k v before took holds =
      elim (register_member-Took s bits st' k v took) [
        | full_name is_it x e same ↦
            rw (is_it, same) (Holds-set json before s.full_name bits v 0 x e holds)
        | username is_it x e same ↦
            rw (is_it, same) (Holds-other json before s.full_name bits 1 0 (omega arith) holds)
        | password is_it x e same ↦
            rw (is_it, same) (Holds-other json before s.full_name bits 2 0 (omega arith) holds)
        | none_of_them unknown done e same ↦
            let is_not : (k == "full_name") ≡ false = ground arith in rw (is_not, same) holds
      ]

  pub username-Follows : Follows (register_member json) Readable json "username" (λ s. s.username) 1
  username-Follows (s, bits) st' k v before took holds =
      elim (register_member-Took s bits st' k v took) [
        | full_name is_it x e same ↦
            rw (is_it, same) (Holds-other json before s.username bits 0 1 (omega arith) holds)
        | username is_it x e same ↦
            rw (is_it, same) (Holds-set json before s.username bits v 1 x e holds)
        | password is_it x e same ↦
            rw (is_it, same) (Holds-other json before s.username bits 2 1 (omega arith) holds)
        | none_of_them unknown done e same ↦
            let is_not : (k == "username") ≡ false = ground arith in rw (is_not, same) holds
      ]

  pub password-Follows : Follows (register_member json) Readable json "password" (λ s. s.password) 2
  password-Follows (s, bits) st' k v before took holds =
      elim (register_member-Took s bits st' k v took) [
        | full_name is_it x e same ↦
            rw (is_it, same) (Holds-other json before s.password bits 0 2 (omega arith) holds)
        | username is_it x e same ↦
            rw (is_it, same) (Holds-other json before s.password bits 1 2 (omega arith) holds)
        | password is_it x e same ↦
            rw (is_it, same) (Holds-set json before s.password bits v 2 x e holds)
        | none_of_them unknown done e same ↦
            let is_not : (k == "password") ≡ false = ground arith in rw (is_not, same) holds
      ]
