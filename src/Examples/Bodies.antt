-- ===== src/Examples/Bodies.antt =====
-- The body of a registration in which a member stands twice, and one that misses fields.
use ndbx.Prelude.{String, ◌≡◌, ◌↔◌, none, [], ◌∷◌, true, false}
use ndbx.Exec.{ok}
use ndbx.Router.Sessions.{UserRegisterRequest}
use ndbx.Ogen.Bodies.{Json, decode_user_register_request, register_fields, register_mask}
use ndbx.Ogen.Bodies.Described.{Describes, decode_user_register_request_lem}
use ndbx.Ogen.Required.{Bits, ones_count, unset_bits, field_name, missed_loop}
use ndbx.Ogen.Required.Listed.{missed_loop_lem}

abbrev registration : Json String
registration = record {
  members = λ text. (
    ("full_name", "Anna")
        ∷ ("username", "ann")
        ∷ ("age", "7")
        ∷ ("username", "anna")
        ∷ ("password", "secret")
        ∷ [],
    none,
  );
  str = λ s. ok s;
  int32 = λ s. ok 0;
  int64 = λ s. ok 0;
  skip = λ s. ok tt;
  trailing = λ text. false;
}

abbrev new_user : UserRegisterRequest
new_user = record { full_name = "Anna"; username = "anna"; password = "secret" }

decode_user_register_request_lem_example :
    decode_user_register_request registration "{…}" ≡ ok new_user
    ↔ Describes registration (registration.members "{…}") new_user
decode_user_register_request_lem_example =
    decode_user_register_request_lem registration "{…}" new_user

-- Only the name was there.
abbrev two_missing : Bits
two_missing =
    unset_bits (false ∷ true ∷ false ∷ false ∷ false ∷ false ∷ false ∷ false ∷ []) register_mask

missed_loop_lem_example :
    missed_loop (field_name register_fields) (ones_count two_missing) two_missing
    ≡ "full_name" ∷ "password" ∷ []
missed_loop_lem_example = missed_loop_lem (field_name register_fields) two_missing
