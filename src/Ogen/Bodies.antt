-- ===== src/Ogen/Bodies.antt =====
-- The JSON bodies of the requests: the Decode methods of internal/router/ogen/oas_json_gen.go, the
-- check of internal/router/ogen/oas_validators_gen.go, and
-- internal/router/ogen/oas_request_decoders_gen.go. The package jx, which reads JSON, is a parameter.
pub mod Members
pub mod Register
pub mod Fields
pub mod Described
use ndbx.Prelude.{
  ℕ, String, ◌==◌, Bool, true, false, Option, none, some, List, [], ◌∷◌, nat_eq, if◌then◌else◌, set,
  text_append,
}
use ndbx.Errors.{Err, wrap}
use ndbx.Exec.{Result, ok, err}
use ndbx.Router.{Opt}
use ndbx.Router.Sessions.{UserRegisterRequest, LoginRequest}
use ndbx.Router.Events.{CreateEventRequest, PatchEventRequest}
use ndbx.Router.Reviews.{ReviewRequest}
use ndbx.Ogen.Required.{Bits, no_bits, failures}
use ndbx.Ogen.Params.{unset, set_to, ◌>>=◌, map_error, validate_category}

-- A JSON document as jx reads it; `V` is a value in it.
pub record Json (V : Type 0) : Type 0 where
  -- what ObjBytes hands to its callback, in the order of the document, and its own failure after
  -- that, if the document is no object
  pub members : String → List (String × V) × Option Err
  -- Str, StrBytes, Int32, Int64 and Skip
  pub str : V → Result Err String
  pub int32 : V → Result Err ℕ
  pub int64 : V → Result Err ℕ
  pub skip : V → Result Err (Unit {0})
  -- d.Skip() after the object, unless it is io.EOF
  pub trailing : String → Bool

-- Why a body is refused: jx or a callback failed, or required fields are missing.
pub data BodyError : Type 0 where
  undecoded : Err → BodyError
  missing : List String → BodyError

module _ {S V : Type 0} where
  -- ObjBytes: the callback for each member, until it fails.
  unfoldable pub each_member :
      (S → String → V → Result Err S) → S → List (String × V) → Option Err → Result Err S
  each_member step s [] none = ok s
  each_member step s [] (some e) = err e
  each_member step s ((key, v) ∷ rest) failure = elim (step s key v) [
    | err e ↦ err e
    | ok s' ↦ each_member step s' rest failure
  ]

  abbrev pub obj_bytes : Json V → (S → String → V → Result Err S) → S → String → Result Err S
  obj_bytes json step s doc =
      let (members, failure) = json.members doc in each_member step s members failure

-- errors.Wrap(err, "decode field …")
abbrev pub decode_field : {A : Type 0} → String → Result Err A → Result Err A
decode_field name = map_error (wrap (text_append "decode field " name))

-- The end of Decode: the fields that are missed, if there are any.
abbrev pub with_required :
    {S : Type 0} → (names : List String) (mask : Bits) → Result Err (S × Bits) → Result BodyError S
with_required names mask (err e) = err (undecoded e)
with_required names mask (ok (s, bits)) = elim (failures names mask bits) [
  | [] ↦ ok s
  | missed ↦ err (missing missed)
]

abbrev pub login_fields : List String
login_fields = "username" ∷ "password" ∷ []

abbrev pub login_mask : Bits
login_mask = true ∷ true ∷ false ∷ false ∷ false ∷ false ∷ false ∷ false ∷ []

abbrev pub register_fields : List String
register_fields = "full_name" ∷ "username" ∷ "password" ∷ []

abbrev pub register_mask : Bits
register_mask = true ∷ true ∷ true ∷ false ∷ false ∷ false ∷ false ∷ false ∷ []

abbrev pub create_event_fields : List String
create_event_fields = "title" ∷ "address" ∷ "description" ∷ "started_at" ∷ "finished_at" ∷ []

abbrev pub create_event_mask : Bits
create_event_mask = true ∷ true ∷ false ∷ true ∷ true ∷ false ∷ false ∷ false ∷ []

module _ {V : Type 0} (json : Json V) where
  -- `s.F, err = d.Str()` for a required field
  abbrev pub take_str : {S : Type 0} → String → V → (String → S) → Result Err S
  take_str name v update = decode_field name (do s ← json.str v; ok (update s))

  abbrev pub skipped : {S : Type 0} → V → S → Result Err S
  skipped v s = do done ← json.skip v; ok s

  -- OptString.Decode, OptInt32.Decode, OptInt64.Decode and OptEventCategory.Decode, after Reset
  unfoldable pub opt_string : V → Result Err (Opt String)
  opt_string v = do s ← json.str v; ok (set_to s)

  unfoldable pub opt_int32 : V → Result Err (Opt ℕ)
  opt_int32 v = do n ← json.int32 v; ok (set_to n)

  unfoldable pub opt_int64 : V → Result Err (Opt ℕ)
  opt_int64 v = do n ← json.int64 v; ok (set_to n)

  -- EventCategory.Decode takes any text.
  unfoldable pub opt_event_category : V → Result Err (Opt String)
  opt_event_category v = do s ← json.str v; ok (set_to s)

  unfoldable pub login_member : LoginRequest × Bits → String → V → Result Err (LoginRequest × Bits)
  login_member (s, bits) k v =
      if k == "username"
      then take_str "username" v (λ x. (record s { username = x }, set bits 0 true))
      else if k == "password"
      then take_str "password" v (λ x. (record s { password = x }, set bits 1 true))
      else skipped v (s, bits)

  unfoldable pub decode_login_request : String → Result BodyError LoginRequest
  decode_login_request doc = with_required login_fields login_mask (
      map_error (wrap "decode LoginRequest")
        (obj_bytes json login_member (record { username = ""; password = "" }, no_bits) doc))

  unfoldable pub register_member :
      UserRegisterRequest × Bits → String → V → Result Err (UserRegisterRequest × Bits)
  register_member (s, bits) k v =
      if k == "full_name"
      then take_str "full_name" v (λ x. (record s { full_name = x }, set bits 0 true))
      else if k == "username"
      then take_str "username" v (λ x. (record s { username = x }, set bits 1 true))
      else if k == "password"
      then take_str "password" v (λ x. (record s { password = x }, set bits 2 true))
      else skipped v (s, bits)

  unfoldable pub decode_user_register_request : String → Result BodyError UserRegisterRequest
  decode_user_register_request doc = with_required register_fields register_mask (
      map_error (wrap "decode UserRegisterRequest") (
        obj_bytes json register_member
          (record { full_name = ""; username = ""; password = "" }, no_bits) doc))

  unfoldable pub create_event_member :
      CreateEventRequest × Bits → String → V → Result Err (CreateEventRequest × Bits)
  create_event_member (s, bits) k v =
      if k == "title"
      then take_str "title" v (λ x. (record s { title = x }, set bits 0 true))
      else if k == "address"
      then take_str "address" v (λ x. (record s { address = x }, set bits 1 true))
      else if k == "description"
      then decode_field "description" (do x ← opt_string v; ok (record s { description = x }, bits))
      else if k == "started_at"
      then take_str "started_at" v (λ x. (record s { started_at = x }, set bits 3 true))
      else if k == "finished_at"
      then take_str "finished_at" v (λ x. (record s { finished_at = x }, set bits 4 true))
      else skipped v (s, bits)

  unfoldable pub decode_create_event_request : String → Result BodyError CreateEventRequest
  decode_create_event_request doc = with_required create_event_fields create_event_mask (
      map_error (wrap "decode CreateEventRequest") (
        obj_bytes json create_event_member
          (
            record {
              title = "";
              address = "";
              description = unset "";
              started_at = "";
              finished_at = "";
            },
            no_bits,
          )
          doc))

  -- Decode of CreateReviewRequest and of UpdateReviewRequest
  unfoldable pub review_member : ReviewRequest → String → V → Result Err ReviewRequest
  review_member s k v =
      if k == "comment"
      then decode_field "comment" (do x ← opt_string v; ok (record s { comment = x }))
      else if k == "rating"
      then decode_field "rating" (do x ← opt_int32 v; ok (record s { rating = x }))
      else skipped v s

  unfoldable pub decode_create_review_request : String → Result BodyError ReviewRequest
  decode_create_review_request doc =
      map_error (λ e. undecoded (wrap "decode CreateReviewRequest" e))
        (obj_bytes json review_member (record { comment = unset ""; rating = unset 0 }) doc)

  unfoldable pub decode_update_review_request : String → Result BodyError ReviewRequest
  decode_update_review_request doc =
      map_error (λ e. undecoded (wrap "decode UpdateReviewRequest" e))
        (obj_bytes json review_member (record { comment = unset ""; rating = unset 0 }) doc)

  unfoldable pub patch_event_member : PatchEventRequest → String → V → Result Err PatchEventRequest
  patch_event_member s k v =
      if k == "category"
      then decode_field "category" (do x ← opt_event_category v; ok (record s { category = x }))
      else if k == "city"
      then decode_field "city" (do x ← opt_string v; ok (record s { city = x }))
      else if k == "price"
      then decode_field "price" (do x ← opt_int64 v; ok (record s { price = x }))
      else skipped v s

  unfoldable pub decode_patch_event_request : String → Result BodyError PatchEventRequest
  decode_patch_event_request doc =
      map_error (λ e. undecoded (wrap "decode PatchEventRequest" e))
        (obj_bytes json patch_event_member
          (record { category = unset ""; price = unset 0; city = unset "" }) doc)

-- PatchEventRequest.Validate: the field errors, of which there is one at most.
unfoldable pub validate_patch_event : PatchEventRequest → Option Err
validate_patch_event s =
    if s.category.set
    then elim (validate_category s.category.value) [
      | ok done ↦ none
      | err e ↦ some (wrap "category" e)
    ]
    else none

-- Why the body of a request is refused.
pub data RequestError : Type 0 where
  media_type unread : Err → RequestError
  body_required trailing_data : RequestError
  undecodable : BodyError → RequestError
  invalid : Err → RequestError
  invalid_content_type : String → RequestError

-- The body of an http.Request: its media type, its ContentLength and what reading it gives.
pub record RequestBody : Type 0 where
  pub content_type : Result Err String
  pub content_length : ℕ
  pub read : Result Err String

module _ {V : Type 0} (json : Json V) where
  module _ {A : Type 0} (decode : String → Result BodyError A) where
    abbrev pub decode_document : String → Result RequestError A
    decode_document doc = if doc == "" then err body_required else (do
      request ← map_error undecodable (decode doc)
      if json.trailing doc then err trailing_data else ok request)

    -- The six decoders differ in the request that they decode, and one validates it.
    abbrev pub decode_body : RequestBody → Result RequestError A
    decode_body body = do
      ct ← map_error (λ e. media_type (wrap "parse media type" e)) body.content_type
      if ct == "application/json"
          then (if nat_eq body.content_length 0
              then err body_required
              else (do doc ← map_error unread body.read; decode_document doc))
          else err (invalid_content_type ct)

  unfoldable pub decode_api_create_event_request :
      RequestBody → Result RequestError CreateEventRequest
  decode_api_create_event_request body = decode_body (decode_create_event_request json) body

  unfoldable pub decode_api_create_event_review_request :
      RequestBody → Result RequestError ReviewRequest
  decode_api_create_event_review_request body = decode_body (decode_create_review_request json) body

  unfoldable pub decode_api_login_request : RequestBody → Result RequestError LoginRequest
  decode_api_login_request body = decode_body (decode_login_request json) body

  unfoldable pub decode_api_patch_event_request :
      RequestBody → Result RequestError PatchEventRequest
  decode_api_patch_event_request body = do
    request ← decode_body (decode_patch_event_request json) body
    elim (validate_patch_event request) [
      | none ↦ ok request
      | some e ↦ err (invalid (wrap "validate" e))
    ]

  unfoldable pub decode_api_register_request : RequestBody → Result RequestError UserRegisterRequest
  decode_api_register_request body = decode_body (decode_user_register_request json) body

  unfoldable pub decode_api_update_event_review_request :
      RequestBody → Result RequestError ReviewRequest
  decode_api_update_event_review_request body = decode_body (decode_update_review_request json) body
