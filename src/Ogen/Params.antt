-- ===== src/Ogen/Params.antt =====
-- The parameters of the operations: internal/router/ogen/oas_parameters_gen.go, with the Opt types of
-- internal/router/ogen/oas_schemas_gen.go. The packages uri and conv of ogen, which read a request,
-- are parameters.
use ndbx.Prelude.{
  ℕ, String, ◌==◌, Bool, true, false, Option, none, some, if◌then◌else◌, ◌||◌, text_append,
}
use ndbx.Errors.{Err, plain, wrap}
use ndbx.Exec.{Result, ok, err}
use ndbx.Router.{Opt}
use ndbx.Router.Listing.{EventsQuery}
use ndbx.Router.Users.{UsersQuery}

-- The zero value of an Opt type, and SetTo
abbrev pub unset : {A : Type 0} → A → Opt A
unset zero = record { value = zero; set = false }

abbrev pub set_to : {A : Type 0} → A → Opt A
set_to v = record { value = v; set = true }

-- DecodeParamError
pub record DecodeParamError : Type 0 where
  pub name : String
  pub location : String
  pub cause : Err

module _ {E A B : Type 0} where
  infixl 5 ◌>>=◌
  abbrev pub ◌>>=◌ : Result E A → (A → Result E B) → Result E B
  ok a >>= f = f a
  err e >>= f = err e

abbrev pub map_error : {E F A : Type 0} → (E → F) → Result E A → Result F A
map_error f (ok a) = ok a
map_error f (err e) = err (f e)

-- A request as the packages uri, conv and net/url read it.
pub record Reader : Type 0 where
  -- url.PathUnescape
  pub path_unescape : String → Result Err String
  -- uri.NewPathDecoder(…).DecodeValue(), of a parameter and its text
  pub path_value : String → String → Result Err String
  -- HasParam, and DecodeValue if there is one: a parameter of the query, and a header
  pub query_value : String → Option (Result Err String)
  pub header_value : String → Option (Result Err String)
  -- conv.ToString and conv.ToInt64
  pub to_string : String → Result Err String
  pub to_int64 : String → Result Err ℕ

-- EventCategory.Validate
abbrev pub validate_category : String → Result Err (Unit {0})
validate_category s =
    if s == "meetup" || s == "concert" || s == "exhibition" || s == "party" || s == "other"
    then ok tt
    else err (plain (text_append "invalid value: " s))

-- HasParam and DecodeParam: a parameter that is not there leaves the zero value.
abbrev pub optional :
    {A : Type 0} → A → (String → Result Err A) → Option (Result Err String) → Result Err (Opt A)
optional zero convert none = ok (unset zero)
optional zero convert (some value) = do val ← value; c ← convert val; ok (set_to c)

abbrev pub field_required : Err
field_required = plain "field required"

abbrev pub in_param : {A : Type 0} → String → String → Result Err A → Result DecodeParamError A
in_param location name = map_error λ e. record { name = name; location = location; cause = e }

module _ (r : Reader) where
  abbrev pub unescaped : Bool → String → Result Err String
  unescaped args_escaped arg =
      if args_escaped then map_error (wrap "unescape path") (r.path_unescape arg) else ok arg

  -- "Decode path"
  unfoldable pub path_param : Bool → String → String → Result DecodeParamError String
  path_param args_escaped name arg = in_param "path" name (do
    param ← unescaped args_escaped arg
    if param == "" then err field_required else (do val ← r.path_value name param; r.to_string val))

  -- "Decode header: Cookie"
  unfoldable pub cookie_param : Result DecodeParamError (Opt String)
  cookie_param = in_param "header" "Cookie" (optional "" r.to_string (r.header_value "Cookie"))

  -- "Decode query" of a string and of an int64
  unfoldable pub query_string : String → Result DecodeParamError (Opt String)
  query_string name = in_param "query" name (optional "" r.to_string (r.query_value name))

  unfoldable pub query_int64 : String → Result DecodeParamError (Opt ℕ)
  query_int64 name = in_param "query" name (optional 0 r.to_int64 (r.query_value name))

  -- the check of a category that is set
  abbrev pub checked_category : Opt String → Result Err (Opt String)
  checked_category o = if o.set then (do done ← validate_category o.value; ok o) else ok o

  -- "Decode query: category"
  unfoldable pub query_category : Result DecodeParamError (Opt String)
  query_category =
      in_param "query" "category" (do
        category ← optional "" r.to_string (r.query_value "category")
        checked_category category)

  unfoldable pub decode_api_create_event_params : Result DecodeParamError (Opt String)
  decode_api_create_event_params = cookie_param

  unfoldable pub decode_api_create_event_review_params :
      Bool → String → Result DecodeParamError (String × Opt String)
  decode_api_create_event_review_params args_escaped arg = do
    id ← path_param args_escaped "event_id" arg
    cookie ← cookie_param
    ok (id, cookie)

  unfoldable pub decode_api_dislike_event_params :
      Bool → String → Result DecodeParamError (String × Opt String)
  decode_api_dislike_event_params args_escaped arg = do
    id ← path_param args_escaped "id" arg
    cookie ← cookie_param
    ok (id, cookie)

  -- with the query `include`
  unfoldable pub decode_api_get_event_params :
      Bool → String → Result DecodeParamError (String × Opt String × Opt String)
  decode_api_get_event_params args_escaped arg = do
    id ← path_param args_escaped "id" arg
    cookie ← cookie_param
    include ← query_string "include"
    ok (id, include, cookie)

  -- with the queries `limit` and `offset`
  unfoldable pub decode_api_get_event_reviews_params :
      Bool → String → Result DecodeParamError (String × Opt ℕ × Opt ℕ × Opt String)
  decode_api_get_event_reviews_params args_escaped arg = do
    event_id ← path_param args_escaped "event_id" arg
    cookie ← cookie_param
    limit ← query_int64 "limit"
    offset ← query_int64 "offset"
    ok (event_id, limit, offset, cookie)

  unfoldable pub decode_api_get_events_params : Result DecodeParamError (EventsQuery × Opt String)
  decode_api_get_events_params = do
    cookie ← cookie_param
    id ← query_string "id"
    title ← query_string "title"
    category ← query_category
    price_from ← query_int64 "price_from"
    price_to ← query_int64 "price_to"
    address ← query_string "address"
    city ← query_string "city"
    date_from ← query_string "date_from"
    date_to ← query_string "date_to"
    user_id ← query_string "user_id"
    user ← query_string "user"
    include ← query_string "include"
    limit ← query_int64 "limit"
    offset ← query_int64 "offset"
    ok (
      record {
        id = id;
        title = title;
        category = category;
        price_from = price_from;
        price_to = price_to;
        address = address;
        city = city;
        date_from = date_from;
        date_to = date_to;
        user_id = user_id;
        user = user;
        limit = limit;
        offset = offset;
        include = include;
      },
      cookie,
    )

  unfoldable pub decode_api_get_recommendations_params : Result DecodeParamError (Opt String)
  decode_api_get_recommendations_params = cookie_param

  unfoldable pub decode_api_get_user_params :
      Bool → String → Result DecodeParamError (String × Opt String)
  decode_api_get_user_params args_escaped arg = do
    id ← path_param args_escaped "id" arg
    cookie ← cookie_param
    ok (id, cookie)

  -- Its query has no `id`, `user_id` and `user`.
  unfoldable pub decode_api_get_user_events_params :
      Bool → String → Result DecodeParamError (String × EventsQuery × Opt String)
  decode_api_get_user_events_params args_escaped arg = do
    id ← path_param args_escaped "id" arg
    cookie ← cookie_param
    title ← query_string "title"
    category ← query_category
    price_from ← query_int64 "price_from"
    price_to ← query_int64 "price_to"
    address ← query_string "address"
    city ← query_string "city"
    date_from ← query_string "date_from"
    date_to ← query_string "date_to"
    include ← query_string "include"
    limit ← query_int64 "limit"
    offset ← query_int64 "offset"
    ok (
      id,
      record {
        id = unset "";
        title = title;
        category = category;
        price_from = price_from;
        price_to = price_to;
        address = address;
        city = city;
        date_from = date_from;
        date_to = date_to;
        user_id = unset "";
        user = unset "";
        limit = limit;
        offset = offset;
        include = include;
      },
      cookie,
    )

  unfoldable pub decode_api_get_users_params : Result DecodeParamError (UsersQuery × Opt String)
  decode_api_get_users_params = do
    cookie ← cookie_param
    id ← query_string "id"
    name ← query_string "name"
    limit ← query_int64 "limit"
    offset ← query_int64 "offset"
    ok (record { id = id; name = name; limit = limit; offset = offset }, cookie)

  unfoldable pub decode_api_health_params : Result DecodeParamError (Opt String)
  decode_api_health_params = cookie_param

  unfoldable pub decode_api_like_event_params :
      Bool → String → Result DecodeParamError (String × Opt String)
  decode_api_like_event_params args_escaped arg = do
    id ← path_param args_escaped "id" arg
    cookie ← cookie_param
    ok (id, cookie)

  unfoldable pub decode_api_login_params : Result DecodeParamError (Opt String)
  decode_api_login_params = cookie_param

  unfoldable pub decode_api_logout_params : Result DecodeParamError (Opt String)
  decode_api_logout_params = cookie_param

  unfoldable pub decode_api_patch_event_params :
      Bool → String → Result DecodeParamError (String × Opt String)
  decode_api_patch_event_params args_escaped arg = do
    id ← path_param args_escaped "id" arg
    cookie ← cookie_param
    ok (id, cookie)

  unfoldable pub decode_api_register_params : Result DecodeParamError (Opt String)
  decode_api_register_params = cookie_param

  unfoldable pub decode_api_session_params : Result DecodeParamError (Opt String)
  decode_api_session_params = cookie_param

  unfoldable pub decode_api_update_event_review_params :
      Bool → String → String → Result DecodeParamError (String × String × Opt String)
  decode_api_update_event_review_params args_escaped arg0 arg1 = do
    event_id ← path_param args_escaped "event_id" arg0
    review_id ← path_param args_escaped "review_id" arg1
    cookie ← cookie_param
    ok (event_id, review_id, cookie)
