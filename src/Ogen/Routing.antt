-- ===== src/Ogen/Routing.antt =====
-- ServeHTTP of internal/router/ogen/oas_router_gen.go: the static tree that finds the operation of a
-- method and a path, node by node, and notAllowedParams of internal/router/ogen/oas_cfg_gen.go.
pub mod Paths
pub mod Refusal
pub mod Sound
pub mod Allowed
pub mod Complete
use ndbx.Prelude.{
  String, Bool, true, false, Option, none, some, List, [], ◌∷◌, ◌==◌, if◌then◌else◌, not, ◌&&◌,
  lookup, ◌++◌, ℕ,
}
use ndbx.Ogen.{
  Operation, api_create_event, api_create_event_review, api_dislike_event, api_get_event,
  api_get_event_reviews, api_get_events, api_get_recommendations, api_get_user, api_get_user_events,
  api_get_users, api_health, api_like_event, api_login, api_logout, api_patch_event, api_register,
  api_session, api_update_event_review,
}
use ndbx.Ogen.Texts.{is_empty, first_is, cut, before_slash, from_slash, has_slash}

-- notAllowedParams
pub record NotAllowed : Type 0 where
  pub allowed_methods : String
  pub allowed_headers : List (String × String)
  pub accept_post : String
  pub accept_patch : String

-- What ServeHTTP does: it calls the handler of an operation with its arguments, notAllowed or
-- notFound.
pub data Outcome : Type 0 where
  handled : Operation → List String → Outcome
  not_allowed : NotAllowed → Outcome
  not_found : Outcome

abbrev pub json : String
json = "application/json"

abbrev pub cookie_only : String
cookie_only = "Cookie"

abbrev pub with_body : String
with_body = "Content-Type,Cookie"

abbrev pub only_get : NotAllowed
only_get = record {
  allowed_methods = "GET";
  allowed_headers = ("GET", cookie_only) ∷ [];
  accept_post = "";
  accept_patch = "";
}

-- The leaves of a path with POST only, with the header of rn6, rn14, rn17 and rn18.
abbrev pub only_post : NotAllowed
only_post = record {
  allowed_methods = "POST";
  allowed_headers = ("POST", cookie_only) ∷ [];
  accept_post = "";
  accept_patch = "";
}

-- rn15
abbrev pub only_post_json : NotAllowed
only_post_json = record {
  allowed_methods = "POST";
  allowed_headers = ("POST", with_body) ∷ [];
  accept_post = json;
  accept_patch = "";
}

-- rn1, rn4 and rn12
abbrev pub get_or_post : NotAllowed
get_or_post = record {
  allowed_methods = "GET,POST";
  allowed_headers = ("GET", cookie_only) ∷ ("POST", with_body) ∷ [];
  accept_post = json;
  accept_patch = "";
}

-- rn3
abbrev pub get_or_patch : NotAllowed
get_or_patch = record {
  allowed_methods = "GET,PATCH";
  allowed_headers = ("GET", cookie_only) ∷ ("PATCH", with_body) ∷ [];
  accept_post = "";
  accept_patch = json;
}

-- rn20
abbrev pub only_patch : NotAllowed
only_patch = record {
  allowed_methods = "PATCH";
  allowed_headers = ("PATCH", with_body) ∷ [];
  accept_post = "";
  accept_patch = json;
}

-- if …elem has the prefix { elem = elem[l:] } else { break }: a break leads to notFound.
abbrev pub behind : Option String → (String → Outcome) → Outcome
behind none node = not_found
behind (some rest) node = node rest

-- A node with a prefix and nothing below it: "in", "out", "dislike", "like", "health",
-- "recommendations", "session" and "/events".
unfoldable pub plain_node : String → String → Outcome → Outcome
plain_node prefix elem leaf =
    behind (cut elem prefix) λ end. if is_empty end then leaf else not_found

module _ (method : String) where
  abbrev pub get_leaf : Operation → List String → Outcome
  get_leaf op args = if method == "GET" then handled op args else not_allowed only_get

  abbrev pub post_leaf : Operation → NotAllowed → List String → Outcome
  post_leaf op params args = if method == "POST" then handled op args else not_allowed params

  -- "auth/log"
  unfoldable pub auth_node : String → Outcome
  auth_node elem = behind (cut elem "auth/log") λ rest.
      if first_is b'i' rest
      then plain_node "in" rest (post_leaf api_login only_post_json [])
      else if first_is b'o' rest
      then plain_node "out" rest (post_leaf api_logout only_post [])
      else not_found

  -- "/" after "reviews": the review_id, up to the end
  unfoldable pub review_node : String → String → Outcome
  review_node event_id elem = behind (cut elem "/") λ review_id.
      if has_slash review_id
      then not_found
      else if method == "PATCH"
      then handled api_update_event_review (event_id ∷ review_id ∷ [])
      else not_allowed only_patch

  -- "reviews"
  unfoldable pub reviews_node : String → String → Outcome
  reviews_node event_id elem = behind (cut elem "reviews") λ rest.
      if is_empty rest
      then (if method == "GET"
          then handled api_get_event_reviews (event_id ∷ [])
          else if method == "POST"
          then handled api_create_event_review (event_id ∷ [])
          else not_allowed get_or_post)
      else if first_is b'/' rest
      then review_node event_id rest
      else not_found

  -- "/" after the event_id
  unfoldable pub reactions_node : String → String → Outcome
  reactions_node event_id elem = behind (cut elem "/") λ rest.
      if first_is b'd' rest
      then plain_node "dislike" rest (post_leaf api_dislike_event only_post (event_id ∷ []))
      else if first_is b'l' rest
      then plain_node "like" rest (post_leaf api_like_event only_post (event_id ∷ []))
      else if first_is b'r' rest
      then reviews_node event_id rest
      else not_found

  -- "/" after "events": the event_id, up to a slash
  unfoldable pub event_node : String → Outcome
  event_node elem = behind (cut elem "/") λ path.
      let event_id = before_slash path in
      let rest = from_slash path in
      if is_empty rest
      then (if method == "GET"
          then handled api_get_event (event_id ∷ [])
          else if method == "PATCH"
          then handled api_patch_event (event_id ∷ [])
          else not_allowed get_or_patch)
      else if first_is b'/' rest
      then reactions_node event_id rest
      else not_found

  -- "events"
  unfoldable pub events_node : String → Outcome
  events_node elem = behind (cut elem "events") λ rest.
      if is_empty rest
      then (if method == "GET"
          then handled api_get_events []
          else if method == "POST"
          then handled api_create_event []
          else not_allowed get_or_post)
      else if first_is b'/' rest
      then event_node rest
      else not_found

  -- "/" after "users": the id, up to a slash
  unfoldable pub user_node : String → Outcome
  user_node elem = behind (cut elem "/") λ path.
      let id = before_slash path in
      let rest = from_slash path in
      if is_empty rest
      then get_leaf api_get_user (id ∷ [])
      else if first_is b'/' rest
      then plain_node "/events" rest (get_leaf api_get_user_events (id ∷ []))
      else not_found

  -- "users"
  unfoldable pub users_node : String → Outcome
  users_node elem = behind (cut elem "users") λ rest.
      if is_empty rest
      then (if method == "GET"
          then handled api_get_users []
          else if method == "POST"
          then handled api_register []
          else not_allowed get_or_post)
      else if first_is b'/' rest
      then user_node rest
      else not_found

  -- "/"
  unfoldable pub root_node : String → Outcome
  root_node elem = behind (cut elem "/") λ rest.
      if first_is b'a' rest
      then auth_node rest
      else if first_is b'e' rest
      then events_node rest
      else if first_is b'h' rest
      then plain_node "health" rest (get_leaf api_health [])
      else if first_is b'r' rest
      then plain_node "recommendations" rest (get_leaf api_get_recommendations [])
      else if first_is b's' rest
      then plain_node "session" rest (post_leaf api_session only_post [])
      else if first_is b'u' rest
      then users_node rest
      else not_found

  -- The whole tree, on the path without the server's prefix.
  unfoldable pub route : String → Outcome
  route elem = if first_is b'/' elem then root_node elem else not_found

-- url.URL
pub record Url : Type 0 where
  pub path : String
  pub raw_path : String

-- cutPrefix
unfoldable pub cut_prefix : String → String → Option String
cut_prefix prefix path = if prefix == "" then some path else cut path prefix

-- uri.NormalizeEscapedPath is a parameter: `none` if the path is not a valid escaped one.
module _ (normalize_escaped_path : String → Option String) where
  abbrev pub requested : Option String → String → String
  requested none path = path
  requested (some normalized) path = normalized

  unfoldable pub path_of : Url → String
  path_of url =
      if url.raw_path == ""
      then url.path
      else requested (normalize_escaped_path url.raw_path) url.path

  unfoldable pub serve_http : (prefix method : String) → Url → Outcome
  serve_http prefix method url =
      behind (cut_prefix prefix (path_of url))
        λ elem. if is_empty elem then not_found else route method elem
