-- ===== src/Ogen/Finding.antt =====
-- FindPath of internal/router/ogen/oas_router_gen.go: its own tree, which finds what ServeHTTP calls.
pub mod Agrees
use ndbx.Errors.{Err}
use ndbx.Exec.{Result, ok, err}
use ndbx.Prelude.{map, String, ◌≡◌, ◌==◌, Option, none, some, List, [], ◌∷◌, if◌then◌else◌, arith}
use ndbx.Ogen.{
  Operation, operation_name, api_create_event, api_create_event_review, api_dislike_event,
  api_get_event, api_get_event_reviews, api_get_events, api_get_recommendations, api_get_user,
  api_get_user_events, api_get_users, api_health, api_like_event, api_login, api_logout,
  api_patch_event, api_register, api_session, api_update_event_review,
}
use ndbx.Ogen.Texts.{is_empty, first_is, cut, before_slash, from_slash, has_slash}
use ndbx.Ogen.Routing.{
  Url, path_of, Outcome, handled, not_allowed, not_found, plain_node, auth_node, review_node,
  reviews_node, reactions_node, event_node, events_node, user_node, users_node, root_node, route,
  cut_prefix,
}

-- Route; `args` are those of Args().
pub record Route : Type 0 where
  pub name : String
  pub summary : String
  pub operation_id : String
  pub operation_group : String
  pub path_pattern : String
  pub args : List String

abbrev pub found :
    Operation → (summary operation_id path_pattern : String) → List String → Option Route
found op summary operation_id path_pattern args = some (record {
  name = operation_name op;
  summary = summary;
  operation_id = operation_id;
  operation_group = "";
  path_pattern = path_pattern;
  args = args;
})

-- A break and a method without an operation both lead to `return`.
abbrev pub past : Option String → (String → Option Route) → Option Route
past none node = none
past (some rest) node = node rest

unfoldable pub find_plain : String → String → Option Route → Option Route
find_plain prefix elem leaf = past (cut elem prefix) λ end. if is_empty end then leaf else none

module _ (method : String) where
  abbrev pub on : String → Option Route → Option Route
  on name leaf = if method == name then leaf else none

  unfoldable pub find_auth : String → Option Route
  find_auth elem = past (cut elem "auth/log") λ rest.
      if first_is b'i' rest
      then find_plain "in" rest
          (on "POST" (found api_login "authenticate user" "Api_login" "/auth/login" []))
      else if first_is b'o' rest
      then find_plain "out" rest
          (on "POST" (found api_logout "logout user" "Api_logout" "/auth/logout" []))
      else none

  unfoldable pub find_review : String → String → Option Route
  find_review event_id elem = past (cut elem "/") λ review_id.
      if has_slash review_id
      then none
      else on "PATCH" (
          found api_update_event_review "update a review for an event" "Api_updateEventReview"
            "/events/{event_id}/reviews/{review_id}" (event_id ∷ review_id ∷ []))

  unfoldable pub find_reviews : String → String → Option Route
  find_reviews event_id elem = past (cut elem "reviews") λ rest.
      if is_empty rest
      then (if method == "GET"
          then (found api_get_event_reviews "get reviews for an event" "Api_getEventReviews"
              "/events/{event_id}/reviews" (event_id ∷ []))
          else on "POST" (
              found api_create_event_review "create a review for an event" "Api_createEventReview"
                "/events/{event_id}/reviews" (event_id ∷ [])))
      else if first_is b'/' rest
      then find_review event_id rest
      else none

  unfoldable pub find_reactions : String → String → Option Route
  find_reactions event_id elem = past (cut elem "/") λ rest.
      if first_is b'd' rest
      then find_plain "dislike" rest (
          on "POST" (
            found api_dislike_event "dislike event by id" "Api_dislikeEvent" "/events/{id}/dislike"
              (event_id ∷ [])))
      else if first_is b'l' rest
      then find_plain "like" rest (
          on "POST" (
            found api_like_event "like event by id" "Api_likeEvent" "/events/{id}/like"
              (event_id ∷ [])))
      else if first_is b'r' rest
      then find_reviews event_id rest
      else none

  unfoldable pub find_event : String → Option Route
  find_event elem = past (cut elem "/") λ path.
      let event_id = before_slash path in
      let rest = from_slash path in
      if is_empty rest
      then (if method == "GET"
          then (found api_get_event "get event by id" "Api_getEvent" "/events/{id}" (event_id ∷ []))
          else on "PATCH" (
              found api_patch_event "patch event by id" "Api_patchEvent" "/events/{id}"
                (event_id ∷ [])))
      else if first_is b'/' rest
      then find_reactions event_id rest
      else none

  unfoldable pub find_events : String → Option Route
  find_events elem = past (cut elem "events") λ rest.
      if is_empty rest
      then (if method == "GET"
          then (found api_get_events "get events with filtering and pagination" "Api_getEvents"
              "/events" [])
          else on "POST"
              (found api_create_event "create a new event" "Api_createEvent" "/events" []))
      else if first_is b'/' rest
      then find_event rest
      else none

  unfoldable pub find_user : String → Option Route
  find_user elem = past (cut elem "/") λ path.
      let id = before_slash path in
      let rest = from_slash path in
      if is_empty rest
      then on "GET" (found api_get_user "get user by id" "Api_getUser" "/users/{id}" (id ∷ []))
      else if first_is b'/' rest
      then find_plain "/events" rest (
          on "GET" (
            found api_get_user_events "get user events" "Api_getUserEvents" "/users/{id}/events"
              (id ∷ [])))
      else none

  unfoldable pub find_users : String → Option Route
  find_users elem = past (cut elem "users") λ rest.
      if is_empty rest
      then (if method == "GET"
          then (found api_get_users "get users" "Api_getUsers" "/users" [])
          else on "POST" (found api_register "register a new user" "Api_register" "/users" []))
      else if first_is b'/' rest
      then find_user rest
      else none

  unfoldable pub find_root : String → Option Route
  find_root elem = past (cut elem "/") λ rest.
      if first_is b'a' rest
      then find_auth rest
      else if first_is b'e' rest
      then find_events rest
      else if first_is b'h' rest
      then find_plain "health" rest
          (on "GET" (found api_health "healthcheck with session" "Api_health" "/health" []))
      else if first_is b'r' rest
      then find_plain "recommendations" rest (
          on "GET" (
            found api_get_recommendations "get recommended events for user" "Api_getRecommendations"
              "/recommendations" []))
      else if first_is b's' rest
      then find_plain "session" rest (
          on "POST"
            (found api_session "create or extend user's session" "Api_session" "/session" []))
      else if first_is b'u' rest
      then find_users rest
      else none

  -- FindPath after cutPrefix
  unfoldable pub find_elem : String → Option Route
  find_elem elem = if first_is b'/' elem then find_root elem else none

-- The arguments of a route that is found, each unescaped by url.PathUnescape if it can be, when the
-- URL has a RawPath.
module _ (path_unescape : String → Result Err String) where
  abbrev pub unescaped : String → String
  unescaped arg = elim (path_unescape arg) [ ok text ↦ text | err e ↦ arg ]

  abbrev pub unescape_args : Url → Option Route → Option Route
  unescape_args url none = none
  unescape_args url (some r) =
      if url.raw_path == "" then some r else some (record r { args = map unescaped r.args })

  unfoldable pub find_path :
      (normalize_escaped_path : String → Option String) (prefix method : String)
      → Url
      → Option Route
  find_path normalize_escaped_path prefix method url = unescape_args url (
      past (cut_prefix prefix (path_of normalize_escaped_path url))
        λ elem. if is_empty elem then none else find_elem method elem)
