-- ===== src/Ogen/Routing/Allowed.antt =====
-- The calls of notAllowed in internal/router/ogen/oas_router_gen.go: the methods that they name.
use ndbx.Prelude.{
  ◌≢◌, eq_iff, String, text_append, ◌≡◌, ◌↔◌, refl, ◌∙◌, Bool, true, false, ◌==◌, List, [], ◌∷◌,
  map, Option, none, some, Bool-cases, inl, inr, if◌then◌else◌, arith,
}
use ndbx.Ogen.{
  Operation, api_create_event, api_create_event_review, api_dislike_event, api_get_event,
  api_get_event_reviews, api_get_events, api_get_recommendations, api_get_user, api_get_user_events,
  api_get_users, api_health, api_like_event, api_login, api_logout, api_patch_event, api_register,
  api_session, api_update_event_review,
}
use ndbx.Ogen.Texts.{is_empty, cut, first_is, has_slash, before_slash, from_slash}
use ndbx.Ogen.Routing.{
  NotAllowed, Outcome, handled, not_allowed, not_found, only_get, only_post, only_post_json,
  get_or_post, get_or_patch, only_patch, behind, plain_node, get_leaf, auth_node, review_node,
  reviews_node, reactions_node, event_node, events_node, user_node, users_node, root_node, route,
}
use ndbx.Ogen.Routing.Refusal.{refuse}

-- The methods of a call of notAllowed, as its headers list them.
abbrev pub methods : NotAllowed → List String
methods params = map (λ (method, headers). method) params.allowed_headers

abbrev pub listed : String → List String → Bool
listed m [] = false
listed m (x ∷ xs) = if m == x then true else listed m xs

-- strings.Join(methods, ",")
abbrev pub joined : List String → String
joined [] = ""
joined (x ∷ []) = x
joined (x ∷ y ∷ ys) = text_append x (text_append "," (joined (y ∷ ys)))

-- What a path leads to, for all methods: nothing, or a leaf that handles the methods that it lists.
data Leaf (f : String → Outcome) : Type 0 where
  nowhere : ((m : String) → f m ≡ not_found) → Leaf f
  leaf :
      (params : NotAllowed) (op : String → Operation) (args : List String)
      → params.allowed_methods ≡ joined (methods params)
      → ((m : String)
          → f m ≡ (if listed m (methods params) then handled (op m) args else not_allowed params))
      → Leaf f

if-Leaf :
    (test : Bool) (a b : String → Outcome) → Leaf a → Leaf b → Leaf (λ m. if test then a m else b m)
if-Leaf true a b first second = first
if-Leaf false a b first second = second

missing : Leaf (λ m. not_found)
missing = nowhere (λ m. refl)

behind-Leaf :
    (o : Option String) (node : String → String → Outcome)
    → ((rest : String) → Leaf (λ m. node m rest))
    → Leaf (λ m. behind o (node m))
behind-Leaf none node leads = missing
behind-Leaf (some rest) node leads = leads rest

plain_node-Leaf :
    (prefix elem : String) (a : String → Outcome)
    → Leaf a
    → Leaf (λ m. plain_node prefix elem (a m))
unfolding plain_node
plain_node-Leaf prefix elem a leads =
    behind-Leaf (cut elem prefix) _ (λ rest. if-Leaf (is_empty rest) a _ leads missing)

one-Leaf :
    (name : String) (params : NotAllowed) (op : Operation) (args : List String)
    → methods params ≡ name ∷ []
    → params.allowed_methods ≡ name
    → Leaf (λ m. if m == name then handled op args else not_allowed params)
one-Leaf name params op args only is_name =
    leaf params (λ m. op) args (rw (only, is_name) refl)
      λ m. elim (Bool-cases (m == name)) [ inl t ↦ rw (only, t) refl | inr f ↦ rw (only, f) refl ]

two-Leaf :
    (first second : String) (params : NotAllowed) (op op' : Operation) (args : List String)
    → methods params ≡ first ∷ second ∷ []
    → params.allowed_methods ≡ joined (first ∷ second ∷ [])
    → Leaf (λ m.
      if m == first
      then handled op args
      else if m == second
      then handled op' args
      else not_allowed params)
two-Leaf first second params op op' args both names =
    leaf params (λ m. if m == first then op else op') args (rw (both, names) refl)
      λ m. elim (Bool-cases (m == first)) [
        | inl t ↦ rw (both, t) refl
        | inr f ↦ elim (Bool-cases (m == second)) [
          | inl t ↦ rw (both, f, t) refl
          | inr g ↦ rw (both, f, g) refl
        ]
      ]

get_leaf-Leaf : (op : Operation) (args : List String) → Leaf (λ m. get_leaf m op args)
get_leaf-Leaf op args = one-Leaf "GET" only_get op args refl refl

auth_node-Leaf : (s : String) → Leaf (λ m. auth_node m s)
unfolding auth_node
auth_node-Leaf s = behind-Leaf (cut s "auth/log") _ λ rest.
    if-Leaf (first_is b'i' rest) _ _
      (plain_node-Leaf "in" rest _ (one-Leaf "POST" only_post_json api_login [] refl refl))
      (if-Leaf (first_is b'o' rest) _ _
        (plain_node-Leaf "out" rest _ (one-Leaf "POST" only_post api_logout [] refl refl)) missing)

review_node-Leaf : (id s : String) → Leaf (λ m. review_node m id s)
unfolding review_node
review_node-Leaf id s = behind-Leaf (cut s "/") _ λ review_id.
    if-Leaf (has_slash review_id) _ _ missing
      (one-Leaf "PATCH" only_patch api_update_event_review (id ∷ review_id ∷ []) refl refl)

reviews_node-Leaf : (id s : String) → Leaf (λ m. reviews_node m id s)
unfolding reviews_node
reviews_node-Leaf id s = behind-Leaf (cut s "reviews") _ λ rest.
    if-Leaf (is_empty rest) _ _
      (two-Leaf "GET" "POST" get_or_post api_get_event_reviews api_create_event_review (id ∷ [])
        refl refl)
      (if-Leaf (first_is b'/' rest) _ _ (review_node-Leaf id rest) missing)

reactions_node-Leaf : (id s : String) → Leaf (λ m. reactions_node m id s)
unfolding reactions_node
reactions_node-Leaf id s = behind-Leaf (cut s "/") _ λ rest.
    if-Leaf (first_is b'd' rest) _ _
      (plain_node-Leaf "dislike" rest _
        (one-Leaf "POST" only_post api_dislike_event (id ∷ []) refl refl))
      (if-Leaf (first_is b'l' rest) _ _
        (plain_node-Leaf "like" rest _
          (one-Leaf "POST" only_post api_like_event (id ∷ []) refl refl))
        (if-Leaf (first_is b'r' rest) _ _ (reviews_node-Leaf id rest) missing))

event_node-Leaf : (s : String) → Leaf (λ m. event_node m s)
unfolding event_node
event_node-Leaf s = behind-Leaf (cut s "/") _ λ path.
    if-Leaf (is_empty (from_slash path)) _ _
      (two-Leaf "GET" "PATCH" get_or_patch api_get_event api_patch_event (before_slash path ∷ [])
        refl refl)
      (if-Leaf (first_is b'/' (from_slash path)) _ _
        (reactions_node-Leaf (before_slash path) (from_slash path)) missing)

events_node-Leaf : (s : String) → Leaf (λ m. events_node m s)
unfolding events_node
events_node-Leaf s = behind-Leaf (cut s "events") _ λ rest.
    if-Leaf (is_empty rest) _ _
      (two-Leaf "GET" "POST" get_or_post api_get_events api_create_event [] refl refl)
      (if-Leaf (first_is b'/' rest) _ _ (event_node-Leaf rest) missing)

user_node-Leaf : (s : String) → Leaf (λ m. user_node m s)
unfolding user_node
user_node-Leaf s = behind-Leaf (cut s "/") _ λ path.
    if-Leaf (is_empty (from_slash path)) _ _ (get_leaf-Leaf api_get_user (before_slash path ∷ [])) (
      if-Leaf (first_is b'/' (from_slash path)) _ _
        (plain_node-Leaf "/events" (from_slash path) _
          (get_leaf-Leaf api_get_user_events (before_slash path ∷ [])))
        missing)

users_node-Leaf : (s : String) → Leaf (λ m. users_node m s)
unfolding users_node
users_node-Leaf s = behind-Leaf (cut s "users") _ λ rest.
    if-Leaf (is_empty rest) _ _
      (two-Leaf "GET" "POST" get_or_post api_get_users api_register [] refl refl)
      (if-Leaf (first_is b'/' rest) _ _ (user_node-Leaf rest) missing)

root_node-Leaf : (s : String) → Leaf (λ m. root_node m s)
unfolding root_node
root_node-Leaf s = behind-Leaf (cut s "/") _ λ rest.
    if-Leaf (first_is b'a' rest) _ _ (auth_node-Leaf rest) (
      if-Leaf (first_is b'e' rest) _ _ (events_node-Leaf rest) (
        if-Leaf (first_is b'h' rest) _ _
          (plain_node-Leaf "health" rest _ (get_leaf-Leaf api_health []))
          (if-Leaf (first_is b'r' rest) _ _
            (plain_node-Leaf "recommendations" rest _ (get_leaf-Leaf api_get_recommendations []))
            (if-Leaf (first_is b's' rest) _ _
              (plain_node-Leaf "session" rest _
                (one-Leaf "POST" only_post api_session [] refl refl))
              (if-Leaf (first_is b'u' rest) _ _ (users_node-Leaf rest) missing)))))

route-Leaf : (path : String) → Leaf (λ m. route m path)
unfolding route
route-Leaf path = if-Leaf (first_is b'/' path) _ _ (root_node-Leaf path) missing

-- The leaf that refuses a method lists all the methods that the path has.
abbrev pub Lists : (String → Outcome) → NotAllowed → Type 0
Lists f params =
    (m : String)
    → listed m (methods params) ≡ true
      ↔ (op : Operation) × (args : List String) × (f m ≡ handled op args)

leaf-Lists :
    (f : String → Outcome) (params : NotAllowed) (op : String → Operation) (args : List String)
    → ((m : String)
        → f m ≡ (if listed m (methods params) then handled (op m) args else not_allowed params))
    → Lists f params
leaf-Lists f params op args leads m = (
  (λ t. (op m, args, leads m ∙ rw t refl)),
  λ (op', args', e). elim (Bool-cases (listed m (methods params))) [
    | inl t ↦ t
    | inr no_method ↦ absurd (ground (arith, leads m))
  ],
)

refused-Lists :
    (f : String → Outcome) (m : String) (params : NotAllowed)
    → Leaf f
    → f m ≡ not_allowed params
    → (params.allowed_methods ≡ joined (methods params)) × Lists f params
refused-Lists f m params (nowhere never) refused = absurd (ground (arith, never m))
refused-Lists f m params (leaf found op args names leads) refused =
    elim (Bool-cases (listed m (methods found))) [
      | inl t ↦ absurd (ground (arith, leads m))
      | inr no_method ↦
          let same : found ≡ params = ground (arith, leads m) in
          rw (← same) (names, leaf-Lists f found op args leads)
    ]

-- A request that the tree refuses for its method, which is not OPTIONS, is answered with the status
-- 405 and the one header Allow, and this header lists, separated by commas, exactly the methods for
-- which the tree calls a handler on the path of the request.
pub refuse-Allow :
    (to_upper : String → String) (path m requested : String) (params : NotAllowed)
    → route m path ≡ not_allowed params
    → m ≢ "OPTIONS"
    → (refuse to_upper requested m params
        ≡ record { status = 405; headers = ("Allow", joined (methods params)) ∷ [] })
      × Lists (λ m'. route m' path) params
unfolding refuse
refuse-Allow to_upper path m requested params refused other =
    let (names, lists) = refused-Lists (λ m'. route m' path) m params (route-Leaf path) refused in
    let not_options : (m == "OPTIONS") ≡ false = ground (arith, eq_iff m "OPTIONS") in
    (rw (not_options, names) refl, lists)
