-- ===== src/Ogen/Routing/Sound.antt =====
-- Where the tree of ServeHTTP, in internal/router/ogen/oas_router_gen.go, calls a handler, the request
-- is one of that operation.
use text.Mathlib.TextLemmas.{append-nil}
use mathlib.Core.Path.{subst}
use ndbx.Prelude.{String, text_append, ◌≡◌, refl, ◌==◌, eq_iff, List, [], ◌∷◌, sym, ap, ◌∙◌, true}
use ndbx.Ogen.{
  Operation, api_dislike_event, api_get_recommendations, api_get_user, api_get_user_events,
  api_health, api_like_event, api_login, api_logout, api_session,
}
use ndbx.Ogen.Texts.{
  is_empty, first_is, before_slash, from_slash, has_slash, IsSegment, is_empty-true, slash_parts,
  before_slash-IsSegment, has_slash-IsSegment,
}
use ndbx.Ogen.Routing.{
  NotAllowed, Outcome, handled, get_leaf, post_leaf, auth_node, review_node, reviews_node,
  reactions_node, event_node, events_node, user_node, users_node, root_node, route,
}
use ndbx.Ogen.Routing.Paths.{
  pattern, method_of, render, Fits, if-branches, behind-branches, plain_node-branches,
}

-- The request is one of the operation, with these arguments.
abbrev pub Requests : String → String → Operation → List String → Type 0
Requests method path op args =
    (method ≡ method_of op) × (path ≡ render (pattern op) args) × Fits (pattern op) args

module _ (m path : String) where
  -- If the outcome calls a handler, it is the right one.
  abbrev pub IsRight : Outcome → Type 0
  IsRight (handled op args) = Requests m path op args
  IsRight _ = Unit

  is_method : (name : String) → (m == name) ≡ true → m ≡ name
  is_method name e = (eq_iff m name).0 e

  get_leaf-IsRight :
      (op : Operation) (args : List String)
      → method_of op ≡ "GET"
      → (path ≡ render (pattern op) args) × Fits (pattern op) args
      → IsRight (get_leaf m op args)
  get_leaf-IsRight op args get (same, fits) =
      if-branches IsRight (m == "GET") _ _ (λ t. (is_method "GET" t ∙ sym get, same, fits))
        (λ t. tt)

  post_leaf-IsRight :
      (op : Operation) (params : NotAllowed) (args : List String)
      → method_of op ≡ "POST"
      → (path ≡ render (pattern op) args) × Fits (pattern op) args
      → IsRight (post_leaf m op params args)
  post_leaf-IsRight op params args post (same, fits) =
      if-branches IsRight (m == "POST") _ _ (λ t. (is_method "POST" t ∙ sym post, same, fits))
        (λ t. tt)

  auth_node-IsRight : (s : String) → path ≡ text_append "/" s → IsRight (auth_node m s)
  unfolding auth_node
  auth_node-IsRight s at = behind-branches IsRight tt s "auth/log" _ λ rest same.
      if-branches IsRight (first_is b'i' rest) _ _
        (λ t.
          plain_node-branches IsRight tt "in" rest _
            (λ e. post_leaf-IsRight api_login _ [] refl (at ∙ rw (same, e) refl, tt)))
        λ f.
          if-branches IsRight (first_is b'o' rest) _ _
            (λ t.
              plain_node-branches IsRight tt "out" rest _
                (λ e. post_leaf-IsRight api_logout _ [] refl (at ∙ rw (same, e) refl, tt)))
            (λ g. tt)

  -- The path up to the rest after an event's id.
  abbrev Under : String → String → String → Type 0
  Under base id rest =
      (path ≡ text_append "/" (text_append base (text_append "/" (text_append id rest))))
      × IsSegment id

  review_node-IsRight :
      (id s : String)
      → (path
          ≡ text_append "/" (
              text_append "events"
                (text_append "/" (text_append id (text_append "/" (text_append "reviews" s))))))
      → IsSegment id
      → IsRight (review_node m id s)
  unfolding review_node
  review_node-IsRight id s at segment = behind-branches IsRight tt s "/" _ λ review_id same.
      if-branches IsRight (has_slash review_id) _ _ (λ t. tt)
        λ none_left.
          if-branches IsRight (m == "PATCH") _ _
            (λ t. (
              is_method "PATCH" t,
              at ∙ rw (same, append-nil review_id) refl,
              (segment, (has_slash-IsSegment review_id none_left, tt)),
            ))
            (λ t. tt)

  reviews_node-IsRight :
      (id s : String) → Under "events" id (text_append "/" s) → IsRight (reviews_node m id s)
  unfolding reviews_node
  reviews_node-IsRight id s (at, segment) = behind-branches IsRight tt s "reviews" _ λ rest same.
      if-branches IsRight (is_empty rest) _ _
        (λ t.
          let here = at ∙ rw (same, is_empty-true rest t) refl in
          if-branches IsRight (m == "GET") _ _ (λ g. (is_method "GET" g, here, (segment, tt)))
            λ f.
              if-branches IsRight (m == "POST") _ _ (λ p. (is_method "POST" p, here, (segment, tt)))
                (λ n. tt))
        λ more.
          if-branches IsRight (first_is b'/' rest) _ _
            (λ t. review_node-IsRight id rest (at ∙ rw same refl) segment) (λ n. tt)

  reactions_node-IsRight : (id s : String) → Under "events" id s → IsRight (reactions_node m id s)
  unfolding reactions_node
  reactions_node-IsRight id s (at, segment) = behind-branches IsRight tt s "/" _ λ rest same.
      if-branches IsRight (first_is b'd' rest) _ _
        (λ t. plain_node-branches IsRight tt "dislike" rest _ (λ e.
          post_leaf-IsRight api_dislike_event _ (id ∷ []) refl
            (at ∙ rw (same, e) refl, (segment, tt))))
        λ f.
          if-branches IsRight (first_is b'l' rest) _ _
            (λ t. plain_node-branches IsRight tt "like" rest _ (λ e.
              post_leaf-IsRight api_like_event _ (id ∷ []) refl
                (at ∙ rw (same, e) refl, (segment, tt))))
            λ g.
              if-branches IsRight (first_is b'r' rest) _ _
                (λ t. reviews_node-IsRight id rest (at ∙ rw same refl, segment)) (λ n. tt)

  -- The parameter before the next slash, and what follows.
  apart :
      (base s : String)
      → path ≡ text_append "/" (text_append base (text_append "/" s))
      → Under base (before_slash s) (from_slash s)
  apart base s at = (
    at ∙ ap (λ t. text_append "/" (text_append base (text_append "/" t))) (slash_parts s),
    before_slash-IsSegment s,
  )

  event_node-IsRight :
      (s : String) → path ≡ text_append "/" (text_append "events" s) → IsRight (event_node m s)
  unfolding event_node
  event_node-IsRight s at = behind-branches IsRight tt s "/" _ λ rest same.
      let (under, segment) = apart "events" rest (at ∙ rw same refl) in
      if-branches IsRight (is_empty (from_slash rest)) _ _
        (λ t.
          let here = under ∙ rw (is_empty-true (from_slash rest) t) refl in
          if-branches IsRight (m == "GET") _ _ (λ g. (is_method "GET" g, here, (segment, tt)))
            λ f.
              if-branches IsRight (m == "PATCH") _ _
                (λ p. (is_method "PATCH" p, here, (segment, tt))) (λ n. tt))
        λ more.
          if-branches IsRight (first_is b'/' (from_slash rest)) _ _
            (λ t. reactions_node-IsRight (before_slash rest) (from_slash rest) (under, segment))
            (λ n. tt)

  events_node-IsRight : (s : String) → path ≡ text_append "/" s → IsRight (events_node m s)
  unfolding events_node
  events_node-IsRight s at = behind-branches IsRight tt s "events" _ λ rest same.
      if-branches IsRight (is_empty rest) _ _
        (λ t.
          let here = at ∙ rw (same, is_empty-true rest t) refl in
          if-branches IsRight (m == "GET") _ _ (λ g. (is_method "GET" g, here, tt))
            λ f.
              if-branches IsRight (m == "POST") _ _ (λ p. (is_method "POST" p, here, tt)) (λ n. tt))
        λ more.
          if-branches IsRight (first_is b'/' rest) _ _
            (λ t. event_node-IsRight rest (at ∙ rw same refl)) (λ n. tt)

  user_node-IsRight :
      (s : String) → path ≡ text_append "/" (text_append "users" s) → IsRight (user_node m s)
  unfolding user_node
  user_node-IsRight s at = behind-branches IsRight tt s "/" _ λ rest same.
      let (under, segment) = apart "users" rest (at ∙ rw same refl) in
      if-branches IsRight (is_empty (from_slash rest)) _ _
        (λ t.
          get_leaf-IsRight api_get_user (before_slash rest ∷ []) refl
            (under ∙ rw (is_empty-true (from_slash rest) t) refl, (segment, tt)))
        λ more.
          if-branches IsRight (first_is b'/' (from_slash rest)) _ _
            (λ t. plain_node-branches IsRight tt "/events" (from_slash rest) _ (λ e.
              get_leaf-IsRight api_get_user_events (before_slash rest ∷ []) refl
                (under ∙ rw e refl, (segment, tt))))
            (λ n. tt)

  users_node-IsRight : (s : String) → path ≡ text_append "/" s → IsRight (users_node m s)
  unfolding users_node
  users_node-IsRight s at = behind-branches IsRight tt s "users" _ λ rest same.
      if-branches IsRight (is_empty rest) _ _
        (λ t.
          let here = at ∙ rw (same, is_empty-true rest t) refl in
          if-branches IsRight (m == "GET") _ _ (λ g. (is_method "GET" g, here, tt))
            λ f.
              if-branches IsRight (m == "POST") _ _ (λ p. (is_method "POST" p, here, tt)) (λ n. tt))
        λ more.
          if-branches IsRight (first_is b'/' rest) _ _
            (λ t. user_node-IsRight rest (at ∙ rw same refl)) (λ n. tt)

  root_node-IsRight : IsRight (root_node m path)
  unfolding root_node
  root_node-IsRight = behind-branches IsRight tt path "/" _ λ rest at.
      if-branches IsRight (first_is b'a' rest) _ _ (λ t. auth_node-IsRight rest at)
        λ a.
          if-branches IsRight (first_is b'e' rest) _ _ (λ t. events_node-IsRight rest at)
            λ e.
              if-branches IsRight (first_is b'h' rest) _ _
                (λ t.
                  plain_node-branches IsRight tt "health" rest _
                    (λ e. get_leaf-IsRight api_health [] refl (at ∙ rw e refl, tt)))
                λ h.
                  if-branches IsRight (first_is b'r' rest) _ _
                    (λ t.
                      plain_node-branches IsRight tt "recommendations" rest _ (λ e.
                        get_leaf-IsRight api_get_recommendations [] refl (at ∙ rw e refl, tt)))
                    λ r.
                      if-branches IsRight (first_is b's' rest) _ _
                        (λ t.
                          plain_node-branches IsRight tt "session" rest _
                            (λ e. post_leaf-IsRight api_session _ [] refl (at ∙ rw e refl, tt)))
                        λ s.
                          if-branches IsRight (first_is b'u' rest) _ _
                            (λ t. users_node-IsRight rest at) (λ n. tt)

  route-IsRight : IsRight (route m path)
  unfolding route
  route-IsRight = if-branches IsRight (first_is b'/' path) _ _ (λ t. root_node-IsRight) (λ n. tt)

  -- Where the tree calls the handler of an operation with some arguments, the method is the
  -- operation's, and the path is that of its pattern with these arguments, of which there is one for
  -- each parameter, without a slash.
  pub route_sound :
      (op : Operation) (args : List String)
      → route m path ≡ handled op args
      → Requests m path op args
  route_sound op args called = subst IsRight called route-IsRight
