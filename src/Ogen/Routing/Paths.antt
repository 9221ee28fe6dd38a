-- ===== src/Ogen/Routing/Paths.antt =====
-- The operations as docs/openapi.yaml gives them, each with its method and the pattern of its path,
-- and how to go through the branches of the tree of internal/router/ogen/oas_router_gen.go.
use text.Mathlib.TextLemmas.{append-nil}
use ndbx.Prelude.{
  String, text_append, ◌≡◌, refl, Bool, true, false, List, [], ◌∷◌, if◌then◌else◌, ◌∙◌,
  Option-cases, inl, inr,
}
use ndbx.Ogen.{
  Operation, api_create_event, api_create_event_review, api_dislike_event, api_get_event,
  api_get_event_reviews, api_get_events, api_get_recommendations, api_get_user, api_get_user_events,
  api_get_users, api_health, api_like_event, api_login, api_logout, api_patch_event, api_register,
  api_session, api_update_event_review,
}
use ndbx.Ogen.Texts.{is_empty, cut, cut-some, is_empty-true, IsSegment}
use ndbx.Ogen.Routing.{Outcome, not_found, behind, plain_node}

-- A part of a path between slashes: a text, or a parameter.
pub data Part : Type 0 where
  lit : String → Part
  param : Part

abbrev pub pattern : Operation → List Part
pattern api_create_event = lit "events" ∷ []
pattern api_create_event_review = lit "events" ∷ param ∷ lit "reviews" ∷ []
pattern api_dislike_event = lit "events" ∷ param ∷ lit "dislike" ∷ []
pattern api_get_event = lit "events" ∷ param ∷ []
pattern api_get_event_reviews = lit "events" ∷ param ∷ lit "reviews" ∷ []
pattern api_get_events = lit "events" ∷ []
pattern api_get_recommendations = lit "recommendations" ∷ []
pattern api_get_user = lit "users" ∷ param ∷ []
pattern api_get_user_events = lit "users" ∷ param ∷ lit "events" ∷ []
pattern api_get_users = lit "users" ∷ []
pattern api_health = lit "health" ∷ []
pattern api_like_event = lit "events" ∷ param ∷ lit "like" ∷ []
pattern api_login = lit "auth" ∷ lit "login" ∷ []
pattern api_logout = lit "auth" ∷ lit "logout" ∷ []
pattern api_patch_event = lit "events" ∷ param ∷ []
pattern api_register = lit "users" ∷ []
pattern api_session = lit "session" ∷ []
pattern api_update_event_review = lit "events" ∷ param ∷ lit "reviews" ∷ param ∷ []

abbrev pub method_of : Operation → String
method_of api_create_event = "POST"
method_of api_create_event_review = "POST"
method_of api_dislike_event = "POST"
method_of api_get_event = "GET"
method_of api_get_event_reviews = "GET"
method_of api_get_events = "GET"
method_of api_get_recommendations = "GET"
method_of api_get_user = "GET"
method_of api_get_user_events = "GET"
method_of api_get_users = "GET"
method_of api_health = "GET"
method_of api_like_event = "POST"
method_of api_login = "POST"
method_of api_logout = "POST"
method_of api_patch_event = "PATCH"
method_of api_register = "POST"
method_of api_session = "POST"
method_of api_update_event_review = "PATCH"

-- The path of a pattern, with arguments for its parameters.
abbrev pub render : List Part → List String → String
render [] args = ""
render (lit s ∷ parts) args = text_append "/" (text_append s (render parts args))
render (param ∷ parts) [] = ""
render (param ∷ parts) (arg ∷ args) = text_append "/" (text_append arg (render parts args))

-- One argument for each parameter, without a slash.
abbrev pub Fits : List Part → List String → Type 0
Fits [] [] = Unit
Fits [] (arg ∷ args) = ⊥
Fits (lit s ∷ parts) args = Fits parts args
Fits (param ∷ parts) [] = ⊥
Fits (param ∷ parts) (arg ∷ args) = IsSegment arg × Fits parts args

-- The branches of the tree, for a property of its outcome.
module _ (P : Outcome → Type 0) where
  pub if-branches :
      (test : Bool) (a b : Outcome)
      → (test ≡ true → P a)
      → (test ≡ false → P b)
      → P (if test then a else b)
  if-branches true a b then_holds else_holds = then_holds refl
  if-branches false a b then_holds else_holds = else_holds refl

  module _ (missing : P not_found) where
    pub behind-branches :
        (s prefix : String) (node : String → Outcome)
        → ((rest : String) → s ≡ text_append prefix rest → P (node rest))
        → P (behind (cut s prefix) node)
    behind-branches s prefix node holds = elim (Option-cases (cut s prefix)) [
      | inl missed ↦ rw missed missing
      | inr (rest, found) ↦ rw found (holds rest (cut-some prefix s rest found))
    ]

    pub plain_node-branches :
        (prefix s : String) (leaf : Outcome) → (s ≡ prefix → P leaf) → P (plain_node prefix s leaf)
    unfolding plain_node
    plain_node-branches prefix s leaf holds = behind-branches s prefix _ λ rest same.
        if-branches (is_empty rest) leaf not_found
          (λ done. holds (same ∙ rw (is_empty-true rest done) (append-nil prefix)))
          (λ more. missing)
