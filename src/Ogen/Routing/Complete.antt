-- ===== src/Ogen/Routing/Complete.antt =====
-- The tree of ServeHTTP, in internal/router/ogen/oas_router_gen.go, calls the handler of every
-- operation on its requests.
use text.Mathlib.TextLemmas.{append-nil}
use ndbx.Prelude.{String, text_append, ◌≡◌, refl, List, [], ◌∷◌, ◌∙◌, ◌==◌, if◌then◌else◌}
use ndbx.Ogen.{
  Operation, api_create_event, api_create_event_review, api_dislike_event, api_get_event,
  api_get_event_reviews, api_get_events, api_get_recommendations, api_get_user, api_get_user_events,
  api_get_users, api_health, api_like_event, api_login, api_logout, api_patch_event, api_register,
  api_session, api_update_event_review,
}
use ndbx.Ogen.Texts.{
  first_is, cut, IsSegment, first_is-append, is_empty-append, cut-append, before_slash-append,
  from_slash-append, before_slash_whole, from_slash_whole, IsSegment-has_slash,
}
use ndbx.Ogen.Routing.{
  handled, not_allowed, get_or_patch, only_patch, get_leaf, plain_node, reactions_node,
  reviews_node, review_node, auth_node, event_node, events_node, user_node, users_node, root_node,
  route,
}
use ndbx.Ogen.Routing.Paths.{pattern, method_of, render, Fits}

module _ (m : String) where
  route-events :
      (s : String)
      → route m (text_append "/" (text_append "events" s)) ≡ events_node m (text_append "events" s)
  unfolding route root_node first_is
  route-events s =
      rw
        (
          first_is-append b'/' "/" (text_append "events" s) refl,
          cut-append "/" (text_append "events" s),
          first_is-append b'a' "events" s refl,
          first_is-append b'e' "events" s refl,
        )
        refl

  events_node-event :
      (s : String)
      → events_node m (text_append "events" (text_append "/" s)) ≡ event_node m (text_append "/" s)
  unfolding events_node first_is
  events_node-event s =
      rw
        (
          cut-append "events" (text_append "/" s),
          is_empty-append "/" s refl,
          first_is-append b'/' "/" s refl,
        )
        refl

  event_node-reactions :
      (x s : String)
      → IsSegment x
      → event_node m (text_append "/" (text_append x (text_append "/" s)))
        ≡ reactions_node m x (text_append "/" s)
  unfolding event_node first_is
  event_node-reactions x s segment =
      rw
        (
          cut-append "/" (text_append x (text_append "/" s)),
          before_slash-append x s segment,
          from_slash-append x s segment,
          is_empty-append "/" s refl,
          first_is-append b'/' "/" s refl,
        )
        refl

  under_event :
      (x s : String)
      → IsSegment x
      → route m (
          text_append "/"
            (text_append "events" (text_append "/" (text_append x (text_append "/" s)))))
        ≡ reactions_node m x (text_append "/" s)
  under_event x s segment =
      route-events (text_append "/" (text_append x (text_append "/" s)))
      ∙ events_node-event (text_append x (text_append "/" s))
      ∙ event_node-reactions x s segment

  -- A path that ends after an event's id.
  at_event :
      (x : String)
      → IsSegment x
      → route m (text_append "/" (text_append "events" (text_append "/" (text_append x "")))) ≡ (
          if m == "GET"
          then handled api_get_event (x ∷ [])
          else if m == "PATCH"
          then handled api_patch_event (x ∷ [])
          else not_allowed get_or_patch)
  unfolding event_node
  at_event x segment =
      route-events (text_append "/" (text_append x ""))
      ∙ events_node-event (text_append x "")
      ∙ rw
          (append-nil x, cut-append "/" x, before_slash_whole x segment, from_slash_whole x segment)
          refl

  -- A path with reviews under an event.
  at_reviews :
      (x s : String)
      → IsSegment x
      → route m (
          text_append "/" (
            text_append "events"
              (text_append "/" (text_append x (text_append "/" (text_append "reviews" s))))))
        ≡ reviews_node m x (text_append "reviews" s)
  unfolding reactions_node first_is
  at_reviews x s segment =
      under_event x (text_append "reviews" s) segment
      ∙ rw
          (
            cut-append "/" (text_append "reviews" s),
            first_is-append b'd' "reviews" s refl,
            first_is-append b'l' "reviews" s refl,
            first_is-append b'r' "reviews" s refl,
          )
          refl

  at_review :
      (x y : String)
      → IsSegment x
      → IsSegment y
      → route m (render (pattern api_update_event_review) (x ∷ y ∷ [])) ≡ (
          if m == "PATCH"
          then handled api_update_event_review (x ∷ y ∷ [])
          else not_allowed only_patch)
  unfolding reviews_node review_node first_is
  at_review x y seg_x seg_y =
      at_reviews x (text_append "/" (text_append y "")) seg_x
      ∙ rw
          (
            append-nil y,
            cut-append "reviews" (text_append "/" y),
            is_empty-append "/" y refl,
            first_is-append b'/' "/" y refl,
            cut-append "/" y,
            IsSegment-has_slash y seg_y,
          )
          refl

  route-users :
      (s : String)
      → route m (text_append "/" (text_append "users" (text_append "/" s)))
        ≡ user_node m (text_append "/" s)
  unfolding route root_node users_node first_is
  route-users s =
      rw
        (
          first_is-append b'/' "/" (text_append "users" (text_append "/" s)) refl,
          cut-append "/" (text_append "users" (text_append "/" s)),
          first_is-append b'a' "users" (text_append "/" s) refl,
          first_is-append b'e' "users" (text_append "/" s) refl,
          first_is-append b'h' "users" (text_append "/" s) refl,
          first_is-append b'r' "users" (text_append "/" s) refl,
          first_is-append b's' "users" (text_append "/" s) refl,
          first_is-append b'u' "users" (text_append "/" s) refl,
          cut-append "users" (text_append "/" s),
          is_empty-append "/" s refl,
          first_is-append b'/' "/" s refl,
        )
        refl

  at_user :
      (x : String)
      → IsSegment x
      → route m (text_append "/" (text_append "users" (text_append "/" (text_append x ""))))
        ≡ get_leaf m api_get_user (x ∷ [])
  unfolding user_node
  at_user x segment =
      route-users (text_append x "")
      ∙ rw
          (append-nil x, cut-append "/" x, before_slash_whole x segment, from_slash_whole x segment)
          refl

  at_user_events :
      (x : String)
      → IsSegment x
      → route m (render (pattern api_get_user_events) (x ∷ []))
        ≡ get_leaf m api_get_user_events (x ∷ [])
  unfolding user_node plain_node first_is cut
  at_user_events x segment =
      route-users (text_append x "/events")
      ∙ rw
          (
            cut-append "/" (text_append x "/events"),
            before_slash-append x "events" segment,
            from_slash-append x "events" segment,
          )
          refl

-- The tree calls the handler of every operation, with its arguments, on a request with its method
-- and a path of its pattern: one argument for each parameter, each without a slash, and otherwise
-- arbitrary, also empty.
pub route_complete :
    (op : Operation) (args : List String)
    → Fits (pattern op) args
    → route (method_of op) (render (pattern op) args) ≡ handled op args
unfolding route root_node auth_node events_node users_node plain_node reactions_node reviews_node
    first_is cut
route_complete api_create_event [] fits = refl
route_complete api_create_event (x ∷ args) fits = absurd fits
route_complete api_create_event_review [] fits = absurd fits
route_complete api_create_event_review (x ∷ []) fits = at_reviews "POST" x "" fits.0
route_complete api_create_event_review (x ∷ y ∷ args) fits = absurd fits.1
route_complete api_dislike_event [] fits = absurd fits
route_complete api_dislike_event (x ∷ []) fits = under_event "POST" x "dislike" fits.0
route_complete api_dislike_event (x ∷ y ∷ args) fits = absurd fits.1
route_complete api_get_event [] fits = absurd fits
route_complete api_get_event (x ∷ []) fits = at_event "GET" x fits.0
route_complete api_get_event (x ∷ y ∷ args) fits = absurd fits.1
route_complete api_get_event_reviews [] fits = absurd fits
route_complete api_get_event_reviews (x ∷ []) fits = at_reviews "GET" x "" fits.0
route_complete api_get_event_reviews (x ∷ y ∷ args) fits = absurd fits.1
route_complete api_get_events [] fits = refl
route_complete api_get_events (x ∷ args) fits = absurd fits
route_complete api_get_recommendations [] fits = refl
route_complete api_get_recommendations (x ∷ args) fits = absurd fits
route_complete api_get_user [] fits = absurd fits
route_complete api_get_user (x ∷ []) fits = at_user "GET" x fits.0
route_complete api_get_user (x ∷ y ∷ args) fits = absurd fits.1
route_complete api_get_user_events [] fits = absurd fits
route_complete api_get_user_events (x ∷ []) fits = at_user_events "GET" x fits.0
route_complete api_get_user_events (x ∷ y ∷ args) fits = absurd fits.1
route_complete api_get_users [] fits = refl
route_complete api_get_users (x ∷ args) fits = absurd fits
route_complete api_health [] fits = refl
route_complete api_health (x ∷ args) fits = absurd fits
route_complete api_like_event [] fits = absurd fits
route_complete api_like_event (x ∷ []) fits = under_event "POST" x "like" fits.0
route_complete api_like_event (x ∷ y ∷ args) fits = absurd fits.1
route_complete api_login [] fits = refl
route_complete api_login (x ∷ args) fits = absurd fits
route_complete api_logout [] fits = refl
route_complete api_logout (x ∷ args) fits = absurd fits
route_complete api_patch_event [] fits = absurd fits
route_complete api_patch_event (x ∷ []) fits = at_event "PATCH" x fits.0
route_complete api_patch_event (x ∷ y ∷ args) fits = absurd fits.1
route_complete api_register [] fits = refl
route_complete api_register (x ∷ args) fits = absurd fits
route_complete api_session [] fits = refl
route_complete api_session (x ∷ args) fits = absurd fits
route_complete api_update_event_review [] fits = absurd fits
route_complete api_update_event_review (x ∷ []) fits = absurd fits.1
route_complete api_update_event_review (x ∷ y ∷ []) fits = at_review "PATCH" x y fits.0 fits.1.0
route_complete api_update_event_review (x ∷ y ∷ z ∷ args) fits = absurd fits.1.1
