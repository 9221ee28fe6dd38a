-- ===== src/Examples/Paths.antt =====
-- Requests on the generated router.
use ndbx.Errors.{Err}
use ndbx.Exec.{Result, ok}
use ndbx.Prelude.{String, ◌≡◌, ◌≢◌, refl, eq_iff, [], ◌∷◌, arith}
use ndbx.Ogen.{api_like_event, api_update_event_review}
use ndbx.Ogen.Texts.{IsSegment}
use ndbx.Ogen.Routing.{
  Url, handled, not_allowed, get_or_patch, route, root_node, events_node, event_node,
}
use ndbx.Ogen.Routing.Refusal.{refuse}
use ndbx.Ogen.Routing.Allowed.{Lists, refuse-Allow}
use ndbx.Ogen.Routing.Paths.{pattern, method_of, render}
use ndbx.Ogen.Routing.Sound.{Requests, route_sound}
use ndbx.Ogen.Routing.Complete.{route_complete}

e1-IsSegment : IsSegment "e1"
e1-IsSegment = (omega arith, (omega arith, tt))

r2-IsSegment : IsSegment "r2"
r2-IsSegment = (omega arith, (omega arith, tt))

route_complete_example :
    route
      (method_of api_update_event_review)
      (render (pattern api_update_event_review) ("e1" ∷ "r2" ∷ []))
    ≡ handled api_update_event_review ("e1" ∷ "r2" ∷ [])
route_complete_example =
    route_complete api_update_event_review ("e1" ∷ "r2" ∷ []) (e1-IsSegment, (r2-IsSegment, tt))

pub liked : route "POST" "/events/e1/like" ≡ handled api_like_event ("e1" ∷ [])
liked = route_complete api_like_event ("e1" ∷ []) (e1-IsSegment, tt)

route_sound_example : Requests "POST" "/events/e1/like" api_like_event ("e1" ∷ [])
route_sound_example = route_sound "POST" "/events/e1/like" api_like_event ("e1" ∷ []) liked

abbrev plain_unescape : String → Result Err String
plain_unescape s = ok s

abbrev user_url : Url
user_url = record { path = "/users/u1"; raw_path = "/users/u%31" }

refused : route "DELETE" "/events/e1" ≡ not_allowed get_or_patch
unfolding route root_node events_node event_node ndbx.Ogen.Texts.first_is ndbx.Ogen.Texts.cut
    ndbx.Ogen.Texts.from_slash
refused = refl

delete_is_not_options : ◌≢◌ {A = String} "DELETE" "OPTIONS"
delete_is_not_options same = ground (arith, (eq_iff "DELETE" "OPTIONS").1 same)

refuse-Allow_example :
    (refuse (λ s. s) "" "DELETE" get_or_patch
      ≡ record { status = 405; headers = ("Allow", "GET,PATCH") ∷ [] })
    × Lists (λ m. route m "/events/e1") get_or_patch
refuse-Allow_example =
    refuse-Allow (λ s. s) "/events/e1" "DELETE" "" get_or_patch refused delete_is_not_options
