-- ===== src/Ogen/Finding/Agrees.antt =====
-- FindPath of internal/router/ogen/oas_router_gen.go finds the operation that ServeHTTP calls.
use ndbx.Prelude.{String, Option, none, List}
use ndbx.Ogen.{
  Operation, api_create_event, api_create_event_review, api_dislike_event, api_get_event,
  api_get_event_reviews, api_get_events, api_get_recommendations, api_get_user, api_get_user_events,
  api_get_users, api_health, api_like_event, api_login, api_logout, api_patch_event, api_register,
  api_session, api_update_event_review,
}
use ndbx.Ogen.Routing.{Outcome, handled, not_allowed, not_found}
use ndbx.Ogen.Finding.{Route, found}

-- The route of an operation.
abbrev pub route_of : Operation → List String → Option Route
route_of api_create_event args =
    found api_create_event "create a new event" "Api_createEvent" "/events" args
route_of api_create_event_review args =
    found api_create_event_review "create a review for an event" "Api_createEventReview"
      "/events/{event_id}/reviews" args
route_of api_dislike_event args =
    found api_dislike_event "dislike event by id" "Api_dislikeEvent" "/events/{id}/dislike" args
route_of api_get_event args =
    found api_get_event "get event by id" "Api_getEvent" "/events/{id}" args
route_of api_get_event_reviews args =
    found api_get_event_reviews "get reviews for an event" "Api_getEventReviews"
      "/events/{event_id}/reviews" args
route_of api_get_events args =
    found api_get_events "get events with filtering and pagination" "Api_getEvents" "/events" args
route_of api_get_recommendations args =
    found api_get_recommendations "get recommended events for user" "Api_getRecommendations"
      "/recommendations" args
route_of api_get_user args = found api_get_user "get user by id" "Api_getUser" "/users/{id}" args
route_of api_get_user_events args =
    found api_get_user_events "get user events" "Api_getUserEvents" "/users/{id}/events" args
route_of api_get_users args = found api_get_users "get users" "Api_getUsers" "/users" args
route_of api_health args = found api_health "healthcheck with session" "Api_health" "/health" args
route_of api_like_event args =
    found api_like_event "like event by id" "Api_likeEvent" "/events/{id}/like" args
route_of api_login args = found api_login "authenticate user" "Api_login" "/auth/login" args
route_of api_logout args = found api_logout "logout user" "Api_logout" "/auth/logout" args
route_of api_patch_event args =
    found api_patch_event "patch event by id" "Api_patchEvent" "/events/{id}" args
route_of api_register args = found api_register "register a new user" "Api_register" "/users" args
route_of api_session args =
    found api_session "create or extend user's session" "Api_session" "/session" args
route_of api_update_event_review args =
    found api_update_event_review "update a review for an event" "Api_updateEventReview"
      "/events/{event_id}/reviews/{review_id}" args

-- The route of the handler that is called, if one is.
abbrev pub found_of : Outcome → Option Route
found_of (handled op args) = route_of op args
found_of (not_allowed params) = none
found_of not_found = none
