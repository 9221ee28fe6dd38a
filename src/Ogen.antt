-- ===== src/Ogen.antt =====
-- internal/router/ogen, which is generated from docs/openapi.yaml: the operations of
-- oas_operations_gen.go, and what its files have in common.
pub mod Texts
pub mod Routing
pub mod Finding
pub mod Params
pub mod Serving
pub mod Required
pub mod Bodies
pub mod Responses
use ndbx.Prelude.{String}

pub data Operation : Type 0 where
  api_create_event api_create_event_review api_dislike_event api_get_event : Operation
  api_get_event_reviews api_get_events api_get_recommendations api_get_user : Operation
  api_get_user_events api_get_users api_health api_like_event api_login api_logout : Operation
  api_patch_event api_register api_session api_update_event_review : Operation

-- The OperationName of an operation.
abbrev pub operation_name : Operation → String
operation_name api_create_event = "APICreateEvent"
operation_name api_create_event_review = "APICreateEventReview"
operation_name api_dislike_event = "APIDislikeEvent"
operation_name api_get_event = "APIGetEvent"
operation_name api_get_event_reviews = "APIGetEventReviews"
operation_name api_get_events = "APIGetEvents"
operation_name api_get_recommendations = "APIGetRecommendations"
operation_name api_get_user = "APIGetUser"
operation_name api_get_user_events = "APIGetUserEvents"
operation_name api_get_users = "APIGetUsers"
operation_name api_health = "APIHealth"
operation_name api_like_event = "APILikeEvent"
operation_name api_login = "APILogin"
operation_name api_logout = "APILogout"
operation_name api_patch_event = "APIPatchEvent"
operation_name api_register = "APIRegister"
operation_name api_session = "APISession"
operation_name api_update_event_review = "APIUpdateEventReview"
