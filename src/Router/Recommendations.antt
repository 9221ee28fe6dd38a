-- ===== src/Router/Recommendations.antt =====
-- APIGetRecommendations of internal/router/handler.go
use ndbx.Prelude.{ℕ, String, false, map}
use ndbx.Exec.{pure, map_err, ◌>>=◌}
use ndbx.GoTime.{Rfc3339}
use ndbx.Service
use ndbx.Router.{
  Opt, recommendations_unauthorized, recommendations, new_internal_error, SessionService,
  RecommendationService, Handler, answering,
}
use ndbx.Router.Cookie.{extract_sid, form_set_cookie}
use ndbx.Router.View.{to_oas_event_data}
use ndbx.Router.Auth.{authorized_user}

module _ (clock : Rfc3339) {W : Type 0} (sessions : SessionService W)
    (service : RecommendationService W) (session_ttl_seconds : ℕ) where
  unfoldable pub api_get_recommendations : Opt String → Handler W
  api_get_recommendations cookie =
      let sid = extract_sid cookie.value in
      let set_cookie = form_set_cookie sid session_ttl_seconds in
      answering (do
        user_id ← authorized_user sessions recommendations_unauthorized sid
        found ← map_err (λ _. new_internal_error) (service.get_recommendations user_id)
        let view = λ (e : Service.EventData). to_oas_event_data clock e false false
        pure (recommendations set_cookie (map view found)))
