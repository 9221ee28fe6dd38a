-- ===== src/App/Services/Leaving/Recommendations.antt =====
-- The operations of internal/service/recommendation.go leave the keys of sessions in Redis alone.
use ndbx.Prelude.{String, Option, List, [], ◌∷◌, map}
use ndbx.Errors.{Err, is, redis_nil}
use ndbx.Exec.{Exec}
use ndbx.Exec.Stays.{Stays, wrapped_keeps, logged_keeps, then_keeps, tried_keeps, if_keeps}
use ndbx.Redis.{RedisLaws}
use ndbx.GoTime.{seconds}
use ndbx.Graph.{RecommendedEvent}
use ndbx.Service
use ndbx.Service.{EventData}
use ndbx.App.Services.{
  Drivers, event_storage, graph_storage, recommendation_cache, recommendation_service,
}
use ndbx.App.Services.Storages.{
  Elsewhere, I, recommendation_get-Stays, recommendation_set-Stays, get_event-Stays,
  recommended-Stays,
}

module _ {W : Type 0} (d : Drivers W) (laws : RedisLaws d.redis) (e : Elsewhere d laws)
    (sid field : String) (v : Option String) where
  abbrev P : W → Type 0
  P = I d laws e sid field v

  abbrev fetched : List RecommendedEvent → Exec Err W (List EventData)
  fetched =
      Service.Recommendation.fetch_events d.clock (graph_storage d) (event_storage d)
        (recommendation_cache d) (seconds d.recommendations_ttl)

  fetch_events-leaves :
      (recs : List RecommendedEvent)
      → Stays P (
          Service.Recommendation.fetch_events d.clock
            (graph_storage d)
            (event_storage d)
            (recommendation_cache d)
            (seconds d.recommendations_ttl)
            recs)
  unfolding Service.Recommendation.fetch_events
  fetch_events-leaves [] w i = i
  fetch_events-leaves (rec ∷ recs) w i =
      tried_keeps P ((event_storage d).get_event rec.id) w _ _
        (get_event-Stays d laws e sid field v rec.id w i) (λ x w i. fetch_events-leaves recs w i)
        λ event w i. then_keeps P (fetched recs) w _ (fetch_events-leaves recs w i) (λ a w i. i)

  answer-leaves :
      (user_id : String) (recs : List RecommendedEvent)
      → Stays P (
          Service.Recommendation.answer d.clock
            (graph_storage d)
            (event_storage d)
            (recommendation_cache d)
            (seconds d.recommendations_ttl)
            user_id
            recs)
  unfolding Service.Recommendation.answer
  answer-leaves user_id [] w i =
      logged_keeps P
        ((recommendation_cache d).set
          (record { user_id = user_id; events = []; ttl = (seconds d.recommendations_ttl) }))
        w _ (recommendation_set-Stays d laws e sid field v _ w i) (λ w i. i)
  answer-leaves user_id (rec ∷ recs) w i =
      then_keeps P (fetched (rec ∷ recs)) w _ (fetch_events-leaves (rec ∷ recs) w i) λ found w i.
        let chosen =
          Service.Recommendation.select_events d.clock (graph_storage d) (event_storage d)
            (recommendation_cache d) (seconds d.recommendations_ttl) (rec ∷ recs) found in
        logged_keeps P
          ((recommendation_cache d).set (record {
            user_id = user_id;
            events = map (Service.Recommendation.to_cached d.clock) chosen;
            ttl = (seconds d.recommendations_ttl);
          }))
          w _ (recommendation_set-Stays d laws e sid field v _ w i) (λ w i. i)

  pub get_recommendations-leaves :
      (user_id : String) → Stays P ((recommendation_service d).get_recommendations user_id)
  unfolding Service.Recommendation.get_recommendations Service.Recommendation.recommend
  get_recommendations-leaves user_id w i =
      tried_keeps P ((recommendation_cache d).get user_id) w _ _
        (recommendation_get-Stays d laws e sid field v user_id w i)
        (λ x w i.
          if_keeps P (is x redis_nil) _ _ w
            (wrapped_keeps P ((graph_storage d).get_recommended_event_ids user_id) w _ _
              (recommended-Stays d laws e sid field v user_id w i)
              (λ recs w i. answer-leaves user_id recs w i))
            i)
        (λ a w i. i)
