-- ===== src/App/Services/Leaving/Changes.antt =====
-- The likes, the dislikes and the reviews of internal/service leave the keys of sessions in Redis alone.
use ndbx.Prelude.{ℕ, String, Option, ◌==◌, nat_eq, not}
use ndbx.Errors.{Err}
use ndbx.Exec.{Exec}
use ndbx.Exec.Stays.{
  Stays, wrapped_keeps, logged_keeps, then_keeps, tried_keeps, mapped_keeps, if_keeps,
}
use ndbx.Redis.{RedisLaws}
use ndbx.GoTime.{seconds, now_utc}
use ndbx.Cassandra.ReactionStorage.{like_value}
use ndbx.Service
use ndbx.Service.{EventData}
use ndbx.App.{reaction_storage, reaction_cache}
use ndbx.App.Services.{
  Drivers, event_storage, review_storage, review_cache, graph_storage, event_service,
  review_service,
}
use ndbx.App.Services.Storages.{
  Elsewhere, I, reaction_set-Stays, review_set-Stays, now-Stays, get_event-Stays,
  upsert_reaction-Stays, create_review-Stays, get_reviews_by_event_id-Stays, get_review-Stays,
  update_review-Stays, add_like-Stays,
}
use ndbx.App.Services.Leaving.Titles.{
  counted, counted-leaves, reactions_of, reviews_of, summed, summed-leaves,
}

module _ {W : Type 0} (d : Drivers W) (laws : RedisLaws d.redis) (e : Elsewhere d laws)
    (sid field : String) (v : Option String) where
  abbrev P : W → Type 0
  P = I d laws e sid field v

  abbrev liked : Service.ReactEventReq → ℕ → String → Exec Err W (Unit {0})
  liked =
      Service.Reaction.add_like_edge d.host d.title_md5 (event_storage d)
        (reaction_storage d.cassandra) (reaction_cache d.redis) (graph_storage d)
        (seconds d.like_ttl)

  liked-leaves :
      (req : Service.ReactEventReq) (value : ℕ) (title : String) → Stays P (liked req value title)
  unfolding Service.Reaction.add_like_edge
  liked-leaves req value title w i =
      if_keeps P (nat_eq value like_value) _ _ w
        (tried_keeps P ((graph_storage d).add_like req.user_id req.id title) w _ _
          (add_like-Stays d laws e sid field v _ _ _ w i) (λ x w i. i) (λ a w i. i))
        i

  react_to_event-leaves :
      (req : Service.ReactEventReq) (value : ℕ)
      → Stays P (
          Service.Reaction.react_to_event d.host d.title_md5
            (event_storage d)
            (reaction_storage d.cassandra)
            (reaction_cache d.redis)
            (graph_storage d)
            (seconds d.like_ttl)
            req
            value)
  unfolding Service.Reaction.react_to_event Service.Reaction.react_to
  react_to_event-leaves req value w i =
      wrapped_keeps P ((event_storage d).get_event req.id) w _ _
        (get_event-Stays d laws e sid field v req.id w i)
        λ event w i.
          let now = (now_utc d.host w).0 in
          wrapped_keeps P
            ((reaction_storage d.cassandra).upsert_reaction req.id req.user_id value now)
            (now_utc d.host w).1 _ _
            (upsert_reaction-Stays d laws e sid field v req.id req.user_id value now _
              (now-Stays d laws e sid field v w i))
            λ a w i.
              then_keeps P (liked req value event.title) w _
                (liked-leaves req value event.title w i)
                λ a w i.
                  wrapped_keeps P (counted d laws e sid field v event.title) w _ _
                    (counted-leaves d laws e sid field v event.title w i)
                    λ r w i.
                      mapped_keeps P
                        ((reaction_cache d.redis).set
                          (reactions_of d laws e sid field v event.title r))
                        w _ (reaction_set-Stays d laws e sid field v _ w i)

  pub like_event-leaves : (req : Service.ReactEventReq) → Stays P ((event_service d).like_event req)
  unfolding Service.Reaction.like_event
  like_event-leaves req = react_to_event-leaves req _

  pub dislike_event-leaves :
      (req : Service.ReactEventReq) → Stays P ((event_service d).dislike_event req)
  unfolding Service.Reaction.dislike_event
  dislike_event-leaves req = react_to_event-leaves req _

  abbrev recached : String → Exec Err W (Unit {0})
  recached =
      Service.Review.update_review_cache d.host d.floats d.title_md5 (event_storage d)
        (review_storage d) (review_cache d) (seconds d.reviews_ttl)

  update_review_cache-leaves :
      (id : String)
      → Stays P (
          Service.Review.update_review_cache d.host d.floats d.title_md5
            (event_storage d)
            (review_storage d)
            (review_cache d)
            (seconds d.reviews_ttl)
            id)
  unfolding Service.Review.update_review_cache
  update_review_cache-leaves id w i =
      wrapped_keeps P ((event_storage d).get_event id) w _ _
        (get_event-Stays d laws e sid field v id w i)
        λ event w i.
          wrapped_keeps P (summed d laws e sid field v event.title) w _ _
            (summed-leaves d laws e sid field v event.title w i)
            λ r w i.
              mapped_keeps P ((review_cache d).set (reviews_of d laws e sid field v event.title r))
                w _ (review_set-Stays d laws e sid field v _ w i)

  pub create_review-leaves :
      (req : Service.CreateReviewReq) → Stays P ((review_service d).create_review req)
  unfolding Service.Review.create_review
  create_review-leaves req w i =
      wrapped_keeps P ((event_storage d).get_event req.event_id) w _ _
        (get_event-Stays d laws e sid field v req.event_id w i)
        λ event w i.
          let now = (now_utc d.host w).0 in
          wrapped_keeps P
            ((review_storage d).create_review req.event_id req.user_id req.rating req.comment now)
            (now_utc d.host w).1 _ _
            (create_review-Stays d laws e sid field v req.event_id req.user_id req.rating
              req.comment now _ (now-Stays d laws e sid field v w i))
            λ id w i.
              logged_keeps P (recached req.event_id) w _
                (update_review_cache-leaves req.event_id w i) (λ w i. i)

  pub get_reviews-leaves :
      (req : Service.GetReviewsReq) → Stays P ((review_service d).get_reviews req)
  unfolding Service.Review.get_reviews
  get_reviews-leaves req w i =
      wrapped_keeps P ((event_storage d).get_event req.event_id) w _ _
        (get_event-Stays d laws e sid field v req.event_id w i)
        λ event w i.
          wrapped_keeps P ((review_storage d).get_reviews_by_event_id req.event_id) w _ _
            (get_reviews_by_event_id-Stays d laws e sid field v _ w i) (λ a w i. i)

  pub update_review-leaves :
      (req : Service.UpdateReviewReq) → Stays P ((review_service d).update_review req)
  unfolding Service.Review.update_review Service.Review.update_found
  update_review-leaves req w i =
      wrapped_keeps P ((event_storage d).get_event req.event_id) w _ _
        (get_event-Stays d laws e sid field v req.event_id w i)
        λ event w i.
          wrapped_keeps P ((review_storage d).get_review req.event_id req.review_id) w _ _
            (get_review-Stays d laws e sid field v _ _ w i)
            λ review w i. if_keeps P (not (review.created_by == req.user_id)) _ _ w i (
              let now = (now_utc d.host w).0 in
              wrapped_keeps P
                ((review_storage d).update_review req.event_id req.user_id req.rating req.comment
                  now)
                (now_utc d.host w).1 _ _
                (update_review-Stays d laws e sid field v req.event_id req.user_id req.rating
                  req.comment now _ (now-Stays d laws e sid field v w i))
                λ a w i.
                  tried_keeps P (recached req.event_id) w _ _
                    (update_review_cache-leaves req.event_id w i) (λ x w i. i) (λ a w i. i))
