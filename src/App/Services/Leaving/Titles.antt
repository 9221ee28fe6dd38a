-- ===== src/App/Services/Leaving/Titles.antt =====
-- The reactions and the reviews by title, of internal/service/event.go and review.go, leave the keys of
-- sessions in Redis alone.
use ndbx.Prelude.{String, Option, List, [], ◌∷◌, Option-cases, inl, inr, lookup, ◌||◌}
use ndbx.Errors.{Err, is, redis_nil}
use ndbx.Exec.{Exec}
use ndbx.Exec.Stays.{Stays, wrapped_keeps, then_keeps, tried_keeps, if_keeps}
use ndbx.Redis.{RedisLaws}
use ndbx.Prelude.Words.{lt64}
use ndbx.GoTime.{seconds}
use ndbx.Redis.Reaction.{SetReactionsReq}
use ndbx.Redis.Review.{SetReviewsReq}
use ndbx.Service
use ndbx.Service.{EventData}
use ndbx.Service.Event.{by_titles}
use ndbx.App.{reaction_storage, reaction_cache}
use ndbx.App.Services.{
  Drivers, event_storage, review_storage, review_cache, graph_storage, reactions_by_title,
  reviews_by_title,
}
use ndbx.App.Services.Storages.{
  Elsewhere, I, reaction_get-Stays, reaction_set-Stays, review_get-Stays, review_set-Stays,
  get_events_by_title-Stays, count_by_event_ids-Stays, get_review_stats-Stays,
}

module _ {W : Type 0} (d : Drivers W) (laws : RedisLaws d.redis) (e : Elsewhere d laws)
    (sid field : String) (v : Option String) where
  abbrev P : W → Type 0
  P = I d laws e sid field v

  abbrev pub counted : String → Exec Err W Service.EventReactions
  counted =
      Service.Reaction.reactions_by_title_no_cache d.host d.title_md5 (event_storage d)
        (reaction_storage d.cassandra) (reaction_cache d.redis) (graph_storage d)
        (seconds d.like_ttl)

  abbrev pub reactions_of : String → Service.EventReactions → SetReactionsReq
  reactions_of title r = record {
    title_hash = d.title_md5 title;
    reactions = record { likes = r.likes; dislikes = r.dislikes };
    ttl = (seconds d.like_ttl);
  }

  pub counted-leaves :
      (title : String)
      → Stays P (
          Service.Reaction.reactions_by_title_no_cache d.host d.title_md5
            (event_storage d)
            (reaction_storage d.cassandra)
            (reaction_cache d.redis)
            (graph_storage d)
            (seconds d.like_ttl)
            title)
  unfolding Service.Reaction.reactions_by_title_no_cache
  counted-leaves title w i =
      wrapped_keeps P ((event_storage d).get_events_by_title title) w _ _
        (get_events_by_title-Stays d laws e sid field v title w i)
        λ es w i.
          wrapped_keeps P ((reaction_storage d.cassandra).count_by_event_ids _) w _ _
            (count_by_event_ids-Stays d laws e sid field v _ w i) (λ a w i. i)

  pub reactions_by_title-leaves : (title : String) → Stays P (reactions_by_title d title)
  unfolding Service.Reaction.reactions_by_title Service.Reaction.count_and_cache
  reactions_by_title-leaves title w i =
      tried_keeps P ((reaction_cache d.redis).get (d.title_md5 title)) w _ _
        (reaction_get-Stays d laws e sid field v _ w i)
        (λ x w i.
          if_keeps P (is x redis_nil) _ _ w
            (then_keeps P (counted title) w _ (counted-leaves title w i) λ r w i.
              if_keeps P (lt64 0 r.likes || lt64 0 r.dislikes) _ _ w
                (wrapped_keeps P ((reaction_cache d.redis).set (reactions_of title r)) w _ _
                  (reaction_set-Stays d laws e sid field v _ w i) (λ a w i. i))
                i)
            i)
        (λ a w i. i)

  abbrev pub summed : String → Exec Err W Service.EventReviewsSummary
  summed =
      Service.Review.reviews_by_title_no_cache d.host d.floats d.title_md5 (event_storage d)
        (review_storage d) (review_cache d) (seconds d.reviews_ttl)

  abbrev pub reviews_of : String → Service.EventReviewsSummary → SetReviewsReq
  reviews_of title r = record {
    title_hash = d.title_md5 title;
    reviews = record { count = r.count; rating = r.rating };
    ttl = (seconds d.reviews_ttl);
  }

  pub summed-leaves :
      (title : String)
      → Stays P (
          Service.Review.reviews_by_title_no_cache d.host d.floats d.title_md5
            (event_storage d)
            (review_storage d)
            (review_cache d)
            (seconds d.reviews_ttl)
            title)
  unfolding Service.Review.reviews_by_title_no_cache
  summed-leaves title w i =
      wrapped_keeps P ((event_storage d).get_events_by_title title) w _ _
        (get_events_by_title-Stays d laws e sid field v title w i)
        λ es w i.
          wrapped_keeps P ((review_storage d).get_review_stats_by_event_ids _) w _ _
            (get_review_stats-Stays d laws e sid field v _ w i) (λ a w i. i)

  pub reviews_by_title-leaves : (title : String) → Stays P (reviews_by_title d title)
  unfolding Service.Review.get_reviews_by_title Service.Review.sum_and_cache
  reviews_by_title-leaves title w i =
      tried_keeps P ((review_cache d).get (d.title_md5 title)) w _ _
        (review_get-Stays d laws e sid field v _ w i)
        (λ x w i.
          if_keeps P (is x redis_nil) _ _ w
            (then_keeps P (summed title) w _ (summed-leaves title w i) λ r w i.
              if_keeps P (lt64 0 r.count) _ _ w
                (wrapped_keeps P ((review_cache d).set (reviews_of title r)) w _ _
                  (review_set-Stays d laws e sid field v _ w i) (λ a w i. i))
                i)
            i)
        (λ a w i. i)

  -- The loops over the events' titles.
  pub by_titles-leaves :
      {V : Type 0} (call : String → Exec Err W V)
      → ((title : String) → Stays P (call title))
      → (known : List (String × V)) (es : List EventData) → Stays P (by_titles call known es)
  unfolding by_titles
  by_titles-leaves call calls known [] w i = i
  by_titles-leaves call calls known (event ∷ es) w i =
      elim (Option-cases (lookup event.title known)) [
        | inl fresh ↦
            rw (by_titles, fresh)
              (then_keeps P (call event.title) w _ (calls event.title w i)
                (λ x w i. by_titles-leaves call calls ((event.title, x) ∷ known) es w i))
        | inr (x, there) ↦ rw (by_titles, there) (by_titles-leaves call calls known es w i)
      ]
