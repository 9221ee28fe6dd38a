-- ===== src/App/Services/Leaving.antt =====
-- The services over the storages leave the keys of sessions in Redis alone: no operation of
-- internal/service but those of sessions touches one.
pub mod Accounts
pub mod Titles
pub mod Events
pub mod Changes
pub mod Recommendations
use ndbx.Prelude.{
  ℕ, String, refl, Option, List, [], ◌∷◌, Option-cases, inl, inr, Bool, true, false, lookup, ◌==◌,
  ◌||◌, nat_eq, map, not,
}
use ndbx.Errors.{Err, is, redis_nil}
use ndbx.Exec.{Exec}
use ndbx.Exec.Stays.{
  Stays, wrapped_keeps, logged_keeps, then_keeps, tried_keeps, mapped_keeps, if_keeps,
}
use ndbx.Redis.{RedisLaws}
use ndbx.Redis.Session.{session_key}
use ndbx.Prelude.Words.{lt64}
use ndbx.GoTime.{seconds, now_utc}
use ndbx.Redis.Reaction.{SetReactionsReq}
use ndbx.Redis.Review.{SetReviewsReq}
use ndbx.Cassandra.ReactionStorage.{like_value}
use ndbx.Graph.{RecommendedEvent}
use ndbx.Service
use ndbx.Service.{EventData}
use ndbx.Service.Event.{by_titles}
use ndbx.App.{reaction_storage, reaction_cache}
use ndbx.App.Services.{
  Drivers, user_storage, event_storage, review_storage, review_cache, graph_storage,
  recommendation_cache, user_service, event_service, review_service, recommendation_service,
  reactions_by_title, reviews_by_title, summaries, wired,
}
use ndbx.App.Services.Storages.{
  Elsewhere, I, reaction_get-Stays, reaction_set-Stays, review_get-Stays, review_set-Stays,
  recommendation_get-Stays, recommendation_set-Stays, now-Stays, create_user-Stays,
  get_by_username-Stays, get_users-Stays, get_by_id-Stays, create_event-Stays, get_events-Stays,
  get_event-Stays, get_events_by_title-Stays, patch_event-Stays, upsert_reaction-Stays,
  count_by_event_ids-Stays, create_review-Stays, get_reviews_by_event_id-Stays, get_review-Stays,
  update_review-Stays, get_review_stats-Stays, graph_create_user-Stays, graph_create_event-Stays,
  add_like-Stays, recommended-Stays, hash_password-Stays,
}
use ndbx.App.Machine.{Aside}
use ndbx.App.Services.Leaving.Accounts.{
  register-leaves, authenticate-leaves, get_users-leaves, get_user-leaves,
}
use ndbx.App.Services.Leaving.Events.{
  create_event-leaves, get_events-leaves, get_event-leaves, patch_event-leaves,
}
use ndbx.App.Services.Leaving.Changes.{
  like_event-leaves, dislike_event-leaves, create_review-leaves, get_reviews-leaves,
  update_review-leaves,
}
use ndbx.App.Services.Leaving.Recommendations.{get_recommendations-leaves}

-- The services of the program, over its storages, leave the keys of sessions alone, when the
-- drivers other than that of Redis do.
pub wired-Aside :
    {W : Type 0} (d : Drivers W) (laws : RedisLaws d.redis)
    → Elsewhere d laws
    → Aside d.clock d.redis (wired d) laws
wired-Aside d laws e = record {
  register =
      λ req w sid f. register-leaves d laws e sid f (laws.hash w (session_key sid) f) req w refl;
  authenticate = λ req w sid f.
      authenticate-leaves d laws e sid f (laws.hash w (session_key sid) f) req w refl;
  get_users =
      λ req w sid f. get_users-leaves d laws e sid f (laws.hash w (session_key sid) f) req w refl;
  get_user =
      λ req w sid f. get_user-leaves d laws e sid f (laws.hash w (session_key sid) f) req w refl;
  create_event = λ req w sid f.
      create_event-leaves d laws e sid f (laws.hash w (session_key sid) f) req w refl;
  get_events =
      λ req w sid f. get_events-leaves d laws e sid f (laws.hash w (session_key sid) f) req w refl;
  get_event =
      λ req w sid f. get_event-leaves d laws e sid f (laws.hash w (session_key sid) f) req w refl;
  patch_event =
      λ req w sid f. patch_event-leaves d laws e sid f (laws.hash w (session_key sid) f) req w refl;
  like_event =
      λ req w sid f. like_event-leaves d laws e sid f (laws.hash w (session_key sid) f) req w refl;
  dislike_event = λ req w sid f.
      dislike_event-leaves d laws e sid f (laws.hash w (session_key sid) f) req w refl;
  create_review = λ req w sid f.
      create_review-leaves d laws e sid f (laws.hash w (session_key sid) f) req w refl;
  get_reviews =
      λ req w sid f. get_reviews-leaves d laws e sid f (laws.hash w (session_key sid) f) req w refl;
  update_review = λ req w sid f.
      update_review-leaves d laws e sid f (laws.hash w (session_key sid) f) req w refl;
  get_recommendations = λ req w sid f.
      get_recommendations-leaves d laws e sid f (laws.hash w (session_key sid) f) req w refl;
}
