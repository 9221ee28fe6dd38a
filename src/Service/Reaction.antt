-- ===== src/Service/Reaction.antt =====
-- The reactions of internal/service/event.go: reactToEvent, LikeEvent, DislikeEvent,
-- reactionsByTitle and reactionsByTitleNoCache.
use ndbx.Prelude.{ℕ, String, ◌||◌, map, nat_eq, if◌then◌else◌}
use ndbx.Prelude.Words.{lt64}
use ndbx.Errors.{Err, sentinel, wrap, is, redis_nil, mongo_not_found, not_found}
use ndbx.Exec.{Exec, pure, fail, always, attempt, map_err, logged, wrapping, ◌>>=◌, ◌>>◌}
use ndbx.GoTime.{Host, now_utc}
use ndbx.Cassandra.ReactionStorage.{like_value, dislike_value}
use ndbx.Mongo
use ndbx.Service.{EventReactions, ReactEventReq}
use ndbx.Service.Ports.{EventStorage, EventReactionStorage, EventReactionCache, GraphStorage}

module _ {W : Type 0} (host : Host W) (title_md5 : String → String) (events : EventStorage W)
    (reactions : EventReactionStorage W) (cache : EventReactionCache W) (graph : GraphStorage W)
    (reaction_ttl : ℕ) where
  unfoldable pub reactions_by_title_no_cache : String → Exec Err W EventReactions
  reactions_by_title_no_cache title = do
    events_by_title ← wrapping "get events by title" (events.get_events_by_title title)
    counts ←
        wrapping "count reactions by event ids"
          (reactions.count_by_event_ids (map (λ (e : Mongo.Event). e.id) events_by_title))
    pure (record { likes = counts.likes; dislikes = counts.dislikes })

  -- The Set of the cache after a count.
  abbrev pub set_cache : String → EventReactions → Exec Err W (Unit {0})
  set_cache title r = cache.set (record {
    title_hash = title_md5 title;
    reactions = record { likes = r.likes; dislikes = r.dislikes };
    ttl = reaction_ttl;
  })

  -- reactionsByTitle after a miss
  unfoldable pub count_and_cache : String → Exec Err W EventReactions
  count_and_cache title = do
    r ← reactions_by_title_no_cache title
    if lt64 0 r.likes || lt64 0 r.dislikes
        then (do wrapping "set reactions to cache" (set_cache title r); pure r)
        else pure r

  unfoldable pub reactions_by_title : String → Exec Err W EventReactions
  reactions_by_title title =
      attempt (cache.get (title_md5 title))
        (λ e.
          if is e redis_nil
          then count_and_cache title
          else fail (wrap "get reactions from cache" e))
        λ cached. pure (record { likes = cached.likes; dislikes = cached.dislikes })

  -- The edge of the graph, for a like only; its failure is only logged.
  unfoldable pub add_like_edge : ReactEventReq → ℕ → String → Exec Err W (Unit {0})
  add_like_edge req value title =
      if nat_eq value like_value then logged (graph.add_like req.user_id req.id title) else pure tt

  -- What reactToEvent does once the event is found.
  unfoldable pub react_to : Mongo.Event → ReactEventReq → ℕ → Exec Err W (Unit {0})
  react_to event req value = do
    now ← always (now_utc host)
    wrapping "upsert reaction" (reactions.upsert_reaction req.id req.user_id value now)
    add_like_edge req value event.title
    r ←
        wrapping "calculate title reactions after reaction update"
          (reactions_by_title_no_cache event.title)
    wrapping "set reactions cache after reaction update" (set_cache event.title r)

  unfoldable pub react_to_event : ReactEventReq → ℕ → Exec Err W (Unit {0})
  react_to_event req value = do
    event ←
        map_err
          (λ e.
            if is e mongo_not_found then sentinel not_found else wrap "get event before reaction" e)
          (events.get_event req.id)
    react_to event req value

  unfoldable pub like_event : ReactEventReq → Exec Err W (Unit {0})
  like_event req = react_to_event req like_value

  unfoldable pub dislike_event : ReactEventReq → Exec Err W (Unit {0})
  dislike_event req = react_to_event req dislike_value
