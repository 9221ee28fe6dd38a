-- ===== src/App/Reacting.antt =====
-- The cached reactions after a like or a dislike: reactToEvent of internal/service/event.go over
-- internal/storage/redis/reaction.go and internal/storage/cassandra/reaction.go.
use ndbx.Prelude.{List, ℕ, String, ◌≡◌, ◌⊎◌, map}
use ndbx.Errors.{Err, wrap}
use ndbx.Cassandra.ReactionStorage.{upsert_reaction, count_by_event_ids}
use ndbx.Exec.{Exec, Result, ok, err}
use ndbx.GoTime.{Host, now_utc}
use ndbx.Redis.{RedisClient, RedisLaws}
use ndbx.Redis.Reaction.{SetReactionsReq}
use ndbx.Cassandra.{ReactionCounts, CassandraSession}
use ndbx.Mongo
use ndbx.Service.{EventReactions, ReactEventReq}
use ndbx.Service.Ports.{EventStorage, GraphStorage, EventReactionStorage, EventReactionCache}
use ndbx.Service.Reaction.{
  reactions_by_title_no_cache, reactions_by_title, add_like_edge, react_to_event,
}
use ndbx.App.{reaction_cache, reaction_storage}

-- What reactionsByTitle gives for a title whose counts are in the cache.
abbrev pub Shows : Result Err EventReactions → EventReactions → Type 0
Shows got r = (got ≡ ok r) ⊎ ((e : Err) × (got ≡ err (wrap "get reactions from cache" e)))

module _ {W : Type 0} (host : Host W) (title_md5 : String → String) (client : RedisClient W)
    (laws : RedisLaws client) (session : CassandraSession W) (events : EventStorage W)
    (graph : GraphStorage W) (ttl : ℕ) where
  abbrev storage : EventReactionStorage W
  storage = reaction_storage session

  abbrev cache : EventReactionCache W
  cache = reaction_cache client

  -- The count after a reaction, of all the events with a title.
  abbrev pub counted : String → Exec Err W EventReactions
  counted title = reactions_by_title_no_cache host title_md5 events storage cache graph ttl title

  abbrev cache_req : String → EventReactions → SetReactionsReq
  cache_req title r = record {
    title_hash = title_md5 title;
    reactions = record { likes = r.likes; dislikes = r.dislikes };
    ttl = ttl;
  }

  -- The worlds after the reaction is stored, and after the edge of the graph.
  abbrev pub stored_reaction : ReactEventReq → ℕ → W → Result Err (Unit {0}) × W
  stored_reaction req value w =
      let (now, w') = now_utc host w in upsert_reaction session req.id req.user_id value now w'

  abbrev pub recorded : String → ReactEventReq → ℕ → W → W
  recorded title req value w =
      (add_like_edge host title_md5 events storage cache graph ttl req value title
        (stored_reaction req value w).1).1

  -- The counts of the reactions to all the events with a title.
  abbrev pub IsCounted : String → W → EventReactions → Type 0
  IsCounted title w r =
      (es : List Mongo.Event) × ((events.get_events_by_title title w).0 ≡ ok es)
      × (counts : ReactionCounts) × ((count_by_event_ids session
            (map (λ (e : Mongo.Event). e.id) es) (events.get_events_by_title title w).1).0
          ≡ ok counts)
      × (r ≡ record { likes = counts.likes; dislikes = counts.dislikes })

  -- The event is there, its reaction is stored, and the counts after that are shown for its title.
  abbrev pub ReactsAndShows : ReactEventReq → ℕ → W → Type 0
  ReactsAndShows req value w =
      (event : Mongo.Event) × ((events.get_event req.id w).0 ≡ ok event)
      × ((stored_reaction req value (events.get_event req.id w).1).0 ≡ ok tt)
      × (r : EventReactions) × IsCounted event.title
          (recorded event.title req value (events.get_event req.id w).1) r
      × Shows
          (reactions_by_title host title_md5 events storage cache graph ttl event.title
            (react_to_event host title_md5 events storage cache graph ttl req value w).1).0
          r
