-- ===== src/Service/Recommendation.antt =====
-- internal/service/recommendation.go
pub mod RoundTrip
pub mod Answer
use ndbx.Prelude.{ℕ, String, none, some, List, [], ◌∷◌, map, ◌==◌, if◌then◌else◌}
use ndbx.Errors.{Err, wrap, is, redis_nil}
use ndbx.Exec.{Exec, pure, fail, attempt, logged, wrapping, ◌>>=◌, ◌>>◌}
use ndbx.GoTime.{Time, Rfc3339, zero_time}
use ndbx.Graph.{RecommendedEvent}
use ndbx.Redis.Recommendation.{RecommendationEvent}
use ndbx.Service.{EventData}
use ndbx.Service.Ports.{EventStorage, GraphStorage, RecommendationCache}
use ndbx.Service.Title.{no_reactions, no_reviews, map_event_data}
use ndbx.Service.Dedup.{deduplicate_by_title}
use ndbx.Service.Ranking.{rank}

module _ (clock : Rfc3339) where
  unfoldable pub must_parse_time : String → Time
  must_parse_time s = elim (clock.parse s) [ none ↦ zero_time | some t ↦ t ]

  -- An event as it is read from the cache.
  unfoldable pub from_cached : RecommendationEvent → EventData
  unfolding must_parse_time
  from_cached e = record {
    id = e.id;
    title = e.title;
    category = e.category;
    price = e.price;
    description = e.description;
    location = record { address = e.address; city = e.city };
    created_at = if e.created_at == "" then zero_time else must_parse_time e.created_at;
    created_by = e.created_by;
    started_at = must_parse_time e.started_at;
    finished_at = must_parse_time e.finished_at;
    reactions = no_reactions;
    reviews = no_reviews;
  }

  -- An event as it is written to the cache.
  unfoldable pub to_cached : EventData → RecommendationEvent
  to_cached e = record {
    id = e.id;
    title = e.title;
    category = e.category;
    price = e.price;
    description = e.description;
    city = e.location.city;
    address = e.location.address;
    created_at = clock.format e.created_at;
    created_by = e.created_by;
    started_at = clock.format e.started_at;
    finished_at = clock.format e.finished_at;
  }

module _ (clock : Rfc3339) {W : Type 0} (graph : GraphStorage W) (events : EventStorage W)
    (cache : RecommendationCache W) (recommendations_ttl : ℕ) where
  -- The loop over the recommended ids: an event that cannot be read is logged and passed over.
  unfoldable pub fetch_events : List RecommendedEvent → Exec Err W (List EventData)
  fetch_events [] = pure []
  fetch_events (rec ∷ recs) =
      attempt (events.get_event rec.id) (λ _. fetch_events recs)
        λ event. do rest ← fetch_events recs; pure (map_event_data event ∷ rest)

  abbrev pub set_cache : String → List RecommendationEvent → Exec Err W (Unit {0})
  set_cache user_id es =
      cache.set (record { user_id = user_id; events = es; ttl = recommendations_ttl })

  -- The events of the answer: without duplicates, ranked. `none`, an index out of range, does not
  -- arise.
  unfoldable pub select_events : List RecommendedEvent → List EventData → List EventData
  select_events recommended found = elim (deduplicate_by_title found) [
    | none ↦ []
    | some unique ↦ rank recommended unique
  ]

  -- The answer for a list of recommendations, which goes into the cache as well.
  unfoldable pub answer : String → List RecommendedEvent → Exec Err W (List EventData)
  unfolding select_events
  answer user_id [] = do logged {E = Err} {F = Err} (set_cache user_id []); pure []
  answer user_id (rec ∷ recs) = do
    found ← fetch_events (rec ∷ recs)
    let chosen = select_events (rec ∷ recs) found
    logged {E = Err} {F = Err} (set_cache user_id (map (to_cached clock) chosen))
    pure chosen

  unfoldable pub recommend : String → Exec Err W (List EventData)
  recommend user_id = do
    recommended ← wrapping "get recommended event ids" (graph.get_recommended_event_ids user_id)
    answer user_id recommended

  unfoldable pub get_recommendations : String → Exec Err W (List EventData)
  get_recommendations user_id =
      attempt (cache.get user_id)
        (λ e.
          if is e redis_nil
          then recommend user_id
          else fail (wrap "get recommendations from cache" e))
        λ cached. pure (map (from_cached clock) cached)
