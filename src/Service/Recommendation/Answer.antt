-- ===== src/Service/Recommendation/Answer.antt =====
-- The recommendations for a user that the cache has not, of internal/service/recommendation.go.
use ndbx.Errors.{Err}
use ndbx.Mongo
use ndbx.Prelude.{
  ℕ, All-map, sym, In, String, ◌≡◌, ◌≢◌, ◌⊎◌, inl, inr, refl, List, [], ◌∷◌, map, arith, All,
  Bool-cases, Bool,
}
use ndbx.Exec.{err, ok, Result-cases}
use ndbx.GoTime.{Rfc3339}
use ndbx.Graph.{RecommendedEvent}
use ndbx.Service.{EventData}
use ndbx.Service.Title.{map_event_data}
use ndbx.Service.Ports.{EventStorage, GraphStorage, RecommendationCache}
use ndbx.Service.Dedup.Spec.{Covered, Untitled, DistinctTitles}
use ndbx.Service.Dedup.Correct.{deduplicate_by_title-IsDeduplicated}
use ndbx.Service.Ranking.{insert_stable, sort_into, sort_stable, rank, scores_higher, title_score}
use ndbx.Service.Ranking.Order.{IsSorted, event_key, rank_lem}
use ndbx.Service.Recommendation.{
  to_cached, set_cache, fetch_events, select_events, answer, recommend,
}

module _ (less : EventData → EventData → Bool) where
  insert-All :
      (P : EventData → Type 0) (a : EventData) (xs : List EventData)
      → P a
      → All P xs
      → All P (insert_stable less a xs)
  unfolding insert_stable
  insert-All P a [] p h = (p, tt)
  insert-All P a (x ∷ xs) p (q, h) = ground (arith, insert-All P a xs p h)

  sort_into-All :
      (P : EventData → Type 0) (xs ys : List EventData)
      → All P xs
      → All P ys
      → All P (sort_into less xs ys)
  unfolding sort_into
  sort_into-All P xs [] h k = h
  sort_into-All P xs (y ∷ ys) h (p, k) =
      sort_into-All P (insert_stable less y xs) ys (insert-All P y xs p h) k

  insert-DistinctTitles :
      (a : EventData) (xs : List EventData)
      → Untitled a.title xs
      → DistinctTitles xs
      → DistinctTitles (insert_stable less a xs)
  unfolding insert_stable
  insert-DistinctTitles a [] u h = (tt, tt)
  insert-DistinctTitles a (x ∷ xs) (p, u) (v, h) = elim (Bool-cases (less a x)) [
    | inl first ↦ rw first ((p, u), (v, h))
    | inr later ↦ rw later (
      insert-All (λ e. e.title ≢ x.title) a xs (λ e. p (sym e)) v,
      insert-DistinctTitles a xs u h,
    )
  ]

  insert-apart :
      (a : EventData) (xs ys : List EventData)
      → Untitled a.title ys
      → All (λ y. Untitled y.title xs) ys
      → All (λ y. Untitled y.title (insert_stable less a xs)) ys
  insert-apart a xs [] u h = tt
  insert-apart a xs (y ∷ ys) (p, u) (q, h) =
      (insert-All (λ e. e.title ≢ y.title) a xs (λ e. p (sym e)) q, insert-apart a xs ys u h)

  sort_into-DistinctTitles :
      (xs ys : List EventData)
      → DistinctTitles xs
      → DistinctTitles ys
      → All (λ y. Untitled y.title xs) ys
      → DistinctTitles (sort_into less xs ys)
  unfolding sort_into
  sort_into-DistinctTitles xs [] h k a = h
  sort_into-DistinctTitles xs (y ∷ ys) h (u, k) (p, a) =
      sort_into-DistinctTitles (insert_stable less y xs) ys (insert-DistinctTitles y xs p h) k
        (insert-apart y xs ys u a)

  insert-Covered :
      (e a : EventData) (xs : List EventData) → Covered e xs → Covered e (insert_stable less a xs)
  unfolding insert_stable
  insert-Covered e a [] h = absurd h
  insert-Covered e a (x ∷ xs) h = ground (arith, insert-Covered e a xs)

  insert-covers_one :
      (e a : EventData) (xs : List EventData)
      → Covered e (a ∷ [])
      → Covered e (insert_stable less a xs)
  unfolding insert_stable
  insert-covers_one e a [] h = h
  insert-covers_one e a (x ∷ xs) h = ground (arith, insert-covers_one e a xs h)

  sort_into-Covered :
      (e : EventData) (xs ys : List EventData)
      → Covered e xs ⊎ Covered e ys
      → Covered e (sort_into less xs ys)
  unfolding sort_into
  sort_into-Covered e xs [] (inl h) = h
  sort_into-Covered e xs [] (inr h) = absurd h
  sort_into-Covered e xs (y ∷ ys) (inl h) =
      sort_into-Covered e (insert_stable less y xs) ys (inl (insert-Covered e y xs h))
  sort_into-Covered e xs (y ∷ ys) (inr (inl h)) =
      sort_into-Covered e (insert_stable less y xs) ys (inl (insert-covers_one e y xs (inl h)))
  sort_into-Covered e xs (y ∷ ys) (inr (inr h)) =
      sort_into-Covered e (insert_stable less y xs) ys (inr h)

All-apart : (ys : List EventData) → All (λ y. Untitled y.title []) ys
All-apart [] = tt
All-apart (y ∷ ys) = (tt, All-apart ys)

-- The events of the answer are in falling order of their titles' scores, their titles are distinct,
-- they are among those that were found, and each that was found has one with its title in the
-- answer that starts no later.
pub record IsSelection (recs : List RecommendedEvent) (found chosen : List EventData) : Type 0 where
  pub sorted : IsSorted (event_key recs) chosen
  pub distinct : DistinctTitles chosen
  pub from_found : All (λ e. In e found) chosen
  pub covers : All (λ e. Covered e chosen) found

module _ (clock : Rfc3339) {W : Type 0} (graph : GraphStorage W) (events : EventStorage W)
    (cache : RecommendationCache W) (ttl : ℕ) where
  select_events-IsSelection :
      (recs : List RecommendedEvent) (found : List EventData)
      → IsSelection recs found (select_events clock graph events cache ttl recs found)
  unfolding select_events rank sort_stable
  select_events-IsSelection recs found =
      let (unique, did, h) = deduplicate_by_title-IsDeduplicated found in
      let less = scores_higher (title_score recs) in
      rw (did, select_events)
        (record {
          sorted = (rank_lem recs unique).0;
          distinct = sort_into-DistinctTitles less [] unique tt h.distinct (All-apart unique);
          from_found = sort_into-All less (λ e. In e found) [] unique tt h.from_input;
          covers =
              All-map (λ e. Covered e unique) (λ e. Covered e (rank recs unique))
                (λ e c. sort_into-Covered less e [] unique (inr c)) found h.covers;
        })

  -- Each recommended event is read, in their order: what is read is kept, and an event that cannot be
  -- read is passed over.
  pub data Fetched : List RecommendedEvent → W → List EventData → Type 0 where
    all_tried : {w : W} → Fetched [] w []
    kept :
        {rec : RecommendedEvent} {recs : List RecommendedEvent} {w : W} {rest : List EventData}
        (event : Mongo.Event)
        → (events.get_event rec.id w).0 ≡ ok event
        → Fetched recs (events.get_event rec.id w).1 rest
        → Fetched (rec ∷ recs) w (map_event_data event ∷ rest)
    passed_over :
        {rec : RecommendedEvent} {recs : List RecommendedEvent} {w : W} {rest : List EventData}
        (e : Err)
        → (events.get_event rec.id w).0 ≡ err e
        → Fetched recs (events.get_event rec.id w).1 rest
        → Fetched (rec ∷ recs) w rest

  -- FetchEvents passes over what cannot be read, so it does not fail.
  fetch_events-ok :
      (recs : List RecommendedEvent) (w : W)
      → (found : List EventData) × ((fetch_events clock graph events cache ttl recs w).0 ≡ ok found)
        × Fetched recs w found
  unfolding fetch_events
  fetch_events-ok [] w = ([], refl, all_tried)
  fetch_events-ok (rec ∷ recs) w =
      let w' = (events.get_event rec.id w).1 in
      let (found, rest, tried) = fetch_events-ok recs w' in
      elim (Result-cases (events.get_event rec.id w).0) [
        | inr (e, failed) ↦ (found, ground (arith, rest), passed_over e failed tried)
        | inl (event, got) ↦
            (map_event_data event ∷ found, ground (arith, rest), kept event got tried)
      ]

  answer-ok :
      (user_id : String) (recs : List RecommendedEvent) (found : List EventData) (w : W)
      → (fetch_events clock graph events cache ttl recs w).0 ≡ ok found
      → (chosen : List EventData) × ((answer clock graph events cache ttl user_id recs w).0
          ≡ ok chosen)
        × IsSelection recs found chosen
  unfolding answer fetch_events
  answer-ok user_id [] found w fetched =
      let none_found : found ≡ [] = ground arith in
      (
        [],
        elim (Result-cases (set_cache clock graph events cache ttl user_id [] w).0) [
          | inl (_, did) ↦ ground arith
          | inr (e, failed) ↦ ground arith
        ],
        rw none_found (record { sorted = tt; distinct = tt; from_found = tt; covers = tt }),
      )
  answer-ok user_id (rec ∷ recs) found w fetched =
      let w' = (fetch_events clock graph events cache ttl (rec ∷ recs) w).1 in
      let chosen = select_events clock graph events cache ttl (rec ∷ recs) found in
      (
        chosen,
        elim (Result-cases
            (set_cache clock graph events cache ttl user_id (map (to_cached clock) chosen) w').0) [
              | inl (_, did) ↦ ground arith
              | inr (e, failed) ↦ ground arith
            ],
        select_events-IsSelection (rec ∷ recs) found,
      )

  -- What could be read of the recommended events, and the answer with a selection of it.
  abbrev pub Recommends : String → List RecommendedEvent → W → Type 0
  Recommends user_id recs w =
      (found : List EventData) × Fetched recs (graph.get_recommended_event_ids user_id w).1 found
      × (chosen : List EventData) × ((recommend clock graph events cache ttl user_id w).0
          ≡ ok chosen)
      × IsSelection recs found chosen

  -- When the graph recommends events, Recommend succeeds, even when events cannot be read or the
  -- cache cannot be written: it tries to read each recommended event, in their order. Its answer is
  -- in falling order of the sums of its titles' scores, has distinct titles, holds only events that
  -- could be read, and for each event that could be read one with its title that starts no later.
  pub recommend-IsSelection :
      (user_id : String) (recs : List RecommendedEvent) (w : W)
      → (graph.get_recommended_event_ids user_id w).0 ≡ ok recs
      → Recommends user_id recs w
  unfolding recommend
  recommend-IsSelection user_id recs w recommended =
      let w' = (graph.get_recommended_event_ids user_id w).1 in
      let (found, fetched, tried) = fetch_events-ok recs w' in
      let (chosen, answered, h) = answer-ok user_id recs found w' fetched in
      (found, tried, chosen, ground (arith, answered), h)
