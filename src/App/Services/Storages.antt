-- ===== src/App/Services/Storages.antt =====
-- The storages of the program leave the keys of sessions in Redis alone.
use Prim.Native.Char.{Char, code}
use Prim.Native.String.{◌∷◌}
use text.Mathlib.TextLemmas.{cons-append}
use ndbx.Prelude.{
  Bool-cases, Option-cases, inl, inr, refl, ap, ℕ, String, text_append, ◌≡◌, ◌≢◌, ◌∙◌, sym, Option,
  none, some, List, [], ◌∷◌, false, nat_eq, arith, ◌==◌, ◌&&◌,
}
use ndbx.Errors.{Err}
use ndbx.Exec.{Result-cases, lift, always, ◌>>=◌, map_err, Exec}
use ndbx.Exec.Stays.{Stays, if-Stays, bind-Stays, attempt-Stays, map_err-Stays}
use ndbx.GoTime.{utc, Time, now_utc}
use ndbx.Redis
use ndbx.Redis.{RedisLaws, Arg}
use ndbx.Redis.Session.{session_key}
use ndbx.Redis.Reaction.{SetReactionsReq, event_reactions_key}
use ndbx.Redis.Review.{SetReviewsReq, event_reviews_key}
use ndbx.Redis.Recommendation.{SetRecommendationReq, recommendation_key}
use ndbx.Mongo
use ndbx.Mongo.{Doc, FindOptions}
use ndbx.Mongo.Filter.{build_events_filter, resolve_event_user}
use ndbx.Cassandra
use ndbx.Cassandra.{ReactionCounts}
use ndbx.Cassandra.ReactionStorage.{count_rows}
use ndbx.Cassandra.ReviewStorage.{find_review, add_ratings}
use ndbx.Graph
use ndbx.Ogen.Texts.{first_is}
use ndbx.App.Services.{
  Drivers, user_storage, event_storage, review_storage, review_cache, graph_storage,
  recommendation_cache,
}
use ndbx.App.{reaction_storage, reaction_cache}

-- The keys of the caches are no keys of sessions: they begin with another letter.
other_head :
    (c d : Char) (p q x y : String)
    → nat_eq (code c) (code d) ≡ false
    → text_append (c ∷ p) x ≢ text_append (d ∷ q) y
unfolding first_is
other_head c d p q x y other same =
    let heads = ap (first_is (code d)) (sym (cons-append c p x) ∙ same ∙ cons-append d q y) in
    ground (arith, heads)

event_key-apart : (x y : String) → text_append "event:" x ≢ text_append "sid:" y
event_key-apart x y = other_head "e" "s" "vent:" "id:" x y refl

user_key-apart : (x y : String) → text_append "user:" x ≢ text_append "sid:" y
user_key-apart x y = other_head "u" "s" "ser:" "id:" x y refl

module _ {W : Type 0} (d : Drivers W) (laws : RedisLaws d.redis) where
  -- What runs elsewhere, and a command that reads, writes nothing to Redis.
  abbrev pub Untouched : (W → W) → Type 0
  Untouched change = (w : W) (k f : String) → laws.hash (change w) k f ≡ laws.hash w k f

  -- MongoDB, Cassandra, Neo4j and the host are not Redis.
  pub record Elsewhere : Type 0 where
    pub now : Untouched (λ w. (d.host.now w).1)
    pub generate : (s : String) → Untouched (λ w. (d.bcrypt.generate_from_password s w).1)
    pub hgetall : (k : String) → Untouched (λ w. (d.redis.hgetall k w).1)
    pub insert_one : (c : String) (doc : Doc) → Untouched (λ w. (d.mongo.insert_one c doc w).1)
    pub find_one : (c : String) (q : Doc) → Untouched (λ w. (d.mongo.find_one c q w).1)
    pub find : (c : String) (q : Doc) (o : FindOptions) → Untouched (λ w. (d.mongo.find c q o w).1)
    pub update_one : (c : String) (q u : Doc) → Untouched (λ w. (d.mongo.update_one c q u w).1)
    pub insert_reaction :
        (e u : String) (n : ℕ) (t : Time)
        → Untouched (λ w. (d.cassandra.insert_reaction e u n t w).1)
    pub select_like_values : (e : String) → Untouched (λ w. (d.cassandra.select_like_values e w).1)
    pub select_review_id : (e u : String) → Untouched (λ w. (d.cassandra.select_review_id e u w).1)
    pub insert_review : (r : Cassandra.Review) → Untouched (λ w. (d.cassandra.insert_review r w).1)
    pub select_reviews : (e : String) → Untouched (λ w. (d.cassandra.select_reviews e w).1)
    pub select_review : (e u : String) → Untouched (λ w. (d.cassandra.select_review e u w).1)
    pub select_ratings : (e : String) → Untouched (λ w. (d.cassandra.select_ratings e w).1)
    pub new_uuid : Untouched (λ w. (d.cassandra.new_uuid w).1)
    pub merge_user : (u : String) → Untouched (λ w. (d.neo4j.merge_user u w).1)
    pub merge_event : (e t : String) → Untouched (λ w. (d.neo4j.merge_event e t w).1)
    pub merge_like : (u e t : String) → Untouched (λ w. (d.neo4j.merge_like u e t w).1)
    pub match_recommendations :
        (u : String) → Untouched (λ w. (d.neo4j.match_recommendations u w).1)

  module _ (e : Elsewhere) (sid field : String) (v : Option String) where
    -- A field of a session has a value.
    abbrev pub I : W → Type 0
    I w = laws.hash w (session_key sid) field ≡ v

    from : {E A : Type 0} (m : Exec E W A) → Untouched (λ w. (m w).1) → Stays I m
    from m untouched w i = untouched w (session_key sid) field ∙ i

    then_end :
        {E A B : Type 0} (m : Exec E W A) (g : A → Exec E W B)
        → Stays I m
        → ((a : A) (w : W) → I w → I (g a w).1)
        → Stays I (m >>= g)
    then_end m g = bind-Stays I m g

    mapped :
        {E F A : Type 0} (g : E → F) (m : Exec E W A)
        → Untouched (λ w. (m w).1)
        → Stays I (map_err g m)
    mapped g m untouched = map_err-Stays I g m (from m untouched)

    cached :
        (key : String) (fields : List (String × Arg)) (ttl : ℕ)
        → key ≢ session_key sid
        → Stays I (d.redis.hset_expire key fields ttl)
    cached key fields ttl apart w i =
        laws.hset_expire_other key fields ttl w (session_key sid) field apart ∙ i

    hashes : (key : String) (fields : List String) → Stays I (d.redis.hmget key fields)
    hashes key fields = from (d.redis.hmget key fields) (laws.hmget_keeps key fields)

    pub reaction_get-Stays : (t : String) → Stays I ((reaction_cache d.redis).get t)
    unfolding Redis.Reaction.get
    reaction_get-Stays t =
        then_end _ _ (map_err-Stays I _ _ (hashes (event_reactions_key t) _)) (λ a w i. i)

    pub reaction_set-Stays : (req : SetReactionsReq) → Stays I ((reaction_cache d.redis).set req)
    unfolding Redis.Reaction.set event_reactions_key session_key
    reaction_set-Stays req = map_err-Stays I _ _ (cached _ _ req.ttl (event_key-apart _ sid))

    pub review_get-Stays : (t : String) → Stays I ((review_cache d).get t)
    unfolding Redis.Review.get
    review_get-Stays t =
        then_end _ _ (map_err-Stays I _ _ (hashes (event_reviews_key t) _)) (λ a w i. i)

    pub review_set-Stays : (req : SetReviewsReq) → Stays I ((review_cache d).set req)
    unfolding Redis.Review.set event_reviews_key session_key
    review_set-Stays req = map_err-Stays I _ _ (cached _ _ req.ttl (event_key-apart _ sid))

    pub recommendation_get-Stays : (u : String) → Stays I ((recommendation_cache d).get u)
    unfolding Redis.Recommendation.get
    recommendation_get-Stays u =
        then_end _ _ (mapped _ (d.redis.hgetall _) (e.hgetall _)) (λ a w i. i)

    pub recommendation_set-Stays :
        (req : SetRecommendationReq) → Stays I ((recommendation_cache d).set req)
    unfolding Redis.Recommendation.set recommendation_key session_key
    recommendation_set-Stays req =
        then_end (lift (Redis.Recommendation.wrap_err d.json _ (d.json.marshal req.events))) _
          (λ w i. i) (λ text. map_err-Stays I _ _ (cached _ _ req.ttl (user_key-apart _ sid)))

    -- MongoDB
    find_one-Stays : (c : String) (q : Doc) → Stays I (d.mongo.find_one c q)
    find_one-Stays c q = from (d.mongo.find_one c q) (e.find_one c q)

    find-Stays : (c : String) (q : Doc) (o : FindOptions) → Stays I (d.mongo.find c q o)
    find-Stays c q o = from (d.mongo.find c q o) (e.find c q o)

    insert_one-Stays : (c : String) (doc : Doc) → Stays I (d.mongo.insert_one c doc)
    insert_one-Stays c doc = from (d.mongo.insert_one c doc) (e.insert_one c doc)

    pub now-Stays : Stays I {E = Err} (always (now_utc d.host))
    now-Stays w i = e.now w (session_key sid) field ∙ i

    pub create_user-Stays : (req : Mongo.CreateUserReq) → Stays I ((user_storage d).create req)
    unfolding Mongo.UserStorage.create
    create_user-Stays req = then_end _ _ (map_err-Stays I _ _ (insert_one-Stays _ _)) (λ a w i. i)

    pub get_by_username-Stays : (u : String) → Stays I ((user_storage d).get_by_username u)
    unfolding Mongo.UserStorage.get_by_username
    get_by_username-Stays u = then_end _ _ (map_err-Stays I _ _ (find_one-Stays _ _)) (λ a w i. i)

    pub get_users-Stays : (req : Mongo.GetUsersReq) → Stays I ((user_storage d).get_users req)
    unfolding Mongo.UserStorage.get_users
    get_users-Stays req = then_end _ _ (map_err-Stays I _ _ (find-Stays _ _ _)) (λ a w i. i)

    pub get_by_id-Stays : (id : String) → Stays I ((user_storage d).get_by_id id)
    unfolding Mongo.UserStorage.get_by_id
    get_by_id-Stays id = then_end _ _ (map_err-Stays I _ _ (find_one-Stays _ _)) (λ a w i. i)

    pub create_event-Stays : (req : Mongo.CreateEventReq) → Stays I ((event_storage d).create req)
    unfolding Mongo.EventStorage.create
    create_event-Stays req w i =
        let (now, w') = now_utc d.host w in
        let doc = Mongo.EventStorage.event_doc d.clock d.mongo now req in
        let i' = insert_one-Stays Mongo.EventStorage.collection_events doc w' (now-Stays w i) in
        elim (Result-cases (d.mongo.insert_one Mongo.EventStorage.collection_events doc w').0) [
          | inl (id, done) ↦ rw done i'
          | inr (e, failed) ↦ rw failed i'
        ]

    resolve_event_user-Stays : (u : String) → Stays I (resolve_event_user d.mongo u)
    unfolding resolve_event_user
    resolve_event_user-Stays u =
        attempt-Stays I (d.mongo.find_one _ _) _ _ (find_one-Stays _ _)
          (λ e. if-Stays I _ _ _ (λ w i. i) (λ w i. i)) (λ a w i. i)

    build_events_filter-Stays :
        (req : Mongo.GetEventsReq) → Stays I (build_events_filter d.mongo d.clock req)
    unfolding build_events_filter
    build_events_filter-Stays req =
        if-Stays I (req.user == "") _ _ (λ w i. i)
          (then_end _ _ (resolve_event_user-Stays req.user) (λ a w i. i))

    pub get_events-Stays : (req : Mongo.GetEventsReq) → Stays I ((event_storage d).get_events req)
    unfolding Mongo.EventStorage.get_events
    get_events-Stays req w i =
        let filter = build_events_filter d.mongo d.clock req w in
        let i1 = build_events_filter-Stays req w i in
        elim (Result-cases filter.0) [
          | inr (e, failed) ↦ rw failed i1
          | inl (none, built) ↦ rw built i1
          | inl (some f, built) ↦
              let i2 =
                find-Stays Mongo.EventStorage.collection_events f
                  (Mongo.EventStorage.find_options d.clock d.mongo req) filter.1 i1 in
              elim (Result-cases
                (d.mongo.find Mongo.EventStorage.collection_events f
                  (Mongo.EventStorage.find_options d.clock d.mongo req) filter.1).0) [
                    | inl (docs, done) ↦ rw (built, done) i2
                    | inr (e, failed) ↦ rw (built, failed) i2
                  ]
        ]

    pub get_event-Stays : (id : String) → Stays I ((event_storage d).get_event id)
    unfolding Mongo.EventStorage.get_event
    get_event-Stays id = then_end _ _ (map_err-Stays I _ _ (find_one-Stays _ _)) (λ a w i. i)

    pub get_events_by_title-Stays : (t : String) → Stays I ((event_storage d).get_events_by_title t)
    unfolding Mongo.EventStorage.get_events_by_title
    get_events_by_title-Stays t = then_end _ _ (map_err-Stays I _ _ (find-Stays _ _ _)) (λ a w i. i)

    pub patch_event-Stays :
        (req : Mongo.PatchEventReq) → Stays I ((event_storage d).patch_event req)
    unfolding Mongo.EventStorage.patch_event
    patch_event-Stays req w i =
        let events = Mongo.EventStorage.collection_events in
        let own = Mongo.EventStorage.patch_filter d.mongo req in
        let update = Mongo.EventStorage.patch_update d.mongo req in
        elim (Bool-cases (
          Mongo.is_empty (Mongo.EventStorage.set_fields d.mongo req)
          && Mongo.is_empty (Mongo.EventStorage.unset_fields d.mongo req))) [
            | inl unchanged ↦
                let i' = find_one-Stays events own w i in
                elim (Result-cases (d.mongo.find_one events own w).0) [
                  | inl (doc, found) ↦ rw (unchanged, found) i'
                  | inr (e, failed) ↦ rw (unchanged, failed) i'
                ]
            | inr changed ↦
                let i' = e.update_one events own update w (session_key sid) field ∙ i in
                elim (Result-cases (d.mongo.update_one events own update w).0) [
                  | inr (e, failed) ↦ rw (changed, failed) i'
                  | inl (n, done) ↦ elim (Bool-cases (nat_eq n 0)) [
                    | inl missing ↦ rw (changed, done, missing) i'
                    | inr matched ↦ rw (changed, done, matched) i'
                  ]
                ]
          ]

    -- Cassandra
    pub upsert_reaction-Stays :
        (event_id user_id : String) (n : ℕ) (t : Time)
        → Stays I ((reaction_storage d.cassandra).upsert_reaction event_id user_id n t)
    unfolding Cassandra.ReactionStorage.upsert_reaction
    upsert_reaction-Stays event_id user_id n t =
        mapped _ (d.cassandra.insert_reaction event_id user_id n _)
          (e.insert_reaction event_id user_id n _)

    count_events-Stays :
        (counts : ReactionCounts) (ids : List String)
        → Stays I (Cassandra.ReactionStorage.count_events d.cassandra counts ids)
    unfolding Cassandra.ReactionStorage.count_events
    count_events-Stays counts [] w i = i
    count_events-Stays counts (id ∷ ids) w i =
        let iter = (d.cassandra.select_like_values id w).0 in
        let w' = (d.cassandra.select_like_values id w).1 in
        let i' : I w' = e.select_like_values id w (session_key sid) field ∙ i in
        elim (Option-cases iter.close) [
          | inl closed ↦ rw closed (count_events-Stays (count_rows counts iter.rows) ids w' i')
          | inr (x, failed) ↦ rw failed i'
        ]

    pub count_by_event_ids-Stays :
        (ids : List String) → Stays I ((reaction_storage d.cassandra).count_by_event_ids ids)
    unfolding Cassandra.ReactionStorage.count_by_event_ids
    count_by_event_ids-Stays = count_events-Stays _

    review_rows-Stays : (id : String) → Stays I {E = Err} (always (d.cassandra.select_reviews id))
    review_rows-Stays id =
        from (always {E = Err} (d.cassandra.select_reviews id)) (e.select_reviews id)

    insert_review-Stays : (r : Cassandra.Review) → Stays I (d.cassandra.insert_review r)
    insert_review-Stays r = from (d.cassandra.insert_review r) (e.insert_review r)

    insert_new-Stays :
        (event_id user_id : String) (rating : ℕ) (comment : String) (t : Time)
        → Stays I (Cassandra.ReviewStorage.insert_new d.cassandra event_id user_id rating comment t)
    unfolding Cassandra.ReviewStorage.insert_new
    insert_new-Stays event_id user_id rating comment t w i =
        let (id, w') = d.cassandra.new_uuid w in
        let r : Cassandra.Review = record {
          id = id;
          event_id = event_id;
          rating = rating;
          comment = comment;
          created_at = utc t;
          created_by = user_id;
          updated_at = utc t;
        } in
        let i' = insert_review-Stays r w' (e.new_uuid w (session_key sid) field ∙ i) in
        elim (Result-cases (d.cassandra.insert_review r w').0) [
          | inl (x, done) ↦ rw done i'
          | inr (x, failed) ↦ rw failed i'
        ]

    pub create_review-Stays :
        (event_id user_id : String) (rating : ℕ) (comment : String) (t : Time)
        → Stays I ((review_storage d).create_review event_id user_id rating comment t)
    unfolding Cassandra.ReviewStorage.create_review Cassandra.ReviewStorage.insert_new
    create_review-Stays event_id user_id rating comment t w i =
        let i1 = e.select_review_id event_id user_id w (session_key sid) field ∙ i in
        let looked = d.cassandra.select_review_id event_id user_id w in
        elim (Result-cases looked.0) [
          | inl (id, there) ↦ rw there i1
          | inr (x, missing) ↦ rw missing (insert_new-Stays event_id user_id rating comment t _ i1)
        ]

    pub get_reviews_by_event_id-Stays :
        (id : String) → Stays I ((review_storage d).get_reviews_by_event_id id)
    unfolding Cassandra.ReviewStorage.get_reviews_by_event_id
    get_reviews_by_event_id-Stays id w i =
        let i' = review_rows-Stays id w i in
        elim (Option-cases (d.cassandra.select_reviews id w).0.close) [
          | inl closed ↦ rw closed i'
          | inr (x, failed) ↦ rw failed i'
        ]

    pub get_review-Stays :
        (id review_id : String) → Stays I ((review_storage d).get_review id review_id)
    unfolding Cassandra.ReviewStorage.get_review
    get_review-Stays id review_id w i =
        let i' = review_rows-Stays id w i in
        let iter = (d.cassandra.select_reviews id w).0 in
        elim (Option-cases (find_review review_id iter.rows)) [
          | inl missing ↦ elim (Option-cases iter.close) [
            | inl closed ↦ ground (arith, i')
            | inr (x, failed) ↦ ground (arith, i')
          ]
          | inr (r, found) ↦ elim (Option-cases iter.close) [
            | inl closed ↦ ground (arith, i')
            | inr (x, failed) ↦ ground (arith, i')
          ]
        ]

    pub update_review-Stays :
        (event_id user_id : String) (rating : Option ℕ) (comment : Option String) (t : Time)
        → Stays I ((review_storage d).update_review event_id user_id rating comment t)
    unfolding Cassandra.ReviewStorage.update_review
    update_review-Stays event_id user_id rating comment t w i =
        let i1 = e.select_review event_id user_id w (session_key sid) field ∙ i in
        elim (Result-cases (d.cassandra.select_review event_id user_id w).0) [
          | inr (x, failed) ↦ rw failed i1
          | inl (old, found) ↦
              let r : Cassandra.Review = record {
                id = old.id;
                event_id = event_id;
                rating = Cassandra.ReviewStorage.or_kept rating old.rating;
                comment = Cassandra.ReviewStorage.or_kept comment old.comment;
                created_at = old.created_at;
                created_by = user_id;
                updated_at = utc t;
              } in
              let w' = (d.cassandra.select_review event_id user_id w).1 in
              let i2 = insert_review-Stays r w' i1 in
              elim (Result-cases (d.cassandra.insert_review r w').0) [
                | inl (x, done) ↦ rw (found, done) i2
                | inr (x, failed) ↦ rw (found, failed) i2
              ]
        ]

    add_events-Stays :
        (stats : Cassandra.ReviewStats) (ids : List String)
        → Stays I (Cassandra.ReviewStorage.add_events d.cassandra stats ids)
    unfolding Cassandra.ReviewStorage.add_events
    add_events-Stays stats [] w i = i
    add_events-Stays stats (id ∷ ids) w i =
        let iter = (d.cassandra.select_ratings id w).0 in
        let w' = (d.cassandra.select_ratings id w).1 in
        let i' : I w' = e.select_ratings id w (session_key sid) field ∙ i in
        elim (Option-cases iter.close) [
          | inl closed ↦ rw closed (add_events-Stays (add_ratings stats iter.rows) ids w' i')
          | inr (x, failed) ↦ rw failed i'
        ]

    pub get_review_stats-Stays :
        (ids : List String) → Stays I ((review_storage d).get_review_stats_by_event_ids ids)
    unfolding Cassandra.ReviewStorage.get_review_stats_by_event_ids
    get_review_stats-Stays = add_events-Stays _

    -- Neo4j
    pub graph_create_user-Stays : (u : String) → Stays I ((graph_storage d).create_user u)
    unfolding Graph.create_user
    graph_create_user-Stays u = mapped _ (d.neo4j.merge_user u) (e.merge_user u)

    pub graph_create_event-Stays : (id t : String) → Stays I ((graph_storage d).create_event id t)
    unfolding Graph.create_event
    graph_create_event-Stays id t = mapped _ (d.neo4j.merge_event id t) (e.merge_event id t)

    pub add_like-Stays : (u id t : String) → Stays I ((graph_storage d).add_like u id t)
    unfolding Graph.add_like
    add_like-Stays u id t = mapped _ (d.neo4j.merge_like u id t) (e.merge_like u id t)

    pub recommended-Stays : (u : String) → Stays I ((graph_storage d).get_recommended_event_ids u)
    unfolding Graph.get_recommended_event_ids
    recommended-Stays u =
        then_end _ _ (mapped _ (d.neo4j.match_recommendations u) (e.match_recommendations u))
          (λ a w i. i)

    pub hash_password-Stays : (s : String) → Stays I (d.bcrypt.generate_from_password s)
    hash_password-Stays s = from (d.bcrypt.generate_from_password s) (e.generate s)
