-- ===== src/Examples/Servers.antt =====
-- Stand-ins for the other stores and for the services.
use ndbx.Prelude.{◌*◌, ◌/◌, none, [], ◌∷◌}
use ndbx.Strconv.{parse_int}
use ndbx.Exec.{ok, err}
use ndbx.Errors.{sentinel, plain, redis_nil, not_found}
use ndbx.Float64.{Float64}
use ndbx.Mongo
use ndbx.Mongo.{MongoClient}
use ndbx.Cassandra.{CassandraSession, Review}
use ndbx.Cassandra.ReviewStorage.{
  create_review, get_reviews_by_event_id, get_review, update_review, get_review_stats_by_event_ids,
}
use ndbx.Service.Ports.{EventStorage, GraphStorage, RecommendationCache, ReviewStorage, ReviewCache}
use ndbx.Router.{UserService, EventService, ReviewService, RecommendationService}
use ndbx.Examples.Doubles.{noon}

-- A Cassandra whose events have each the rows 1, 1 and -1, and one review.
abbrev pub sample_review : Review
sample_review = record {
  id = "r1";
  event_id = "e1";
  rating = 4;
  comment = "good";
  created_at = noon;
  created_by = "anna";
  updated_at = noon;
}

abbrev pub sample_cassandra : {W : Type 0} → CassandraSession W
sample_cassandra = record {
  insert_reaction = λ event_id user_id v t w. (ok tt, w);
  select_like_values = λ id w. (record { rows = 1 ∷ 1 ∷ 255 ∷ []; close = none }, w);
  select_review_id = λ event_id user_id w. (ok "r1", w);
  insert_review = λ r w. (ok tt, w);
  select_reviews = λ event_id w. (record { rows = sample_review ∷ []; close = none }, w);
  select_review = λ event_id user_id w. (ok sample_review, w);
  select_ratings = λ event_id w. (record { rows = 4 ∷ []; close = none }, w);
  new_uuid = λ w. ("r2", w);
}

abbrev pub sample_stored_event : Mongo.Event
sample_stored_event = record {
  id = "e1";
  title = "Jazz";
  category = "music";
  price = 0;
  description = "";
  location = record { address = "Main street"; city = "Moscow" };
  created_at = noon;
  created_by = "anna";
  started_at = noon;
  finished_at = noon;
}

abbrev pub sample_events : {W : Type 0} → EventStorage W
sample_events = record {
  create = λ req w. (ok sample_stored_event, w);
  get_events = λ req w. (ok (sample_stored_event ∷ []), w);
  get_event = λ id w. (ok sample_stored_event, w);
  get_events_by_title = λ title w. (ok (sample_stored_event ∷ []), w);
  patch_event = λ req w. (ok tt, w);
}

-- A graph that recommends the event, and cannot be written.
abbrev pub sample_graph : {W : Type 0} → GraphStorage W
sample_graph = record {
  create_user = λ id w. (err (plain "down"), w);
  create_event = λ id title w. (err (plain "down"), w);
  add_like = λ user_id id title w. (err (plain "down"), w);
  get_recommended_event_ids =
      λ user_id w. (ok (record { id = "e1"; title = "Jazz"; score = 3 } ∷ []), w);
}

-- A cache of recommendations that is empty, and cannot be written.
abbrev pub no_recommendations : {W : Type 0} → RecommendationCache W
no_recommendations = record {
  get = λ user_id w. (err (sentinel redis_nil), w);
  set = λ req w. (err (plain "down"), w);
}

abbrev pub sample_reviews : {W : Type 0} → ReviewStorage W
sample_reviews = record {
  create_review = create_review sample_cassandra;
  get_reviews_by_event_id = get_reviews_by_event_id sample_cassandra;
  get_review = get_review sample_cassandra;
  update_review = update_review sample_cassandra;
  get_review_stats_by_event_ids = get_review_stats_by_event_ids sample_cassandra;
}

abbrev pub no_review_cache : {W : Type 0} → ReviewCache W
no_review_cache = record {
  get = λ hash w. (err (sentinel redis_nil), w);
  set = λ req w. (ok tt, w);
}

-- Arithmetic that keeps whole numbers.
abbrev pub whole_floats : Float64
whole_floats = record {
  of_int64 = λ n. n;
  div = λ a b. a / b;
  mul = λ a b. a * b;
  round = λ n. n;
  parse = parse_int;
}

-- One user, whose events and accounts are constants.
abbrev pub sample_accounts : {W : Type 0} → UserService W
sample_accounts = record {
  register = λ req w. (ok "u1", w);
  authenticate = λ req w. (ok "u1", w);
  get_users = λ req w. (ok [], w);
  get_user = λ id w. (ok (record { id = "u1"; full_name = "Anna"; username = "anna" }), w);
}

abbrev pub sample_event_service : {W : Type 0} → EventService W
sample_event_service = record {
  create_event = λ req w. (ok "e1", w);
  get_events = λ req w. (ok [], w);
  get_event = λ req w. (err (sentinel not_found), w);
  patch_event = λ req w. (ok tt, w);
  like_event = λ req w. (ok tt, w);
  dislike_event = λ req w. (ok tt, w);
}

abbrev pub sample_review_service : {W : Type 0} → ReviewService W
sample_review_service = record {
  create_review = λ req w. (ok "r1", w);
  get_reviews = λ req w. (ok (record { reviews = []; count = 0 }), w);
  update_review = λ req w. (ok tt, w);
}

abbrev pub sample_recommendation_service : {W : Type 0} → RecommendationService W
sample_recommendation_service = record { get_recommendations = λ user_id w. (ok [], w) }

-- A MongoDB with one user and events; its ids are texts.
abbrev pub sample_mongo : {W : Type 0} → MongoClient W
sample_mongo = record {
  insert_one = λ c d w. (ok (Mongo.str "e1"), w);
  find_one = λ c d w. (ok (Mongo.field "_id" (Mongo.str "u1") Mongo.empty), w);
  find = λ c d o w. (ok (record { documents = []; failure = none }), w);
  update_one = λ c f u w. (ok 1, w);
  create_indexes = λ c i w. (ok tt, w);
  object_id_from_hex = λ s. none;
  hex = λ n. "";
  date_time_time = λ n. noon;
  float64_to_int64 = λ n. n;
  float32_to_int64 = λ n. n;
}
