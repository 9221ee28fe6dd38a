-- ===== src/App/Services.antt =====
-- How internal/app/app.go puts the services other than that of sessions over their storages, and
-- these over the drivers.
pub mod Leaving
pub mod Sessions
pub mod Storages
use ndbx.Prelude.{ℕ, String, Option}
use ndbx.Errors.{Err}
use ndbx.Exec.{Exec}
use ndbx.GoTime.{seconds, Time, Rfc3339, Host}
use ndbx.Float64.{Float64}
use ndbx.Redis
use ndbx.Redis.{RedisClient}
use ndbx.Mongo
use ndbx.Mongo.{MongoClient}
use ndbx.Cassandra
use ndbx.Cassandra.{CassandraSession}
use ndbx.Graph.{GraphDriver}
use ndbx.Graph
use ndbx.Service
use ndbx.Service.Ports.{
  UserStorage, EventStorage, ReviewStorage, ReviewCache, GraphStorage, RecommendationCache,
  ReviewSummaries,
}
use ndbx.Service.Account.{Bcrypt}
use ndbx.Router.{UserService, EventService, ReviewService, RecommendationService}
use ndbx.App.{reaction_storage, reaction_cache}
use ndbx.App.Machine.{Surroundings}

-- The drivers, and the configuration.
pub record Drivers (W : Type 0) : Type 0 where
  pub clock : Rfc3339
  pub parse_date : String → Option Time
  pub floats : Float64
  pub title_md5 : String → String
  pub json : Redis.Recommendation.Json
  pub host : Host W
  pub bcrypt : Bcrypt W
  pub redis : RedisClient W
  pub mongo : MongoClient W
  pub cassandra : CassandraSession W
  pub neo4j : GraphDriver W
  pub session_ttl : ℕ
  pub reviews_ttl : ℕ
  pub like_ttl : ℕ
  pub recommendations_ttl : ℕ

module _ {W : Type 0} (d : Drivers W) where
  abbrev pub user_storage : UserStorage W
  user_storage = record {
    create = Mongo.UserStorage.create d.mongo;
    get_by_username = Mongo.UserStorage.get_by_username d.mongo;
    get_users = Mongo.UserStorage.get_users d.mongo;
    get_by_id = Mongo.UserStorage.get_by_id d.mongo;
  }

  abbrev pub event_storage : EventStorage W
  event_storage = record {
    create = Mongo.EventStorage.create d.clock d.mongo d.host;
    get_events = Mongo.EventStorage.get_events d.clock d.mongo;
    get_event = Mongo.EventStorage.get_event d.clock d.mongo;
    get_events_by_title = Mongo.EventStorage.get_events_by_title d.clock d.mongo;
    patch_event = Mongo.EventStorage.patch_event d.mongo;
  }

  abbrev pub review_storage : ReviewStorage W
  review_storage = record {
    create_review = Cassandra.ReviewStorage.create_review d.cassandra;
    get_reviews_by_event_id = Cassandra.ReviewStorage.get_reviews_by_event_id d.cassandra;
    get_review = Cassandra.ReviewStorage.get_review d.cassandra;
    update_review = Cassandra.ReviewStorage.update_review d.cassandra;
    get_review_stats_by_event_ids =
        Cassandra.ReviewStorage.get_review_stats_by_event_ids d.cassandra;
  }

  abbrev pub review_cache : ReviewCache W
  review_cache = record { get = Redis.Review.get d.floats d.redis; set = Redis.Review.set d.redis }

  abbrev pub graph_storage : GraphStorage W
  graph_storage = record {
    create_user = Graph.create_user d.neo4j;
    create_event = Graph.create_event d.neo4j;
    add_like = Graph.add_like d.neo4j;
    get_recommended_event_ids = Graph.get_recommended_event_ids d.neo4j;
  }

  abbrev pub recommendation_cache : RecommendationCache W
  recommendation_cache = record {
    get = Redis.Recommendation.get d.json d.redis;
    set = Redis.Recommendation.set d.json d.redis;
  }

  abbrev pub reviews_by_title : String → Exec Err W Service.EventReviewsSummary
  reviews_by_title =
      Service.Review.get_reviews_by_title d.host d.floats d.title_md5 event_storage review_storage
        review_cache (seconds d.reviews_ttl)

  abbrev pub reactions_by_title : String → Exec Err W Service.EventReactions
  reactions_by_title =
      Service.Reaction.reactions_by_title d.host d.title_md5 event_storage
        (reaction_storage d.cassandra) (reaction_cache d.redis) graph_storage (seconds d.like_ttl)

  abbrev pub user_service : UserService W
  user_service = record {
    register = Service.Account.register d.bcrypt user_storage graph_storage;
    authenticate = Service.Account.authenticate d.bcrypt user_storage graph_storage;
    get_users = Service.Account.get_users d.bcrypt user_storage graph_storage;
    get_user = Service.Account.get_user d.bcrypt user_storage graph_storage;
  }

  abbrev pub summaries : ReviewSummaries W
  summaries = record { get_reviews_by_title = reviews_by_title }

  abbrev pub event_service : EventService W
  event_service = record {
    create_event =
        Service.Event.create_event event_storage graph_storage reactions_by_title summaries;
    get_events = Service.Event.get_events event_storage graph_storage reactions_by_title summaries;
    get_event = Service.Event.get_event event_storage graph_storage reactions_by_title summaries;
    patch_event =
        Service.Event.patch_event event_storage graph_storage reactions_by_title summaries;
    like_event =
        Service.Reaction.like_event d.host d.title_md5 event_storage (reaction_storage d.cassandra)
          (reaction_cache d.redis) graph_storage (seconds d.like_ttl);
    dislike_event =
        Service.Reaction.dislike_event d.host d.title_md5 event_storage
          (reaction_storage d.cassandra) (reaction_cache d.redis) graph_storage
          (seconds d.like_ttl);
  }

  abbrev pub review_service : ReviewService W
  review_service = record {
    create_review =
        Service.Review.create_review d.host d.floats d.title_md5 event_storage review_storage
          review_cache (seconds d.reviews_ttl);
    get_reviews =
        Service.Review.get_reviews d.host d.floats d.title_md5 event_storage review_storage
          review_cache (seconds d.reviews_ttl);
    update_review =
        Service.Review.update_review d.host d.floats d.title_md5 event_storage review_storage
          review_cache (seconds d.reviews_ttl);
  }

  abbrev pub recommendation_service : RecommendationService W
  recommendation_service = record {
    get_recommendations =
        Service.Recommendation.get_recommendations d.clock graph_storage event_storage
          recommendation_cache (seconds d.recommendations_ttl);
  }

  -- The program around its storage of sessions.
  abbrev pub wired : Surroundings W
  wired = record {
    host = d.host;
    ttl = d.session_ttl;
    parse_date = d.parse_date;
    accounts = user_service;
    events = event_service;
    reviews = review_service;
    recommendations = recommendation_service;
  }
