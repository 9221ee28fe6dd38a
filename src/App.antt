-- ===== src/App.antt =====
-- How internal/app/app.go puts the parts together: the storages of sessions and reactions, and the
-- service of sessions over its storage, for the router.
pub mod Login
pub mod Extension
pub mod Reacting
pub mod Registering
pub mod Logout
pub mod Machine
pub mod Race
pub mod Services
use ndbx.Prelude.{ℕ}
use ndbx.GoTime.{Rfc3339, Host}
use ndbx.Redis.{RedisClient}
use ndbx.Redis.Session
use ndbx.Redis.Reaction
use ndbx.Cassandra.{CassandraSession}
use ndbx.Cassandra.ReactionStorage
use ndbx.Service.Ports.{SessionStorage, EventReactionStorage, EventReactionCache}
use ndbx.Service
use ndbx.Service.Session.{get_session, create_session, create_or_extend_session, delete_session}
use ndbx.Router.{SessionService}

module _ (clock : Rfc3339) {W : Type 0} (client : RedisClient W) where
  abbrev pub session_storage : SessionStorage W
  session_storage = record {
    get = Session.get clock client;
    set = Session.set clock client;
    set_or_update = Session.set_or_update clock client;
    delete = Session.delete clock client;
  }

  abbrev pub session_service : Host W → ℕ → SessionService W
  session_service host ttl = record {
    get_session = get_session host session_storage ttl;
    create_session = create_session host session_storage ttl;
    create_or_extend_session = create_or_extend_session host session_storage ttl;
    delete_session = delete_session host session_storage ttl;
  }

abbrev pub reaction_storage : {W : Type 0} → CassandraSession W → EventReactionStorage W
reaction_storage session = record {
  upsert_reaction = ReactionStorage.upsert_reaction session;
  count_by_event_ids = ReactionStorage.count_by_event_ids session;
}

abbrev pub reaction_cache : {W : Type 0} → RedisClient W → EventReactionCache W
reaction_cache client = record { get = Reaction.get client; set = Reaction.set client }
