-- ===== src/Cassandra.antt =====
-- internal/storage/cassandra over the driver gocql, which is a parameter: one call for each CQL
-- statement of the program, over the tables of scripts/cassandra/init.cql.
pub mod ReactionStorage
pub mod ReviewStorage
use ndbx.Prelude.{ℕ, String, Option, List}
use ndbx.Errors.{Err}
use ndbx.Exec.{Exec}
use ndbx.GoTime.{Time}

-- What an Iter yields: the rows that Scan accepts, and the error of Close.
pub record Iter (A : Type 0) : Type 0 where
  pub rows : List A
  pub close : Option Err

pub record ReactionCounts : Type 0 where
  pub likes : ℕ
  pub dislikes : ℕ

pub record Review : Type 0 where
  pub id : String
  pub event_id : String
  pub rating : ℕ
  pub comment : String
  pub created_at : Time
  pub created_by : String
  pub updated_at : Time

pub record ReviewStats : Type 0 where
  pub count : ℕ
  pub sum : ℕ

pub record CassandraSession (W : Type 0) : Type 0 where
  -- INSERT INTO event_reactions (event_id, created_by, like_value, created_at)
  pub insert_reaction : String → String → ℕ → Time → Exec Err W (Unit {0})
  -- SELECT like_value FROM event_reactions WHERE event_id = ?
  pub select_like_values : String → W → Iter ℕ × W
  -- SELECT id FROM event_reviews WHERE event_id = ? AND created_by = ?
  pub select_review_id : String → String → Exec Err W String
  -- INSERT INTO event_reviews (event_id, created_by, id, rating, comment, created_at, updated_at)
  pub insert_review : Review → Exec Err W (Unit {0})
  -- SELECT id, event_id, rating, comment, created_at, created_by, updated_at … WHERE event_id = ?
  pub select_reviews : String → W → Iter Review × W
  -- SELECT id, rating, comment, created_at … WHERE event_id = ? AND created_by = ?
  pub select_review : String → String → Exec Err W Review
  -- SELECT rating FROM event_reviews WHERE event_id = ?
  pub select_ratings : String → W → Iter ℕ × W
  -- uuid.New().String() of github.com/google/uuid
  pub new_uuid : W → String × W
