-- ===== src/Graph.antt =====
-- internal/storage/neo4j/graph.go over the Neo4j driver, which is a parameter: one call for each
-- Cypher statement, its session and transaction included.
use ndbx.Prelude.{ℕ, String, Option, none, some, List, [], ◌∷◌, lookup}
use ndbx.Errors.{Err}
use ndbx.Exec.{Exec, pure, wrapping, ◌>>=◌}

pub record RecommendedEvent : Type 0 where
  pub id : String
  pub title : String
  pub score : ℕ

-- A value of a record, of Go type `any`.
pub data Value : Type 0 where
  nil : Value
  str : String → Value
  int64 : ℕ → Value
  other : Value

pub record GraphDriver (W : Type 0) : Type 0 where
  -- MERGE (u:User {id: $userId})
  pub merge_user : String → Exec Err W (Unit {0})
  -- MERGE (e:Event {id: $eventId}) SET e.title = $title
  pub merge_event : String → String → Exec Err W (Unit {0})
  -- MERGE the user, the event with its title, and the relation LIKED between them
  pub merge_like : String → String → String → Exec Err W (Unit {0})
  -- the recommendation query: the records of the result, by name
  pub match_recommendations : String → Exec Err W (List (List (String × Value)))

abbrev pub text_value : Option Value → Option String
text_value (some (str s)) = some s
text_value _ = none

abbrev pub int_value : Option Value → Option ℕ
int_value (some (int64 n)) = some n
int_value _ = none

-- A field that is missing, null or of another type makes the record useless.
unfoldable pub parse_recommendation_record : List (String × Value) → Option RecommendedEvent
unfolding lookup
parse_recommendation_record r = elim (text_value (lookup "id" r)) [
  | none ↦ none
  | some id ↦ elim (text_value (lookup "title" r)) [
    | none ↦ none
    | some title ↦ elim (int_value (lookup "score" r)) [
      | none ↦ none
      | some score ↦ some (record { id = id; title = title; score = score })
    ]
  ]
]

abbrev pub keep : {A : Type 0} → Option A → List A → List A
keep none rest = rest
keep (some a) rest = a ∷ rest

-- The loop over the records, which passes over the useless ones.
unfoldable pub parse_records : List (List (String × Value)) → List RecommendedEvent
unfolding parse_recommendation_record
parse_records [] = []
parse_records (r ∷ rs) = keep (parse_recommendation_record r) (parse_records rs)

module _ {W : Type 0} (driver : GraphDriver W) where
  unfoldable pub create_user : String → Exec Err W (Unit {0})
  create_user user_id = wrapping "create user in neo4j" (driver.merge_user user_id)

  unfoldable pub create_event : String → String → Exec Err W (Unit {0})
  create_event event_id title = wrapping "create event in neo4j" (driver.merge_event event_id title)

  unfoldable pub add_like : String → String → String → Exec Err W (Unit {0})
  add_like user_id event_id title =
      wrapping "add like in neo4j" (driver.merge_like user_id event_id title)

  unfoldable pub get_recommended_event_ids : String → Exec Err W (List RecommendedEvent)
  get_recommended_event_ids user_id = do
    records ← wrapping "get recommended event ids from neo4j" (driver.match_recommendations user_id)
    pure (parse_records records)
