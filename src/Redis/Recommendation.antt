-- ===== src/Redis/Recommendation.antt =====
-- internal/storage/redis/recommendation.go and internal/storage/redis/dto/recommendation.go, with
-- encoding/json as a parameter.
use ndbx.Prelude.{ℕ, String, text_append, none, some, List, [], ◌∷◌, lookup}
use ndbx.Errors.{Err, sentinel, wrap, redis_nil}
use ndbx.Exec.{Result, ok, err, Exec, lift, wrapping, ◌>>=◌}
use ndbx.Redis.{RedisClient, string}

pub record RecommendationEvent : Type 0 where
  pub id : String
  pub title : String
  pub category : String
  pub price : ℕ
  pub description : String
  pub city : String
  pub address : String
  pub created_at : String
  pub created_by : String
  pub started_at : String
  pub finished_at : String

-- json.Marshal and json.Unmarshal of the list
pub record Json : Type 0 where
  pub marshal : List RecommendationEvent → Result Err String
  pub unmarshal : String → Result Err (List RecommendationEvent)

pub record SetRecommendationReq : Type 0 where
  pub user_id : String
  pub events : List RecommendationEvent
  pub ttl : ℕ

unfoldable pub recommendation_key : String → String
recommendation_key user_id = text_append "user:" (text_append user_id ":recomms")

module _ (json : Json) where
  abbrev pub wrap_err : {A : Type 0} → String → Result Err A → Result Err A
  wrap_err message (ok a) = ok a
  wrap_err message (err e) = err (wrap message e)

  -- What Get makes of the reply of HGETALL.
  unfoldable pub read_recommendations :
      List (String × String) → Result Err (List RecommendationEvent)
  unfolding lookup
  read_recommendations [] = err (sentinel redis_nil)
  read_recommendations (f ∷ fs) = elim (lookup "events" (f ∷ fs)) [
    | none ↦ err (sentinel redis_nil)
    | some s ↦ wrap_err "unmarshal recommendation events" (json.unmarshal s)
  ]

  module _ {W : Type 0} (client : RedisClient W) where
    unfoldable pub get : String → Exec Err W (List RecommendationEvent)
    get user_id = do
      result ← wrapping "hgetall recommendations" (client.hgetall (recommendation_key user_id))
      lift (read_recommendations result)

    unfoldable pub set : SetRecommendationReq → Exec Err W (Unit {0})
    set req = do
      events_json ← lift (wrap_err "marshal recommendation events" (json.marshal req.events))
      wrapping "set recommendations cache" (
          client.hset_expire (recommendation_key req.user_id) (("events", string events_json) ∷ [])
            req.ttl)
