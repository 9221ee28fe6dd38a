-- ===== src/Redis/Review.antt =====
-- internal/storage/redis/review.go and internal/storage/redis/dto/review.go
use ndbx.Prelude.{ℕ, String, text_append, none, some, List, [], ◌∷◌}
use ndbx.Float64.{Float64}
use ndbx.Errors.{Err, sentinel, plain, wrap, redis_nil}
use ndbx.Exec.{Result, ok, err, Exec, lift, wrapping, ◌>>=◌}
use ndbx.Redis.{RedisClient, Value, nil, str, int, float}
use ndbx.Redis.Reaction.{parse_int64_field}

pub record Reviews : Type 0 where
  pub count : ℕ
  pub rating : ℕ

pub record SetReviewsReq : Type 0 where
  pub title_hash : String
  pub reviews : Reviews
  pub ttl : ℕ

unfoldable pub event_reviews_key : String → String
event_reviews_key title_hash = text_append "event:" (text_append title_hash ":reviews")

module _ (floats : Float64) where
  unfoldable pub parse_float64_field : Value → String → Result Err ℕ
  parse_float64_field (str s) field = elim (floats.parse s) [
    | none ↦ err (wrap (text_append "parse field: " field) (plain s))
    | some x ↦ ok x
  ]
  parse_float64_field _ field = err (plain (text_append "invalid field type: " field))

  -- What Get makes of the reply of HMGET.
  unfoldable pub read_reviews : List Value → Result Err Reviews
  unfolding parse_int64_field parse_float64_field
  read_reviews (nil ∷ _ ∷ []) = err (sentinel redis_nil)
  read_reviews (_ ∷ nil ∷ []) = err (sentinel redis_nil)
  read_reviews (c ∷ r ∷ []) = elim (parse_int64_field c "count") [
    | err e ↦ err e
    | ok count ↦ elim (parse_float64_field r "rating") [
      | err e ↦ err e
      | ok rating ↦ ok (record { count = count; rating = rating })
    ]
  ]
  read_reviews _ = err (sentinel redis_nil)

  module _ {W : Type 0} (client : RedisClient W) where
    unfoldable pub get : String → Exec Err W Reviews
    get title_hash = do
      res ←
          wrapping "hmget reviews"
            (client.hmget (event_reviews_key title_hash) ("count" ∷ "rating" ∷ []))
      lift (read_reviews res)

module _ {W : Type 0} (client : RedisClient W) where
  unfoldable pub set : SetReviewsReq → Exec Err W (Unit {0})
  set req = wrapping "set reviews cache" (
      client.hset_expire (event_reviews_key req.title_hash)
        (("count", int req.reviews.count) ∷ ("rating", float req.reviews.rating) ∷ []) req.ttl)
