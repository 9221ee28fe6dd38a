-- ===== src/Redis/Reaction.antt =====
-- internal/storage/redis/reaction.go and internal/storage/redis/dto/reaction.go
pub mod RoundTrip
use ndbx.Prelude.{ℕ, String, text_append, Option, none, some, List, [], ◌∷◌}
use ndbx.Strconv.{parse_int}
use ndbx.Errors.{Err, sentinel, plain, wrap, redis_nil}
use ndbx.Exec.{Result, ok, err, Exec, lift, wrapping, ◌>>=◌}
use ndbx.Redis.{RedisClient, Value, nil, str, other, Arg, int}

pub record Reactions : Type 0 where
  pub likes : ℕ
  pub dislikes : ℕ

pub record SetReactionsReq : Type 0 where
  pub title_hash : String
  pub reactions : Reactions
  pub ttl : ℕ

unfoldable pub event_reactions_key : String → String
event_reactions_key title_hash = text_append "event:" (text_append title_hash ":reactions")

unfoldable pub parse_int64_field : Value → String → Result Err ℕ
parse_int64_field (str s) field = elim (parse_int s) [
  | none ↦ err (wrap (text_append "parse field: " field) (plain s))
  | some n ↦ ok n
]
parse_int64_field _ field = err (plain (text_append "invalid field type: " field))

-- What Get makes of the reply of HMGET.
unfoldable pub read_reactions : List Value → Result Err Reactions
unfolding parse_int64_field
read_reactions (nil ∷ _ ∷ []) = err (sentinel redis_nil)
read_reactions (_ ∷ nil ∷ []) = err (sentinel redis_nil)
read_reactions (l ∷ d ∷ []) = elim (parse_int64_field l "likes") [
  | err e ↦ err e
  | ok likes ↦ elim (parse_int64_field d "dislikes") [
    | err e ↦ err e
    | ok dislikes ↦ ok (record { likes = likes; dislikes = dislikes })
  ]
]
read_reactions _ = err (sentinel redis_nil)

module _ {W : Type 0} (client : RedisClient W) where
  unfoldable pub get : String → Exec Err W Reactions
  get title_hash = do
    res ←
        wrapping "hmget reactions"
          (client.hmget (event_reactions_key title_hash) ("likes" ∷ "dislikes" ∷ []))
    lift (read_reactions res)

  unfoldable pub set : SetReactionsReq → Exec Err W (Unit {0})
  set req = wrapping "set reactions cache" (
      client.hset_expire (event_reactions_key req.title_hash)
        (("likes", int req.reactions.likes) ∷ ("dislikes", int req.reactions.dislikes) ∷ [])
        req.ttl)
