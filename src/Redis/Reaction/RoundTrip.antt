-- ===== src/Redis/Reaction/RoundTrip.antt =====
-- What is read of the cached reactions after they were written, in
-- internal/storage/redis/reaction.go.
use mathlib.Core.Path.{subst}
use ndbx.Prelude.{false, ◌⊎◌, List, ◌≤◌, ◌<◌, String, ◌≡◌, inl, inr, [], ◌∷◌, arith, lookup}
use ndbx.Prelude.Words.{two63, two64}
use ndbx.Strconv.{format_int}
use ndbx.Strconv.RoundTrip.{parse_int-format_int}
use ndbx.Errors.{redis_nil, Err, wrap, is}
use ndbx.Exec.{err, Result, ok, map_err-world, map_err-ok}
use ndbx.GoTime.{second}
use ndbx.Redis.{Value, RedisClient, RedisLaws, Answers, int, str, value}
use ndbx.Redis.Reaction.{
  Reactions, SetReactionsReq, event_reactions_key, read_reactions, parse_int64_field, get, set,
}

-- Both counts are int64 values.
pub record InRange (r : Reactions) : Type 0 where
  pub likes_lt : r.likes < two64
  pub dislikes_lt : r.dislikes < two64

read_written :
    (r : Reactions)
    → InRange r
    → read_reactions (str (format_int r.likes) ∷ str (format_int r.dislikes) ∷ []) ≡ ok r
unfolding read_reactions parse_int64_field
read_written r h =
    ground (
      arith,
      parse_int-format_int r.likes h.likes_lt,
      parse_int-format_int r.dislikes h.dislikes_lt,
    )

module _ {W : Type 0} (client : RedisClient W) (laws : RedisLaws client) where
  pub get-Answers :
      (title_hash : String) (w : W)
      → Answers (get client title_hash w).0 (
          read_reactions (
            value (laws.hash w (event_reactions_key title_hash) "likes")
            ∷ value (laws.hash w (event_reactions_key title_hash) "dislikes")
            ∷ []))
  unfolding get is
  get-Answers title_hash w =
      let asked =
        laws.hmget_answers (event_reactions_key title_hash) ("likes" ∷ "dislikes" ∷ []) w in
      elim asked [
        | inl got ↦ inl (ground arith)
        | inr (e, failed, other) ↦ inr (wrap "hmget reactions" e, ground arith, other)
      ]

  abbrev pub replies : W → String → List Value
  replies w title_hash =
      value (laws.hash w (event_reactions_key title_hash) "likes")
      ∷ value (laws.hash w (event_reactions_key title_hash) "dislikes")
      ∷ []

  -- Get makes `r` of the reply of its HMGET, and fails only where the HMGET fails, which is not with
  -- redis.Nil.
  abbrev pub Reads : String → W → Result Err Reactions → Type 0
  Reads title_hash w r =
      let reply = (client.hmget (event_reactions_key title_hash) ("likes" ∷ "dislikes" ∷ []) w).0 in
      ((reply ≡ ok (replies w title_hash)) × ((get client title_hash w).0 ≡ r))
      ⊎ ((e : Err) × (reply ≡ err e)
          × (is e redis_nil ≡ false)
          × ((get client title_hash w).0 ≡ err (wrap "hmget reactions" e)))

  get-Reads :
      (title_hash : String) (w : W) → Reads title_hash w (read_reactions (replies w title_hash))
  unfolding get
  get-Reads title_hash w =
      let asked =
        laws.hmget_answers (event_reactions_key title_hash) ("likes" ∷ "dislikes" ∷ []) w in
      elim asked [
        | inl got ↦ inl (got, ground arith)
        | inr (e, failed, other) ↦ inr (e, failed, other, ground arith)
      ]

  pub Reads-Answers :
      (title_hash : String) (w : W) (r : Result Err Reactions)
      → Reads title_hash w r
      → Answers (get client title_hash w).0 r
  unfolding is
  Reads-Answers title_hash w r (inl (answered, got)) = inl got
  Reads-Answers title_hash w r (inr (e, failed, other, got)) = inr (_, got, other)

  -- After a successful Set of two int64 counts, for a time to live of a second or more that
  -- is an int64, Get of the same title hash returns the counts when its HMGET is answered, and
  -- otherwise fails with the error of the HMGET, which is not redis.Nil.
  pub reactions_get-set :
      (req : SetReactionsReq) (w : W)
      → InRange req.reactions
      → second ≤ req.ttl
      → req.ttl < two63
      → (set client req w).0 ≡ ok tt
      → Reads req.title_hash (set client req w).1 (ok req.reactions)
  unfolding set lookup
  reactions_get-set req w range low high done =
      let key = event_reactions_key req.title_hash in
      let fields =
        ("likes", int req.reactions.likes) ∷ ("dislikes", int req.reactions.dislikes) ∷ [] in
      let did =
        map_err-ok (wrap "set reactions cache") (client.hset_expire key fields req.ttl) w tt done in
      let sets = laws.hset_expire_sets key fields req.ttl w low high did in
      let world =
        map_err-world (wrap "set reactions cache") (client.hset_expire key fields req.ttl) w in
      subst (Reads req.title_hash (set client req w).1)
        (rw (world, sets "likes", sets "dislikes") (read_written req.reactions range))
        (get-Reads req.title_hash (set client req w).1)
