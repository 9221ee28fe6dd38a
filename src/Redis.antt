-- ===== src/Redis.antt =====
-- internal/storage/redis over the driver go-redis, which is a parameter: the hash commands that the
-- program sends, and what Redis documents of them.
pub mod Session
pub mod Reaction
pub mod Review
pub mod Recommendation
use ndbx.Prelude.{
  ℕ, ◌≤◌, ◌<◌, String, ◌≡◌, ◌≢◌, ◌⊎◌, false, Option, none, some, List, map, lookup, map_values,
}
use ndbx.Prelude.Words.{two63}
use ndbx.GoTime.{second}
use ndbx.Strconv.{format_int}
use ndbx.Errors.{Err, sentinel, redis_nil, is}
use ndbx.Exec.{Result, ok, err, Exec}

-- A reply of HMGET for one field, of Go type `any`.
pub data Value : Type 0 where
  nil : Value
  str : String → Value
  other : Value

-- A value that is written with HSET, which the driver turns into text.
pub data Arg : Type 0 where
  int : ℕ → Arg
  float : ℕ → Arg
  string : String → Arg

-- What the driver writes for a value; `float_text` is its text of a float.
abbrev pub render : (ℕ → String) → Arg → String
render float_text (int n) = format_int n
render float_text (float x) = float_text x
render float_text (string s) = s

pub record RedisClient (W : Type 0) : Type 0 where
  pub hget : String → String → Exec Err W String
  pub hmget : String → List String → Exec Err W (List Value)
  pub hgetall : String → Exec Err W (List (String × String))
  -- HSETEX key EX seconds FIELDS …
  pub hsetex : String → ℕ → List (String × String) → Exec Err W (Unit {0})
  -- MULTI; HSET; EXPIRE; EXEC
  pub hset_expire : String → List (String × Arg) → ℕ → Exec Err W (Unit {0})
  pub del : String → Exec Err W (Unit {0})

-- What a reply tells of a field: `nil` if the field is not there.
abbrev pub value : Option String → Value
value none = nil
value (some s) = str s

abbrev pub found : Option String → Result Err String
found none = err (sentinel redis_nil)
found (some s) = ok s

-- An action that gives `r`, or fails for a reason of the network or the server.
abbrev pub Answers : {A : Type 0} → Result Err A → Result Err A → Type 0
Answers got r = (got ≡ r) ⊎ ((e : Err) × (got ≡ err e) × (is e redis_nil ≡ false))

-- The field after a write of `fields`, where it held `old`.
abbrev pub overlay : Option String → Option String → Option String
overlay none old = old
overlay (some new) old = some new

abbrev pub written : List (String × String) → String → Option String → Option String
written fields field old = overlay (lookup field fields) old

-- What Redis and its driver document, in terms of the fields that a key holds at a moment. `hash`
-- is that view; `float_text` is the driver's text of a float.
pub record RedisLaws {W : Type 0} (c : RedisClient W) : Type 0 where
  pub hash : W → String → String → Option String
  pub float_text : ℕ → String
  pub hget_answers :
      (key field : String) (w : W) → Answers (c.hget key field w).0 (found (hash w key field))
  pub hget_keeps :
      (key field : String) (w : W) (k f : String) → hash (c.hget key field w).1 k f ≡ hash w k f
  pub hmget_answers :
      (key : String) (fields : List String) (w : W)
      → Answers (c.hmget key fields w).0 (ok (map (λ f. value (hash w key f)) fields))
  pub hmget_keeps :
      (key : String) (fields : List String) (w : W) (k f : String)
      → hash (c.hmget key fields w).1 k f ≡ hash w k f
  -- A successful HSETEX has set its fields.
  pub hsetex_sets :
      (key : String) (ttl : ℕ) (fields : List (String × String)) (w : W)
      → (c.hsetex key ttl fields w).0 ≡ ok tt
      → (f : String) → hash (c.hsetex key ttl fields w).1 key f ≡ written fields f (hash w key f)
  -- Whether or not it succeeds, it writes no other key.
  pub hsetex_other :
      (key : String) (ttl : ℕ) (fields : List (String × String)) (w : W) (k f : String)
      → key ≢ k
      → hash (c.hsetex key ttl fields w).1 k f ≡ hash w k f
  pub del_removes :
      (key : String) (w : W)
      → (c.del key w).0 ≡ ok tt
      → (f : String) → hash (c.del key w).1 key f ≡ none
  pub del_other :
      (key : String) (w : W) (k f : String) → key ≢ k → hash (c.del key w).1 k f ≡ hash w k f
  -- EXPIRE with a time to live that is not positive deletes the key.
  pub hset_expire_sets :
      (key : String) (fields : List (String × Arg)) (ttl : ℕ) (w : W)
      → second ≤ ttl
      → ttl < two63
      → (c.hset_expire key fields ttl w).0 ≡ ok tt
      → (f : String)
      → hash (c.hset_expire key fields ttl w).1 key f
        ≡ written (map_values (render float_text) fields) f (hash w key f)
  pub hset_expire_other :
      (key : String) (fields : List (String × Arg)) (ttl : ℕ) (w : W) (k f : String)
      → key ≢ k
      → hash (c.hset_expire key fields ttl w).1 k f ≡ hash w k f
