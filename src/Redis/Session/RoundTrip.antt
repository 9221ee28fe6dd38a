-- ===== src/Redis/Session/RoundTrip.antt =====
-- What is read of a session after it was written or deleted, in internal/storage/redis/session.go.
use mathlib.Core.Path.{subst}
use text.Mathlib.TextLemmas.{append_cancel_left}
use ndbx.Prelude.{
  false, ◌⊎◌, ◌<◌, String, ◌≡◌, refl, ◌≢◌, inl, inr, none, some, List, [], ◌∷◌, arith, lookup,
}
use ndbx.Errors.{Err, sentinel, wrap, redis_nil, is}
use ndbx.Exec.{Result, ok, err, map_err-world, map_err-ok}
use ndbx.GoTime.{Time, Rfc3339, utc, year_10000, whole_second}
use ndbx.Redis.{RedisClient, RedisLaws, Answers, Value, nil, str, value}
use ndbx.Redis.Session.{
  SessionValue, SetReq, created_at_field, updated_at_field, user_id_field, session_key,
  session_fields, read_session, set_value, set, get, delete,
}

-- A time whose year has four digits.
abbrev pub InYears : Time → Type 0
InYears t = t.nanos < year_10000

abbrev pub SessionInYears : SessionValue → Type 0
SessionInYears v = InYears v.created_at × InYears v.updated_at

-- What the store keeps of a session: its times to the second, in UTC.
abbrev pub stored : SessionValue → SessionValue
stored v = record {
  created_at = whole_second v.created_at;
  updated_at = whole_second v.updated_at;
  user_id = v.user_id;
}

pub session_key_injective : (a b : String) → session_key a ≡ session_key b → a ≡ b
unfolding session_key
session_key_injective a b e = append_cancel_left "sid:" a b e

module _ (clock : Rfc3339) {W : Type 0} (client : RedisClient W) (laws : RedisLaws client) where
  -- The three fields of the key stand for `v`.
  pub record Holds (w : W) (sid : String) (v : SessionValue) : Type 0 where
    pub created :
        laws.hash w (session_key sid) created_at_field ≡ some (clock.format (utc v.created_at))
    pub updated :
        laws.hash w (session_key sid) updated_at_field ≡ some (clock.format (utc v.updated_at))
    pub user : laws.hash w (session_key sid) user_id_field ≡ some v.user_id

  pub set_value-Holds :
      (req : SetReq) (w : W)
      → (set_value clock client req w).0 ≡ ok tt
      → Holds (set_value clock client req w).1 req.sid req.value
  unfolding set_value lookup
  set_value-Holds req w h =
      let done =
        map_err-ok (wrap "hsetex") (client.hsetex _ _ (session_fields clock req.value)) w tt h in
      let sets = laws.hsetex_sets (session_key req.sid) _ (session_fields clock req.value) w done in
      record {
        created = rw map_err-world (sets created_at_field);
        updated = rw map_err-world (sets updated_at_field);
        user = rw map_err-world (sets user_id_field);
      }

  pub set_value-other :
      (req : SetReq) (w : W) (sid field : String)
      → req.sid ≢ sid
      → laws.hash (set_value clock client req w).1 (session_key sid) field
        ≡ laws.hash w (session_key sid) field
  unfolding set_value
  set_value-other req w sid field ne = rw map_err-world (
      laws.hsetex_other (session_key req.sid) _ (session_fields clock req.value) w (session_key sid)
        field (λ e. ne (session_key_injective req.sid sid e)))

  -- The reply of HMGET for a key that holds a session, as Get reads it.
  pub read_stored :
      (v : SessionValue)
      → SessionInYears v
      → read_session clock (
          str (clock.format (utc v.created_at))
          ∷ str (clock.format (utc v.updated_at))
          ∷ str v.user_id
          ∷ [])
        ≡ ok (stored v)
  unfolding read_session
  read_stored v (c, u) = ground (
    arith,
    clock.parse-format (utc v.created_at) refl c,
    clock.parse-format (utc v.updated_at) refl u,
  )

  -- A key with none of the fields reads as a missing session.
  read_missing : read_session clock (nil ∷ nil ∷ nil ∷ []) ≡ err (sentinel redis_nil)
  unfolding read_session
  read_missing = refl

  abbrev replies : W → String → List Value
  replies w sid =
      value (laws.hash w (session_key sid) created_at_field)
      ∷ value (laws.hash w (session_key sid) updated_at_field)
      ∷ value (laws.hash w (session_key sid) user_id_field)
      ∷ []

  pub get-Answers :
      (sid : String) (w : W)
      → Answers (get clock client sid w).0 (read_session clock (replies w sid))
  unfolding get is
  get-Answers sid w =
      let asked =
        laws.hmget_answers (session_key sid)
          (created_at_field ∷ updated_at_field ∷ user_id_field ∷ []) w in
      elim asked [
        | inl got ↦ inl (ground arith)
        | inr (e, failed, other) ↦ inr (wrap "hmget" e, ground arith, other)
      ]

  pub get_of_Holds :
      (sid : String) (v : SessionValue) (w : W)
      → Holds w sid v
      → SessionInYears v
      → Answers (get clock client sid w).0 (ok (stored v))
  get_of_Holds sid v w h years =
      subst (Answers (get clock client sid w).0)
        (rw (h.created, h.updated, h.user) (read_stored v years)) (get-Answers sid w)

  -- Get makes `r` of the reply of its HMGET, and fails only where the HMGET fails, which is not with
  -- redis.Nil.
  abbrev pub Reads : String → W → Result Err SessionValue → Type 0
  Reads sid w r =
      let reply =
        (client.hmget (session_key sid) (created_at_field ∷ updated_at_field ∷ user_id_field ∷ [])
          w).0 in
      ((reply ≡ ok (replies w sid)) × ((get clock client sid w).0 ≡ r))
      ⊎ ((e : Err) × (reply ≡ err e)
          × (is e redis_nil ≡ false)
          × ((get clock client sid w).0 ≡ err (wrap "hmget" e)))

  get-Reads : (sid : String) (w : W) → Reads sid w (read_session clock (replies w sid))
  unfolding get
  get-Reads sid w =
      let asked =
        laws.hmget_answers (session_key sid)
          (created_at_field ∷ updated_at_field ∷ user_id_field ∷ []) w in
      elim asked [
        | inl got ↦ inl (got, ground arith)
        | inr (e, failed, other) ↦ inr (e, failed, other, ground arith)
      ]

  -- After a successful Set, Get of the same sid returns the session, its times cut to the second,
  -- when its HMGET is answered, and otherwise fails with the error of the HMGET, which is not
  -- redis.Nil. The times have years of four digits.
  pub get-set :
      (req : SetReq) (w : W)
      → SessionInYears req.value
      → (set clock client req w).0 ≡ ok tt
      → Reads req.sid (set clock client req w).1 (ok (stored req.value))
  unfolding set
  get-set req w years done =
      let h = set_value-Holds req w done in
      let w' = (set_value clock client req w).1 in
      subst (Reads req.sid w') (rw (h.created, h.updated, h.user) (read_stored req.value years))
        (get-Reads req.sid w')

  pub set-Answers :
      (req : SetReq) (w : W)
      → SessionInYears req.value
      → (set clock client req w).0 ≡ ok tt
      → Answers (get clock client req.sid (set clock client req w).1).0 (ok (stored req.value))
  unfolding set
  set-Answers req w years done = get_of_Holds req.sid req.value _ (set_value-Holds req w done) years

  deleted :
      (sid field : String) (w : W)
      → (delete clock client sid w).0 ≡ ok tt
      → laws.hash (delete clock client sid w).1 (session_key sid) field ≡ none
  unfolding delete
  deleted sid field w done = rw map_err-world (
      laws.del_removes (session_key sid) w
        (map_err-ok (wrap "delete session") (client.del _) w tt done) field)

  -- After a successful Delete, Get of the same sid fails with redis.Nil, as for a session that is not
  -- there, or with an error of another kind.
  pub get-delete :
      (sid : String) (w : W)
      → (delete clock client sid w).0 ≡ ok tt
      → Answers (get clock client sid (delete clock client sid w).1).0 (err (sentinel redis_nil))
  get-delete sid w done =
      subst (Answers (get clock client sid (delete clock client sid w).1).0)
        (rw
          (
            deleted sid created_at_field w done,
            deleted sid updated_at_field w done,
            deleted sid user_id_field w done,
          )
          read_missing)
        (get-Answers sid (delete clock client sid w).1)
