-- ===== src/App/Machine/Reading.antt =====
-- What Get of internal/storage/redis/session.go tells of a key of a session, and what it keeps.
use mathlib.Core.Path.{subst}
use ndbx.Prelude.{String, ◌≡◌, refl, ◌⊎◌, inl, inr, List, [], ◌∷◌, map, false, ap, sym, ◌∙◌, arith}
use ndbx.Errors.{Err, sentinel, redis_nil, is, wrap}
use ndbx.Exec.{Result, ok, err, Result-cases}
use ndbx.Exec.Keeps.{Keeps}
use ndbx.GoTime.{Rfc3339}
use ndbx.Redis.{RedisClient, RedisLaws, Value, nil, value}
use ndbx.Redis.Session.{
  SessionValue, created_at_field, updated_at_field, user_id_field, session_key, get, read_session,
}
use ndbx.Redis.Session.RoundTrip.{SessionInYears, Holds, stored, read_stored}
use ndbx.App.Machine.Storage.{Seat, vacant, taken, Sound, same-Seat}

abbrev fields : List String
fields = created_at_field ∷ updated_at_field ∷ user_id_field ∷ []

module _ (clock : Rfc3339) {W : Type 0} (client : RedisClient W) (laws : RedisLaws client)
    (sid : String) (w : W) where
  -- What Get says of a seat: its session, redis.Nil, or a failure of HMGET. It never fails to read.
  abbrev pub Tells : (String → Type 0) → Result Err SessionValue → Type 0
  Tells Fair got =
      ((v : SessionValue) × (got ≡ ok v) × Fair v.user_id)
      ⊎ (got ≡ err (sentinel redis_nil))
      ⊎ ((e : Err) × (got ≡ err (wrap "hmget" e)) × (is e redis_nil ≡ false))

  read_vacant : (u i : Value) → read_session clock (nil ∷ u ∷ i ∷ []) ≡ err (sentinel redis_nil)
  unfolding read_session
  read_vacant u i = refl

  abbrev replies : List Value
  replies = map (λ f. value (laws.hash w (session_key sid) f)) fields

  get-read :
      (client.hmget (session_key sid) fields w).0 ≡ ok replies
      → (get clock client sid w).0 ≡ read_session clock replies
  unfolding get
  get-read asked = ground arith

  get-fails :
      (e : Err)
      → (client.hmget (session_key sid) fields w).0 ≡ err e
      → (get clock client sid w).0 ≡ err (wrap "hmget" e)
  unfolding get
  get-fails e failed = ground arith

  pub get-stored :
      (client.hmget (session_key sid) fields w).0 ≡ ok replies
      → (v : SessionValue) → SessionInYears v
      → Holds clock client laws w sid v
      → (get clock client sid w).0 ≡ ok (stored v)
  get-stored asked v years h =
      get-read asked ∙ rw (h.created, h.updated, h.user) (read_stored clock client laws v years)

  pub get-Tells :
      (Fair : String → Type 0)
      → Seat clock client laws Fair w sid
      → Tells Fair (get clock client sid w).0
  get-Tells Fair seat = elim (laws.hmget_answers (session_key sid) fields w) [
    | inr (e, failed, other) ↦ inr (inr (e, get-fails e failed, other))
    | inl asked ↦ elim seat [
      | vacant gone ↦ inr (inl (get-read asked ∙ rw gone (read_vacant _ _)))
      | taken v years fair h ↦ inl (stored v, get-stored asked v years h, fair)
    ]
  ]

module _ (clock : Rfc3339) {W : Type 0} (client : RedisClient W) (laws : RedisLaws client)
    (Fair : String → Type 0) where
  get-hash :
      (sid : String) (w : W) (at f : String)
      → laws.hash (get clock client sid w).1 (session_key at) f ≡ laws.hash w (session_key at) f
  unfolding get
  get-hash sid w at f = ground (
    arith,
    laws.hmget_keeps (session_key sid) fields w (session_key at) f,
    Result-cases (client.hmget (session_key sid) fields w).0,
  )

  same_value : {u v : SessionValue} → ◌≡◌ {A = Result Err SessionValue} (ok u) (ok v) → u ≡ v
  same_value e = ground arith

  pub get-Keeps :
      (sid : String)
      → Keeps (Sound clock client laws Fair) (get clock client sid) (λ v. Fair v.user_id)
  get-Keeps sid w sound = (
    λ at. same-Seat clock client laws Fair w _ at (λ f. get-hash sid w at f) (sound at),
    λ v got. elim (get-Tells clock client laws sid w Fair (sound sid)) [
      | inl (u, told, fair) ↦
          subst Fair (ap (λ (x : SessionValue). x.user_id) (same_value (sym told ∙ got))) fair
      | inr (inl gone) ↦ ground arith
      | inr (inr (e, failed, other)) ↦ ground arith
    ],
  )
