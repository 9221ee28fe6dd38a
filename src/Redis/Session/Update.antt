-- ===== src/Redis/Session/Update.antt =====
-- What SetOrUpdate of internal/storage/redis/session.go does to a session that is there, to one that
-- is not, and to the others.
use mathlib.Core.Path.{subst}
use ndbx.Prelude.{
  String, ◌≡◌, ◌≢◌, inl, inr, true, false, none, some, arith, Option-cases, ap, sym, ◌∙◌,
}
use ndbx.Errors.{Err, is}
use ndbx.Exec.{Result, ok, >>=-ok, Result-cases}
use ndbx.GoTime.{Time, Rfc3339}
use ndbx.Redis.{RedisClient, RedisLaws, Answers}
use ndbx.Redis.Session.RoundTrip.{
  SessionInYears, stored, Holds, set_value-Holds, set_value-other, get_of_Holds,
}
use ndbx.Redis.Session.{
  SessionValue, SetReq, SetOrUpdateReq, SetOrUpdateResp, created_at_field, session_key, set_value,
  get, set_new, set_existing, set_or_update,
}

-- The session that SetOrUpdate leaves under a sid that it finds: it keeps its creation time, and
-- takes the new update time and user.
abbrev pub extended : Time → SetOrUpdateReq → SessionValue
extended created_at req = record {
  created_at = created_at;
  updated_at = req.new_value.updated_at;
  user_id = req.new_value.user_id;
}

module _ (clock : Rfc3339) {W : Type 0} (client : RedisClient W) (laws : RedisLaws client) where
  pub set_new-Holds :
      (req : SetOrUpdateReq) (w : W) (r : SetOrUpdateResp)
      → (set_new clock client req w).0 ≡ ok r
      → (r ≡ record { sid = req.new_sid; is_created = true })
        × Holds clock client laws (set_new clock client req w).1 req.new_sid req.new_value
  unfolding set_new
  set_new-Holds req w r done =
      let new : SetReq = record { sid = req.new_sid; value = req.new_value; ttl = req.ttl } in
      let (_, did, e) = >>=-ok (set_value clock client new) _ w r done in
      let world = ap (λ (p : Result Err SetOrUpdateResp × W). p.1) e in
      (
        ground arith,
        subst (λ v. Holds clock client laws v req.new_sid req.new_value) (sym world)
            (set_value-Holds clock client laws new w did),
      )

  pub set_existing-Holds :
      (created_at : Time) (req : SetOrUpdateReq) (w : W) (r : SetOrUpdateResp)
      → (set_existing clock client created_at req w).0 ≡ ok r
      → (r ≡ record { sid = req.sid; is_created = false })
        × Holds clock client laws
            (set_existing clock client created_at req w).1
            req.sid
            (extended created_at req)
  unfolding set_existing
  set_existing-Holds created_at req w r done =
      let old : SetReq = record { sid = req.sid; value = extended created_at req; ttl = req.ttl } in
      let (_, did, e) = >>=-ok (set_value clock client old) _ w r done in
      let world = ap (λ (p : Result Err SetOrUpdateResp × W). p.1) e in
      (
        ground arith,
        subst (λ v. Holds clock client laws v req.sid (extended created_at req)) (sym world)
            (set_value-Holds clock client laws old w did),
      )

  module _ (req : SetOrUpdateReq) (w : W) (r : SetOrUpdateResp)
      (done : (set_or_update clock client req w).0 ≡ ok r) where
    absent-set_new :
        laws.hash w (session_key req.sid) created_at_field ≡ none
        → set_or_update clock client req w
          ≡ set_new clock client req (client.hget (session_key req.sid) created_at_field w).1
    unfolding set_or_update is
    absent-set_new gone = ground (arith, laws.hget_answers (session_key req.sid) created_at_field w)

    present-set_existing :
        (raw : String) (t : Time)
        → laws.hash w (session_key req.sid) created_at_field ≡ some raw
        → clock.parse raw ≡ some t
        → set_or_update clock client req w
          ≡ set_existing clock client t req (client.hget (session_key req.sid) created_at_field w).1
    unfolding set_or_update is
    present-set_existing raw t there read =
        ground (arith, laws.hget_answers (session_key req.sid) created_at_field w)

  set_new-other :
      (req : SetOrUpdateReq) (w : W) (sid field : String)
      → req.new_sid ≢ sid
      → laws.hash (set_new clock client req w).1 (session_key sid) field
        ≡ laws.hash w (session_key sid) field
  unfolding set_new
  set_new-other req w sid field ne =
      let new : SetReq = record { sid = req.new_sid; value = req.new_value; ttl = req.ttl } in
      ground (arith, set_value-other clock client laws new w sid field ne)

  set_existing-other :
      (t : Time) (req : SetOrUpdateReq) (w : W) (sid field : String)
      → req.sid ≢ sid
      → laws.hash (set_existing clock client t req w).1 (session_key sid) field
        ≡ laws.hash w (session_key sid) field
  unfolding set_existing
  set_existing-other t req w sid field ne =
      let old : SetReq = record { sid = req.sid; value = extended t req; ttl = req.ttl } in
      ground (arith, set_value-other clock client laws old w sid field ne)

  -- When SetOrUpdate succeeds for a sid whose key has no creation time, it answers with the new sid,
  -- as created; Get then finds the new session there, its times cut to the second, or fails with an
  -- error that is not redis.Nil; and the key of the old sid, if it is another, still has no creation
  -- time. Years have four digits.
  pub set_or_update-absent :
      (req : SetOrUpdateReq) (w : W) (r : SetOrUpdateResp)
      → SessionInYears req.new_value
      → laws.hash w (session_key req.sid) created_at_field ≡ none
      → (set_or_update clock client req w).0 ≡ ok r
      → (r ≡ record { sid = req.new_sid; is_created = true })
        × Answers
            (get clock client req.new_sid (set_or_update clock client req w).1).0
            (ok (stored req.new_value))
        × (req.sid ≢ req.new_sid
            → laws.hash (set_or_update clock client req w).1 (session_key req.sid) created_at_field
              ≡ none)
  set_or_update-absent req w r years gone done =
      let step = absent-set_new req w r done gone in
      let w' = (client.hget (session_key req.sid) created_at_field w).1 in
      let (same, held) = set_new-Holds req w' r (rw step at done) in
      rw step (
        same,
        get_of_Holds clock client laws req.new_sid req.new_value _ held years,
        λ ne.
            set_new-other req w' req.sid created_at_field (λ e. ne (sym e))
            ∙ laws.hget_keeps _ _ w _ _
            ∙ gone,
      )

  -- When SetOrUpdate succeeds for a sid whose session was created at a time, it answers with that
  -- sid, as not created; Get then finds the creation time kept, and the update time and the user of
  -- the request, or fails with an error that is not redis.Nil. Years have four digits.
  pub set_or_update-present :
      (req : SetOrUpdateReq) (w : W) (r : SetOrUpdateResp) (raw : String) (t : Time)
      → SessionInYears (extended t req)
      → laws.hash w (session_key req.sid) created_at_field ≡ some raw
      → clock.parse raw ≡ some t
      → (set_or_update clock client req w).0 ≡ ok r
      → (r ≡ record { sid = req.sid; is_created = false })
        × Answers
            (get clock client req.sid (set_or_update clock client req w).1).0
            (ok (stored (extended t req)))
  set_or_update-present req w r raw t years there read done =
      let step = present-set_existing req w r done raw t there read in
      let w' = (client.hget (session_key req.sid) created_at_field w).1 in
      let (same, held) = set_existing-Holds t req w' r (rw step at done) in
      rw step (same, get_of_Holds clock client laws req.sid (extended t req) _ held years)

  -- Whatever SetOrUpdate's outcome, it changes no field of a session with another sid than the two
  -- of the request.
  pub set_or_update-other :
      (req : SetOrUpdateReq) (w : W) (sid field : String)
      → req.sid ≢ sid
      → req.new_sid ≢ sid
      → laws.hash (set_or_update clock client req w).1 (session_key sid) field
        ≡ laws.hash w (session_key sid) field
  unfolding set_or_update
  set_or_update-other req w sid field a b =
      let w' = (client.hget (session_key req.sid) created_at_field w).1 in
      let kept = laws.hget_keeps (session_key req.sid) created_at_field w (session_key sid) field in
      elim (Result-cases (client.hget (session_key req.sid) created_at_field w).0) [
        | inr (e, failed) ↦ ground (arith, kept, set_new-other req w' sid field b)
        | inl (raw, got) ↦ elim (Option-cases (clock.parse raw)) [
          | inl unread ↦ ground (arith, kept)
          | inr (t, read) ↦ ground (arith, kept, set_existing-other t req w' sid field a)
        ]
      ]
