-- ===== src/App/Race.antt =====
-- A Delete between the two commands of SetOrUpdate, in internal/storage/redis/session.go: SetOrUpdate
-- holds the mutex of the storage, but Delete does not take it.
use ndbx.Prelude.{String, ◌≡◌, refl, ◌∙◌, none, some, if◌then◌else◌}
use ndbx.Errors.{Err, wrap, plain, redis_nil, is}
use ndbx.Exec.{Result, ok, Exec, settle, fail}
use ndbx.GoTime.{Time, Rfc3339}
use ndbx.Redis.{RedisClient, RedisLaws, Answers}
use ndbx.Redis.Session.{
  SetOrUpdateReq, SetOrUpdateResp, created_at_field, session_key, get, set_new, set_existing,
  set_or_update, delete,
}
use ndbx.Redis.Session.RoundTrip.{SessionInYears, stored, get_of_Holds}
use ndbx.Redis.Session.Update.{extended, set_existing-Holds}

module _ (clock : Rfc3339) {W : Type 0} (client : RedisClient W) where
  -- SetOrUpdate after its HGET, with the reply.
  abbrev pub resume : SetOrUpdateReq → Result Err String → Exec Err W SetOrUpdateResp
  resume req reply =
      settle reply (λ e. if is e redis_nil then set_new clock client req else fail (wrap "hget" e))
        λ raw. elim (clock.parse raw) [
          | none ↦ fail (wrap "parse \"created_at\" field" (plain raw))
          | some created_at ↦ set_existing clock client created_at req
        ]

  abbrev pub looks : SetOrUpdateReq → Exec Err W String
  looks req = client.hget (session_key req.sid) created_at_field

  set_or_update-resume :
      (req : SetOrUpdateReq) (w : W)
      → set_or_update clock client req w ≡ resume req (looks req w).0 (looks req w).1
  unfolding set_or_update
  set_or_update-resume req w = refl

  module _ (laws : RedisLaws client) where
    resume-existing :
        (req : SetOrUpdateReq) (raw : String) (t : Time) (w : W)
        → clock.parse raw ≡ some t
        → resume req (ok raw) w ≡ set_existing clock client t req w
    resume-existing req raw t w read = rw read refl

    -- SetOrUpdate is its HGET and what follows. When its HGET finds a session that was created at a
    -- time, a Delete of that session succeeds before what follows, and that succeeds too, then the
    -- session is there again, with the user of the request: Get returns it, or fails with an error
    -- that is not redis.Nil. Years have four digits.
    pub resume-undoes_delete :
        (req : SetOrUpdateReq) (raw : String) (t : Time) (w : W) (r : SetOrUpdateResp)
        → SessionInYears (extended t req)
        → (looks req w).0 ≡ ok raw
        → clock.parse raw ≡ some t
        → (delete clock client req.sid (looks req w).1).0 ≡ ok tt
        → (resume req (ok raw) (delete clock client req.sid (looks req w).1).1).0 ≡ ok r
        → (set_or_update clock client req w ≡ resume req (ok raw) (looks req w).1)
          × Answers
              (get clock client req.sid
                (resume req (ok raw) (delete clock client req.sid (looks req w).1).1).1).0
              (ok (stored (extended t req)))
    resume-undoes_delete req raw t w r years found read deleted done =
        let w' = (delete clock client req.sid (looks req w).1).1 in
        let step = resume-existing req raw t w' read in
        let held = (set_existing-Holds clock client laws t req w' r (rw step at done)).1 in
        (
          set_or_update-resume req w ∙ rw found refl,
          rw step (get_of_Holds clock client laws req.sid (extended t req) _ held years),
        )
