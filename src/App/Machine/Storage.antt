-- ===== src/App/Machine/Storage.antt =====
-- What the operations of internal/storage/redis/session.go keep of the sessions in Redis: each key
-- is without a session, or holds one that can be read, of a user that it may have.
use mathlib.Core.Path.{subst}
use ndbx.Prelude.{
  ℕ, String, ◌≡◌, ◌≢◌, refl, ◌⊎◌, inl, inr, Bool-cases, ◌==◌, eq_iff, none, some, List, arith,
  lookup, ◌≤◌, ◌*◌, ◌/◌,
}
use ndbx.Errors.{redis_nil, is}
use ndbx.Exec.{ok, map_err-world}
use ndbx.Exec.Keeps.{Keeps, Anything, pure-Keeps, fail-Keeps, if-Keeps, bind-Keeps, attempt-Keeps}
use ndbx.GoTime.{Time, Rfc3339, utc, whole_second, second}
use ndbx.Redis.{RedisClient, RedisLaws, written}
use ndbx.Redis.Session.{
  SessionValue, SetReq, SetOrUpdateReq, created_at_field, updated_at_field, user_id_field,
  session_key, session_fields, set_value, set_new, set_existing, set_or_update, delete,
}
use ndbx.Redis.Session.RoundTrip.{
  InYears, SessionInYears, Holds, set_value-other, session_key_injective,
}

-- A command that fails has done its work or nothing: Redis runs a command as a whole.
pub record WholeCommands {W : Type 0} (client : RedisClient W) (laws : RedisLaws client)
    : Type 0 where
  pub hsetex_whole :
      (key : String) (ttl : ℕ) (fields : List (String × String)) (w : W)
      → ((f : String) → laws.hash (client.hsetex key ttl fields w).1 key f ≡ laws.hash w key f)
        ⊎ ((f : String)
            → laws.hash (client.hsetex key ttl fields w).1 key f
              ≡ written fields f (laws.hash w key f))
  pub del_whole :
      (key : String) (w : W)
      → ((f : String) → laws.hash (client.del key w).1 key f ≡ laws.hash w key f)
        ⊎ ((f : String) → laws.hash (client.del key w).1 key f ≡ none)

pub whole_second-InYears : (t : Time) → InYears t → InYears (whole_second t)
whole_second-InYears t h = omega (arith, floor)
  where
    floor : t.nanos / second * second ≤ t.nanos
    floor = omega arith

module _ (clock : Rfc3339) {W : Type 0} (client : RedisClient W) (laws : RedisLaws client)
    (Fair : String → Type 0) where
  pub data Seat (w : W) (sid : String) : Type 0 where
    vacant : laws.hash w (session_key sid) created_at_field ≡ none → Seat w sid
    taken :
        (v : SessionValue)
        → SessionInYears v
        → Fair v.user_id
        → Holds clock client laws w sid v
        → Seat w sid

  -- Every key of a session is vacant or taken by a session that Get can read.
  abbrev pub Sound : W → Type 0
  Sound w = (sid : String) → Seat w sid

  pub same-Seat :
      (w w' : W) (sid : String)
      → ((f : String) → laws.hash w' (session_key sid) f ≡ laws.hash w (session_key sid) f)
      → Seat w sid
      → Seat w' sid
  same-Seat w w' sid same (vacant gone) = vacant (rw same gone)
  same-Seat w w' sid same (taken v years fair h) =
      taken v years fair
        (record { created = rw same h.created; updated = rw same h.updated; user = rw same h.user })

  module _ (whole : WholeCommands client laws) where
    set_value-seat :
        (req : SetReq) (w : W)
        → SessionInYears req.value
        → Fair req.value.user_id
        → Seat w req.sid
        → Seat (set_value clock client req w).1 req.sid
    unfolding set_value lookup
    set_value-seat req w years fair before =
        elim (whole.hsetex_whole (session_key req.sid) _ (session_fields clock req.value) w) [
          | inl same ↦ same-Seat w _ req.sid (λ f. rw map_err-world (same f)) before
          | inr sets ↦ taken req.value years fair (record {
            created = rw map_err-world (sets created_at_field);
            updated = rw map_err-world (sets updated_at_field);
            user = rw map_err-world (sets user_id_field);
          })
        ]

    set_value-other_seat :
        (req : SetReq) (w : W) (sid : String)
        → req.sid ≢ sid
        → Seat w sid
        → Seat (set_value clock client req w).1 sid
    set_value-other_seat req w sid ne =
        same-Seat w _ sid (λ f. set_value-other clock client laws req w sid f ne)

    pub set_value-Keeps :
        (req : SetReq)
        → SessionInYears req.value
        → Fair req.value.user_id
        → Keeps Sound (set_value clock client req) (Anything Sound)
    set_value-Keeps req years fair w sound = (
      λ sid. elim (Bool-cases (req.sid == sid)) [
        | inl same ↦
            subst (Seat (set_value clock client req w).1) ((eq_iff req.sid sid).0 same)
              (set_value-seat req w years fair (sound req.sid))
        | inr other ↦
            set_value-other_seat req w sid (λ e. cc (other, (eq_iff req.sid sid).1 e)) (sound sid)
      ],
      λ a e. tt,
    )

    pub delete-Keeps : (sid : String) → Keeps Sound (delete clock client sid) (Anything Sound)
    unfolding delete
    delete-Keeps sid w sound = (
      λ at. elim (Bool-cases (sid == at)) [
        | inl same ↦ elim (whole.del_whole (session_key sid) w) [
          | inl kept ↦
              subst (Seat (delete clock client sid w).1) ((eq_iff sid at).0 same)
                (same-Seat w _ sid (λ f. rw map_err-world (kept f)) (sound sid))
          | inr gone ↦
              subst (Seat (delete clock client sid w).1) ((eq_iff sid at).0 same)
                (vacant (rw map_err-world (gone created_at_field)))
        ]
        | inr other ↦
            same-Seat w _ at
              (λ f. rw map_err-world (
                laws.del_other (session_key sid) w (session_key at) f
                  (λ e. cc (other, (eq_iff sid at).1 (session_key_injective sid at e)))))
              (sound at)
      ],
      λ a e. tt,
    )

  hget-Seat :
      (sid raw : String) (w : W)
      → Seat w sid
      → (client.hget (session_key sid) created_at_field w).0 ≡ ok raw
      → (t : Time) × (clock.parse raw ≡ some t) × InYears t
  hget-Seat sid raw w (vacant gone) got =
      elim (laws.hget_answers (session_key sid) created_at_field w) [
        | inl a ↦ ground arith
        | inr (e, failed, other) ↦ ground arith
      ]
  hget-Seat sid raw w (taken v years fair h) got =
      (whole_second v.created_at, parsed, whole_second-InYears v.created_at years.0)
    where
      parsed : clock.parse raw ≡ some (whole_second v.created_at)
      parsed = elim (laws.hget_answers (session_key sid) created_at_field w) [
        | inl a ↦ ground (arith, clock.parse-format (utc v.created_at) refl years.0, h.created)
        | inr (e, failed, other) ↦ ground arith
      ]

  -- What HGET tells SetOrUpdate of the creation time.
  abbrev IsTime : String → Type 0
  IsTime raw = (t : Time) × (clock.parse raw ≡ some t) × InYears t

  hget-Keeps : (sid : String) → Keeps Sound (client.hget (session_key sid) created_at_field) IsTime
  hget-Keeps sid w sound = (
    λ at. same-Seat w _ at (λ f. laws.hget_keeps _ _ w _ f) (sound at),
    λ raw. hget-Seat sid raw w (sound sid),
  )

  module _ (whole : WholeCommands client laws) (req : SetOrUpdateReq)
      (years : SessionInYears req.new_value) (fair : Fair req.new_value.user_id) where
    set_new-Keeps : Keeps Sound (set_new clock client req) (Anything Sound)
    unfolding set_new
    set_new-Keeps =
        bind-Keeps Sound (Anything Sound) (Anything Sound) _ _ (set_value-Keeps whole _ years fair)
          (λ _ _. pure-Keeps Sound (Anything Sound) _ tt)

    set_existing-Keeps :
        (t : Time) → InYears t → Keeps Sound (set_existing clock client t req) (Anything Sound)
    unfolding set_existing
    set_existing-Keeps t year =
        bind-Keeps Sound (Anything Sound) (Anything Sound) _ _
          (set_value-Keeps whole _ (year, years.1) fair)
          (λ _ _. pure-Keeps Sound (Anything Sound) _ tt)

    pub set_or_update-Keeps : Keeps Sound (set_or_update clock client req) (Anything Sound)
    unfolding set_or_update
    set_or_update-Keeps =
        attempt-Keeps Sound IsTime (Anything Sound) _ _ _ (hget-Keeps req.sid)
          (λ e.
            if-Keeps Sound (Anything Sound) (is e redis_nil) _ _ (λ t. set_new-Keeps)
              (λ t. fail-Keeps Sound (Anything Sound) _))
          λ raw (t, parsed, year). rw parsed (set_existing-Keeps t year)

module _ (clock : Rfc3339) {W : Type 0} (client : RedisClient W) (laws : RedisLaws client)
    (Fair More : String → Type 0) (more : (u : String) → Fair u → More u) where
  pub weaken : (w : W) → Sound clock client laws Fair w → Sound clock client laws More w
  weaken w sound sid = elim (sound sid) [
    | vacant gone ↦ vacant gone
    | taken v years fair h ↦ taken v years (more v.user_id fair) h
  ]
