-- ===== src/Redis/Session.antt =====
-- internal/storage/redis/session.go and internal/storage/redis/dto/session.go. The mutex makes
-- SetOrUpdate one step among the requests of this process; here actions run one after the other.
pub mod RoundTrip
pub mod Update
use ndbx.Prelude.{
  ℕ, String, text_append, Bool, true, false, Option, none, some, List, [], ◌∷◌, if◌then◌else◌,
}
use ndbx.Errors.{Err, sentinel, plain, wrap, redis_nil, is}
use ndbx.Exec.{Result, ok, err, Exec, pure, fail, lift, attempt, wrapping, ◌>>=◌, ◌>>◌}
use ndbx.GoTime.{Time, Rfc3339, utc, to_seconds}
use ndbx.Redis.{RedisClient, Value, nil, str, other}

abbrev pub created_at_field : String
created_at_field = "created_at"

abbrev pub updated_at_field : String
updated_at_field = "updated_at"

abbrev pub user_id_field : String
user_id_field = "user_id"

pub record SessionValue : Type 0 where
  pub created_at : Time
  pub updated_at : Time
  pub user_id : String

pub record SetReq : Type 0 where
  pub sid : String
  pub value : SessionValue
  pub ttl : ℕ

pub record SetOrUpdateReq : Type 0 where
  pub sid : String
  pub new_sid : String
  pub new_value : SessionValue
  pub ttl : ℕ

pub record SetOrUpdateResp : Type 0 where
  pub sid : String
  pub is_created : Bool

unfoldable pub session_key : String → String
session_key sid = text_append "sid:" sid

module _ (clock : Rfc3339) where
  -- parseTime with the layout RFC 3339
  unfoldable pub parse_time : Value → String → Result Err Time
  parse_time (str s) field = elim (clock.parse s) [
    | none ↦ err (wrap (text_append "parse field: " field) (plain s))
    | some t ↦ ok t
  ]
  parse_time _ field = err (plain (text_append "invalid field type: " field))

  -- The user id is optional, but must be a text.
  unfoldable pub user_id_of : Value → Result Err String
  user_id_of nil = ok ""
  user_id_of (str s) = ok s
  user_id_of other = err (plain "invalid \"user_id\" field type: expected: string")

  -- What Get makes of the reply of HMGET.
  unfoldable pub read_session : List Value → Result Err SessionValue
  unfolding parse_time user_id_of
  read_session (nil ∷ _ ∷ _ ∷ []) = err (sentinel redis_nil)
  read_session (_ ∷ nil ∷ _ ∷ []) = err (sentinel redis_nil)
  read_session (c ∷ u ∷ i ∷ []) = elim (parse_time c created_at_field) [
    | err e ↦ err e
    | ok created ↦ elim (parse_time u updated_at_field) [
      | err e ↦ err e
      | ok updated ↦ elim (user_id_of i) [
        | err e ↦ err e
        | ok id ↦ ok (record { created_at = created; updated_at = updated; user_id = id })
      ]
    ]
  ]
  read_session _ = err (sentinel redis_nil)

  -- The fields that setValue writes.
  abbrev pub session_fields : SessionValue → List (String × String)
  session_fields v =
      (created_at_field, clock.format (utc v.created_at))
      ∷ (updated_at_field, clock.format (utc v.updated_at))
      ∷ (user_id_field, v.user_id)
      ∷ []

  module _ {W : Type 0} (client : RedisClient W) where
    unfoldable pub set_value : SetReq → Exec Err W (Unit {0})
    unfolding session_key
    set_value req =
        wrapping "hsetex"
          (client.hsetex (session_key req.sid) (to_seconds req.ttl) (session_fields req.value))

    unfoldable pub set : SetReq → Exec Err W (Unit {0})
    unfolding set_value
    set req = set_value req

    unfoldable pub get : String → Exec Err W SessionValue
    unfolding session_key read_session
    get sid = do
      res ← wrapping "hmget" (
          client.hmget (session_key sid) (created_at_field ∷ updated_at_field ∷ user_id_field ∷ []))
      lift (read_session res)

    -- The branch of SetOrUpdate for a session that is not there.
    unfoldable pub set_new : SetOrUpdateReq → Exec Err W SetOrUpdateResp
    set_new req = do
      set_value (record { sid = req.new_sid; value = req.new_value; ttl = req.ttl })
      pure (record { sid = req.new_sid; is_created = true })

    -- Its branch for a session that was created at a time.
    unfoldable pub set_existing : Time → SetOrUpdateReq → Exec Err W SetOrUpdateResp
    set_existing created_at req = do
      set_value (record {
        sid = req.sid;
        value = record {
          created_at = created_at;
          updated_at = req.new_value.updated_at;
          user_id = req.new_value.user_id;
        };
        ttl = req.ttl;
      })
      pure (record { sid = req.sid; is_created = false })

    unfoldable pub set_or_update : SetOrUpdateReq → Exec Err W SetOrUpdateResp
    set_or_update req =
        attempt (client.hget (session_key req.sid) created_at_field)
          (λ e. if is e redis_nil then set_new req else fail (wrap "hget" e))
          λ raw. elim (clock.parse raw) [
            | none ↦ fail (wrap "parse \"created_at\" field" (plain raw))
            | some created_at ↦ set_existing created_at req
          ]

    unfoldable pub delete : String → Exec Err W (Unit {0})
    unfolding session_key
    delete sid = wrapping "delete session" (client.del (session_key sid))
