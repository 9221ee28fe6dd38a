-- ===== src/Service/Session.antt =====
-- internal/service/session.go
use ndbx.Prelude.{ℕ, String, if◌then◌else◌}
use ndbx.Errors.{Err, sentinel, wrap, is, redis_nil, not_found}
use ndbx.Exec.{Exec, pure, always, map_err, wrapping, ◌>>=◌, ◌>>◌}
use ndbx.GoTime.{Host, now_utc, seconds}
use ndbx.Cryptic.{must_sid}
use ndbx.Redis.Session.{SessionValue}
use ndbx.Service.{CreateSessionResp, CreateOrExtendSessionReq, CreateOrExtendSessionResp}
use ndbx.Service.Ports.{SessionStorage}

module _ {W : Type 0} (host : Host W) (storage : SessionStorage W) (session_ttl_seconds : ℕ) where
  unfoldable pub get_session : String → Exec Err W SessionValue
  get_session sid =
      map_err (λ e. if is e redis_nil then sentinel not_found else wrap "get session" e)
        (storage.get sid)

  unfoldable pub create_session : String → Exec Err W CreateSessionResp
  create_session user_id = do
    sid ← always (must_sid host)
    now ← always (now_utc host)
    wrapping "create session" (
        storage.set (record {
          sid = sid;
          value = record { created_at = now; updated_at = now; user_id = user_id };
          ttl = seconds session_ttl_seconds;
        }))
    pure (record { sid = sid; ttl = seconds session_ttl_seconds })

  unfoldable pub create_or_extend_session :
      CreateOrExtendSessionReq → Exec Err W CreateOrExtendSessionResp
  create_or_extend_session req = do
    new_sid ← always (must_sid host)
    now ← always (now_utc host)
    res ← wrapping "create or extend session" (
        storage.set_or_update (record {
          sid = req.sid;
          new_sid = new_sid;
          new_value = record { created_at = now; updated_at = now; user_id = req.user_id };
          ttl = seconds session_ttl_seconds;
        }))
    pure (record { sid = res.sid; ttl = seconds session_ttl_seconds; is_created = res.is_created })

  unfoldable pub delete_session : String → Exec Err W (Unit {0})
  delete_session sid = wrapping "delete session" (storage.delete sid)
