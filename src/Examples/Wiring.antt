-- ===== src/Examples/Wiring.antt =====
-- Logins, visits and reactions over a Redis in memory.
use ndbx.Prelude.{ℕ, String, ◌≡◌, ◌≢◌, ◌==◌, eq_iff, refl, false, true, arith, some, inl}
use ndbx.Exec.{ok}
use ndbx.GoTime.{seconds}
use ndbx.Cryptic.{must_sid}
use ndbx.Redis.{Answers}
use ndbx.Redis.Reaction.{SetReactionsReq, set}
use ndbx.Redis.Reaction.RoundTrip.{Reads, reactions_get-set}
use ndbx.Redis.Session.{session_fields, SessionValue, session_key, created_at_field}
use ndbx.Redis.Session.RoundTrip.{InYears, stored}
use ndbx.Redis.Session.Update.{extended}
use ndbx.Service.{
  CreateSessionResp, CreateOrExtendSessionReq, CreateOrExtendSessionResp, ReactEventReq,
}
use ndbx.Service.Session.{get_session, create_session, create_or_extend_session}
use ndbx.Router.{Opt, login_no_content, session_ok}
use ndbx.Router.Cookie.{extract_sid, form_set_cookie}
use ndbx.Router.Sessions.{LoginRequest, api_login, api_session}
use ndbx.App.{session_storage, session_service}
use ndbx.App.Login.{Finds, LogsIn, api_login-get_session}
use ndbx.App.Extension.{
  IsLive, drawn, update_req, create_or_extend_session-get_session, api_session-drops_user,
}
use ndbx.Examples.Doubles.{
  sample_clock, sample_redis, sample_laws, sample_host, no_hashes, noon, Hashes, write,
  seconds_text,
}
use ndbx.Examples.Servers.{sample_accounts}

abbrev counts : SetReactionsReq
counts = record {
  title_hash = "h";
  reactions = record { likes = 4; dislikes = 2 };
  ttl = seconds 60;
}

reactions_get-set_example :
    Reads sample_redis sample_laws "h" (set sample_redis counts no_hashes).1 (ok counts.reactions)
unfolding set
reactions_get-set_example =
    reactions_get-set sample_redis sample_laws counts no_hashes
      (record { likes_lt = omega arith; dislikes_lt = omega arith }) (omega arith) (omega arith)
      refl

in_years : (w : Hashes) → InYears noon
in_years w = omega arith

abbrev made : CreateSessionResp
made = record { sid = (must_sid {W = Hashes} sample_host no_hashes).0; ttl = seconds 60 }

abbrev login : LoginRequest
login = record { username = "anna"; password = "secret" }

abbrev no_cookie : Opt String
no_cookie = record { value = ""; set = false }

abbrev login_cookie : String
login_cookie = form_set_cookie (must_sid {W = Hashes} sample_host no_hashes).0 60

login_done :
    (api_login
      (session_service sample_clock sample_redis sample_host 60)
      sample_accounts
      60
      login
      no_cookie
      no_hashes).0
    ≡ login_no_content login_cookie
unfolding api_login ndbx.HttpServer.not_empty ndbx.Router.Sessions.login_session extract_sid
    ndbx.GoStrings.split ndbx.GoStrings.has_prefix ndbx.GoStrings.trim_space create_session
    ndbx.Redis.Session.set
login_done = refl

no_sid : extract_sid no_cookie.value ≡ ""
unfolding extract_sid ndbx.GoStrings.split ndbx.GoStrings.has_prefix ndbx.GoStrings.trim_space
no_sid = refl

api_login-get_session_example :
    LogsIn sample_clock sample_redis sample_laws sample_host 60 in_years sample_accounts login
      no_cookie no_hashes login_cookie
api_login-get_session_example =
    api_login-get_session sample_clock sample_redis sample_laws sample_host 60 in_years
      sample_accounts login no_cookie no_hashes login_cookie no_sid login_done

-- A Redis with Anna's session under "ab12".
abbrev live : Hashes
live =
    write (session_key "ab12")
      (session_fields sample_clock
        (record { created_at = noon; updated_at = noon; user_id = "anna" }))
      no_hashes

abbrev again : CreateOrExtendSessionReq
again = record { sid = "ab12"; user_id = "anna" }

abbrev kept : CreateOrExtendSessionResp
kept = record { sid = "ab12"; ttl = seconds 60; is_created = false }

abbrev cookie : Opt String
cookie = record { value = "X-Session-Id=ab12"; set = true }

cookie_sid : extract_sid cookie.value ≡ "ab12"
unfolding extract_sid ndbx.GoStrings.split ndbx.GoStrings.has_prefix ndbx.GoStrings.trim_space
    ndbx.GoStrings.after_first
cookie_sid = refl

host_keeps :
    (w : Hashes) (k f : String)
    → drawn sample_clock sample_redis sample_laws sample_host 60 w k f ≡ w k f
unfolding must_sid
host_keeps w k f = refl

sent : extract_sid cookie.value ≢ ""
sent none_sent = cc (differ, (eq_iff "ab12" "").1 (rw cookie_sid at none_sent))
  where
    differ : ("ab12" == "") ≡ false
    differ = refl

live_ab12 : IsLive sample_clock sample_redis sample_laws sample_host 60 "ab12" noon live
unfolding write session_key ndbx.Prelude.lookup ndbx.Examples.Doubles.read_seconds seconds_text
    ndbx.Strconv.decimal
live_ab12 = (seconds_text noon, refl, refl)

create_or_extend_session-get_session_example :
    (kept ≡ record { sid = "ab12"; ttl = seconds 60; is_created = false })
    × Finds
        (get_session sample_host
          (session_storage sample_clock sample_redis)
          60
          "ab12"
          (create_or_extend_session sample_host
            (session_storage sample_clock sample_redis)
            60
            again
            live).1).0
        (stored (
          extended noon
            (update_req sample_clock sample_redis sample_laws sample_host 60 again live)))
unfolding create_or_extend_session must_sid ndbx.Redis.Session.set_or_update write session_key
    ndbx.Prelude.lookup ndbx.Examples.Doubles.read_seconds seconds_text ndbx.Strconv.decimal
    ndbx.Redis.Session.set_existing ndbx.Redis.Session.set_value
create_or_extend_session-get_session_example =
    create_or_extend_session-get_session sample_clock sample_redis sample_laws sample_host 60
      in_years host_keeps again noon live kept (omega arith) live_ab12 refl

visit_done :
    (api_session
      (session_service sample_clock sample_redis sample_host 60)
      sample_accounts
      60
      cookie
      live).0
    ≡ session_ok (form_set_cookie "ab12" 60)
unfolding api_session extract_sid ndbx.GoStrings.split ndbx.GoStrings.has_prefix
    ndbx.GoStrings.trim_space ndbx.GoStrings.after_first create_or_extend_session
    ndbx.Redis.Session.set_or_update must_sid write session_key ndbx.Prelude.lookup
    ndbx.Examples.Doubles.read_seconds seconds_text ndbx.Strconv.decimal
    ndbx.Redis.Session.set_existing ndbx.Redis.Session.set_value
visit_done = refl

api_session-drops_user_example :
    Finds
      (get_session sample_host
        (session_storage sample_clock sample_redis)
        60
        (extract_sid cookie.value)
        (api_session
          (session_service sample_clock sample_redis sample_host 60)
          sample_accounts
          60
          cookie
          live).1).0
      (stored (record { created_at = noon; updated_at = noon; user_id = "" }))
api_session-drops_user_example =
    api_session-drops_user sample_clock sample_redis sample_laws sample_host 60 in_years host_keeps
      sample_accounts cookie noon live (form_set_cookie "ab12" 60) sent (omega arith)
      (rw cookie_sid live_ab12) visit_done

abbrev like : ReactEventReq
like = record { id = "e1"; user_id = "anna" }
