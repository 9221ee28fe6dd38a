-- ===== src/Examples/Users.antt =====
-- A registration with a name that is taken, a login, and a logout.
use ndbx.Prelude.{String, ◌≡◌, ◌≢◌, refl, ◌==◌, eq_iff, true, false, none, some, if◌then◌else◌}
use ndbx.Errors.{Err, sentinel, duplicate_key, invalid_credentials, plain}
use ndbx.Exec.{ok, err}
use ndbx.Mongo.{MongoClient}
use ndbx.Service.{AuthenticateReq}
use ndbx.Service.Ports.{UserStorage}
use ndbx.Service.Account.{Bcrypt, authenticate}
use ndbx.Service.Account.Credentials.{HasPassword, Refused, authenticate-HasPassword}
use ndbx.Service.Session.{get_session}
use ndbx.Router.{Opt, error, logout_no_content}
use ndbx.Router.Cookie.{extract_sid, form_set_cookie}
use ndbx.Router.Sessions.{UserRegisterRequest, api_register, api_logout}
use ndbx.App.{session_storage, session_service}
use ndbx.App.Registering.{user_storage, user_service, api_register-conflict}
use ndbx.App.Logout.{Misses, api_logout-get_session}
use ndbx.Examples.Doubles.{sample_clock, sample_redis, sample_laws, sample_host, no_hashes, Hashes}
use ndbx.Examples.Servers.{sample_mongo, sample_graph, sample_accounts}

-- A hash that is the password itself.
abbrev open_hash : Bcrypt Hashes
open_hash = record {
  generate_from_password = λ p w. (ok p, w);
  compare_hash_and_password = λ hash p. if hash == p then none else some (plain "mismatch");
}

-- A database that has every user name.
abbrev full_mongo : MongoClient Hashes
full_mongo = record sample_mongo { insert_one = λ c d w. (err duplicate_key, w) }

abbrev anna_again : UserRegisterRequest
anna_again = record { full_name = "Anna"; username = "anna"; password = "secret" }

abbrev no_cookie : Opt String
no_cookie = record { value = ""; set = false }

apart : (s t : String) → (s == t) ≡ false → s ≢ t
apart s t other same = cc (other, (eq_iff s t).1 same)

api_register-conflict_example :
    api_register
      (session_service sample_clock sample_redis sample_host 60)
      (user_service full_mongo open_hash sample_graph)
      60
      anna_again
      no_cookie
      no_hashes
    ≡ (
      error 409 (form_set_cookie (extract_sid no_cookie.value) 60) "user already exists",
      no_hashes,
    )
unfolding ndbx.Errors.is_duplicate_key
api_register-conflict_example =
    api_register-conflict full_mongo open_hash sample_graph
      (session_service sample_clock sample_redis sample_host 60) 60 anna_again no_cookie no_hashes
      "secret" duplicate_key (apart "Anna" "" refl) (apart "anna" "" refl) (apart "secret" "" refl)
      refl refl refl

-- The one user, whose password is "secret".
abbrev one_user : UserStorage Hashes
one_user = record (user_storage full_mongo open_hash sample_graph) {
  get_by_username = λ name w. (
    ok (record { id = "u1"; full_name = "Anna"; username = "anna"; password_hash = "secret" }),
    w,
  );
}

abbrev wrong : AuthenticateReq
wrong = record { username = "anna"; password = "guess" }

authenticate-HasPassword_example :
    ((id : String)
      → (authenticate open_hash one_user sample_graph wrong no_hashes).0 ≡ ok id
      → HasPassword open_hash one_user sample_graph wrong no_hashes id)
    × (Refused open_hash one_user sample_graph wrong no_hashes
        → authenticate open_hash one_user sample_graph wrong no_hashes
          ≡ (err (sentinel invalid_credentials), no_hashes))
authenticate-HasPassword_example =
    authenticate-HasPassword open_hash one_user sample_graph wrong no_hashes

abbrev cookie_ab12 : Opt String
cookie_ab12 = record { value = "X-Session-Id=ab12"; set = true }

abbrev dropped : String
dropped = form_set_cookie (extract_sid cookie_ab12.value) 0

logged_out :
    (api_logout
      (session_service sample_clock sample_redis sample_host 60)
      sample_accounts
      60
      cookie_ab12
      no_hashes).0
    ≡ logout_no_content dropped
unfolding api_logout extract_sid ndbx.GoStrings.split ndbx.GoStrings.has_prefix
    ndbx.GoStrings.trim_space ndbx.GoStrings.after_first ndbx.Service.Session.delete_session
    ndbx.Redis.Session.delete
logged_out = refl

api_logout-get_session_example :
    (extract_sid cookie_ab12.value ≢ "")
    × (dropped ≡ form_set_cookie (extract_sid cookie_ab12.value) 0)
    × Misses
        (get_session sample_host
          (session_storage sample_clock sample_redis)
          60
          (extract_sid cookie_ab12.value)
          (api_logout
            (session_service sample_clock sample_redis sample_host 60)
            sample_accounts
            60
            cookie_ab12
            no_hashes).1).0
api_logout-get_session_example =
    api_logout-get_session sample_clock sample_redis sample_laws sample_host 60 sample_accounts
      cookie_ab12 no_hashes dropped logged_out
