-- ===== src/Examples/Machines.antt =====
-- A run of the program over a Redis in memory: Anna logs in, and her session lapses.
use ndbx.App.Services.Sessions.{Starts, Runs-TellsGranted}
use ndbx.App.Services.Leaving.{wired-Aside}
use ndbx.App.Services.Storages.{Elsewhere}
use ndbx.App.Services.{Drivers, wired}
use ndbx.Service.Account.{Bcrypt}
use ndbx.Graph.{GraphDriver}
use ndbx.Prelude.{String, ◌≡◌, refl, true, false, inl, inr, none, some, In, [], ◌∷◌, arith}
use ndbx.Exec.{ok}
use ndbx.Cryptic.{must_sid}
use ndbx.Redis.{Answers}
use ndbx.Redis.Session.{
  SessionValue, SetOrUpdateReq, session_key, session_fields, set_or_update, delete, get,
}
use ndbx.Redis.Session.RoundTrip.{stored}
use ndbx.Redis.Session.Update.{extended}
use ndbx.Service.Session.{get_session}
use ndbx.Router.{Opt}
use ndbx.Router.Sessions.{LoginRequest}
use ndbx.Router.Calls.{login, session, handle}
use ndbx.App.{session_storage}
use ndbx.App.Machine.{Surroundings, State, program, served, Reach, here, next}
use ndbx.App.Machine.Storage.{WholeCommands}
use ndbx.App.Machine.Sessions.{HostLaws}
use ndbx.App.Machine.Reachable.{TellsGranted}
use ndbx.App.Machine.Liveness.{IsUp}
use ndbx.App.Race.{resume, resume-undoes_delete}
use ndbx.Examples.Doubles.{
  sample_clock, sample_redis, sample_laws, sample_host, no_hashes, noon, Hashes, write, write-same,
  erase-same, seconds_text,
}
use ndbx.Examples.Servers.{whole_floats, sample_mongo, sample_cassandra}

abbrev whole : WholeCommands sample_redis sample_laws
whole = record {
  hsetex_whole = λ key ttl fields m. inr (λ f. write-same key fields m f);
  del_whole = λ key m. inr (λ f. erase-same key m f);
}

abbrev quiet : HostLaws sample_host sample_redis sample_laws
quiet = record {
  now_keeps = λ w k f. refl;
  rand_keeps = λ n w k f. refl;
  in_years = λ w. omega arith;
}

abbrev sample_neo4j : GraphDriver Hashes
sample_neo4j = record {
  merge_user = λ u w. (ok tt, w);
  merge_event = λ e t w. (ok tt, w);
  merge_like = λ u e t w. (ok tt, w);
  match_recommendations = λ u w. (ok [], w);
}

-- Passwords are their own hashes, and every password fits.
abbrev sample_bcrypt : Bcrypt Hashes
sample_bcrypt = record {
  generate_from_password = λ s w. (ok s, w);
  compare_hash_and_password = λ hash s. none;
}

abbrev pub sample_drivers : Drivers Hashes
sample_drivers = record {
  clock = sample_clock;
  parse_date = λ s. none;
  floats = whole_floats;
  title_md5 = λ t. t;
  json = record { marshal = λ es. ok ""; unmarshal = λ s. ok [] };
  host = sample_host;
  bcrypt = sample_bcrypt;
  redis = sample_redis;
  mongo = sample_mongo;
  cassandra = sample_cassandra;
  neo4j = sample_neo4j;
  session_ttl = 60;
  reviews_ttl = 60;
  like_ttl = 60;
  recommendations_ttl = 60;
}

abbrev pub sample_around : Surroundings Hashes
sample_around = wired sample_drivers

abbrev elsewhere : Elsewhere sample_drivers sample_laws
elsewhere = record {
  now = λ w k f. refl;
  generate = λ s w k f. refl;
  hgetall = λ k w k' f. refl;
  insert_one = λ c doc w k f. refl;
  find_one = λ c q w k f. refl;
  find = λ c q o w k f. refl;
  update_one = λ c q u w k f. refl;
  insert_reaction = λ e u n t w k f. refl;
  select_like_values = λ e w k f. refl;
  select_review_id = λ e u w k f. refl;
  insert_review = λ r w k f. refl;
  select_reviews = λ e w k f. refl;
  select_review = λ e u w k f. refl;
  select_ratings = λ e w k f. refl;
  new_uuid = λ w k f. refl;
  merge_user = λ u w k f. refl;
  merge_event = λ e t w k f. refl;
  merge_like = λ u e t w k f. refl;
  match_recommendations = λ u w k f. refl;
}

abbrev up : IsUp sample_redis sample_laws
up = record {
  hget_found = λ key f w. refl;
  hmget_found = λ key fs w. refl;
  hsetex_done = λ key ttl fields w lives. refl;
}

abbrev pub anna : LoginRequest
anna = record { username = "anna"; password = "secret" }

abbrev pub no_cookie : Opt String
no_cookie = record { value = ""; set = false }

-- Nobody is there.
abbrev start : State Hashes
start = record { world = no_hashes; granted = [] }

-- A visitor came, and then Anna.
abbrev visited : State Hashes
visited = record {
  world = (handle (program sample_clock sample_redis sample_around) session no_cookie no_hashes).1;
  granted = [];
}

abbrev entered : State Hashes
entered = record {
  world =
      (handle (program sample_clock sample_redis sample_around) (login anna) no_cookie
        visited.world).1;
  granted = "u1" ∷ [];
}

a_visit : Reach sample_clock sample_redis sample_around sample_laws start visited
a_visit = next here (served start session no_cookie)

two_requests : Reach sample_clock sample_redis sample_around sample_laws start entered
unfolding ndbx.Service.Account.authenticate ndbx.Mongo.UserStorage.get_by_username
    ndbx.Mongo.UserStorage.read_credentials ndbx.Mongo.Id.stringify_id ndbx.Mongo.get
two_requests = next a_visit (served visited (login anna) no_cookie)

fresh : Starts sample_drivers sample_laws whole quiet elsewhere no_hashes
fresh sid = refl

Runs-TellsGranted_example :
    TellsGranted sample_clock sample_redis sample_around sample_laws whole quiet
      (wired-Aside sample_drivers sample_laws elsewhere)
      ("u1" ∷ [])
      (get_session sample_host
        (session_storage sample_clock sample_redis)
        60
        (must_sid {W = Hashes} sample_host no_hashes).0
        entered.world).0
Runs-TellsGranted_example =
    Runs-TellsGranted sample_drivers sample_laws whole quiet elsewhere {start = start} {n = entered}
      (must_sid {W = Hashes} sample_host no_hashes).0 fresh two_requests

-- A Redis with Anna's session under "ab12".
abbrev live : Hashes
live =
    write (session_key "ab12")
      (session_fields sample_clock
        (record { created_at = noon; updated_at = noon; user_id = "u1" }))
      no_hashes

abbrev extend : SetOrUpdateReq
extend = record {
  sid = "ab12";
  new_sid = "cd34";
  new_value = record { created_at = noon; updated_at = noon; user_id = "u1" };
  ttl = 60;
}

resume-undoes_delete_example :
    (set_or_update sample_clock sample_redis extend live
      ≡ resume sample_clock sample_redis extend (ok (seconds_text noon)) live)
    × Answers
        (get sample_clock sample_redis "ab12"
          (resume sample_clock sample_redis extend
            (ok (seconds_text noon))
            (delete sample_clock sample_redis "ab12" live).1).1).0
        (ok (stored (extended noon extend)))
unfolding write session_key ndbx.Prelude.lookup ndbx.Examples.Doubles.read_seconds seconds_text
    ndbx.Strconv.decimal delete ndbx.Redis.Session.set_existing ndbx.Redis.Session.set_value
resume-undoes_delete_example =
    resume-undoes_delete sample_clock sample_redis sample_laws extend (seconds_text noon) noon live
      (record { sid = "ab12"; is_created = false }) (omega arith, omega arith) refl refl refl refl
