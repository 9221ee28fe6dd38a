-- ===== src/App/Machine/Liveness.antt =====
-- A user who knows the password gets a session: APILogin of internal/router/handler.go down to Redis,
-- in a state that the program reaches.
use ndbx.Prelude.{
  ◌<◌, ℕ, String, true, false, ◌≡◌, ◌≢◌, refl, List, ◌==◌, eq_iff, inl, inr, Bool-cases, arith, map,
}
use ndbx.Errors.{Err, is}
use ndbx.Exec.{Result, ok}
use ndbx.GoTime.{seconds, to_seconds, Time, Rfc3339, Host, utc, whole_second}
use ndbx.Redis.{RedisClient, RedisLaws, found, value}
use ndbx.Redis.Session.{
  SessionValue, SetReq, SetOrUpdateReq, SetOrUpdateResp, created_at_field, session_key,
  session_fields, set_value, set_new, set_existing, set_or_update, set, get,
}
use ndbx.Redis.Session.RoundTrip.{SessionInYears, InYears, Holds, stored, set_value-Holds}
use ndbx.Redis.Session.Update.{extended, set_new-Holds, set_existing-Holds}
use ndbx.App.Machine.Storage.{Seat, vacant, taken, WholeCommands, whole_second-InYears}
use ndbx.App.Machine.Reading.{get-stored}
use ndbx.App.{session_storage}
use ndbx.App.Machine.Sessions.{HostLaws, drawn, drawn-Sound, fresh_session, new_req, update_req}
use ndbx.Service.Session.{get_session, create_session, create_or_extend_session}
use ndbx.Service.{CreateOrExtendSessionResp}
use ndbx.Cryptic.{must_sid}
use ndbx.Router.Cookie.{extract_sid, form_set_cookie}
use ndbx.Router.Sessions.{LoginRequest, login_session, api_login}
use ndbx.App.Machine.{Surroundings, State, program, Granted, Aside, Reach}
use ndbx.App.Machine.Entries.{SoundFor, Leaves-SoundFor}
use ndbx.App.Machine.Reachable.{IsFresh, reached}
use ndbx.Router.{Opt, Response, login_no_content}
use ndbx.Router.Calls.{login, handle}
use ndbx.HttpServer.{not_empty}
use ndbx.Service.{AuthenticateReq}

-- Redis answers: no command fails, and none has a time to live of 0, which Redis refuses.
pub record IsUp {W : Type 0} (client : RedisClient W) (laws : RedisLaws client) : Type 0 where
  pub hget_found : (key f : String) (w : W) → (client.hget key f w).0 ≡ found (laws.hash w key f)
  pub hmget_found :
      (key : String) (fs : List String) (w : W)
      → (client.hmget key fs w).0 ≡ ok (map (λ f. value (laws.hash w key f)) fs)
  pub hsetex_done :
      (key : String) (ttl : ℕ) (fields : List (String × String)) (w : W)
      → 0 < ttl
      → (client.hsetex key ttl fields w).0 ≡ ok tt

module _ (clock : Rfc3339) {W : Type 0} (client : RedisClient W) (laws : RedisLaws client)
    (up : IsUp client laws) where
  set_value-done :
      (req : SetReq) (w : W) → 0 < to_seconds req.ttl → (set_value clock client req w).0 ≡ ok tt
  unfolding set_value
  set_value-done req w lives = ground (
    arith,
    up.hsetex_done (session_key req.sid) (to_seconds req.ttl) (session_fields clock req.value) w
        lives,
  )

  -- The key of the sid holds a session of the user.
  abbrev HasSession : W → String → String → Type 0
  HasSession w sid user_id =
      (v : SessionValue) × SessionInYears v
      × (v.user_id ≡ user_id)
      × Holds clock client laws w sid v

  abbrev LeavesSession : Result Err SetOrUpdateResp × W → String → Type 0
  LeavesSession out user_id =
      (r : SetOrUpdateResp) × (out.0 ≡ ok r) × HasSession out.1 r.sid user_id

  set_new-ok :
      (req : SetOrUpdateReq) (w : W)
      → 0 < to_seconds req.ttl
      → (set_new clock client req w).0 ≡ ok (record { sid = req.new_sid; is_created = true })
  unfolding set_new
  set_new-ok req w lives = ground (
    arith,
    set_value-done (record { sid = req.new_sid; value = req.new_value; ttl = req.ttl }) w lives,
  )

  set_existing-ok :
      (t : Time) (req : SetOrUpdateReq) (w : W)
      → 0 < to_seconds req.ttl
      → (set_existing clock client t req w).0 ≡ ok (record { sid = req.sid; is_created = false })
  unfolding set_existing
  set_existing-ok t req w lives = ground (
    arith,
    set_value-done (record { sid = req.sid; value = extended t req; ttl = req.ttl }) w lives,
  )

  set_new-done :
      (req : SetOrUpdateReq) (w : W)
      → 0 < to_seconds req.ttl
      → SessionInYears req.new_value
      → LeavesSession (set_new clock client req w) req.new_value.user_id
  set_new-done req w lives years =
      let answers = set_new-ok req w lives in
      let held = (set_new-Holds clock client laws req w _ answers).1 in
      (_, answers, (req.new_value, years, refl, held))

  set_existing-done :
      (t : Time) (req : SetOrUpdateReq) (w : W)
      → 0 < to_seconds req.ttl
      → InYears t
      → SessionInYears req.new_value
      → LeavesSession (set_existing clock client t req w) req.new_value.user_id
  set_existing-done t req w lives year years =
      let answers = set_existing-ok t req w lives in
      let held = (set_existing-Holds clock client laws t req w _ answers).1 in
      (_, answers, (extended t req, (year, years.1), refl, held))

  set_or_update-done :
      (Fair : String → Type 0) (req : SetOrUpdateReq) (w : W)
      → 0 < to_seconds req.ttl
      → Seat clock client laws Fair w req.sid
      → SessionInYears req.new_value
      → LeavesSession (set_or_update clock client req w) req.new_value.user_id
  unfolding set_or_update is
  set_or_update-done Fair req w lives (vacant gone) years =
      rw (up.hget_found (session_key req.sid) created_at_field w, gone)
        (set_new-done req _ lives years)
  set_or_update-done Fair req w lives (taken v in_years fair h) years =
      rw
        (
          up.hget_found (session_key req.sid) created_at_field w,
          h.created,
          clock.parse-format (utc v.created_at) refl in_years.0,
        )
        (set_existing-done (whole_second v.created_at) req _ lives
          (whole_second-InYears v.created_at in_years.0) years)

  -- GetSession then gives it.
  get_session-done :
      (host : Host W) (ttl : ℕ) (sid user_id : String) (w : W)
      → HasSession w sid user_id
      → (v : SessionValue) × ((get_session host (session_storage clock client) ttl sid w).0 ≡ ok v)
        × (v.user_id ≡ user_id)
  unfolding get_session
  get_session-done host ttl sid user_id w (v, years, same, h) =
      (stored v, ground (arith, read), same)
    where
      read : (get clock client sid w).0 ≡ ok (stored v)
      read = get-stored clock client laws sid w (up.hmget_found _ _ w) v years h

  module _ (host : Host W) (quiet : HostLaws host client laws) (ttl : ℕ)
      (lives : 0 < to_seconds (seconds ttl)) where
    create_session-done :
        (user_id : String) (w : W)
        → ((create_session host (session_storage clock client) ttl user_id w).0
            ≡ ok (record { sid = (must_sid host w).0; ttl = seconds ttl }))
          × HasSession
              (create_session host (session_storage clock client) ttl user_id w).1
              (must_sid host w).0
              user_id
    unfolding create_session set
    create_session-done user_id w =
        let req = new_req host ttl user_id w in
        let done = set_value-done req (drawn host ttl w) lives in
        let year = quiet.in_years (must_sid host w).1 in
        let held = set_value-Holds clock client laws req (drawn host ttl w) done in
        (ground arith, (fresh_session host ttl user_id w, (year, year), refl, rw done held))

    abbrev extends : String → String → W → Result Err CreateOrExtendSessionResp × W
    extends sid user_id =
        create_or_extend_session host (session_storage clock client) ttl
          (record { sid = sid; user_id = user_id })

    create_or_extend_session-done :
        (Fair : String → Type 0) (sid user_id : String) (w : W)
        → Seat clock client laws Fair (drawn host ttl w) sid
        → (r : CreateOrExtendSessionResp) × ((extends sid user_id w).0 ≡ ok r)
          × HasSession (extends sid user_id w).1 r.sid user_id
    unfolding create_or_extend_session
    create_or_extend_session-done Fair sid user_id w seat =
        let year = quiet.in_years (must_sid host w).1 in
        let (r, done, has) =
          set_or_update-done Fair (update_req host ttl sid user_id w) (drawn host ttl w) lives seat
            (year, year) in
        (
          record { sid = r.sid; ttl = seconds ttl; is_created = r.is_created },
          ground (arith, done),
          rw done has,
        )

  module _ (around : Surroundings W) (quiet : HostLaws around.host client laws)
      (whole : WholeCommands client laws) (aside : Aside clock client around laws)
      (lives : 0 < to_seconds (seconds around.ttl)) where
    abbrev I : List String → W → Type 0
    I users = SoundFor clock client around laws whole quiet aside users

    -- After the check of the password, the handler makes or extends a session of the user.
    login_session-done :
        (users : List String) (sid user_id : String) (w : W)
        → I users w
        → (sid' : String) × ((login_session
              (program clock client around).sessions
              around.accounts
              around.ttl
              sid
              user_id
              w).0
            ≡ ok (form_set_cookie sid' around.ttl))
          × HasSession
              (login_session
                (program clock client around).sessions
                around.accounts
                around.ttl
                sid
                user_id
                w).1
              sid'
              user_id
    unfolding login_session
    login_session-done users sid user_id w sound = elim (Bool-cases (sid == "")) [
      | inl none_sent ↦
          let (done, has) = create_session-done around.host quiet around.ttl lives user_id w in
          ((must_sid around.host w).0, rw (none_sent, done) refl, rw (none_sent, done) has)
      | inr sent ↦
          let drawn_sound =
            drawn-Sound clock client laws whole around.host quiet around.ttl
              (Granted clock client around laws users) (inl refl) w sound in
          let (r, done, has) =
            create_or_extend_session-done around.host quiet around.ttl lives
              (Granted clock client around laws users) sid user_id w (drawn_sound sid) in
          (r.sid, rw (sent, done) refl, rw (sent, done) has)
    ]

    -- The answer of a login that gives a cookie whose sid GetSession finds with a session of the user.
    abbrev pub LogsUserIn : Response × W → String → Type 0
    LogsUserIn out user_id =
        (sid : String) × (v : SessionValue) × (out.0
          ≡ login_no_content (form_set_cookie sid around.ttl))
        × ((get_session around.host (session_storage clock client) around.ttl sid out.1).0 ≡ ok v)
        × (v.user_id ≡ user_id)

    login-LogsUserIn :
        (users : List String) (req : LoginRequest) (cookie : Opt String) (user_id : String) (w : W)
        → I users w
        → (req.username == "") ≡ false
        → (req.password == "") ≡ false
        → (around.accounts.authenticate
            (record { username = req.username; password = req.password })
            w).0
          ≡ ok user_id
        → LogsUserIn (handle (program clock client around) (login req) cookie w) user_id
    unfolding api_login not_empty
    login-LogsUserIn users req cookie user_id w sound named locked known =
        let asked : AuthenticateReq = record { username = req.username; password = req.password } in
        let (sid, done, has) = login_session-done users (extract_sid cookie.value) user_id _ (
          Leaves-SoundFor clock client around laws whole quiet aside users w _
            (aside.authenticate asked w) sound) in
        let (v, got, same) = get_session-done around.host around.ttl sid user_id _ has in
        (sid, v, rw (named, locked, known, done) refl, rw (named, locked, known, done) got, same)

    nonempty : (s : String) → s ≢ "" → (s == "") ≡ false
    nonempty s some_text = ground (arith, eq_iff s "")

    -- In every state that requests and lapses lead to from a Redis without sessions, while Redis
    -- answers, a login with credentials that Authenticate accepts, and a name and a password that are
    -- not empty, is answered with no content, whatever cookie comes with it; and GetSession finds the
    -- sid of the cookie that it sets, with a session of the user. Sessions live for a second at least.
    pub Reach-login :
        {start n : State W} (req : LoginRequest) (cookie : Opt String) (user_id : String)
        → IsFresh clock client around laws whole quiet aside start.world
        → Reach clock client around laws start n
        → req.username ≢ ""
        → req.password ≢ ""
        → (around.accounts.authenticate
            (record { username = req.username; password = req.password })
            n.world).0
          ≡ ok user_id
        → LogsUserIn (handle (program clock client around) (login req) cookie n.world) user_id
    Reach-login {n} req cookie user_id fresh run named locked =
        login-LogsUserIn n.granted req cookie user_id n.world
          (reached clock client around laws whole quiet aside fresh run)
          (nonempty req.username named) (nonempty req.password locked)
