-- ===== src/App/Machine/Entries.antt =====
-- A login and a registration give a session no user but the one that the user service answered with.
use ndbx.Prelude.{ℕ, String, ◌==◌, ◌≡◌, inl, inr, Bool-cases, List, ◌∷◌, refl}
use ndbx.Exec.{Exec, pure, Result-cases, ◌>>=◌}
use ndbx.Exec.Keeps.{Keeps, Anything, pure-Keeps, if-Keeps, bind-Keeps, map_err-Keeps}
use ndbx.GoTime.{Rfc3339}
use ndbx.HttpServer.{not_empty}
use ndbx.Redis.{RedisClient, RedisLaws}
use ndbx.Redis.Session.{session_key}
use ndbx.Service.{AuthenticateReq, RegisterReq}
use ndbx.Router.{Opt, Response, login_no_content, register_created, SessionService, UserService}
use ndbx.Router.Cookie.{extract_sid}
use ndbx.Router.Sessions.{
  LoginRequest, UserRegisterRequest, login_session, session_for, api_login, api_register,
}
use ndbx.Router.Calls.{login, register, handle}
use ndbx.Router.Calls.Keeping.{KeepsSessions}
use ndbx.App.Machine.{Surroundings, program, admitted, Granted, Aside}
use ndbx.App.Machine.Storage.{WholeCommands, Sound, same-Seat, weaken}
use ndbx.App.Machine.Sessions.{HostLaws, session_service-keeps}

module _ {W : Type 0} (sessions : SessionService W) (accounts : UserService W) (ttl : ℕ)
    (I : W → Type 0) (Fair : String → Type 0) (k : KeepsSessions sessions I Fair) where
  login_session-Keeps :
      (sid user_id : String)
      → Fair user_id
      → Keeps I (login_session sessions accounts ttl sid user_id) (Anything I)
  unfolding login_session
  login_session-Keeps sid user_id fair =
      if-Keeps I (Anything I) (sid == "") _ _
        (λ t.
          bind-Keeps I (Anything I) (Anything I) _ _
            (map_err-Keeps I (Anything I) _ _ (k.create user_id fair))
            (λ _ _. pure-Keeps I (Anything I) _ tt))
        (λ t.
          bind-Keeps I (Anything I) (Anything I) _ _
            (map_err-Keeps I (Anything I) _ _ (k.extend sid user_id fair))
            (λ _ _. pure-Keeps I (Anything I) _ tt))

  session_for-Keeps :
      (sid user_id : String)
      → Fair user_id
      → Keeps I (session_for sessions accounts ttl sid user_id) (Anything I)
  unfolding session_for
  session_for-Keeps sid user_id fair =
      if-Keeps I (Anything I) (sid == "") _ _
        (λ t.
          bind-Keeps I (Anything I) (Anything I) _ _
            (map_err-Keeps I (Anything I) _ _ (k.create user_id fair))
            (λ _ _. pure-Keeps I (Anything I) _ tt))
        (λ t. pure-Keeps I (Anything I) _ tt)

module _ (clock : Rfc3339) {W : Type 0} (client : RedisClient W) (around : Surroundings W)
    (laws : RedisLaws client) (whole : WholeCommands client laws)
    (quiet : HostLaws around.host client laws) (aside : Aside clock client around laws) where
  abbrev pub SoundFor : List String → W → Type 0
  SoundFor users = Sound clock client laws (Granted clock client around laws users)

  pub Leaves-SoundFor :
      (users : List String) (w w' : W)
      → ((sid f : String) → laws.hash w' (session_key sid) f ≡ laws.hash w (session_key sid) f)
      → SoundFor users w
      → SoundFor users w'
  Leaves-SoundFor users w w' same sound sid =
      same-Seat clock client laws (Granted clock client around laws users) w w' sid (same sid)
        (sound sid)

  pub keeps :
      (users : List String)
      → KeepsSessions
          (program clock client around).sessions
          (SoundFor users)
          (Granted clock client around laws users)
  keeps users =
      session_service-keeps clock client laws whole around.host quiet around.ttl
        (Granted clock client around laws users) (inl refl)

  -- The end of both handlers: a session for the user, and the answer with its cookie.
  entered :
      (users : List String) (user_id : String) (m : Exec Response W String)
      (done : String → Response) (w : W)
      → ((fair : Granted clock client around laws (user_id ∷ users) user_id)
          → Keeps (SoundFor (user_id ∷ users)) m (Anything (SoundFor (user_id ∷ users))))
      → SoundFor users w
      → SoundFor (user_id ∷ users) ((do set_cookie ← m; pure (done set_cookie)) w).1
  entered users user_id m done w step sound =
      let I = SoundFor (user_id ∷ users) in
      (bind-Keeps I (Anything I) (Anything I) _ _ (step (inr (inl refl)))
        (λ set_cookie _. pure-Keeps I (Anything I) (done set_cookie) tt) w
        (weaken clock client laws (Granted clock client around laws users)
          (Granted clock client around laws (user_id ∷ users))
          (λ u fair. elim fair [ inl e ↦ inl e | inr i ↦ inr (inr i) ]) w sound)).0

  pub login-SoundFor :
      (req : LoginRequest) (cookie : Opt String) (users : List String) (w : W)
      → SoundFor users w
      → SoundFor
          (admitted around.accounts (login req) w users)
          (handle (program clock client around) (login req) cookie w).1
  unfolding api_login not_empty
  login-SoundFor req cookie users w sound =
      let asked : AuthenticateReq = record { username = req.username; password = req.password } in
      let sid = extract_sid cookie.value in
      let asks = aside.authenticate asked w in
      elim (Bool-cases (req.username == "")) [
        | inl nameless ↦ rw nameless sound
        | inr named ↦ elim (Bool-cases (req.password == "")) [
          | inl open_door ↦ rw (named, open_door) sound
          | inr locked ↦ elim (Result-cases (around.accounts.authenticate asked w).0) [
            | inr (e, failed) ↦ rw (named, locked, failed) (Leaves-SoundFor users w _ asks sound)
            | inl (user_id, known) ↦
                rw (named, locked, known)
                  (entered users user_id _ login_no_content _
                    (login_session-Keeps _ around.accounts around.ttl (SoundFor (user_id ∷ users))
                      (Granted clock client around laws (user_id ∷ users)) (keeps (user_id ∷ users))
                      sid user_id)
                    (Leaves-SoundFor users w _ asks sound))
          ]
        ]
      ]

  pub register-SoundFor :
      (req : UserRegisterRequest) (cookie : Opt String) (users : List String) (w : W)
      → SoundFor users w
      → SoundFor
          (admitted around.accounts (register req) w users)
          (handle (program clock client around) (register req) cookie w).1
  unfolding api_register not_empty
  register-SoundFor req cookie users w sound =
      let asked : RegisterReq = record {
        full_name = req.full_name;
        username = req.username;
        password = req.password;
      } in
      let sid = extract_sid cookie.value in
      let asks = aside.register asked w in
      elim (Bool-cases (req.full_name == "")) [
        | inl nameless ↦ rw nameless sound
        | inr named ↦ elim (Bool-cases (req.username == "")) [
          | inl unnamed ↦ rw (named, unnamed) sound
          | inr called ↦ elim (Bool-cases (req.password == "")) [
            | inl open_door ↦ rw (named, called, open_door) sound
            | inr locked ↦ elim (Result-cases (around.accounts.register asked w).0) [
              | inr (e, failed) ↦
                  rw (named, called, locked, failed) (Leaves-SoundFor users w _ asks sound)
              | inl (user_id, made) ↦
                  rw (named, called, locked, made)
                    (entered users user_id _ register_created _
                      (session_for-Keeps _ around.accounts around.ttl (SoundFor (user_id ∷ users))
                        (Granted clock client around laws (user_id ∷ users))
                        (keeps (user_id ∷ users)) sid user_id)
                      (Leaves-SoundFor users w _ asks sound))
            ]
          ]
        ]
      ]
