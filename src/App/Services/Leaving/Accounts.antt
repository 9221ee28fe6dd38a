-- ===== src/App/Services/Leaving/Accounts.antt =====
-- The operations of internal/service/user.go leave the keys of sessions in Redis alone.
use ndbx.Prelude.{String, Option, Option-cases, inl, inr}
use ndbx.Exec.Stays.{Stays, wrapped_keeps, logged_keeps}
use ndbx.Redis.{RedisLaws}
use ndbx.Service
use ndbx.Service.{EventData}
use ndbx.App.Services.{Drivers, user_storage, graph_storage, user_service}
use ndbx.App.Services.Storages.{
  Elsewhere, I, create_user-Stays, get_by_username-Stays, get_users-Stays, get_by_id-Stays,
  graph_create_user-Stays, hash_password-Stays,
}

module _ {W : Type 0} (d : Drivers W) (laws : RedisLaws d.redis) (e : Elsewhere d laws)
    (sid field : String) (v : Option String) where
  abbrev P : W → Type 0
  P = I d laws e sid field v

  pub register-leaves : (req : Service.RegisterReq) → Stays P ((user_service d).register req)
  unfolding Service.Account.register
  register-leaves req w i =
      wrapped_keeps P (d.bcrypt.generate_from_password req.password) w _ _
        (hash_password-Stays d laws e sid field v _ w i)
        λ hashed w i.
          wrapped_keeps P
            ((user_storage d).create
              (record { full_name = req.full_name; username = req.username; password = hashed }))
            w _ _ (create_user-Stays d laws e sid field v _ w i)
            λ user w i.
              logged_keeps P ((graph_storage d).create_user user.id) w _
                (graph_create_user-Stays d laws e sid field v user.id w i) (λ w i. i)

  pub authenticate-leaves :
      (req : Service.AuthenticateReq) → Stays P ((user_service d).authenticate req)
  unfolding Service.Account.authenticate
  authenticate-leaves req w i =
      wrapped_keeps P ((user_storage d).get_by_username req.username) w _ _
        (get_by_username-Stays d laws e sid field v _ w i)
        λ user w i.
          elim (Option-cases (d.bcrypt.compare_hash_and_password user.password_hash req.password)) [
            | inl same ↦ rw same i
            | inr (x, other) ↦ rw other i
          ]

  pub get_users-leaves : (req : Service.GetUsersReq) → Stays P ((user_service d).get_users req)
  unfolding Service.Account.get_users
  get_users-leaves req w i =
      wrapped_keeps P
        ((user_storage d).get_users
          (record { id = req.id; name = req.name; limit = req.limit; offset = req.offset }))
        w _ _ (get_users-Stays d laws e sid field v _ w i) (λ a w i. i)

  pub get_user-leaves : (id : String) → Stays P ((user_service d).get_user id)
  unfolding Service.Account.get_user
  get_user-leaves id w i =
      wrapped_keeps P ((user_storage d).get_by_id id) w _ _
        (get_by_id-Stays d laws e sid field v _ w i) (λ a w i. i)
