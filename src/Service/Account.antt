-- ===== src/Service/Account.antt =====
-- internal/service/user.go, with golang.org/x/crypto/bcrypt as a parameter.
pub mod Credentials
use ndbx.Prelude.{String, Option, none, some, List, map, if◌then◌else◌}
use ndbx.Errors.{
  Err, sentinel, wrap, is, mongo_already_exists, mongo_not_found, user_already_exists,
  invalid_credentials, not_found,
}
use ndbx.Exec.{Exec, pure, fail, map_err, logged, wrapping, ◌>>=◌, ◌>>◌}
use ndbx.Mongo
use ndbx.Service.{UserData, RegisterReq, AuthenticateReq, GetUsersReq}
use ndbx.Service.Ports.{UserStorage, GraphStorage}

pub record Bcrypt (W : Type 0) : Type 0 where
  -- GenerateFromPassword, which draws a salt
  pub generate_from_password : String → Exec Err W String
  -- CompareHashAndPassword: `none` if the password has this hash
  pub compare_hash_and_password : String → String → Option Err

abbrev pub user_data : Mongo.User → UserData
user_data u = record { id = u.id; full_name = u.full_name; username = u.username }

module _ {W : Type 0} (bcrypt : Bcrypt W) (storage : UserStorage W) (graph : GraphStorage W) where
  unfoldable pub register : RegisterReq → Exec Err W String
  register req = do
    hashed_password ← wrapping "hash password" (bcrypt.generate_from_password req.password)
    user ←
        map_err
          (λ e.
            wrap "create user"
              (if is e mongo_already_exists then sentinel user_already_exists else e))
          (storage.create (record {
            full_name = req.full_name;
            username = req.username;
            password = hashed_password;
          }))
    logged (graph.create_user user.id)
    pure user.id

  unfoldable pub authenticate : AuthenticateReq → Exec Err W String
  authenticate req = do
    user ←
        map_err
          (λ e.
            if is e mongo_not_found then sentinel invalid_credentials else wrap "get username" e)
          (storage.get_by_username req.username)
    elim (bcrypt.compare_hash_and_password user.password_hash req.password) [
      | none ↦ pure user.id
      | some _ ↦ fail (sentinel invalid_credentials)
    ]

  unfoldable pub get_users : GetUsersReq → Exec Err W (List UserData)
  get_users req = do
    users ← wrapping "get users" (
        storage.get_users
          (record { id = req.id; name = req.name; limit = req.limit; offset = req.offset }))
    pure (map user_data users)

  unfoldable pub get_user : String → Exec Err W UserData
  get_user id = do
    user ←
        map_err (λ e. if is e mongo_not_found then sentinel not_found else wrap "get user" e)
          (storage.get_by_id id)
    pure (user_data user)
