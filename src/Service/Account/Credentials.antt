-- ===== src/Service/Account/Credentials.antt =====
-- Who Authenticate of internal/service/user.go lets in, and how it refuses the others.
use ndbx.Prelude.{String, ◌≡◌, ◌⊎◌, inl, inr, none, some, true, arith, Option-cases}
use ndbx.Errors.{Err, sentinel, invalid_credentials, mongo_not_found, is}
use ndbx.Exec.{Result-cases, ok, err}
use ndbx.Mongo
use ndbx.Service.{AuthenticateReq}
use ndbx.Service.Ports.{UserStorage, GraphStorage}
use ndbx.Service.Account.{Bcrypt, authenticate}

module _ {W : Type 0} (bcrypt : Bcrypt W) (storage : UserStorage W) (graph : GraphStorage W)
    (req : AuthenticateReq) (w : W) where
  -- A user with the name is stored, and the password has the stored hash.
  abbrev pub HasPassword : String → Type 0
  HasPassword id =
      (user : Mongo.User) × ((storage.get_by_username req.username w).0 ≡ ok user)
      × (user.id ≡ id)
      × (bcrypt.compare_hash_and_password user.password_hash req.password ≡ none)

  -- There is no user with the name, or the password is not that of the one there is.
  abbrev pub Refused : Type 0
  Refused =
      ((e : Err) × ((storage.get_by_username req.username w).0 ≡ err e)
        × (is e mongo_not_found ≡ true))
      ⊎ ((user : Mongo.User) × ((storage.get_by_username req.username w).0 ≡ ok user)
          × (e : Err) × (bcrypt.compare_hash_and_password user.password_hash req.password ≡ some e))

  -- Authenticate gives an id only of a stored user with the name whose hash the password has. For a
  -- name that is not there and for a wrong password it fails with one and the same error, in the
  -- same world: that after the user was looked up.
  pub authenticate-HasPassword :
      ((id : String) → (authenticate bcrypt storage graph req w).0 ≡ ok id → HasPassword id)
      × (Refused
          → authenticate bcrypt storage graph req w
            ≡ (err (sentinel invalid_credentials), (storage.get_by_username req.username w).1))
  unfolding authenticate
  authenticate-HasPassword = (
    λ id done. elim (Result-cases (storage.get_by_username req.username w).0) [
      | inr (e, failed) ↦ ground arith
      | inl (user, found) ↦
          elim (Option-cases (bcrypt.compare_hash_and_password user.password_hash req.password)) [
            | inr (e, wrong) ↦ ground arith
            | inl right ↦ (user, found, ground arith, right)
          ]
    ],
    λ refused. elim refused [
      | inl (e, failed, missing) ↦ ground arith
      | inr (user, found, e, wrong) ↦ ground arith
    ],
  )
