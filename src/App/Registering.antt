-- ===== src/App/Registering.antt =====
-- What internal/router, internal/service/user.go and internal/storage/mongodb/user.go together
-- answer to the registration of a user name that is taken.
use ndbx.Prelude.{ℕ, String, ◌≡◌, ◌≢◌, refl, true, arith, eq_iff}
use ndbx.Errors.{wrap, sentinel, Err, is_duplicate_key, is, user_already_exists}
use ndbx.Exec.{Result, ok, err}
use ndbx.HttpServer.{not_empty}
use ndbx.Mongo.{Bson, MongoClient}
use ndbx.Mongo.Filter.{collection_users}
use ndbx.Mongo.UserStorage.{user_doc, create, get_by_username, get_users, get_by_id}
use ndbx.Service.Ports.{UserStorage, GraphStorage}
use ndbx.Service.Account.{Bcrypt, register, authenticate}
use ndbx.Service.Account
use ndbx.Router.{Opt, SessionService, UserService, error}
use ndbx.Router.Cookie.{extract_sid, form_set_cookie}
use ndbx.Router.Sessions.{UserRegisterRequest, api_register}

module _ {W : Type 0} (db : MongoClient W) (bcrypt : Bcrypt W) (graph : GraphStorage W) where
  abbrev pub user_storage : UserStorage W
  user_storage = record {
    create = create db;
    get_by_username = get_by_username db;
    get_users = get_users db;
    get_by_id = get_by_id db;
  }

  abbrev pub user_service : UserService W
  user_service = record {
    register = register bcrypt user_storage graph;
    authenticate = authenticate bcrypt user_storage graph;
    get_users = Account.get_users bcrypt user_storage graph;
    get_user = Account.get_user bcrypt user_storage graph;
  }

  module _ (sessions : SessionService W) (ttl : ℕ) (req : UserRegisterRequest) (cookie : Opt String)
      (w : W) where
    -- The insertion of the new user, with the hash of the password.
    abbrev pub inserts : String → Result Err Bson × W
    inserts hash =
        db.insert_one collection_users
          (user_doc
            (record { full_name = req.full_name; username = req.username; password = hash }))
          (bcrypt.generate_from_password req.password w).1

    abbrev taken : Err
    taken = wrap "create user" (sentinel user_already_exists)

    register_refused :
        (hash : String) (e : Err)
        → (bcrypt.generate_from_password req.password w).0 ≡ ok hash
        → (inserts hash).0 ≡ err e
        → is_duplicate_key e ≡ true
        → (register bcrypt user_storage graph
              (record {
                full_name = req.full_name;
                username = req.username;
                password = req.password;
              })
              w
            ≡ (err taken, (inserts hash).1))
          × (is taken user_already_exists ≡ true)
    unfolding register create is
    register_refused hash e hashed refused duplicate = (ground arith, refl)

    -- A registration whose three texts are not empty, and whose user name the database refuses as a
    -- duplicate, is answered with the status 409 and the text "user already exists", after the
    -- insertion and nothing else: no session is made.
    pub api_register-conflict :
        (hash : String) (e : Err)
        → req.full_name ≢ ""
        → req.username ≢ ""
        → req.password ≢ ""
        → (bcrypt.generate_from_password req.password w).0 ≡ ok hash
        → (inserts hash).0 ≡ err e
        → is_duplicate_key e ≡ true
        → api_register sessions user_service ttl req cookie w ≡ (
          error 409 (form_set_cookie (extract_sid cookie.value) ttl) "user already exists",
          (inserts hash).1,
        )
    unfolding api_register not_empty
    api_register-conflict hash e full_name username password hashed refused duplicate = ground (
      arith,
      register_refused hash e hashed refused duplicate,
      eq_iff req.full_name "",
      eq_iff req.username "",
      eq_iff req.password "",
    )
