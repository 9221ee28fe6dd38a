-- ===== src/Mongo/UserStorage.antt =====
-- internal/storage/mongodb/user.go
use ndbx.Prelude.{
  ℕ, String, true, Option, none, some, List, [], ◌∷◌, ltb, ◌==◌, ◌&&◌, if◌then◌else◌,
}
use ndbx.Prelude.Words.{two63}
use ndbx.Errors.{
  Err, sentinel, wrap, is, is_duplicate_key, no_documents, mongo_already_exists, mongo_not_found,
}
use ndbx.Exec.{Exec, pure, lift, map_err, wrapping, ◌>>=◌}
use ndbx.Mongo.{
  str, regex, Doc, empty, field, get, put, MongoClient, User, CreateUserReq, GetUsersReq,
}
use ndbx.Mongo.Id.{stringify_id}
use ndbx.Mongo.Filter.{collection_users}
use ndbx.Mongo.EventStorage.{text_of, by_id, read_cursor}

-- The document of a new user: `_id` is left out while it is empty.
unfoldable pub user_doc : CreateUserReq → Doc
user_doc req =
    field "full_name" (str req.full_name)
      (field "username" (str req.username) (field "password_hash" (str req.password) empty))

abbrev pub positive_or_none : ℕ → Option ℕ
positive_or_none n = if ltb 0 n && ltb n two63 then some n else none

module _ {W : Type 0} (db : MongoClient W) where
  unfoldable pub create_index : Exec Err W (Unit {0})
  create_index =
      wrapping "create index"
        (db.create_indexes collection_users (record { keys = "username" ∷ []; unique = true } ∷ []))

  unfoldable pub create : CreateUserReq → Exec Err W User
  create req = do
    inserted ←
        map_err
          (λ e. if is_duplicate_key e then sentinel mongo_already_exists else wrap "insert user" e)
          (db.insert_one collection_users (user_doc req))
    pure (record {
      id = stringify_id db inserted;
      full_name = req.full_name;
      username = req.username;
      password_hash = req.password;
    })

  -- What GetByUsername reads of a document.
  unfoldable pub read_credentials : Doc → User
  read_credentials doc = record {
    id = stringify_id db (get "_id" doc);
    full_name = text_of (get "full_name" doc);
    username = text_of (get "username" doc);
    password_hash = text_of (get "password_hash" doc);
  }

  -- What GetUsers and GetByID read of a document: no password hash.
  unfoldable pub read_profile : Doc → User
  read_profile doc = record {
    id = stringify_id db (get "_id" doc);
    full_name = text_of (get "full_name" doc);
    username = text_of (get "username" doc);
    password_hash = "";
  }

  unfoldable pub get_by_username : String → Exec Err W User
  get_by_username username = do
    doc ←
        map_err (λ e. if is e no_documents then sentinel mongo_not_found else wrap "find user" e)
          (db.find_one collection_users (field "username" (str username) empty))
    pure (read_credentials doc)

  unfoldable pub users_filter : GetUsersReq → Doc
  users_filter req =
      let named =
        λ (d : Doc). if req.name == "" then d else put "full_name" (regex req.name "i") d in
      named (if req.id == "" then empty else by_id db req.id empty)

  unfoldable pub get_users : GetUsersReq → Exec Err W (List User)
  get_users req = do
    cursor ← wrapping "find users" (
        db.find collection_users (users_filter req)
          (record { limit = positive_or_none req.limit; skip = positive_or_none req.offset }))
    lift (read_cursor read_profile "decode user" "iterate users" cursor)

  unfoldable pub get_by_id : String → Exec Err W User
  get_by_id id = do
    doc ←
        map_err
          (λ e. if is e no_documents then sentinel mongo_not_found else wrap "find user by id" e)
          (db.find_one collection_users (by_id db id empty))
    pure (read_profile doc)
