-- ===== src/Mongo.antt =====
-- internal/storage/mongodb over the MongoDB driver, which is a parameter: BSON documents, the
-- driver's calls, and the structs of internal/storage/mongodb/dto.
pub mod Id
pub mod Filter
pub mod EventStorage
pub mod UserStorage
use ndbx.Prelude.{ℕ, String, Bool, Option, none, some, List, ◌==◌, if◌then◌else◌}
use ndbx.Errors.{Err}
use ndbx.Exec.{Exec, Result}
use ndbx.GoTime.{Time}

-- A decoded BSON value, of Go type `any`, and documents: bson.M, a map.
mutual
  pub data Bson : Type 0 where
    null : Bson
    str : String → Bson
    int64 : ℕ → Bson
    int32 : ℕ → Bson
    int : ℕ → Bson
    float64 : ℕ → Bson
    float32 : ℕ → Bson
    time : Time → Bson
    date_time : ℕ → Bson
    object_id : ℕ → Bson
    -- primitive.Regex{Pattern, Options}
    regex : String → String → Bson
    array : Items → Bson
    document : Doc → Bson

  pub data Items : Type 0 where
    nil : Items
    cons : Bson → Items → Items

  pub data Doc : Type 0 where
    empty : Doc
    field : String → Bson → Doc → Doc

-- doc[key], where a missing key gives nil
unfoldable pub get : String → Doc → Bson
get key empty = null
get key (field k v d) = if k == key then v else get key d

-- doc[key] = v
unfoldable pub put : String → Bson → Doc → Doc
put key v empty = field key v empty
put key v (field k u d) = if k == key then field key v d else field k u (put key v d)

abbrev pub is_empty : Doc → Bool
is_empty empty = Bool.true
is_empty (field k v d) = Bool.false

pub record FindOptions : Type 0 where
  pub limit : Option ℕ
  pub skip : Option ℕ

-- What a cursor yields: each document or the error of its decoding, and in the end the cursor's
-- error.
pub record Cursor : Type 0 where
  pub documents : List (Result Err Doc)
  pub failure : Option Err

pub record IndexModel : Type 0 where
  pub keys : List String
  pub unique : Bool

pub record MongoClient (W : Type 0) : Type 0 where
  pub insert_one : String → Doc → Exec Err W Bson
  pub find_one : String → Doc → Exec Err W Doc
  pub find : String → Doc → FindOptions → Exec Err W Cursor
  -- the filter, the update, and the number of documents that matched
  pub update_one : String → Doc → Doc → Exec Err W ℕ
  pub create_indexes : String → List IndexModel → Exec Err W (Unit {0})
  -- primitive.ObjectIDFromHex, ObjectID.Hex, DateTime.Time
  pub object_id_from_hex : String → Option ℕ
  pub hex : ℕ → String
  pub date_time_time : ℕ → Time
  -- Go's int64(f) of a float64 and of a float32
  pub float64_to_int64 : ℕ → ℕ
  pub float32_to_int64 : ℕ → ℕ

pub record Location : Type 0 where
  pub address : String
  pub city : String

pub record Event : Type 0 where
  pub id : String
  pub title : String
  pub category : String
  pub price : ℕ
  pub description : String
  pub location : Location
  pub created_at : Time
  pub created_by : String
  pub started_at : Time
  pub finished_at : Time

pub record CreateEventReq : Type 0 where
  pub title : String
  pub description : String
  pub address : String
  pub started_at : Time
  pub finished_at : Time
  pub created_by : String

pub record GetEventsReq : Type 0 where
  pub id : String
  pub title : String
  pub category : String
  pub price_from : Option ℕ
  pub price_to : Option ℕ
  pub address : String
  pub city : String
  pub date_from : Option Time
  pub date_to : Option Time
  pub user_id : String
  pub user : String
  pub limit : ℕ
  pub offset : ℕ

pub record PatchEventReq : Type 0 where
  pub id : String
  pub created_by : String
  pub category : Option String
  pub city : Option String
  pub price : Option ℕ

pub record User : Type 0 where
  pub id : String
  pub full_name : String
  pub username : String
  pub password_hash : String

pub record CreateUserReq : Type 0 where
  pub full_name : String
  pub username : String
  pub password : String

pub record GetUsersReq : Type 0 where
  pub id : String
  pub name : String
  pub limit : ℕ
  pub offset : ℕ
