-- ===== src/Mongo/Id.antt =====
-- internal/storage/mongodb/mongodb.go: ids as texts and as ObjectIDs.
use ndbx.Prelude.{String, none, some}
use ndbx.Mongo.{Bson, str, object_id, Items, nil, cons, MongoClient}

module _ {W : Type 0} (db : MongoClient W) where
  unfoldable pub id_alternatives : String → Items
  id_alternatives id = elim (db.object_id_from_hex id) [
    | none ↦ cons (str id) nil
    | some oid ↦ cons (str id) (cons (object_id oid) nil)
  ]

  unfoldable pub stringify_id : Bson → String
  stringify_id (object_id oid) = db.hex oid
  stringify_id (str id) = id
  stringify_id _ = ""
