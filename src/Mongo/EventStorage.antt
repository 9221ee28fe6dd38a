-- ===== src/Mongo/EventStorage.antt =====
-- internal/storage/mongodb/event.go
pub mod Patch
pub mod RoundTrip
use ndbx.Prelude.{
  ℕ, String, false, Option, none, some, List, [], ◌∷◌, nat_eq, ◌==◌, if◌then◌else◌, ltb, ◌&&◌,
}
use ndbx.Prelude.Words.{is_neg64, two63, from_int32}
use ndbx.Errors.{
  Err, sentinel, wrap, is, is_duplicate_key, no_documents, mongo_already_exists, mongo_not_found,
}
use ndbx.Exec.{Result, ok, err, Exec, pure, fail, lift, always, attempt, map_err, wrapping, ◌>>=◌}
use ndbx.GoTime.{Time, Rfc3339, Host, now_utc, utc, zero_time}
use ndbx.Mongo.{
  Bson, str, int64, int32, int, float64, float32, time, date_time, array, document, Doc, empty,
  field, get, is_empty, FindOptions, Cursor, MongoClient, Location, Event, CreateEventReq,
  GetEventsReq, PatchEventReq,
}
use ndbx.Mongo.Id.{id_alternatives, stringify_id}
use ndbx.Mongo.Filter.{build_events_filter, put_some, map_option}

abbrev pub collection_events : String
collection_events = "events"

-- doc[key].(string), or "" for another type
unfoldable pub text_of : Bson → String
text_of (str s) = s
text_of _ = ""

-- The cursor loop: the first document that does not decode ends it.
unfoldable pub decode_all :
    {A : Type 0} → (Doc → A) → String → List (Result Err Doc) → Result Err (List A)
decode_all f message [] = ok []
decode_all f message (err e ∷ docs) = err (wrap message e)
decode_all f message (ok d ∷ docs) = elim (decode_all f message docs) [
  | err e ↦ err e
  | ok rest ↦ ok (f d ∷ rest)
]

unfoldable pub cursor_error : {A : Type 0} → String → Option Err → A → Result Err A
cursor_error message none a = ok a
cursor_error message (some e) a = err (wrap message e)

abbrev pub read_cursor : {A : Type 0} → (Doc → A) → String → String → Cursor → Result Err (List A)
read_cursor f decoding iterating cursor = elim (decode_all f decoding cursor.documents) [
  | err e ↦ err e
  | ok docs ↦ cursor_error iterating cursor.failure docs
]

module _ {W : Type 0} (db : MongoClient W) where
  unfoldable pub to_int64 : Bson → ℕ
  to_int64 (int64 n) = n
  to_int64 (int32 n) = from_int32 n
  to_int64 (int n) = n
  to_int64 (float64 x) = db.float64_to_int64 x
  to_int64 (float32 x) = db.float32_to_int64 x
  to_int64 _ = 0

  unfoldable pub create_indexes : Exec Err W (Unit {0})
  create_indexes = wrapping "create indexes" (
      db.create_indexes collection_events (
        record { keys = "title" ∷ []; unique = false }
        ∷ record { keys = "title" ∷ "created_by" ∷ []; unique = false }
        ∷ record { keys = "created_by" ∷ []; unique = false }
        ∷ []))

  -- The filter of one id.
  abbrev pub by_id : String → Doc → Doc
  by_id id rest = field "_id" (document (field "$in" (array (id_alternatives db id)) empty)) rest

  -- setFields of PatchEvent
  unfoldable pub set_fields : PatchEventReq → Doc
  set_fields req =
      put_some "location.city"
        (elim req.city [ none ↦ none | some city ↦ if city == "" then none else some (str city) ])
        (put_some "price" (map_option int64 req.price)
          (put_some "category" (map_option str req.category) empty))

  -- unsetFields of PatchEvent
  unfoldable pub unset_fields : PatchEventReq → Doc
  unset_fields req =
      put_some "location.city"
        (elim req.city [ none ↦ none | some city ↦ if city == "" then some (str "") else none ])
        empty

  unfoldable pub patch_filter : PatchEventReq → Doc
  patch_filter req = by_id req.id (field "created_by" (str req.created_by) empty)

  -- `$set` and `$unset`, each only if it has fields
  unfoldable pub patch_update : PatchEventReq → Doc
  patch_update req =
      let set = set_fields req in
      let unset = unset_fields req in
      put_some "$unset" (if is_empty unset then none else some (document unset))
        (put_some "$set" (if is_empty set then none else some (document set)) empty)

  unfoldable pub patch_event : PatchEventReq → Exec Err W (Unit {0})
  patch_event req =
      if is_empty (set_fields req) && is_empty (unset_fields req)
      then attempt (db.find_one collection_events (patch_filter req))
          (λ e. fail (
            if is e no_documents
            then sentinel mongo_not_found
            else wrap "find event before patch" e))
          (λ _. pure tt)
      else (do
        matched ←
            wrapping "update event"
              (db.update_one collection_events (patch_filter req) (patch_update req))
        if nat_eq matched 0 then fail (sentinel mongo_not_found) else pure tt)

module _ (clock : Rfc3339) {W : Type 0} (db : MongoClient W) where
  unfoldable pub to_time : Bson → Time
  to_time (time t) = t
  to_time (date_time ms) = db.date_time_time ms
  to_time (str s) = elim (clock.parse s) [ none ↦ zero_time | some t ↦ t ]
  to_time _ = zero_time

  unfoldable pub map_location : Bson → Location
  map_location (document d) = record {
    address = text_of (get "address" d);
    city = text_of (get "city" d);
  }
  map_location _ = record { address = ""; city = "" }

  unfoldable pub map_event : Doc → Event
  map_event doc = record {
    id = stringify_id db (get "_id" doc);
    title = text_of (get "title" doc);
    category = text_of (get "category" doc);
    price = to_int64 db (get "price" doc);
    description = text_of (get "description" doc);
    location = map_location (get "location" doc);
    created_at = to_time (get "created_at" doc);
    created_by = text_of (get "created_by" doc);
    started_at = to_time (get "started_at" doc);
    finished_at = to_time (get "finished_at" doc);
  }

  -- The document of a new event.
  unfoldable pub event_doc : Time → CreateEventReq → Doc
  event_doc now req = field "title" (str req.title) (
      field "description" (str req.description) (
        field "location" (document (field "address" (str req.address) empty)) (
          field "created_at" (str (clock.format now)) (
            field "started_at" (str (clock.format (utc req.started_at))) (
              field "finished_at" (str (clock.format (utc req.finished_at)))
                (field "created_by" (str req.created_by) empty))))))

  unfoldable pub create : Host W → CreateEventReq → Exec Err W Event
  create host req = do
    now ← always (now_utc host)
    inserted ←
        map_err
          (λ e. if is_duplicate_key e then sentinel mongo_already_exists else wrap "insert event" e)
          (db.insert_one collection_events (event_doc now req))
    pure (record {
      id = stringify_id db inserted;
      title = req.title;
      category = "";
      price = 0;
      description = req.description;
      location = record { address = req.address; city = "" };
      created_at = now;
      created_by = req.created_by;
      started_at = req.started_at;
      finished_at = req.finished_at;
    })

  abbrev pub find_options : GetEventsReq → FindOptions
  find_options req = record {
    limit = if ltb 0 req.limit && ltb req.limit two63 then some req.limit else none;
    skip = if is_neg64 req.offset then none else some req.offset;
  }

  unfoldable pub get_events : GetEventsReq → Exec Err W (List Event)
  get_events req = do
    filter ← build_events_filter db clock req
    elim filter [
      | none ↦ pure []
      | some f ↦ do
        cursor ← wrapping "find events" (db.find collection_events f (find_options req))
        lift (read_cursor map_event "decode event" "iterate events" cursor)
    ]

  unfoldable pub get_event : String → Exec Err W Event
  get_event id = do
    doc ←
        map_err (λ e. if is e no_documents then sentinel mongo_not_found else wrap "find event" e)
          (db.find_one collection_events (by_id db id empty))
    pure (map_event doc)

  unfoldable pub get_events_by_title : String → Exec Err W (List Event)
  get_events_by_title title = do
    cursor ← wrapping "find events by title" (
        db.find collection_events (field "title" (str title) empty)
          (record { limit = none; skip = none }))
    lift (read_cursor map_event "decode event by title" "iterate events by title" cursor)
