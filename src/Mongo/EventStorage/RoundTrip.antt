-- ===== src/Mongo/EventStorage/RoundTrip.antt =====
-- What is read of an event after it was inserted: Create and mapEvent of
-- internal/storage/mongodb/event.go.
use ndbx.Prelude.{◌<◌, String, ◌≡◌, refl}
use ndbx.GoTime.{Time, Rfc3339, utc, year_10000, whole_second}
use ndbx.Mongo.{Bson, str, field, get, MongoClient, Event, CreateEventReq}
use ndbx.Mongo.Id.{stringify_id}
use ndbx.Mongo.EventStorage.{text_of, to_time, to_int64, map_location, map_event, event_doc}

-- The event that a request stands for, as it is stored under an id at a time.
abbrev pub inserted : String → Time → CreateEventReq → Event
inserted id now req = record {
  id = id;
  title = req.title;
  category = "";
  price = 0;
  description = req.description;
  location = record { address = req.address; city = "" };
  created_at = whole_second now;
  created_by = req.created_by;
  started_at = whole_second req.started_at;
  finished_at = whole_second req.finished_at;
}

module _ (clock : Rfc3339) {W : Type 0} (db : MongoClient W) where
  read_time :
      (t : Time)
      → t.nanos < year_10000
      → to_time clock db (str (clock.format (utc t))) ≡ whole_second t
  unfolding to_time
  read_time t h = rw (clock.parse-format (utc t) refl h, to_time) refl

  read_now :
      (t : Time)
      → t.zone ≡ 0
      → t.nanos < year_10000
      → to_time clock db (str (clock.format t)) ≡ whole_second t
  unfolding to_time
  read_now t zone h = rw (clock.parse-format t zone h, to_time) refl

  -- The document that Create inserts, with the id that the database gave it, is read as the event
  -- of the request, its times cut to the second and in UTC, without category, price and city. The
  -- time is in UTC, and years have four digits.
  pub map_event-event_doc :
      (now : Time) (req : CreateEventReq) (id : Bson)
      → now.zone ≡ 0
      → now.nanos < year_10000
      → req.started_at.nanos < year_10000
      → req.finished_at.nanos < year_10000
      → map_event clock db (field "_id" id (event_doc clock db now req))
        ≡ inserted (stringify_id db id) now req
  unfolding map_event event_doc get text_of map_location to_int64
  map_event-event_doc now req id zone a b c =
      rw (read_now now zone a, read_time req.started_at b, read_time req.finished_at c) refl
