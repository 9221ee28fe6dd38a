-- ===== src/Examples/Documents.antt =====
-- Requests to MongoDB and rows of Cassandra.
use ndbx.Prelude.{String, ◌≡◌, ◌≢◌, ◌%◌, ◌==◌, eq_iff, refl, false, arith, none, some, [], ◌∷◌}
use ndbx.Prelude.Words.{two64}
use ndbx.Exec.{ok}
use ndbx.Mongo.{str, Doc, put, field, GetEventsReq, CreateEventReq, PatchEventReq}
use ndbx.Mongo.Id.{stringify_id}
use ndbx.Mongo.Filter.{field_filters}
use ndbx.Mongo.EventStorage.{set_fields, patch_event, event_doc, map_event}
use ndbx.Mongo.EventStorage.RoundTrip.{inserted, map_event-event_doc}
use ndbx.Mongo.EventStorage.Patch.{TouchesOwn, patch_event-owner}
use ndbx.Cassandra.ReactionStorage.{
  like_value, dislike_value, count_row, count_rows, count_events, count_by_event_ids,
}
use ndbx.Cassandra.ReactionStorage.Counting.{occurrences, rows_read, count_by_event_ids_lem}
use ndbx.Examples.Doubles.{sample_clock, noon}
use ndbx.Examples.Servers.{sample_mongo, sample_cassandra}

abbrev by_anna : GetEventsReq
by_anna = record {
  id = "";
  title = "Jazz";
  category = "music";
  price_from = none;
  price_to = some 500;
  address = "";
  city = "Moscow";
  date_from = none;
  date_to = some noon;
  user_id = "u7";
  user = "anna";
  limit = 10;
  offset = 0;
}

abbrev anna_filter : Doc
anna_filter =
    put "created_by" (str "u1") (field_filters {W = Unit {0}} sample_mongo sample_clock by_anna)

named : (s : String) → (s == "") ≡ false → s ≢ ""
named s given same = cc (given, (eq_iff s "").1 same)

abbrev concert : CreateEventReq
concert = record {
  title = "Jazz";
  description = "";
  address = "Main street";
  started_at = noon;
  finished_at = noon;
  created_by = "u1";
}

map_event-event_doc_example :
    map_event sample_clock {W = Unit {0}} sample_mongo
      (field "_id" (str "e1") (event_doc sample_clock {W = Unit {0}} sample_mongo noon concert))
    ≡ inserted (stringify_id {W = Unit {0}} sample_mongo (str "e1")) noon concert
map_event-event_doc_example =
    map_event-event_doc sample_clock sample_mongo noon concert (str "e1") refl (omega arith)
      (omega arith) (omega arith)

-- The city is removed.
abbrev no_city : PatchEventReq
no_city = record {
  id = "e1";
  created_by = "u1";
  category = some "music";
  city = some "";
  price = none;
}

patch_event_owner_done : (patch_event {W = Unit {0}} sample_mongo no_city tt).0 ≡ ok tt
unfolding patch_event set_fields put
patch_event_owner_done = refl

patch_event-owner_example : TouchesOwn {W = Unit {0}} sample_mongo no_city tt
patch_event-owner_example = patch_event-owner sample_mongo no_city tt patch_event_owner_done

count_by_event_ids_lem_example :
    (4
      ≡ occurrences like_value (rows_read {W = Unit {0}} sample_cassandra ("e1" ∷ "e2" ∷ []) tt)
        % two64)
    × (2
        ≡ occurrences dislike_value
            (rows_read {W = Unit {0}} sample_cassandra ("e1" ∷ "e2" ∷ []) tt)
          % two64)
unfolding count_by_event_ids count_events count_rows count_row
count_by_event_ids_lem_example =
    count_by_event_ids_lem sample_cassandra ("e1" ∷ "e2" ∷ []) tt
      (record { likes = 4; dislikes = 2 }) refl
