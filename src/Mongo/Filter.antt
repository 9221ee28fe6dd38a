-- ===== src/Mongo/Filter.antt =====
-- The filter of GetEvents: buildEventsFilter and its helpers in internal/storage/mongodb/event.go.
-- A helper that changes the map returns the new document.
pub mod Fields
use ndbx.Prelude.{ℕ, ◌+◌, ◌-◌, ◌*◌, ◌/◌, String, Option, none, some, ◌==◌, if◌then◌else◌}
use ndbx.Errors.{Err, is, no_documents}
use ndbx.Exec.{Exec, pure, fail, attempt, ◌>>=◌}
use ndbx.Errors.{wrap}
use ndbx.GoTime.{Time, Rfc3339, utc, second}
use ndbx.Mongo.{
  Bson, str, int64, regex, array, document, Doc, empty, field, get, put, MongoClient, GetEventsReq,
}
use ndbx.Mongo.Id.{id_alternatives, stringify_id}

abbrev pub collection_users : String
collection_users = "users"

-- 24 hours
abbrev pub day : ℕ
day = 86_400 * second

-- The last nanosecond of the day, in UTC.
unfoldable pub end_of_day_utc : Time → Time
end_of_day_utc t = record { nanos = t.nanos / day * day + day - 1; zone = 0 }

unfoldable pub apply_event_title_filter : String → Doc → Doc
apply_event_title_filter title filter =
    if title == "" then filter else put "title" (regex title "i") filter

unfoldable pub apply_event_category_filter : String → Doc → Doc
apply_event_category_filter category filter =
    if category == "" then filter else put "category" (str category) filter

abbrev pub put_some : String → Option Bson → Doc → Doc
put_some key none d = d
put_some key (some v) d = put key v d

abbrev pub map_option : {A B : Type 0} → (A → B) → Option A → Option B
map_option f none = none
map_option f (some a) = some (f a)

unfoldable pub apply_event_price_filter : Option ℕ → Option ℕ → Doc → Doc
apply_event_price_filter none none filter = filter
apply_event_price_filter from to filter =
    put "price"
      (document
        (put_some "$lte" (map_option int64 to) (put_some "$gte" (map_option int64 from) empty)))
      filter

unfoldable pub apply_event_address_filter : String → Doc → Doc
apply_event_address_filter address filter =
    if address == "" then filter else put "location.address" (regex address "i") filter

unfoldable pub apply_event_city_filter : String → Doc → Doc
apply_event_city_filter city filter =
    if city == "" then filter else put "location.city" (str city) filter

unfoldable pub apply_event_user_id_filter : String → Doc → Doc
apply_event_user_id_filter user_id filter =
    if user_id == "" then filter else put "created_by" (str user_id) filter

module _ (clock : Rfc3339) where
  unfoldable pub apply_event_date_filter : Option Time → Option Time → Doc → Doc
  apply_event_date_filter none none filter = filter
  apply_event_date_filter from to filter =
      put "started_at"
        (document (
          put_some "$lte" (map_option (λ t. str (clock.format (end_of_day_utc t))) to)
            (put_some "$gte" (map_option (λ t. str (clock.format (utc t))) from) empty)))
        filter

module _ {W : Type 0} (db : MongoClient W) where
  unfoldable pub apply_event_id_filter : String → Doc → Doc
  apply_event_id_filter id filter =
      if id == ""
      then filter
      else put "_id" (document (field "$in" (array (id_alternatives db id)) empty)) filter

  -- `none` is the result `found = false`.
  unfoldable pub resolve_event_user : String → Exec Err W (Option String)
  resolve_event_user username =
      attempt (db.find_one collection_users (field "username" (str username) empty))
        (λ e. if is e no_documents then pure none else fail (wrap "find user by username" e))
        λ user. pure (some (stringify_id db (get "_id" user)))

  -- The conditions that buildEventsFilter puts in the filter before it looks for a user.
  unfoldable pub field_filters : Rfc3339 → GetEventsReq → Doc
  field_filters clock req = apply_event_user_id_filter req.user_id (
      apply_event_date_filter clock req.date_from req.date_to (
        apply_event_city_filter req.city (
          apply_event_address_filter req.address (
            apply_event_price_filter req.price_from req.price_to (
              apply_event_category_filter req.category
                (apply_event_title_filter req.title (apply_event_id_filter req.id empty)))))))

  -- `none` is the result `empty = true`: no event can match.
  unfoldable pub build_events_filter : Rfc3339 → GetEventsReq → Exec Err W (Option Doc)
  build_events_filter clock req =
      if req.user == "" then pure (some (field_filters clock req)) else (do
        found ← resolve_event_user req.user
        pure (map_option (λ id. put "created_by" (str id) (field_filters clock req)) found))
