-- ===== src/Mongo/Filter/Fields.antt =====
-- What the filter of GetEvents, of internal/storage/mongodb/event.go, asks of each field.
use ndbx.Prelude.{
  ◌⊎◌, ◌≢◌, Bool, List, [], ◌∷◌, not, ◌&&◌, ◌/◌, ◌≤◌, String, ◌≡◌, refl, Option, none, some, true,
  false, ◌==◌, eq_iff, arith, if◌then◌else◌,
}
use ndbx.Exec.{ok}
use ndbx.GoTime.{Time, Rfc3339, utc}
use ndbx.Mongo.{
  Bson, null, str, int64, regex, array, document, Doc, empty, field, get, put, MongoClient,
  GetEventsReq,
}
use ndbx.Mongo.Id.{id_alternatives}
use ndbx.Mongo.Filter.{day, end_of_day_utc, put_some, map_option, resolve_event_user}

pub get-put :
    (k j : String) (v : Bson) (d : Doc) → get k (put j v d) ≡ (if j == k then v else get k d)
unfolding get put
get-put k j v empty = refl
get-put k j v (field i u d) = ground (arith, eq_iff i j, eq_iff j k, eq_iff i k, get-put k j v d)

abbrev pub is_null : Bson → Bool
is_null null = true
is_null _ = false

-- A condition on a field, where null is none.
unfoldable pub layer : String → Bson → Doc → Doc
layer key v d = if is_null v then d else put key v d

unfoldable pub layers : List (String × Bson) → Doc
layers [] = empty
layers ((key, v) ∷ l) = layer key v (layers l)

-- The condition on a field in a list of conditions, null if there is none.
unfoldable pub asked : String → List (String × Bson) → Bson
asked k [] = null
asked k ((key, v) ∷ l) = if key == k then v else asked k l

unfoldable fresh : String → List (String × Bson) → Bool
fresh k [] = true
fresh k ((key, v) ∷ l) = not (key == k) && fresh k l

unfoldable distinct : List (String × Bson) → Bool
distinct [] = true
distinct ((key, v) ∷ l) = fresh key l && distinct l

-- The bounds of a range, absent if both are.
abbrev pub range : Option Bson → Option Bson → Bson
range none none = null
range from to = document (put_some "$lte" to (put_some "$gte" from empty))

abbrev pub text_or_null : (String → Bson) → String → Bson
text_or_null f s = if s == "" then null else f s

module _ (clock : Rfc3339) {W : Type 0} (db : MongoClient W) where
  -- The conditions of a request, by field.
  unfoldable pub conditions : GetEventsReq → List (String × Bson)
  conditions req =
      ("created_by", text_or_null str req.user_id)
      ∷ (
        "started_at",
        range (map_option (λ t. str (clock.format (utc t))) req.date_from)
            (map_option (λ t. str (clock.format (end_of_day_utc t))) req.date_to),
      )
      ∷ ("location.city", text_or_null str req.city)
      ∷ ("location.address", text_or_null (λ s. regex s "i") req.address)
      ∷ ("price", range (map_option int64 req.price_from) (map_option int64 req.price_to))
      ∷ ("category", text_or_null str req.category)
      ∷ ("title", text_or_null (λ s. regex s "i") req.title)
      ∷ (
        "_id",
        text_or_null (λ id. document (field "$in" (array (id_alternatives db id)) empty)) req.id,
      )
      ∷ []

  -- A filter for the events of the user with the request's user name.
  abbrev pub AsksForUser : GetEventsReq → W → Doc → Type 0
  AsksForUser req w f =
      (id : String) × ((resolve_event_user db req.user w).0 ≡ ok (some id))
      × ((k : String) → get k f ≡ (if "created_by" == k then str id else asked k (conditions req)))

  -- What the filter asks of a field: the request's condition, and for the creator the user with the
  -- request's user name, if it has one.
  abbrev pub AsksFor : GetEventsReq → W → Doc → Type 0
  AsksFor req w f =
      ((req.user ≡ "") × ((k : String) → get k f ≡ asked k (conditions req)))
      ⊎ ((req.user ≢ "") × AsksForUser req w f)

-- The end of a day is in the day, and no earlier than any time of it.
end_of_day_utc_lem :
    (t : Time)
    → ((end_of_day_utc t).nanos / day ≡ t.nanos / day)
      × ((u : Time) → u.nanos / day ≡ t.nanos / day → u.nanos ≤ (end_of_day_utc t).nanos)
unfolding end_of_day_utc
end_of_day_utc_lem t = (omega arith, λ u same. omega (arith, same))
