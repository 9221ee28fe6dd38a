-- ===== src/Mongo/EventStorage/Patch.antt =====
-- What PatchEvent of internal/storage/mongodb/event.go asks the database for.
use ndbx.Mongo.Id.{id_alternatives}
use ndbx.Prelude.{
  ℕ, String, ◌≡◌, ◌≢◌, ◌⊎◌, inl, inr, refl, Option, none, some, true, arith, ◌==◌, Bool-cases,
  if◌then◌else◌, ◌&&◌,
}
use ndbx.Exec.{Result-cases, ok}
use ndbx.Mongo.{
  field, empty, array, Bson, null, str, int64, document, Doc, get, put, is_empty, MongoClient,
  PatchEventReq,
}
use ndbx.Mongo.EventStorage.{
  collection_events, set_fields, unset_fields, patch_filter, patch_update, patch_event,
}

-- A field of the update: `$set` or `$unset` of it.
abbrev pub in_part : String → String → Doc → Bson
in_part part k update = elim (get part update) [ document d ↦ get k d | _ ↦ null ]

module _ {W : Type 0} (db : MongoClient W) where
  -- The new value of the city: none for a request without a city, or with an empty one.
  abbrev pub new_city : Option String → Bson
  new_city none = null
  new_city (some c) = if c == "" then null else str c

  abbrev pub or_null : {A : Type 0} → (A → Bson) → Option A → Bson
  or_null f none = null
  or_null f (some a) = f a

  -- The update sets the category and the price that the request has, sets a city that is not empty
  -- and removes the city for an empty one, never both.
  patch_update_lem :
      (req : PatchEventReq)
      → (in_part "$set" "category" (patch_update db req) ≡ or_null str req.category)
        × (in_part "$set" "price" (patch_update db req) ≡ or_null int64 req.price)
        × (in_part "$set" "location.city" (patch_update db req) ≡ new_city req.city)
        × (in_part "$unset" "location.city" (patch_update db req)
            ≡ (elim req.city [ none ↦ null | some c ↦ if c == "" then str "" else null ]))
  unfolding patch_update set_fields unset_fields get put
  patch_update_lem req = ground arith

  -- A look at a document of the request's user, or an update of one, and what the world is after
  -- it.
  abbrev pub TouchesOwn : PatchEventReq → W → Type 0
  TouchesOwn req w =
      (get "_id" (patch_filter db req)
        ≡ document (field "$in" (array (id_alternatives db req.id)) empty))
      × (get "created_by" (patch_filter db req) ≡ str req.created_by)
      × (((d : Doc) × ((db.find_one collection_events (patch_filter db req) w).0 ≡ ok d)
            × ((patch_event db req w).1 ≡ (db.find_one collection_events (patch_filter db req) w).1)
            × (is_empty (set_fields db req) ≡ true)
            × (is_empty (unset_fields db req) ≡ true))
          ⊎ ((n : ℕ) × (n ≢ 0)
              × ((db.update_one collection_events (patch_filter db req) (patch_update db req) w).0
                  ≡ ok n)
              × ((patch_event db req w).1
                  ≡ (db.update_one collection_events (patch_filter db req) (patch_update db req)
                      w).1)))

  -- A PatchEvent that succeeds has found, or updated, a document with the id and with the request's
  -- user as its creator; it only looked if the request has no field to change.
  pub patch_event-owner :
      (req : PatchEventReq) (w : W) → (patch_event db req w).0 ≡ ok tt → TouchesOwn req w
  unfolding patch_event patch_filter get
  patch_event-owner req w done =
      let look = db.find_one collection_events (patch_filter db req) w in
      let change = db.update_one collection_events (patch_filter db req) (patch_update db req) w in
      (
        refl,
        refl,
        elim (Bool-cases (is_empty (set_fields db req) && is_empty (unset_fields db req))) [
          | inl nothing ↦ elim (Result-cases look.0) [
            | inr (e, failed) ↦ ground arith
            | inl (d, found) ↦ inl (d, found, ground arith, ground arith, ground arith)
          ]
          | inr something ↦ elim (Result-cases change.0) [
            | inr (e, failed) ↦ ground arith
            | inl (n, matched) ↦ inr (n, (λ zero_matched. ground arith), matched, ground arith)
          ]
        ],
      )
