-- ===== src/Service/Event.antt =====
-- internal/service/event.go, but for its reactions.
use ndbx.Prelude.{
  String, Bool, true, false, Option, none, some, List, [], ◌∷◌, map, lookup, if◌then◌else◌,
}
use ndbx.Errors.{
  Err, sentinel, wrap, is, mongo_already_exists, mongo_not_found, already_exists, not_found,
}
use ndbx.Exec.{Exec, pure, map_err, logged, wrapping, ◌>>=◌, ◌>>◌}
use ndbx.Service.{
  EventData, EventReactions, EventReviewsSummary, CreateEventReq, GetEventsReq, GetEventReq,
  PatchEventReq,
}
use ndbx.Service.Ports.{EventStorage, ReviewSummaries, GraphStorage}
use ndbx.Service.Title.{no_reactions, no_reviews, map_event_data}

-- m[key] with the map's zero value
abbrev pub or_zero : {V : Type 0} → V → Option V → V
or_zero zero_value none = zero_value
or_zero zero_value (some v) = v

-- reactionsByTitles and reviewsByTitles: one call for each title that the map does not hold yet. A
-- Go map is the list of its entries.
unfoldable pub by_titles :
    {W V : Type 0}
    → (String → Exec Err W V)
    → List (String × V)
    → List EventData
    → Exec Err W (List (String × V))
unfolding lookup
by_titles call found [] = pure found
by_titles call found (event ∷ events) = elim (lookup event.title found) [
  | some _ ↦ by_titles call found events
  | none ↦ do v ← call event.title; by_titles call ((event.title, v) ∷ found) events
]

abbrev pub with_reactions : List (String × EventReactions) → EventData → EventData
with_reactions m e = record e { reactions = or_zero no_reactions (lookup e.title m) }

abbrev pub with_reviews : List (String × EventReviewsSummary) → EventData → EventData
with_reviews m e = record e { reviews = or_zero no_reviews (lookup e.title m) }

module _ {W : Type 0} (events : EventStorage W) (graph : GraphStorage W)
    (reactions_by_title : String → Exec Err W EventReactions)
    (review_service : ReviewSummaries W) where
  unfoldable pub create_event : CreateEventReq → Exec Err W String
  create_event req = do
    event ←
        map_err
          (λ e.
            if is e mongo_already_exists then sentinel already_exists else wrap "create event" e)
          (events.create (record {
            title = req.title;
            description = req.description;
            address = req.address;
            started_at = req.started_at;
            finished_at = req.finished_at;
            created_by = req.created_by;
          }))
    logged (graph.create_event event.id event.title)
    pure event.id

  -- The part of GetEvents under IncludeReactions.
  unfoldable pub add_reactions : Bool → List EventData → Exec Err W (List EventData)
  unfolding by_titles
  add_reactions false es = pure es
  add_reactions true es = do
    m ← wrapping "get reactions by titles" (by_titles reactions_by_title [] es)
    pure (map (with_reactions m) es)

  -- The part of GetEvents under IncludeReviews.
  unfoldable pub add_reviews : Bool → List EventData → Exec Err W (List EventData)
  unfolding by_titles
  add_reviews false es = pure es
  add_reviews true es = do
    m ← wrapping "get reviews by titles" (by_titles review_service.get_reviews_by_title [] es)
    pure (map (with_reviews m) es)

  unfoldable pub get_events : GetEventsReq → Exec Err W (List EventData)
  get_events req = do
    found ← wrapping "get events" (
        events.get_events (record {
          id = req.id;
          title = req.title;
          category = req.category;
          price_from = req.price_from;
          price_to = req.price_to;
          address = req.address;
          city = req.city;
          date_from = req.date_from;
          date_to = req.date_to;
          user_id = req.user_id;
          user = req.user;
          limit = req.limit;
          offset = req.offset;
        }))
    reacted ← add_reactions req.include_reactions (map map_event_data found)
    add_reviews req.include_reviews reacted

  -- The parts of GetEvent under IncludeReactions and IncludeReviews.
  unfoldable pub add_own_reactions : Bool → EventData → Exec Err W EventData
  add_own_reactions false e = pure e
  add_own_reactions true e = do
    r ← wrapping "get reactions by title" (reactions_by_title e.title)
    pure (record e { reactions = r })

  unfoldable pub add_own_reviews : Bool → EventData → Exec Err W EventData
  add_own_reviews false e = pure e
  add_own_reviews true e = do
    r ← wrapping "get reviews by title" (review_service.get_reviews_by_title e.title)
    pure (record e { reviews = r })

  unfoldable pub get_event : GetEventReq → Exec Err W EventData
  get_event req = do
    event ←
        map_err (λ e. if is e mongo_not_found then sentinel not_found else wrap "get event" e)
          (events.get_event req.id)
    reacted ← add_own_reactions req.include_reactions (map_event_data event)
    add_own_reviews req.include_reviews reacted

  unfoldable pub patch_event : PatchEventReq → Exec Err W (Unit {0})
  patch_event req =
      map_err (λ e. if is e mongo_not_found then sentinel not_found else wrap "patch event" e)
        (events.patch_event (record {
          id = req.id;
          created_by = req.created_by;
          category = req.category;
          city = req.city;
          price = req.price;
        }))
