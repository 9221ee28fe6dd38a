-- ===== src/App/Services/Leaving/Events.antt =====
-- The operations on events of internal/service/event.go leave the keys of sessions in Redis alone.
use ndbx.Prelude.{String, Option, List, [], Bool, true, false}
use ndbx.Exec.Stays.{Stays, wrapped_keeps, logged_keeps, then_keeps, mapped_keeps}
use ndbx.Redis.{RedisLaws}
use ndbx.Service
use ndbx.Service.{EventData}
use ndbx.Service.Event.{by_titles}
use ndbx.App.Services.{
  Drivers, event_storage, graph_storage, event_service, reactions_by_title, reviews_by_title,
  summaries,
}
use ndbx.App.Services.Storages.{
  Elsewhere, I, create_event-Stays, get_events-Stays, get_event-Stays, patch_event-Stays,
  graph_create_event-Stays,
}
use ndbx.App.Services.Leaving.Titles.{
  by_titles-leaves, reactions_by_title-leaves, reviews_by_title-leaves,
}

module _ {W : Type 0} (d : Drivers W) (laws : RedisLaws d.redis) (e : Elsewhere d laws)
    (sid field : String) (v : Option String) where
  abbrev P : W → Type 0
  P = I d laws e sid field v

  pub create_event-leaves :
      (req : Service.CreateEventReq) → Stays P ((event_service d).create_event req)
  unfolding Service.Event.create_event
  create_event-leaves req w i =
      wrapped_keeps P
        ((event_storage d).create (record {
          title = req.title;
          description = req.description;
          address = req.address;
          started_at = req.started_at;
          finished_at = req.finished_at;
          created_by = req.created_by;
        }))
        w _ _ (create_event-Stays d laws e sid field v _ w i)
        λ event w i.
          logged_keeps P ((graph_storage d).create_event event.id event.title) w _
            (graph_create_event-Stays d laws e sid field v event.id event.title w i) (λ w i. i)

  add_reactions-leaves :
      (with_them : Bool) (es : List EventData)
      → Stays P (
          Service.Event.add_reactions
            (event_storage d)
            (graph_storage d)
            (reactions_by_title d)
            (summaries d)
            with_them
            es)
  unfolding Service.Event.add_reactions
  add_reactions-leaves false es w i = i
  add_reactions-leaves true es w i =
      wrapped_keeps P (by_titles (reactions_by_title d) [] es) w _ _
        (by_titles-leaves d laws e sid field v (reactions_by_title d)
          (reactions_by_title-leaves d laws e sid field v) [] es w i)
        (λ a w i. i)

  add_reviews-leaves :
      (with_them : Bool) (es : List EventData)
      → Stays P (
          Service.Event.add_reviews
            (event_storage d)
            (graph_storage d)
            (reactions_by_title d)
            (summaries d)
            with_them
            es)
  unfolding Service.Event.add_reviews
  add_reviews-leaves false es w i = i
  add_reviews-leaves true es w i =
      wrapped_keeps P (by_titles (reviews_by_title d) [] es) w _ _
        (by_titles-leaves d laws e sid field v (reviews_by_title d)
          (reviews_by_title-leaves d laws e sid field v) [] es w i)
        (λ a w i. i)

  pub get_events-leaves : (req : Service.GetEventsReq) → Stays P ((event_service d).get_events req)
  unfolding Service.Event.get_events
  get_events-leaves req w i =
      wrapped_keeps P
        ((event_storage d).get_events (record {
          id = req.id;
          title = req.title;
          category = req.category;
          price_from = req.price_from;
          price_to = req.price_to;
          address = req.address;
          city = req.city;
          date_from = req.date_from;
          date_to = req.date_to;
          user_id = req.user_id;
          user = req.user;
          limit = req.limit;
          offset = req.offset;
        }))
        w _ _ (get_events-Stays d laws e sid field v _ w i)
        λ found w i.
          then_keeps P
            (Service.Event.add_reactions (event_storage d) (graph_storage d) (reactions_by_title d)
              (summaries d) req.include_reactions _)
            w _ (add_reactions-leaves req.include_reactions _ w i)
            λ es w i. add_reviews-leaves req.include_reviews es w i

  add_own_reactions-leaves :
      (with_them : Bool) (event : EventData)
      → Stays P (
          Service.Event.add_own_reactions
            (event_storage d)
            (graph_storage d)
            (reactions_by_title d)
            (summaries d)
            with_them
            event)
  unfolding Service.Event.add_own_reactions
  add_own_reactions-leaves false event w i = i
  add_own_reactions-leaves true event w i =
      wrapped_keeps P (reactions_by_title d event.title) w _ _
        (reactions_by_title-leaves d laws e sid field v event.title w i) (λ a w i. i)

  add_own_reviews-leaves :
      (with_them : Bool) (event : EventData)
      → Stays P (
          Service.Event.add_own_reviews
            (event_storage d)
            (graph_storage d)
            (reactions_by_title d)
            (summaries d)
            with_them
            event)
  unfolding Service.Event.add_own_reviews
  add_own_reviews-leaves false event w i = i
  add_own_reviews-leaves true event w i =
      wrapped_keeps P (reviews_by_title d event.title) w _ _
        (reviews_by_title-leaves d laws e sid field v event.title w i) (λ a w i. i)

  pub get_event-leaves : (req : Service.GetEventReq) → Stays P ((event_service d).get_event req)
  unfolding Service.Event.get_event
  get_event-leaves req w i =
      wrapped_keeps P ((event_storage d).get_event req.id) w _ _
        (get_event-Stays d laws e sid field v req.id w i)
        λ event w i.
          then_keeps P
            (Service.Event.add_own_reactions (event_storage d) (graph_storage d)
              (reactions_by_title d) (summaries d) req.include_reactions _)
            w _ (add_own_reactions-leaves req.include_reactions _ w i)
            λ es w i. add_own_reviews-leaves req.include_reviews es w i

  pub patch_event-leaves :
      (req : Service.PatchEventReq) → Stays P ((event_service d).patch_event req)
  unfolding Service.Event.patch_event
  patch_event-leaves req w i =
      mapped_keeps P
        ((event_storage d).patch_event (record {
          id = req.id;
          created_by = req.created_by;
          category = req.category;
          city = req.city;
          price = req.price;
        }))
        w _ (patch_event-Stays d laws e sid field v _ w i)
