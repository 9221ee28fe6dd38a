-- ===== src/Router/Events.antt =====
-- APICreateEvent, APIGetEvent and APIPatchEvent of internal/router/handler.go
pub mod Patched
use ndbx.Prelude.{ℕ, String, false, Option, none, some, ◌==◌, if◌then◌else◌}
use ndbx.Errors.{Err, is, not_found, already_exists}
use ndbx.Exec.{Exec, pure, fail, map_err, ◌>>=◌, ◌>>◌}
use ndbx.GoTime.{Rfc3339}
use ndbx.HttpServer.{not_empty, not_negative_field, parse_rfc3339}
use ndbx.Router.{
  Opt, Response, create_event_unauthorized, create_event_created, patch_event_unauthorized,
  patch_event_no_content, event, new_internal_error, new_conflict_error, new_not_found_error,
  SessionService, EventService, Handler, answering, valid,
}
use ndbx.Router.Cookie.{extract_sid, form_set_cookie}
use ndbx.Router.View.{to_oas_event_data, include_reactions, include_reviews}
use ndbx.Router.Auth.{session_user, authorized_user, extend_session}

pub record CreateEventRequest : Type 0 where
  pub title : String
  pub address : String
  pub description : Opt String
  pub started_at : String
  pub finished_at : String

pub record PatchEventRequest : Type 0 where
  pub category : Opt String
  pub price : Opt ℕ
  pub city : Opt String

-- o.Or(default)
abbrev pub or_default : {A : Type 0} → Opt A → A → A
or_default o d = if o.set then o.value else d

-- a pointer to the value, or nil
abbrev pub pointer : {A : Type 0} → Opt A → Option A
pointer o = if o.set then some o.value else none

abbrev pub not_yours : String
not_yours = "Not found. Be sure that event exists and you are the organizer"

module _ (clock : Rfc3339) {W : Type 0} (sessions : SessionService W) (service : EventService W)
    (session_ttl_seconds : ℕ) where
  unfoldable pub api_create_event : CreateEventRequest → Opt String → Handler W
  api_create_event req cookie =
      let sid = extract_sid cookie.value in
      let set_cookie = form_set_cookie sid session_ttl_seconds in
      let unauthorized = create_event_unauthorized set_cookie in
      answering (
        if sid == "" then fail unauthorized else (do
          valid set_cookie (not_empty "title" req.title)
          valid set_cookie (not_empty "address" req.address)
          started_at ← valid set_cookie (parse_rfc3339 clock "started_at" req.started_at)
          finished_at ← valid set_cookie (parse_rfc3339 clock "finished_at" req.finished_at)
          user_id ← session_user sessions unauthorized sid
          id ←
              map_err
                (λ e.
                  if is e already_exists
                  then new_conflict_error set_cookie "event already exists"
                  else new_internal_error)
                (service.create_event (record {
                  title = req.title;
                  description = or_default req.description "";
                  address = req.address;
                  started_at = started_at;
                  finished_at = finished_at;
                  created_by = user_id;
                }))
          extend_session sessions sid user_id
          pure (create_event_created set_cookie id)))

  unfoldable pub api_get_event : String → Opt String → Opt String → Handler W
  api_get_event id include cookie =
      let set_cookie = form_set_cookie (extract_sid cookie.value) session_ttl_seconds in
      let with_reactions = include_reactions include.value in
      let with_reviews = include_reviews include.value in
      answering (do
        found ←
            map_err
              (λ e.
                if is e not_found
                then new_not_found_error set_cookie "Not found"
                else new_internal_error)
              (service.get_event (record {
                id = id;
                include_reactions = with_reactions;
                include_reviews = with_reviews;
              }))
        pure (event set_cookie (to_oas_event_data clock found with_reactions with_reviews)))

  -- The pointer to a price that is set, which must not be negative.
  unfoldable pub checked_price : String → String → Opt ℕ → Exec Response W (Option ℕ)
  checked_price set_cookie field price =
      if price.set
      then (do valid set_cookie (not_negative_field field price.value); pure (some price.value))
      else pure none

  unfoldable pub api_patch_event : PatchEventRequest → String → Opt String → Handler W
  api_patch_event req id cookie =
      let sid = extract_sid cookie.value in
      let set_cookie = form_set_cookie sid session_ttl_seconds in
      let missing = λ (e : Err).
        if is e not_found then new_not_found_error set_cookie not_yours else new_internal_error in
      answering (do
        map_err missing (
            service.get_event
              (record { id = id; include_reactions = false; include_reviews = false }))
        user_id ← authorized_user sessions (patch_event_unauthorized set_cookie) sid
        price ← checked_price set_cookie "price" req.price
        map_err missing (
            service.patch_event (record {
              id = id;
              created_by = user_id;
              category = pointer req.category;
              city = pointer req.city;
              price = price;
            }))
        extend_session sessions sid user_id
        pure (patch_event_no_content set_cookie))
