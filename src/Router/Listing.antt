-- ===== src/Router/Listing.antt =====
-- APIGetEvents and APIGetUserEvents of internal/router/handler.go
pub mod Bounds
use ndbx.Prelude.{ℕ, String, Option, none, some, map, length, if◌then◌else◌}
use ndbx.Errors.{is, not_found}
use ndbx.Exec.{Exec, pure, map_err, ◌>>=◌, ◌>>◌}
use ndbx.GoTime.{Time, Rfc3339}
use ndbx.HttpServer.{not_negative_field}
use ndbx.Service
use ndbx.Router.{
  Opt, Response, events, new_internal_error, new_not_found_error, UserService, EventService,
  Handler, answering, valid,
}
use ndbx.Router.Cookie.{extract_sid, form_set_cookie}
use ndbx.Router.View.{to_oas_event_data, include_reactions, include_reviews, parse_date_filter}

abbrev pub default_limit : ℕ
default_limit = 10

abbrev pub default_offset : ℕ
default_offset = 0

-- The query of both handlers; APIGetUserEvents has no `id`, `user_id` and `user` in it.
pub record EventsQuery : Type 0 where
  pub id : Opt String
  pub title : Opt String
  pub category : Opt String
  pub price_from : Opt ℕ
  pub price_to : Opt ℕ
  pub address : Opt String
  pub city : Opt String
  pub date_from : Opt String
  pub date_to : Opt String
  pub user_id : Opt String
  pub user : Opt String
  pub limit : Opt ℕ
  pub offset : Opt ℕ
  pub include : Opt String

module _ {W : Type 0} where
  -- `if params.X.IsSet() { check; x = value }`, from a default
  unfoldable pub checked_or : String → String → ℕ → Opt ℕ → Exec Response W ℕ
  checked_or set_cookie field default v =
      if v.set
      then (do valid set_cookie (not_negative_field field v.value); pure v.value)
      else pure default

  -- the same for a pointer, from nil
  unfoldable pub checked_pointer : String → String → Opt ℕ → Exec Response W (Option ℕ)
  checked_pointer set_cookie field v =
      if v.set
      then (do valid set_cookie (not_negative_field field v.value); pure (some v.value))
      else pure none

  -- The checks of a query, in their order, and the request that they give, for one user id or
  -- filter.
  unfoldable pub checked_query :
      (String → Option Time)
      → String
      → (id user_id user : String) → EventsQuery
      → Exec Response W Service.GetEventsReq
  checked_query parse_date set_cookie id user_id user q = do
    limit ← checked_or set_cookie "limit" default_limit q.limit
    offset ← checked_or set_cookie "offset" default_offset q.offset
    price_from ← checked_pointer set_cookie "price_from" q.price_from
    price_to ← checked_pointer set_cookie "price_to" q.price_to
    date_from ← valid set_cookie (parse_date_filter parse_date "date_from" q.date_from)
    date_to ← valid set_cookie (parse_date_filter parse_date "date_to" q.date_to)
    pure (record {
      id = id;
      title = q.title.value;
      category = q.category.value;
      price_from = price_from;
      price_to = price_to;
      address = q.address.value;
      city = q.city.value;
      date_from = date_from;
      date_to = date_to;
      user_id = user_id;
      user = user;
      limit = limit;
      offset = offset;
      include_reactions = include_reactions q.include.value;
      include_reviews = include_reviews q.include.value;
    })

module _ (clock : Rfc3339) (parse_date : String → Option Time) {W : Type 0}
    (service : EventService W) (accounts : UserService W) (session_ttl_seconds : ℕ) where
  -- The answer of both handlers.
  unfoldable pub list_events :
      String → EventsQuery → Service.GetEventsReq → Exec Response W Response
  list_events set_cookie q req = do
    found ← map_err (λ _. new_internal_error) (service.get_events req)
    let view = λ (e : Service.EventData).
        to_oas_event_data clock e (include_reactions q.include.value)
          (include_reviews q.include.value)
    pure (events set_cookie (map view found) (length found))

  unfoldable pub api_get_events : EventsQuery → Opt String → Handler W
  api_get_events q cookie =
      let set_cookie = form_set_cookie (extract_sid cookie.value) session_ttl_seconds in
      answering (do
        req ← checked_query parse_date set_cookie q.id.value q.user_id.value q.user.value q
        list_events set_cookie q req)

  unfoldable pub api_get_user_events : String → EventsQuery → Opt String → Handler W
  api_get_user_events user_id q cookie =
      let set_cookie = form_set_cookie (extract_sid cookie.value) session_ttl_seconds in
      answering (do
        map_err
            (λ e.
              if is e not_found
              then new_not_found_error set_cookie "User not found"
              else new_internal_error)
            (accounts.get_user user_id)
        req ← checked_query parse_date set_cookie "" user_id "" q
        list_events set_cookie q req)
