-- ===== src/Examples/Requests.antt =====
-- Requests to the handlers and calls of the services.
use ndbx.Prelude.{
  eq_iff, ◌<◌, String, text_append, ◌≡◌, inl, inr, refl, ◌==◌, arith, none, some, true, false,
  if◌then◌else◌,
}
use ndbx.Prelude.Words.{two63}
use ndbx.Errors.{sentinel, not_found}
use ndbx.Exec.{ok, err}
use ndbx.GoStrings.{trim_space, has_prefix, is_space, trim_left, trim_right, split, after_first}
use ndbx.GoStrings.Laws.{Free}
use ndbx.HttpServer.{not_empty, not_negative_field, parse_rfc3339}
use ndbx.Service
use ndbx.Service.{EventData, UpdateReviewReq}
use ndbx.Router.{create_review_created, Opt, SessionService, create_event_created}
use ndbx.Router.Cookie.{sid_prefix, find_sid, extract_sid, form_set_cookie}
use ndbx.Router.Cookie.RoundTrip.{extract_sid-form_set_cookie}
use ndbx.Router.Auth.{session_user, extend_session}
use ndbx.Router.Events.{CreateEventRequest, api_create_event}
use ndbx.Router.Reviews.{ReviewRequest, api_create_event_review}
use ndbx.Router.Reviews.Rating.{api_create_event_review-rating}
use ndbx.Router.Listing.{EventsQuery, checked_query, checked_or, checked_pointer}
use ndbx.Router.Listing.Bounds.{InBounds, checked_query-bounds}
use ndbx.Router.Guarded.{NoUser, CreatedAs, api_create_event-created}
use ndbx.Examples.Doubles.{sample_clock, noon, read_seconds}
use ndbx.Examples.Servers.{sample_event_service, sample_review_service}

-- Sessions by sid: "ab12" is Anna's, and every other sid has none.
abbrev anna_sessions : SessionService (Unit {0})
anna_sessions = record {
  get_session = λ sid w. (
    if sid == "ab12"
        then ok (record { created_at = noon; updated_at = noon; user_id = "anna" })
        else err (sentinel not_found),
    w,
  );
  create_session = λ user_id w. (ok (record { sid = "cd34"; ttl = 60 }), w);
  create_or_extend_session =
      λ req w. (ok (record { sid = req.sid; ttl = 60; is_created = false }), w);
  delete_session = λ sid w. (ok tt, w);
}

abbrev cookie_of : String → Opt String
cookie_of sid = record { value = text_append sid_prefix sid; set = true }

abbrev of_stranger : Opt String
of_stranger = cookie_of "ef56"

stranger : NoUser anna_sessions (extract_sid of_stranger.value) tt
unfolding extract_sid split find_sid trim_space trim_left trim_right is_space has_prefix after_first
stranger = inr (inl (sentinel not_found, refl))

abbrev new_event : CreateEventRequest
new_event = record {
  title = "Jazz";
  address = "Main street";
  description = record { value = ""; set = false };
  started_at = "63900000000";
  finished_at = "63900000007";
}

abbrev rated : ReviewRequest
rated = record {
  comment = record { value = "good"; set = true };
  rating = record { value = 5; set = true };
}

extract_sid-form_set_cookie_example :
    (extract_sid (text_append sid_prefix "ab12") ≡ "ab12")
    × (extract_sid (form_set_cookie "ab12" 60) ≡ "ab12")
    × ((other : String)
        → Free b';' other
        → has_prefix (trim_space other) sid_prefix ≡ false
        → extract_sid (text_append other (text_append "; " (text_append sid_prefix "ab12")))
          ≡ "ab12")
extract_sid-form_set_cookie_example = extract_sid-form_set_cookie "ab12" 60 (
  inr (omega arith, omega arith),
  (
    inr (omega arith, omega arith),
    (inl (omega arith, omega arith), (inl (omega arith, omega arith), tt)),
  ),
)

api_create_event_review-rating_example :
    (api_create_event_review sample_clock anna_sessions sample_review_service 60
      (record {
        comment = record { value = "good"; set = true };
        rating = record { value = 256; set = true };
      })
      "e1"
      (cookie_of "ab12")
      tt).0
    ≡ create_review_created (form_set_cookie (extract_sid (cookie_of "ab12").value) 60) "r1"
unfolding extract_sid split find_sid trim_space trim_left trim_right is_space has_prefix after_first
    ndbx.Router.Auth.authorized_user session_user
api_create_event_review-rating_example =
    api_create_event_review-rating sample_clock anna_sessions sample_review_service 60 "good" "e1"
      "anna" "r1" 256 (cookie_of "ab12") tt (λ same. ground (arith, (eq_iff "good" "").1 same)) refl
      refl

api_create_event_done :
    (api_create_event sample_clock anna_sessions sample_event_service 60 new_event
      (cookie_of "ab12")
      tt).0
    ≡ create_event_created (form_set_cookie (extract_sid (cookie_of "ab12").value) 60) "e1"
unfolding api_create_event extract_sid split has_prefix trim_space after_first not_empty
    parse_rfc3339 read_seconds session_user extend_session
api_create_event_done = refl

api_create_event-created_example :
    CreatedAs anna_sessions sample_clock sample_event_service 60 new_event
      (cookie_of "ab12")
      tt
      "e1"
api_create_event-created_example =
    api_create_event-created anna_sessions sample_clock sample_event_service 60 new_event
      (cookie_of "ab12") tt (form_set_cookie (extract_sid (cookie_of "ab12").value) 60) "e1"
      api_create_event_done

-- A query with a limit and without the rest.
abbrev absent : {A : Type 0} → A → Opt A
absent a = record { value = a; set = false }

abbrev query : EventsQuery
query = record {
  id = absent "";
  title = absent "";
  category = absent "";
  price_from = absent 0;
  price_to = record { value = 500; set = true };
  address = absent "";
  city = absent "";
  date_from = absent "";
  date_to = absent "";
  user_id = absent "";
  user = absent "";
  limit = record { value = 3; set = true };
  offset = absent 0;
  include = absent "";
}

abbrev query_req : Service.GetEventsReq
query_req = record {
  id = "";
  title = "";
  category = "";
  price_from = none;
  price_to = some 500;
  address = "";
  city = "";
  date_from = none;
  date_to = none;
  user_id = "";
  user = "";
  limit = 3;
  offset = 0;
  include_reactions = false;
  include_reviews = false;
}

checked_query-bounds_example :
    (query_req.limit < two63)
    × (query_req.limit ≡ 3)
    × (query_req.offset < two63)
    × (query_req.offset ≡ 0)
    × InBounds none
    × InBounds (some 500)
unfolding checked_query checked_or checked_pointer not_negative_field
    ndbx.Router.View.parse_date_filter ndbx.Router.View.include_reactions
    ndbx.Router.View.include_reviews split ndbx.GoStrings.equal_fold trim_space
checked_query-bounds_example = checked_query-bounds "" (λ s. none) "" "" "" query tt query_req refl
