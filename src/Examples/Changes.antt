-- ===== src/Examples/Changes.antt =====
-- A patch of an event, a page of reviews, and sums of ratings.
use ndbx.Prelude.{String, ◌≡◌, refl, ◌%◌, true, false, [], ◌∷◌, length}
use ndbx.Prelude.Words.{two64}
use ndbx.Exec.{ok}
use ndbx.Cassandra.{ReviewStats}
use ndbx.Cassandra.ReviewStorage.{get_review_stats_by_event_ids}
use ndbx.Cassandra.ReviewStorage.Sums.{
  sum_of_ratings, ratings_read, get_review_stats_by_event_ids_lem,
}
use ndbx.Service.{GetReviewsReq}
use ndbx.Service.Title.{map_event_data}
use ndbx.Service.Review.{get_reviews}
use ndbx.Service.Review.Paging.{get_reviews-paging}
use ndbx.Router.{Opt, SessionService, EventService, patch_event_no_content}
use ndbx.Router.Cookie.{extract_sid, form_set_cookie}
use ndbx.Router.Events.{PatchEventRequest, api_patch_event}
use ndbx.Router.Events.Patched.{PatchedAs, api_patch_event-owner}
use ndbx.Examples.Doubles.{sample_clock, sample_host, noon}
use ndbx.Examples.Servers.{
  sample_events, sample_reviews, no_review_cache, whole_floats, sample_event_service,
  sample_stored_event, sample_cassandra,
}

abbrev first_page : GetReviewsReq
first_page = record { event_id = "e1"; limit = 10; offset = 0 }

abbrev second_page : GetReviewsReq
second_page = record { event_id = "e1"; limit = 10; offset = 10 }

get_reviews-paging_example :
    get_reviews {W = Unit {0}} sample_host whole_floats
      (λ t. t)
      sample_events
      sample_reviews
      no_review_cache
      60
      first_page
      tt
    ≡ get_reviews {W = Unit {0}} sample_host whole_floats
        (λ t. t)
        sample_events
        sample_reviews
        no_review_cache
        60
        second_page
        tt
get_reviews-paging_example =
    get_reviews-paging sample_host whole_floats (λ t. t) sample_events sample_reviews
      no_review_cache 60 first_page second_page tt refl

get_review_stats_by_event_ids_lem_example :
    (2 ≡ length (ratings_read {W = Unit {0}} sample_cassandra ("e1" ∷ "e2" ∷ []) tt) % two64)
    × (8
        ≡ sum_of_ratings (ratings_read {W = Unit {0}} sample_cassandra ("e1" ∷ "e2" ∷ []) tt)
          % two64)
unfolding get_review_stats_by_event_ids ndbx.Cassandra.ReviewStorage.add_events
    ndbx.Cassandra.ReviewStorage.add_ratings
get_review_stats_by_event_ids_lem_example =
    get_review_stats_by_event_ids_lem sample_cassandra ("e1" ∷ "e2" ∷ []) tt
      (record { count = 2; sum = 8 }) refl

-- Every session is Anna's, and there is one event.
abbrev annas : SessionService (Unit {0})
annas = record {
  get_session =
      λ sid w. (ok (record { created_at = noon; updated_at = noon; user_id = "anna" }), w);
  create_session = λ user_id w. (ok (record { sid = "cd34"; ttl = 60 }), w);
  create_or_extend_session =
      λ req w. (ok (record { sid = req.sid; ttl = 60; is_created = false }), w);
  delete_session = λ sid w. (ok tt, w);
}

abbrev one_event : EventService (Unit {0})
one_event = record sample_event_service {
  get_event = λ req w. (ok (map_event_data sample_stored_event), w);
}

abbrev cheaper : PatchEventRequest
cheaper = record {
  category = record { value = ""; set = false };
  price = record { value = 5; set = true };
  city = record { value = ""; set = false };
}

abbrev cookie_ab12 : Opt String
cookie_ab12 = record { value = "X-Session-Id=ab12"; set = true }

patched :
    (api_patch_event sample_clock annas one_event 60 cheaper "e1" cookie_ab12 tt).0
    ≡ patch_event_no_content (form_set_cookie (extract_sid cookie_ab12.value) 60)
unfolding api_patch_event ndbx.Router.Auth.authorized_user extract_sid ndbx.GoStrings.split
    ndbx.GoStrings.has_prefix ndbx.GoStrings.trim_space ndbx.GoStrings.after_first
    ndbx.Router.Auth.session_user ndbx.Router.Events.checked_price
    ndbx.HttpServer.not_negative_field ndbx.Router.Auth.extend_session
patched = refl

api_patch_event-owner_example :
    PatchedAs sample_clock annas one_event 60 cheaper "e1" cookie_ab12 tt
api_patch_event-owner_example =
    api_patch_event-owner sample_clock annas one_event 60 cheaper "e1" cookie_ab12 tt
      (form_set_cookie (extract_sid cookie_ab12.value) 60) patched
