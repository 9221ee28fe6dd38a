-- ===== src/Examples/Calls.antt =====
-- Calls of the services of reviews and recommendations.
use ndbx.Prelude.{◌≡◌, refl, none, some, [], ◌∷◌}
use ndbx.Errors.{sentinel, forbidden}
use ndbx.Exec.{ok, err}
use ndbx.Cassandra.ReviewStorage.{get_review, find_review}
use ndbx.Service.{UpdateReviewReq}
use ndbx.Service.Review.{update_review}
use ndbx.Service.Review.Author.{UpdatesOwn, IsOthers, update_review-author}
use ndbx.Service.Recommendation.Answer.{Recommends, recommend-IsSelection}
use ndbx.Examples.Doubles.{sample_clock, sample_host}
use ndbx.Examples.Servers.{
  sample_events, sample_graph, no_recommendations, sample_reviews, no_review_cache, whole_floats,
}

abbrev change : UpdateReviewReq
change = record {
  event_id = "e1";
  review_id = "r1";
  user_id = "boris";
  rating = some 1;
  comment = none;
}

update_review-author_example :
    ((update_review sample_host whole_floats
          (λ t. t)
          sample_events
          sample_reviews
          no_review_cache
          60
          change
          tt).0
        ≡ ok tt
      → UpdatesOwn sample_host whole_floats
          (λ t. t)
          sample_events
          sample_reviews
          no_review_cache
          60
          change
          tt)
    × (IsOthers sample_host whole_floats
          (λ t. t)
          sample_events
          sample_reviews
          no_review_cache
          60
          change
          tt
        → update_review sample_host whole_floats
            (λ t. t)
            sample_events
            sample_reviews
            no_review_cache
            60
            change
            tt
          ≡ (err (sentinel forbidden), tt))
unfolding get_review find_review
update_review-author_example =
    update_review-author sample_host whole_floats (λ t. t) sample_events sample_reviews
      no_review_cache 60 change tt

recommend-IsSelection_example :
    Recommends sample_clock {W = Unit {0}} sample_graph sample_events no_recommendations 60 "anna"
      (record { id = "e1"; title = "Jazz"; score = 3 } ∷ [])
      tt
recommend-IsSelection_example =
    recommend-IsSelection sample_clock sample_graph sample_events no_recommendations 60 "anna"
      (record { id = "e1"; title = "Jazz"; score = 3 } ∷ []) tt refl
