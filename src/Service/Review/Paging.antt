-- ===== src/Service/Review/Paging.antt =====
-- What of a request GetReviews of internal/service/review.go reads.
use ndbx.Prelude.{ℕ, String, ◌≡◌, refl}
use ndbx.GoTime.{Host}
use ndbx.Float64.{Float64}
use ndbx.Service.{GetReviewsReq}
use ndbx.Service.Ports.{EventStorage, ReviewStorage, ReviewCache}
use ndbx.Service.Review.{get_reviews}

-- Two requests for the reviews of one event have the same outcome, whatever their limits and
-- offsets.
pub get_reviews-paging :
    {W : Type 0} (host : Host W) (floats : Float64) (title_md5 : String → String)
    (events : EventStorage W) (reviews : ReviewStorage W) (cache : ReviewCache W) (ttl : ℕ)
    (a b : GetReviewsReq) (w : W)
    → a.event_id ≡ b.event_id
    → get_reviews host floats title_md5 events reviews cache ttl a w
      ≡ get_reviews host floats title_md5 events reviews cache ttl b w
unfolding get_reviews
get_reviews-paging host floats title_md5 events reviews cache ttl a b w same = rw same refl
