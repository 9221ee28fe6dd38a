-- ===== src/Service/Recommendation/RoundTrip.antt =====
-- What the cache keeps of an event: the two conversions in internal/service/recommendation.go.
use ndbx.Prelude.{
  false, ◌<◌, ◌≡◌, inl, inr, refl, ap, ◌==◌, eq_iff, Bool-cases, map, List, [], ◌∷◌, All,
}
use ndbx.GoTime.{Time, Rfc3339, year_10000, whole_second}
use ndbx.Service.{EventData}
use ndbx.Service.Title.{no_reactions, no_reviews}
use ndbx.Service.Recommendation.{must_parse_time, from_cached, to_cached}

-- A time in UTC whose year has four digits.
abbrev pub IsPlain : Time → Type 0
IsPlain t = (t.zone ≡ 0) × (t.nanos < year_10000)

pub record HasPlainTimes (e : EventData) : Type 0 where
  pub created : IsPlain e.created_at
  pub started : IsPlain e.started_at
  pub finished : IsPlain e.finished_at

-- The event with its times cut to the second, and without the numbers of reactions and reviews.
abbrev pub cacheable : EventData → EventData
cacheable e = record e {
  created_at = whole_second e.created_at;
  started_at = whole_second e.started_at;
  finished_at = whole_second e.finished_at;
  reactions = no_reactions;
  reviews = no_reviews;
}

module _ (clock : Rfc3339) where
  parsed : (t : Time) → IsPlain t → must_parse_time clock (clock.format t) ≡ whole_second t
  unfolding must_parse_time
  parsed t (z, y) = rw (clock.parse-format t z y, must_parse_time) refl

  not_empty : (t : Time) → IsPlain t → (clock.format t == "") ≡ false
  not_empty t (z, y) = elim (Bool-cases (clock.format t == "")) [
    | inr other ↦ other
    | inl same ↦ absurd (
        cc (
          clock.parse_empty,
          clock.parse-format t z y,
          ap clock.parse ((eq_iff (clock.format t) "").0 same),
        ))
  ]

  cached_event :
      (e : EventData) → HasPlainTimes e → from_cached clock (to_cached clock e) ≡ cacheable e
  unfolding from_cached to_cached
  cached_event e h =
      rw
        (
          not_empty e.created_at h.created,
          parsed e.created_at h.created,
          parsed e.started_at h.started,
          parsed e.finished_at h.finished,
        )
        refl

  -- The events that go into the cache of recommendations come back from it with their times cut to
  -- the second and no numbers of reactions and reviews, where all their times are in UTC and have
  -- years of four digits.
  from_cached-to_cached :
      (es : List EventData)
      → All HasPlainTimes es
      → map (from_cached clock) (map (to_cached clock) es) ≡ map cacheable es
  from_cached-to_cached [] h = refl
  from_cached-to_cached (e ∷ es) (p, h) = cc (cached_event e p, from_cached-to_cached es h)
