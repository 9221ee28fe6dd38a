-- ===== src/Router/Listing/Bounds.antt =====
-- The numbers of a query that reach the service: APIGetEvents and APIGetUserEvents of
-- internal/router/handler.go.
use ndbx.Prelude.{ℕ, ◌<◌, String, ◌≡◌, inl, inr, Option, none, some, arith, if◌then◌else◌}
use ndbx.Prelude.Words.{two63}
use ndbx.Exec.{Result-cases, ok}
use ndbx.HttpServer.{not_negative_field}
use ndbx.GoTime.{Time}
use ndbx.Service
use ndbx.Router.{Opt}
use ndbx.Router.Listing.{
  EventsQuery, default_limit, default_offset, checked_or, checked_pointer, checked_query,
}

-- A price that is there is not negative.
abbrev pub InBounds : Option ℕ → Type 0
InBounds none = Unit
InBounds (some p) = p < two63

module _ {W : Type 0} (set_cookie : String) where
  checked_or_lem :
      (name : String) (default n : ℕ) (v : Opt ℕ) (w : W)
      → default < two63
      → (checked_or set_cookie name default v w).0 ≡ ok n
      → (n < two63)
        × (n ≡ (if v.set then v.value else default))
        × ((checked_or set_cookie name default v w).1 ≡ w)
  unfolding checked_or not_negative_field
  checked_or_lem name default n v w h done = (ground arith, ground arith, ground arith)

  checked_pointer_lem :
      (name : String) (p : Option ℕ) (v : Opt ℕ) (w : W)
      → (checked_pointer set_cookie name v w).0 ≡ ok p
      → InBounds p × ((checked_pointer set_cookie name v w).1 ≡ w)
  unfolding checked_pointer not_negative_field
  checked_pointer_lem name none v w done = (tt, ground arith)
  checked_pointer_lem name (some p) v w done = (ground arith, ground arith)

  -- A query that passes the checks gives a request whose limit, offset and prices are not negative,
  -- with the limit 10 and the offset 0 for those that the query has not.
  pub checked_query-bounds :
      (parse_date : String → Option Time) (id user_id user : String) (q : EventsQuery) (w : W)
      (req : Service.GetEventsReq)
      → (checked_query parse_date set_cookie id user_id user q w).0 ≡ ok req
      → (req.limit < two63)
        × (req.limit ≡ (if q.limit.set then q.limit.value else 10))
        × (req.offset < two63)
        × (req.offset ≡ (if q.offset.set then q.offset.value else 0))
        × InBounds req.price_from
        × InBounds req.price_to
  unfolding checked_query
  checked_query-bounds parse_date id user_id user q w req done =
      let limit = checked_or set_cookie "limit" default_limit q.limit w in
      let offset = checked_or set_cookie "offset" default_offset q.offset limit.1 in
      let from = checked_pointer set_cookie "price_from" q.price_from offset.1 in
      let to = checked_pointer set_cookie "price_to" q.price_to from.1 in
      elim (Result-cases limit.0) [
        | inr (e, failed) ↦ ground arith
        | inl (l, got_l) ↦ elim (Result-cases offset.0) [
          | inr (e, failed) ↦ ground arith
          | inl (o, got_o) ↦ elim (Result-cases from.0) [
            | inr (e, failed) ↦ ground arith
            | inl (f, got_f) ↦ elim (Result-cases to.0) [
              | inr (e, failed) ↦ ground arith
              | inl (t, got_t) ↦
                  let (l_lt, l_is, _) =
                    checked_or_lem "limit" default_limit l q.limit w (omega arith) got_l in
                  let (o_lt, o_is, _) =
                    checked_or_lem "offset" default_offset o q.offset limit.1 (omega arith) got_o in
                  let (f_in, _) = checked_pointer_lem "price_from" f q.price_from offset.1 got_f in
                  let (t_in, _) = checked_pointer_lem "price_to" t q.price_to from.1 got_t in
                  let same_l : req.limit ≡ l = ground arith in
                  let same_o : req.offset ≡ o = ground arith in
                  let same_f : req.price_from ≡ f = ground arith in
                  let same_t : req.price_to ≡ t = ground arith in
                  rw (same_l, same_o, same_f, same_t) (l_lt, l_is, o_lt, o_is, f_in, t_in)
            ]
          ]
        ]
      ]
