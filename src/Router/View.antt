-- ===== src/Router/View.antt =====
-- toOASEventData, includeReactions, includeReviews and parseDateFilter of
-- internal/router/handler.go
use ndbx.Prelude.{
  String, Bool, true, false, not, ◌||◌, Option, none, some, List, [], ◌∷◌, ◌==◌, nat_eq,
  if◌then◌else◌,
}
use ndbx.Exec.{Result, ok, err}
use ndbx.GoTime.{Time, Rfc3339}
use ndbx.GoStrings.{split, trim_space, equal_fold}
use ndbx.HttpServer.{invalid_field}
use ndbx.Service.{EventData}
use ndbx.Router.{Opt, OasEventData}

abbrev pub some_text : String → Option String
some_text s = if s == "" then none else some s

unfoldable pub to_oas_event_data : Rfc3339 → EventData → Bool → Bool → OasEventData
to_oas_event_data clock event with_reactions with_reviews = record {
  id = event.id;
  title = event.title;
  category = some_text event.category;
  price =
      if not (event.category == "") || not (nat_eq event.price 0) then some event.price else none;
  description = record { value = event.description; set = not (event.description == "") };
  location = record { address = event.location.address; city = some_text event.location.city };
  started_at = clock.format event.started_at;
  finished_at = clock.format event.finished_at;
  created_at = clock.format event.created_at;
  created_by = event.created_by;
  reactions =
      if with_reactions
      then some (record { likes = event.reactions.likes; dislikes = event.reactions.dislikes })
      else none;
  reviews =
      if with_reviews
      then some (record { count = event.reviews.count; rating = event.reviews.rating })
      else none;
}

-- The loop over the parts of `include`.
unfoldable pub any_part : String → List String → Bool
any_part word [] = false
any_part word (part ∷ parts) =
    if equal_fold (trim_space part) word then true else any_part word parts

unfoldable pub include_reactions : String → Bool
unfolding any_part
include_reactions include = any_part "reactions" (split b',' include)

unfoldable pub include_reviews : String → Bool
unfolding any_part
include_reviews include = any_part "reviews" (split b',' include)

-- `parse_date` is time.Parse("20060102", s).
unfoldable pub parse_date_filter :
    (String → Option Time) → String → Opt String → Result String (Option Time)
parse_date_filter parse_date field v =
    if not v.set || v.value == ""
    then ok none
    else elim (parse_date v.value) [ none ↦ err (invalid_field field) | some t ↦ ok (some t) ]
