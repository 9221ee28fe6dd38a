-- ===== src/Router/Calls/Handling.antt =====
-- Every handler of internal/router/handler.go but the two that give a session a new user: what its
-- services keep, it keeps.
use ndbx.Prelude.{ℕ, String, ◌==◌, not, ◌||◌, Option}
use ndbx.Exec.{Exec, Result, pure, fail, map_err, ◌>>=◌, ◌>>◌}
use ndbx.Exec.Keeps.{
  Keeps, Anything, pure-Keeps, fail-Keeps, lift-Keeps, if-Keeps, bind-Keeps, map_err-Keeps,
}
use ndbx.GoTime.{Time}
use ndbx.HttpServer.{not_empty, parse_rfc3339, not_negative_field}
use ndbx.Service
use ndbx.Router.{Opt, Response, valid, answering}
use ndbx.Router.Cookie.{extract_sid}
use ndbx.Router.View.{parse_date_filter}
use ndbx.Router.Auth.{extend_session}
use ndbx.Router.Sessions.{api_health, api_session, api_logout}
use ndbx.Router.Events.{
  CreateEventRequest, PatchEventRequest, checked_price, api_create_event, api_get_event,
  api_patch_event,
}
use ndbx.Router.Listing.{
  EventsQuery, checked_or, checked_pointer, checked_query, list_events, api_get_events,
  api_get_user_events,
}
use ndbx.Router.Users.{api_get_users, api_get_user}
use ndbx.Router.Reactions.{api_like_event, api_dislike_event}
use ndbx.Router.Reviews.{
  ReviewRequest, api_create_event_review, api_get_event_reviews, api_update_event_review,
}
use ndbx.Router.Recommendations.{api_get_recommendations}
use ndbx.Router.Calls.{
  Services, Call, create_event, create_event_review, dislike_event, like_event, get_event,
  get_event_reviews, get_events, get_recommendations, get_user, get_user_events, get_users, health,
  login, logout, patch_event, register, session, update_event_review, handle,
}
use ndbx.Router.Calls.Keeping.{
  KeepsSessions, answering-keeps, session_user-Keeps, authorized_user-Keeps, extend_session-Keeps,
  react-keeps,
}

-- The services other than that of sessions keep `I`, whatever they are asked.
pub record KeepsServices {W : Type 0} (s : Services W) (I : W → Type 0) : Type 0 where
  pub get_users : (req : Service.GetUsersReq) → Keeps I (s.accounts.get_users req) (Anything I)
  pub get_user : (id : String) → Keeps I (s.accounts.get_user id) (Anything I)
  pub create_event :
      (req : Service.CreateEventReq) → Keeps I (s.events.create_event req) (Anything I)
  pub get_events : (req : Service.GetEventsReq) → Keeps I (s.events.get_events req) (Anything I)
  pub get_event : (req : Service.GetEventReq) → Keeps I (s.events.get_event req) (Anything I)
  pub patch_event : (req : Service.PatchEventReq) → Keeps I (s.events.patch_event req) (Anything I)
  pub like_event : (req : Service.ReactEventReq) → Keeps I (s.events.like_event req) (Anything I)
  pub dislike_event :
      (req : Service.ReactEventReq) → Keeps I (s.events.dislike_event req) (Anything I)
  pub create_review :
      (req : Service.CreateReviewReq) → Keeps I (s.reviews.create_review req) (Anything I)
  pub get_reviews : (req : Service.GetReviewsReq) → Keeps I (s.reviews.get_reviews req) (Anything I)
  pub update_review :
      (req : Service.UpdateReviewReq) → Keeps I (s.reviews.update_review req) (Anything I)
  pub get_recommendations :
      (user_id : String) → Keeps I (s.recommendations.get_recommendations user_id) (Anything I)

-- The calls that give a session a new user.
abbrev pub IsEntry : Call → Type 0
IsEntry (login req) = Unit
IsEntry (register req) = Unit
IsEntry _ = ⊥

module _ {W : Type 0} (s : Services W) (I : W → Type 0) (Fair : String → Type 0)
    (k : KeepsSessions s.sessions I Fair) (q : KeepsServices s I) where
  -- `a ← m; …`, where nothing is asked of the value
  then_any :
      {E A B : Type 0} (m : Exec E W A) (f : A → Exec E W B)
      → Keeps I m (Anything I)
      → ((a : A) → Keeps I (f a) (Anything I))
      → Keeps I (m >>= f) (Anything I)
  then_any m f first rest = bind-Keeps I (Anything I) (Anything I) m f first (λ a _. rest a)

  -- `user_id ← m; …`
  then_user :
      {E B : Type 0} (m : Exec E W String) (f : String → Exec E W B)
      → Keeps I m Fair
      → ((a : String) → Fair a → Keeps I (f a) (Anything I))
      → Keeps I (m >>= f) (Anything I)
  then_user m f = bind-Keeps I Fair (Anything I) m f

  mapped :
      {E F A : Type 0} (f : E → F) (m : Exec E W A)
      → Keeps I m (Anything I)
      → Keeps I (map_err f m) (Anything I)
  mapped f m = map_err-Keeps I (Anything I) f m

  done : {E A : Type 0} (a : A) → Keeps I (pure {E = E} a) (Anything I)
  done a = pure-Keeps I (Anything I) a tt

  refused : {E A : Type 0} (e : E) → Keeps I (fail {A = A} e) (Anything I)
  refused e = fail-Keeps I (Anything I) e

  valid-Keeps :
      {A : Type 0} (set_cookie : String) (r : Result String A)
      → Keeps I (valid set_cookie r) (Anything I)
  valid-Keeps set_cookie r = mapped _ _ (lift-Keeps I (Anything I) r (λ a e. tt))

  extended :
      (sid user_id : String) (r : Response)
      → Fair user_id
      → Keeps I (do extend_session s.sessions sid user_id; pure r) (Anything I)
  extended sid user_id r fair =
      then_any _ _ (extend_session-Keeps s.sessions I Fair k sid user_id fair) (λ _. done r)

  create_event-keeps :
      (req : CreateEventRequest) (cookie : Opt String) (w : W)
      → I w
      → I (handle s (create_event req) cookie w).1
  unfolding api_create_event
  create_event-keeps req cookie = answering-keeps s.sessions I Fair k (Anything I) _ (
      if-Keeps I (Anything I) (extract_sid cookie.value == "") _ _ (λ t. refused _)
        λ t. then_any _ _ (valid-Keeps _ (not_empty "title" req.title)) λ _.
          then_any _ _ (valid-Keeps _ (not_empty "address" req.address)) λ _.
            then_any _ _ (valid-Keeps _ (parse_rfc3339 s.clock "started_at" req.started_at)) λ _.
              then_any _ _ (valid-Keeps _ (parse_rfc3339 s.clock "finished_at" req.finished_at))
                λ _.
                  then_user _ _ (session_user-Keeps s.sessions I Fair k _ _) λ u fair.
                    then_any _ _ (mapped _ _ (q.create_event _)) λ id. extended _ u _ fair)

  checked_price-Keeps :
      (set_cookie field : String) (price : Opt ℕ)
      → Keeps I
          (checked_price s.clock s.sessions s.events s.session_ttl_seconds set_cookie field price)
          (Anything I)
  unfolding checked_price
  checked_price-Keeps set_cookie field price =
      if-Keeps I (Anything I) price.set _ _
        (λ t.
          then_any _ _ (valid-Keeps set_cookie (not_negative_field field price.value))
            (λ _. done _))
        (λ t. done _)

  checked_or-Keeps :
      (set_cookie field : String) (default : ℕ) (v : Opt ℕ)
      → Keeps I (checked_or set_cookie field default v) (Anything I)
  unfolding checked_or
  checked_or-Keeps set_cookie field default v =
      if-Keeps I (Anything I) v.set _ _
        (λ t.
          then_any _ _ (valid-Keeps set_cookie (not_negative_field field v.value)) (λ _. done _))
        (λ t. done _)

  checked_pointer-Keeps :
      (set_cookie field : String) (v : Opt ℕ)
      → Keeps I (checked_pointer set_cookie field v) (Anything I)
  unfolding checked_pointer
  checked_pointer-Keeps set_cookie field v =
      if-Keeps I (Anything I) v.set _ _
        (λ t.
          then_any _ _ (valid-Keeps set_cookie (not_negative_field field v.value)) (λ _. done _))
        (λ t. done _)

  checked_query-Keeps :
      (parse_date : String → Option Time) (set_cookie id user_id user : String) (e : EventsQuery)
      → Keeps I (checked_query parse_date set_cookie id user_id user e) (Anything I)
  unfolding checked_query
  checked_query-Keeps parse_date set_cookie id user_id user e =
      then_any _ _ (checked_or-Keeps _ _ _ e.limit) λ _.
        then_any _ _ (checked_or-Keeps _ _ _ e.offset) λ _.
          then_any _ _ (checked_pointer-Keeps _ _ e.price_from) λ _.
            then_any _ _ (checked_pointer-Keeps _ _ e.price_to) λ _.
              then_any _ _ (valid-Keeps _ (parse_date_filter parse_date "date_from" e.date_from))
                λ _.
                  then_any _ _ (valid-Keeps _ (parse_date_filter parse_date "date_to" e.date_to))
                    λ _. done _

  list_events-Keeps :
      (set_cookie : String) (e : EventsQuery) (req : Service.GetEventsReq)
      → Keeps I
          (list_events s.clock s.parse_date s.events s.accounts s.session_ttl_seconds set_cookie e
            req)
          (Anything I)
  unfolding list_events
  list_events-Keeps set_cookie e req = then_any _ _ (mapped _ _ (q.get_events req)) (λ _. done _)

  patch_event-keeps :
      (req : PatchEventRequest) (id : String) (cookie : Opt String) (w : W)
      → I w
      → I (handle s (patch_event req id) cookie w).1
  unfolding api_patch_event
  patch_event-keeps req id cookie = answering-keeps s.sessions I Fair k (Anything I) _ (
      then_any _ _ (mapped _ _ (q.get_event _)) λ _.
        then_user _ _ (authorized_user-Keeps s.sessions I Fair k _ _) λ u fair.
          then_any _ _ (checked_price-Keeps _ _ req.price)
            λ _. then_any _ _ (mapped _ _ (q.patch_event _)) (λ _. extended _ u _ fair))

  create_event_review-keeps :
      (req : ReviewRequest) (event_id : String) (cookie : Opt String) (w : W)
      → I w
      → I (handle s (create_event_review req event_id) cookie w).1
  unfolding api_create_event_review
  create_event_review-keeps req event_id cookie =
      answering-keeps s.sessions I Fair k (Anything I) _ (
        if-Keeps I (Anything I) (not req.comment.set || req.comment.value == "") _ _
          (λ t. refused _)
          λ t.
            if-Keeps I (Anything I) (not req.rating.set) _ _ (λ t. refused _)
              λ t.
                then_user _ _ (authorized_user-Keeps s.sessions I Fair k _ _)
                  λ u fair. then_any _ _ (mapped _ _ (q.create_review _)) λ id. extended _ u _ fair)

  update_event_review-keeps :
      (req : ReviewRequest) (event_id review_id : String) (cookie : Opt String) (w : W)
      → I w
      → I (handle s (update_event_review req event_id review_id) cookie w).1
  unfolding api_update_event_review
  update_event_review-keeps req event_id review_id cookie =
      answering-keeps s.sessions I Fair k (Anything I) _ (
        then_user _ _ (authorized_user-Keeps s.sessions I Fair k _ _)
          λ u fair. then_any _ _ (mapped _ _ (q.update_review _)) (λ _. extended _ u _ fair))

  session-keeps : (cookie : Opt String) (w : W) → I w → I (handle s session cookie w).1
  unfolding api_session
  session-keeps cookie = answering-keeps s.sessions I Fair k (Anything I) _ (
      if-Keeps I (Anything I) (extract_sid cookie.value == "") _ _
        (λ t. then_any _ _ (mapped _ _ (k.create "" k.nobody)) (λ _. done _))
        (λ t. then_any _ _ (mapped _ _ (k.extend _ "" k.nobody)) (λ _. done _)))

  logout-keeps : (cookie : Opt String) (w : W) → I w → I (handle s logout cookie w).1
  unfolding api_logout
  logout-keeps cookie = answering-keeps s.sessions I Fair k (Anything I) _ (
      if-Keeps I (Anything I) (extract_sid cookie.value == "") _ _ (λ t. done _)
        (λ t. then_any _ _ (mapped _ _ (k.delete _)) (λ _. done _)))

  -- The calls that only read.
  reading-keeps :
      (m : Exec Response W Response) → Keeps I m (Anything I) → (w : W) → I w → I (answering m w).1
  reading-keeps m = answering-keeps s.sessions I Fair k (Anything I) m

  -- Every call but a login and a registration keeps what the services keep.
  pub handle-keeps :
      (c : Call) → ¬ IsEntry c → (cookie : Opt String) (w : W) → I w → I (handle s c cookie w).1
  unfolding api_get_event api_get_event_reviews api_get_events api_get_recommendations api_get_user
      api_get_user_events api_get_users api_health api_like_event api_dislike_event
  handle-keeps (create_event req) other cookie = create_event-keeps req cookie
  handle-keeps (create_event_review req id) other cookie = create_event_review-keeps req id cookie
  handle-keeps (dislike_event id) other cookie =
      react-keeps s.sessions I Fair k _ _ _ _ id cookie q.dislike_event s.events
  handle-keeps (like_event id) other cookie =
      react-keeps s.sessions I Fair k _ _ _ _ id cookie q.like_event s.events
  handle-keeps (get_event id include) other cookie =
      reading-keeps _ (then_any _ _ (mapped _ _ (q.get_event _)) (λ _. done _))
  handle-keeps (get_event_reviews id limit offset) other cookie = reading-keeps _ (
      then_any _ _ (checked_or-Keeps _ _ _ limit) λ _.
        then_any _ _ (checked_or-Keeps _ _ _ offset)
          λ _. then_any _ _ (mapped _ _ (q.get_reviews _)) (λ _. done _))
  handle-keeps (get_events e) other cookie =
      reading-keeps _
        (then_any _ _ (checked_query-Keeps _ _ _ _ _ e) (λ req. list_events-Keeps _ e req))
  handle-keeps get_recommendations other cookie = reading-keeps _ (
      then_user _ _ (authorized_user-Keeps s.sessions I Fair k _ _)
        λ u _. then_any _ _ (mapped _ _ (q.get_recommendations u)) (λ _. done _))
  handle-keeps (get_user id) other cookie =
      reading-keeps _ (then_any _ _ (mapped _ _ (q.get_user id)) (λ _. done _))
  handle-keeps (get_user_events id e) other cookie = reading-keeps _ (
      then_any _ _ (mapped _ _ (q.get_user id))
        λ _. then_any _ _ (checked_query-Keeps _ _ _ _ _ e) (λ req. list_events-Keeps _ e req))
  handle-keeps (get_users e) other cookie = reading-keeps _ (
      then_any _ _ (checked_or-Keeps _ _ _ e.limit) λ _.
        then_any _ _ (checked_or-Keeps _ _ _ e.offset)
          λ _. then_any _ _ (mapped _ _ (q.get_users _)) (λ _. done _))
  handle-keeps health other cookie = λ w i. i
  handle-keeps (login req) other cookie = λ w i. absurd (other tt)
  handle-keeps logout other cookie = logout-keeps cookie
  handle-keeps (patch_event req id) other cookie = patch_event-keeps req id cookie
  handle-keeps (register req) other cookie = λ w i. absurd (other tt)
  handle-keeps session other cookie = session-keeps cookie
  handle-keeps (update_event_review req id review_id) other cookie =
      update_event_review-keeps req id review_id cookie
