-- ===== src/Ogen/Serving/Answers.antt =====
-- What each handler of internal/router/handler.go answers: an error, or one of the answers that its
-- operation has in internal/router/ogen/oas_schemas_gen.go.
use ndbx.Prelude.{List, ℕ, String, ◌==◌}
use ndbx.Errors.{Err, is, not_found, already_exists}
use ndbx.Exec.{Exec}
use ndbx.Exec.Yields.{Any, Yields, if-Yields}
use ndbx.HttpServer.{not_empty, not_negative_field, parse_rfc3339}
use ndbx.Service
use ndbx.Router.{
  Opt, OasEventData, events, event, users, user, Response, create_event_unauthorized,
  create_event_created, patch_event_unauthorized, patch_event_no_content,
}
use ndbx.Router.Cookie.{extract_sid}
use ndbx.Router.Events.{
  CreateEventRequest, PatchEventRequest, checked_price, api_create_event, api_get_event,
  api_patch_event,
}
use ndbx.Router.Listing.{EventsQuery, list_events, api_get_events, api_get_user_events}
use ndbx.Router.Users.{UsersQuery, api_get_users, api_get_user}
use ndbx.Router.Reactions.{react}
use ndbx.Router.Calls.{
  Services, create_event, get_event, get_events, get_user, get_user_events, get_users, patch_event,
  handle,
}
use ndbx.Ogen.Serving.Steps.{
  Errors, or_internal, answer, called, answered, done, refused, then_any, valid-Yields,
  session_user-Yields, authorized_user-Yields, extend_session-Yields,
  validate_reaction_session-Yields, checked_or-Yields, checked_query-Yields,
}

module _ (R : Response → Type 0) (errors : Errors R) {W : Type 0} (s : Services W) where
  pub create_event-answer :
      (req : CreateEventRequest) (cookie : Opt String)
      → ((c : String) → R (create_event_unauthorized c))
      → ((c id : String) → R (create_event_created c id))
      → (w : W) → R (handle s (create_event req) cookie w).0
  unfolding api_create_event
  create_event-answer req cookie unauthorized created = answered {R = R} _ (
      if-Yields R R (extract_sid cookie.value == "") _ _ (refused _ (unauthorized _)) (
        then_any _ _ (valid-Yields errors _ (not_empty "title" req.title)) λ _.
          then_any _ _ (valid-Yields errors _ (not_empty "address" req.address)) λ _.
            then_any _ _ (valid-Yields errors _ (parse_rfc3339 s.clock "started_at" req.started_at))
              λ _.
                then_any _ _
                  (valid-Yields errors _ (parse_rfc3339 s.clock "finished_at" req.finished_at))
                  λ _.
                    then_any _ _ (session_user-Yields errors s.sessions _ _ (unauthorized _))
                      λ user_id.
                        then_any _ _
                          (called (s.events.create_event _) _
                            (λ e. or_internal R errors (is e already_exists) _ (errors 409 _ _)))
                          λ id.
                            then_any _ _ (extend_session-Yields errors s.sessions _ user_id)
                              (λ _. answer _ (created _ id))))

  pub get_event-answer :
      (id : String) (include cookie : Opt String)
      → ((c : String) (e : OasEventData) → R (event c e))
      → (w : W) → R (handle s (get_event id include) cookie w).0
  unfolding api_get_event
  get_event-answer id include cookie found = answered {R = R} _ (
      then_any _ _
        (called (s.events.get_event _) _
          (λ e. or_internal R errors (is e not_found) _ (errors 404 _ _)))
        λ e. answer _ (found _ _))

  checked_price-Yields :
      (c field : String) (price : Opt ℕ)
      → Yields R (checked_price s.clock s.sessions s.events s.session_ttl_seconds c field price) Any
  unfolding checked_price
  checked_price-Yields c field price =
      if-Yields R Any price.set _ _
        (then_any _ _ (valid-Yields errors c (not_negative_field field price.value)) (λ _. done _))
        (done _)

  pub patch_event-answer :
      (req : PatchEventRequest) (id : String) (cookie : Opt String)
      → ((c : String) → R (patch_event_unauthorized c))
      → ((c : String) → R (patch_event_no_content c))
      → (w : W) → R (handle s (patch_event req id) cookie w).0
  unfolding api_patch_event
  patch_event-answer req id cookie unauthorized no_content = answered {R = R} _ (
      then_any _ _
        (called (s.events.get_event _) _
          (λ e. or_internal R errors (is e not_found) _ (errors 404 _ _)))
        λ _. then_any _ _ (authorized_user-Yields errors s.sessions _ _ (unauthorized _)) λ user_id.
          then_any _ _ (checked_price-Yields _ _ req.price) λ _.
            then_any _ _
              (called (s.events.patch_event _) _
                (λ e. or_internal R errors (is e not_found) _ (errors 404 _ _)))
              λ _.
                then_any _ _ (extend_session-Yields errors s.sessions _ user_id)
                  (λ _. answer _ (no_content _)))

  pub react-answer :
      (operation : Service.ReactEventReq → Exec Err W (Unit {0})) (unauthorized : Response)
      (no_content : String → Response) (id : String) (cookie : Opt String)
      → R unauthorized
      → ((c : String) → R (no_content c))
      → (w : W)
      → R
          (react s.sessions s.events s.session_ttl_seconds operation unauthorized no_content id
            cookie w).0
  unfolding react
  react-answer operation unauthorized no_content id cookie refuses_it answers = answered {R = R} _ (
      then_any _ _ (validate_reaction_session-Yields errors s.sessions _ _) λ state.
        if-Yields R R state.authorized _ _
          (then_any _ _
            (called (operation _) _ (λ e. or_internal R errors (is e not_found) _ (errors 404 _ _)))
            λ _.
              then_any _ _ (extend_session-Yields errors s.sessions _ _)
                (λ _. answer _ (answers _)))
          (refused unauthorized refuses_it))

  list_events-Yields :
      (c : String) (q : EventsQuery) (req : Service.GetEventsReq)
      → ((es : List OasEventData) (n : ℕ) → R (events c es n))
      → Yields R
          (list_events s.clock s.parse_date s.events s.accounts s.session_ttl_seconds c q req)
          R
  unfolding list_events
  list_events-Yields c q req found =
      then_any _ _ (called (s.events.get_events _) _ (λ e. errors 500 _ _))
        (λ _. answer _ (found _ _))

  pub get_events-answer :
      (q : EventsQuery) (cookie : Opt String)
      → ((c : String) (es : List OasEventData) (n : ℕ) → R (events c es n))
      → (w : W) → R (handle s (get_events q) cookie w).0
  unfolding api_get_events
  get_events-answer q cookie found = answered {R = R} _ (
      then_any _ _ (checked_query-Yields errors _ _ _ _ _ q)
        (λ req. list_events-Yields _ q req (found _)))

  pub get_user_events-answer :
      (id : String) (q : EventsQuery) (cookie : Opt String)
      → ((c : String) (es : List OasEventData) (n : ℕ) → R (events c es n))
      → (w : W) → R (handle s (get_user_events id q) cookie w).0
  unfolding api_get_user_events
  get_user_events-answer id q cookie found = answered {R = R} _ (
      then_any _ _
        (called (s.accounts.get_user id) _
          (λ e. or_internal R errors (is e not_found) _ (errors 404 _ _)))
        λ _.
          then_any _ _ (checked_query-Yields errors _ _ _ _ _ q)
            (λ req. list_events-Yields _ q req (found _)))

  pub get_users-answer :
      (q : UsersQuery) (cookie : Opt String)
      → ((c : String) (us : List Service.UserData) (n : ℕ) → R (users c us n))
      → (w : W) → R (handle s (get_users q) cookie w).0
  unfolding api_get_users
  get_users-answer q cookie found = answered {R = R} _ (
      then_any _ _ (checked_or-Yields errors _ _ _ q.limit) λ _.
        then_any _ _ (checked_or-Yields errors _ _ _ q.offset) λ _.
          then_any _ _ (called (s.accounts.get_users _) _ (λ e. errors 500 _ _))
            (λ _. answer _ (found _ _ _)))

  pub get_user-answer :
      (id : String) (cookie : Opt String)
      → ((c : String) (u : Service.UserData) → R (user c u))
      → (w : W) → R (handle s (get_user id) cookie w).0
  unfolding api_get_user
  get_user-answer id cookie found = answered {R = R} _ (
      then_any _ _
        (called (s.accounts.get_user id) _
          (λ e. or_internal R errors (is e not_found) _ (errors 404 _ _)))
        (λ _. answer _ (found _ _)))
