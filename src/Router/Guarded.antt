-- ===== src/Router/Guarded.antt =====
-- What the handlers of internal/router/handler.go do for a request without a session that has a user,
-- and as whom they create an event for one that has.
use ndbx.Prelude.{
  some, Option-cases, ℕ, String, ◌≡◌, ◌≢◌, ◌⊎◌, inl, inr, refl, ◌==◌, eq_iff, arith, Bool-cases,
}
use ndbx.Errors.{Err}
use ndbx.Exec.{Exec, Result-cases, ok, err}
use ndbx.Errors.{is, not_found}
use ndbx.Redis.Session.{SessionValue}
use ndbx.HttpServer.{not_empty, parse_rfc3339}
use ndbx.GoTime.{Time, Rfc3339}
use ndbx.Service
use ndbx.Router.{
  create_event_unauthorized, create_event_created, recommendations_unauthorized,
  create_review_unauthorized, update_review_unauthorized, Opt, Response, new_internal_error,
  SessionService, EventService, ReviewService, RecommendationService,
}
use ndbx.Router.Cookie.{extract_sid, form_set_cookie}
use ndbx.Router.Auth.{session_user, authorized_user, validate_reaction_session, extend_session}
use ndbx.Router.Reactions.{react, api_like_event, api_dislike_event}
use ndbx.Router.Events.{CreateEventRequest, or_default, api_create_event}
use ndbx.Router.Reviews.{ReviewRequest, api_create_event_review, api_update_event_review}
use ndbx.Router.Recommendations.{api_get_recommendations}

module _ {W : Type 0} (sessions : SessionService W) where
  -- The session lookup of this sid gives no user.
  abbrev pub NoSessionUser : String → W → Type 0
  NoSessionUser sid w =
      ((e : Err) × ((sessions.get_session sid w).0 ≡ err e))
      ⊎ ((v : SessionValue) × ((sessions.get_session sid w).0 ≡ ok v) × (v.user_id ≡ ""))

  -- There is no session id, or its session has no user.
  abbrev pub NoUser : String → W → Type 0
  NoUser sid w = (sid ≡ "") ⊎ NoSessionUser sid w

  -- Nothing was called but, at most, the session lookup.
  abbrev pub OnlyLookedUp : String → W → W → Type 0
  OnlyLookedUp sid w w' = (w' ≡ w) ⊎ (w' ≡ (sessions.get_session sid w).1)

  session_user-NoUser :
      (unauthorized : Response) (sid : String) (w : W)
      → NoSessionUser sid w
      → (r : Response) × (session_user sessions unauthorized sid w
          ≡ (err r, (sessions.get_session sid w).1))
  unfolding session_user
  session_user-NoUser unauthorized sid w (inl (e, failed)) = elim (Bool-cases (is e not_found)) [
    | inl missing ↦ (unauthorized, ground arith)
    | inr other ↦ (new_internal_error, ground arith)
  ]
  session_user-NoUser unauthorized sid w (inr (v, got, nobody)) =
      (unauthorized, ground (arith, eq_iff v.user_id ""))

  authorized_user-NoUser :
      (unauthorized : Response) (sid : String) (w : W)
      → NoUser sid w
      → (r : Response) × (w' : W) × (authorized_user sessions unauthorized sid w ≡ (err r, w'))
        × OnlyLookedUp sid w w'
  unfolding authorized_user
  authorized_user-NoUser unauthorized sid w (inl empty) =
      (unauthorized, w, ground (arith, (eq_iff sid "").1 empty), inl refl)
  authorized_user-NoUser unauthorized sid w (inr nobody) = elim (Bool-cases (sid == "")) [
    | inl empty ↦ (unauthorized, w, rw empty refl, inl refl)
    | inr sent ↦
        let (r, refused) = session_user-NoUser unauthorized sid w nobody in
        (r, (sessions.get_session sid w).1, rw sent refused, inr refl)
  ]

  module _ (service : EventService W) (ttl : ℕ) (id : String) (cookie : Opt String) (w : W) where
    react-NoUser :
        (operation : Service.ReactEventReq → Exec Err W (Unit {0})) (unauthorized : Response)
        (no_content : String → Response)
        → NoUser (extract_sid cookie.value) w
        → OnlyLookedUp
            (extract_sid cookie.value)
            w
            (react sessions service ttl operation unauthorized no_content id cookie w).1
    unfolding react validate_reaction_session
    react-NoUser operation unauthorized no_content (inl empty) =
        ground (arith, (eq_iff (extract_sid cookie.value) "").1 empty)
    react-NoUser operation unauthorized no_content (inr (inl (e, failed))) = ground arith
    react-NoUser operation unauthorized no_content (inr (inr (v, got, nobody))) =
        ground (arith, eq_iff v.user_id "")

    -- A like or a dislike without a session that has a user calls nothing but, at most, the session
    -- lookup.
    api_like_event-NoUser :
        NoUser (extract_sid cookie.value) w
        → OnlyLookedUp
            (extract_sid cookie.value)
            w
            (api_like_event sessions service ttl id cookie w).1
          × OnlyLookedUp
              (extract_sid cookie.value)
              w
              (api_dislike_event sessions service ttl id cookie w).1
    unfolding api_like_event api_dislike_event
    api_like_event-NoUser nobody = (react-NoUser _ _ _ nobody, react-NoUser _ _ _ nobody)

  module _ (clock : Rfc3339) (service : EventService W) (ttl : ℕ) (req : CreateEventRequest)
      (cookie : Opt String) (w : W) where
    -- A request to create an event without a session that has a user calls nothing but, at most,
    -- the session lookup.
    api_create_event-NoUser :
        NoUser (extract_sid cookie.value) w
        → OnlyLookedUp
            (extract_sid cookie.value)
            w
            (api_create_event clock sessions service ttl req cookie w).1
    unfolding api_create_event
    api_create_event-NoUser (inl empty) =
        ground (arith, (eq_iff (extract_sid cookie.value) "").1 empty)
    api_create_event-NoUser (inr nobody) =
        let sid = extract_sid cookie.value in
        let unauthorized = create_event_unauthorized (form_set_cookie sid ttl) in
        let (r, refused) = session_user-NoUser unauthorized sid w nobody in ground (arith, refused)

    -- The event of the request, as the service gets it.
    abbrev pub requested : Time → Time → String → Service.CreateEventReq
    requested started_at finished_at user_id = record {
      title = req.title;
      description = or_default req.description "";
      address = req.address;
      started_at = started_at;
      finished_at = finished_at;
      created_by = user_id;
    }

    created_by_user :
        (set_cookie id : String) (v : SessionValue) (started finished : Time)
        → (sessions.get_session (extract_sid cookie.value) w).0 ≡ ok v
        → clock.parse req.started_at ≡ some started
        → clock.parse req.finished_at ≡ some finished
        → (api_create_event clock sessions service ttl req cookie w).0
          ≡ create_event_created set_cookie id
        → (service.create_event
            (requested started finished v.user_id)
            (sessions.get_session (extract_sid cookie.value) w).1).0
          ≡ ok id
    unfolding api_create_event session_user parse_rfc3339 not_empty extend_session
    created_by_user set_cookie id v started finished got read read' done =
        let w' = (sessions.get_session (extract_sid cookie.value) w).1 in
        elim (Bool-cases (v.user_id == "")) [
          | inl nobody ↦ ground arith
          | inr user ↦
              elim (Result-cases
                (service.create_event (requested started finished v.user_id) w').0) [
                  | inl (x, gave) ↦ ground arith
                  | inr (e, failed) ↦ ground arith
                ]
        ]

    -- The service created the event with this id, asked with the session's user and the request's
    -- times.
    abbrev pub CreatedAs : String → Type 0
    CreatedAs id =
        (v : SessionValue) × ((sessions.get_session (extract_sid cookie.value) w).0 ≡ ok v)
        × (v.user_id ≢ "")
        × (started : Time) × (clock.parse req.started_at ≡ some started)
        × (finished : Time) × (clock.parse req.finished_at ≡ some finished)
        × ((service.create_event (requested started finished v.user_id)
              (sessions.get_session (extract_sid cookie.value) w).1).0
            ≡ ok id)

    -- When the answer is that an event was created, the session's user, who is not empty, created
    -- it: the service was asked with that user and with the times that the request's texts stand
    -- for, and gave the id of the answer.
    pub api_create_event-created :
        (set_cookie id : String)
        → (api_create_event clock sessions service ttl req cookie w).0
          ≡ create_event_created set_cookie id
        → CreatedAs id
    unfolding api_create_event session_user parse_rfc3339 not_empty
    api_create_event-created set_cookie id done =
        let sid = extract_sid cookie.value in
        elim (Result-cases (sessions.get_session sid w).0) [
          | inr (e, failed) ↦ ground arith
          | inl (v, got) ↦ elim (Option-cases (clock.parse req.started_at)) [
            | inl unread ↦ ground arith
            | inr (started, read) ↦ elim (Option-cases (clock.parse req.finished_at)) [
              | inl unread ↦ ground arith
              | inr (finished, read') ↦ (
                v,
                got,
                ground (arith, eq_iff v.user_id ""),
                started,
                read,
                finished,
                read',
                created_by_user set_cookie id v started finished got read read' done,
              )
            ]
          ]
        ]

  module _ (clock : Rfc3339) (service : ReviewService W) (ttl : ℕ) (req : ReviewRequest)
      (event_id review_id : String) (cookie : Opt String) (w : W) where
    -- A request to create or to update a review without a session that has a user calls nothing
    -- but, at most, the session lookup.
    review-NoUser :
        NoUser (extract_sid cookie.value) w
        → OnlyLookedUp
            (extract_sid cookie.value)
            w
            (api_create_event_review clock sessions service ttl req event_id cookie w).1
          × OnlyLookedUp
              (extract_sid cookie.value)
              w
              (api_update_event_review clock sessions service ttl req event_id review_id cookie w).1
    unfolding api_create_event_review api_update_event_review
    review-NoUser nobody =
        let sid = extract_sid cookie.value in
        let (_, _, refused, kept) =
          authorized_user-NoUser create_review_unauthorized sid w nobody in
        let (_, _, refused', kept') =
          authorized_user-NoUser update_review_unauthorized sid w nobody in
        (ground (arith, refused, kept), ground (arith, refused', kept'))

  -- A request for recommendations without a session that has a user calls nothing but, at most, the
  -- session lookup.
  api_get_recommendations-NoUser :
      (clock : Rfc3339) (service : RecommendationService W) (ttl : ℕ) (cookie : Opt String) (w : W)
      → NoUser (extract_sid cookie.value) w
      → OnlyLookedUp
          (extract_sid cookie.value)
          w
          (api_get_recommendations clock sessions service ttl cookie w).1
  unfolding api_get_recommendations
  api_get_recommendations-NoUser clock service ttl cookie w nobody =
      let (r, w', refused, kept) =
        authorized_user-NoUser recommendations_unauthorized (extract_sid cookie.value) w nobody in
      rw refused kept
