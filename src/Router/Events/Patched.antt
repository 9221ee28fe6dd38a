-- ===== src/Router/Events/Patched.antt =====
-- As whom APIPatchEvent of internal/router/handler.go changes an event.
use ndbx.Prelude.{ℕ, ◌<◌, String, ◌≡◌, ◌≢◌, true, false, ◌==◌, eq_iff, arith, Bool-cases, inl, inr}
use ndbx.Prelude.Words.{two63}
use ndbx.Exec.{Result-cases, ok}
use ndbx.GoTime.{Rfc3339}
use ndbx.HttpServer.{not_negative_field}
use ndbx.Redis.Session.{SessionValue}
use ndbx.Service
use ndbx.Service.{EventData}
use ndbx.Router.{Opt, SessionService, EventService, patch_event_no_content}
use ndbx.Router.Cookie.{extract_sid}
use ndbx.Router.Auth.{session_user, authorized_user, extend_session}
use ndbx.Router.Events.{PatchEventRequest, pointer, checked_price, api_patch_event}

module _ (clock : Rfc3339) {W : Type 0} (sessions : SessionService W) (service : EventService W)
    (ttl : ℕ) (req : PatchEventRequest) (id : String) (cookie : Opt String) (w : W) where
  abbrev pub lookup_req : Service.GetEventReq
  lookup_req = record { id = id; include_reactions = false; include_reviews = false }

  -- The worlds after the event, and after the session, were looked up.
  abbrev pub event_seen : W
  event_seen = (service.get_event lookup_req w).1

  abbrev pub session_seen : W
  session_seen = (sessions.get_session (extract_sid cookie.value) event_seen).1

  abbrev pub patch_of : String → Service.PatchEventReq
  patch_of user_id = record {
    id = id;
    created_by = user_id;
    category = pointer req.category;
    city = pointer req.city;
    price = pointer req.price;
  }

  -- The event is there, the session has a user, the price is not negative, and the service has made
  -- the patch in the name of that user.
  abbrev pub PatchedAs : Type 0
  PatchedAs =
      (found : EventData) × ((service.get_event lookup_req w).0 ≡ ok found)
      × (v : SessionValue) × ((sessions.get_session (extract_sid cookie.value) event_seen).0 ≡ ok v)
      × (v.user_id ≢ "")
      × (req.price.set ≡ true → req.price.value < two63)
      × ((service.patch_event (patch_of v.user_id) session_seen).0 ≡ ok tt)

  -- When a patch is answered with no content, the event was found, the session's user is not empty,
  -- the price is not negative if the request has one, and the service made the patch with that user
  -- as the creator that the event must have.
  pub api_patch_event-owner :
      (set_cookie : String)
      → (api_patch_event clock sessions service ttl req id cookie w).0
        ≡ patch_event_no_content set_cookie
      → PatchedAs
  unfolding api_patch_event authorized_user session_user checked_price not_negative_field
      extend_session
  api_patch_event-owner set_cookie done = elim (Result-cases (service.get_event lookup_req w).0) [
    | inr (e, failed) ↦ ground arith
    | inl (found, got) ↦
        elim (Result-cases (sessions.get_session (extract_sid cookie.value) event_seen).0) [
          | inr (e, failed) ↦ ground arith
          | inl (v, seen) ↦ elim (Bool-cases (v.user_id == "")) [
            | inl nobody ↦ ground arith
            | inr user ↦
                elim (Result-cases (service.patch_event (patch_of v.user_id) session_seen).0) [
                  | inr (e, failed) ↦ ground arith
                  | inl (_, patched) ↦ (
                    found,
                    got,
                    v,
                    seen,
                    ground (arith, eq_iff v.user_id ""),
                    ground arith,
                    patched,
                  )
                ]
          ]
        ]
  ]
