-- ===== src/Ogen/Serving/Accounts.antt =====
-- What the handlers of sessions, reviews and recommendations of internal/router/handler.go answer:
-- an error, or one of the answers of their operations.
use ndbx.Prelude.{List, ℕ, String, ◌==◌, not, ◌||◌}
use ndbx.Errors.{is, not_found, already_exists, forbidden, user_already_exists, invalid_credentials}
use ndbx.Exec.{lift}
use ndbx.Exec.Yields.{Any, Yields, if-Yields, map_err-Yields}
use ndbx.HttpServer.{not_empty}
use ndbx.Router.{
  Opt, OasEventData, OasReviewData, logout_no_content, logout_unauthorized, recommendations,
  recommendations_unauthorized, reviews, Response, create_review_unauthorized,
  create_review_created, create_review_conflict, update_review_unauthorized,
  update_review_not_found, update_review_no_content, session_created, session_ok, register_created,
  login_no_content,
}
use ndbx.Router.Cookie.{extract_sid}
use ndbx.Router.Sessions.{session_for, login_session}
use ndbx.Router.Sessions.{
  UserRegisterRequest, LoginRequest, api_session, api_register, api_login, api_logout,
}
use ndbx.Router.Reviews.{
  ReviewRequest, api_create_event_review, api_get_event_reviews, api_update_event_review,
}
use ndbx.Router.Recommendations.{api_get_recommendations}
use ndbx.Router.Calls.{
  Services, create_event_review, get_event_reviews, get_recommendations, login, logout, register,
  session, update_event_review, handle,
}
use ndbx.Ogen.Serving.Steps.{
  Errors, or_internal, answer, called, answered, either, done, refused, then_any, valid-Yields,
  authorized_user-Yields, extend_session-Yields, checked_or-Yields,
}

module _ (R : Response → Type 0) (errors : Errors R) {W : Type 0} (s : Services W) where
  pub session-answer :
      (cookie : Opt String)
      → ((c : String) → R (session_created c))
      → ((c : String) → R (session_ok c))
      → (w : W) → R (handle s session cookie w).0
  unfolding api_session
  session-answer cookie created extended = answered {R = R} _ (
      if-Yields R R (extract_sid cookie.value == "") _ _
        (then_any _ _ (called (s.sessions.create_session _) _ (λ e. errors 500 _ _))
          (λ _. answer _ (created _)))
        (then_any _ _ (called (s.sessions.create_or_extend_session _) _ (λ e. errors 500 _ _))
          (λ v. answer _ (either R v.is_created _ _ (created _) (extended _)))))

  session_for-Yields :
      (sid user_id : String)
      → Yields R (session_for s.sessions s.accounts s.session_ttl_seconds sid user_id) Any
  unfolding session_for
  session_for-Yields sid user_id =
      if-Yields R Any (sid == "") _ _
        (then_any _ _ (called (s.sessions.create_session _) _ (λ e. errors 500 _ _)) (λ _. done _))
        (done _)

  login_session-Yields :
      (sid user_id : String)
      → Yields R (login_session s.sessions s.accounts s.session_ttl_seconds sid user_id) Any
  unfolding login_session
  login_session-Yields sid user_id =
      if-Yields R Any (sid == "") _ _
        (then_any _ _ (called (s.sessions.create_session _) _ (λ e. errors 500 _ _)) (λ _. done _))
        (then_any _ _ (called (s.sessions.create_or_extend_session _) _ (λ e. errors 500 _ _))
          (λ _. done _))

  pub register-answer :
      (req : UserRegisterRequest) (cookie : Opt String)
      → ((c : String) → R (register_created c))
      → (w : W) → R (handle s (register req) cookie w).0
  unfolding api_register
  register-answer req cookie created = answered {R = R} _ (
      then_any _ _ (valid-Yields errors _ (not_empty "full_name" req.full_name)) λ _.
        then_any _ _ (valid-Yields errors _ (not_empty "username" req.username)) λ _.
          then_any _ _ (valid-Yields errors _ (not_empty "password" req.password)) λ _.
            then_any _ _
              (called (s.accounts.register _) _
                (λ e. or_internal R errors (is e user_already_exists) _ (errors 409 _ _)))
              λ user_id. then_any _ _ (session_for-Yields _ user_id) (λ _. answer _ (created _)))

  pub login-answer :
      (req : LoginRequest) (cookie : Opt String)
      → ((c : String) → R (login_no_content c))
      → (w : W) → R (handle s (login req) cookie w).0
  unfolding api_login
  login-answer req cookie no_content = answered {R = R} _ (
      then_any _ _
        (map_err-Yields R _ (lift (not_empty "username" req.username)) (λ _. errors 401 _ _))
        λ _.
          then_any _ _
            (map_err-Yields R _ (lift (not_empty "password" req.password)) (λ _. errors 401 _ _))
            λ _.
              then_any _ _
                (called (s.accounts.authenticate _) _
                  (λ e. or_internal R errors (is e invalid_credentials) _ (errors 401 _ _)))
                λ user_id.
                  then_any _ _ (login_session-Yields _ user_id) (λ _. answer _ (no_content _)))

  pub logout-answer :
      (cookie : Opt String)
      → ((c : String) → R (logout_unauthorized c))
      → ((c : String) → R (logout_no_content c))
      → (w : W) → R (handle s logout cookie w).0
  unfolding api_logout
  logout-answer cookie unauthorized no_content = answered {R = R} _ (
      if-Yields R R (extract_sid cookie.value == "") _ _ (answer _ (unauthorized _)) (
        then_any _ _ (called (s.sessions.delete_session _) _ (λ e. errors 500 _ _))
          (λ _. answer _ (no_content _))))

  pub create_event_review-answer :
      (req : ReviewRequest) (event_id : String) (cookie : Opt String)
      → R create_review_unauthorized
      → ((c message : String) → R (create_review_conflict c message))
      → ((c id : String) → R (create_review_created c id))
      → (w : W) → R (handle s (create_event_review req event_id) cookie w).0
  unfolding api_create_event_review
  create_event_review-answer req event_id cookie unauthorized conflict created =
      answered {R = R} _ (
        if-Yields R R (not req.comment.set || req.comment.value == "") _ _
          (refused _ (errors 400 _ _))
          (if-Yields R R (not req.rating.set) _ _ (refused _ (errors 400 _ _)) (
            then_any _ _ (authorized_user-Yields errors s.sessions _ _ unauthorized) λ user_id.
              then_any _ _
                (called (s.reviews.create_review _) _ (λ e.
                  either R (is e already_exists) _ _ (conflict _ _)
                    (or_internal R errors (is e not_found) _ (errors 404 _ _))))
                λ id.
                  then_any _ _ (extend_session-Yields errors s.sessions _ user_id)
                    (λ _. answer _ (created _ id)))))

  pub get_event_reviews-answer :
      (id : String) (limit offset : Opt ℕ) (cookie : Opt String)
      → ((c : String) (rs : List OasReviewData) (n : ℕ) → R (reviews c rs n))
      → (w : W) → R (handle s (get_event_reviews id limit offset) cookie w).0
  unfolding api_get_event_reviews
  get_event_reviews-answer id limit offset cookie found = answered {R = R} _ (
      then_any _ _ (checked_or-Yields errors _ _ _ limit) λ _.
        then_any _ _ (checked_or-Yields errors _ _ _ offset) λ _.
          then_any _ _
            (called (s.reviews.get_reviews _) _
              (λ e. or_internal R errors (is e not_found) _ (errors 404 _ _)))
            (λ _. answer _ (found _ _ _)))

  pub update_event_review-answer :
      (req : ReviewRequest) (event_id review_id : String) (cookie : Opt String)
      → R update_review_unauthorized
      → ((c message : String) → R (update_review_not_found c message))
      → ((c : String) → R (update_review_no_content c))
      → (w : W) → R (handle s (update_event_review req event_id review_id) cookie w).0
  unfolding api_update_event_review
  update_event_review-answer req event_id review_id cookie unauthorized missing no_content =
      answered {R = R} _ (
        then_any _ _ (authorized_user-Yields errors s.sessions _ _ unauthorized) λ user_id.
          then_any _ _
            (called (s.reviews.update_review _) _
              (λ e. or_internal R errors (is e not_found || is e forbidden) _ (missing _ _)))
            λ _.
              then_any _ _ (extend_session-Yields errors s.sessions _ user_id)
                (λ _. answer _ (no_content _)))

  pub get_recommendations-answer :
      (cookie : Opt String)
      → R recommendations_unauthorized
      → ((c : String) (es : List OasEventData) → R (recommendations c es))
      → (w : W) → R (handle s get_recommendations cookie w).0
  unfolding api_get_recommendations
  get_recommendations-answer cookie unauthorized found = answered {R = R} _ (
      then_any _ _ (authorized_user-Yields errors s.sessions _ _ unauthorized) λ user_id.
        then_any _ _
          (called (s.recommendations.get_recommendations user_id) _ (λ e. errors 500 _ _))
          (λ _. answer _ (found _ _)))
