-- ===== src/Ogen/Serving/Steps.antt =====
-- The steps that the handlers of internal/router/handler.go share, and what they answer when they
-- end early: nothing but errors and the answer to a request without a user.
use mathlib.Core.Path.{subst}
use ndbx.Prelude.{sym, refl, ℕ, String, Bool, true, false, ◌==◌, Option, if◌then◌else◌}
use ndbx.Errors.{Err, is, not_found}
use ndbx.Exec.{Exec, map_err, Result, fail, pure, ◌>>=◌}
use ndbx.Exec.Yields.{
  gives, refuses, Any, any, Yields, pure-Yields, fail-Yields, if-Yields, bind-Yields,
  map_err-Yields, attempt-Yields, logged-Yields,
}
use ndbx.HttpServer.{not_negative_field}
use ndbx.GoTime.{Time}
use ndbx.Redis.Session.{SessionValue}
use ndbx.Router.{Opt, Response, error, answering, valid, SessionService, new_internal_error}
use ndbx.Router.View.{parse_date_filter}
use ndbx.Router.Auth.{session_user, authorized_user, validate_reaction_session, extend_session}
use ndbx.Router.Listing.{checked_or, checked_pointer, checked_query, EventsQuery}

-- The answers that the steps give: every error.
abbrev pub Errors : (Response → Type 0) → Type 0
Errors R = (status : ℕ) (c message : String) → R (error status c message)

pub either :
    (R : Response → Type 0) (test : Bool) (a b : Response) → R a → R b → R (if test then a else b)
either R true a b first second = first
either R false a b first second = second

-- An error that a handler looks for has an answer of its own; the others are internal.
pub or_internal :
    (R : Response → Type 0)
    → Errors R
    → (test : Bool) (a : Response) → R a
    → R (if test then a else new_internal_error)
or_internal R errors test a fits = either R test a _ fits (errors 500 "" _)

module _ {R : Response → Type 0} where
  module _ {W : Type 0} where
    -- `return a, nil`, where nothing is asked of the value
    pub done : {A : Type 0} (a : A) → Yields R {W = W} (pure a) Any
    done a = pure-Yields R Any a any

    pub refused :
        {A : Type 0} {Q : A → Type 0} (e : Response) → R e → Yields R {W = W} (fail {A = A} e) Q
    refused e = fail-Yields R _ e

    pub answer : (r : Response) → R r → Yields R {W = W} (pure r) R
    answer r fits = pure-Yields R R r fits

    -- The call of a service, whose errors have answers.
    pub called :
        {A : Type 0} (m : Exec Err W A) (f : Err → Response)
        → ((e : Err) → R (f e))
        → Yields R (map_err f m) Any
    called m f = map_err-Yields R f m

    pub answered :
        (body : Exec Response W Response) → Yields R body R → (w : W) → R (answering body w).0
    answered body yields w = elim (yields w) [
      | gives r got fits ↦ subst R (sym (rw got refl)) fits
      | refuses r failed fits ↦ subst R (sym (rw failed refl)) fits
    ]

    -- `a ← m; …`
    pub then_any :
        {A B : Type 0} {Q : B → Type 0} (m : Exec Response W A) (f : A → Exec Response W B)
        → Yields R m Any
        → ((a : A) → Yields R (f a) Q)
        → Yields R (m >>= f) Q
    then_any m f first rest = bind-Yields R Any _ m f first (λ a _. rest a)

  module _ (errors : Errors R) {W : Type 0} where
    pub valid-Yields :
        {A : Type 0} (c : String) (r : Result String A) → Yields R {W = W} (valid c r) Any
    valid-Yields c r = map_err-Yields R _ _ (λ message. errors 400 c message)

    pub checked_or-Yields :
        (c field : String) (default : ℕ) (v : Opt ℕ)
        → Yields R (checked_or {W = W} c field default v) Any
    unfolding checked_or
    checked_or-Yields c field default v =
        if-Yields R Any v.set _ _
          (then_any _ _ (valid-Yields c (not_negative_field field v.value)) (λ _. done _)) (done _)

    pub checked_pointer-Yields :
        (c field : String) (v : Opt ℕ) → Yields R (checked_pointer {W = W} c field v) Any
    unfolding checked_pointer
    checked_pointer-Yields c field v =
        if-Yields R Any v.set _ _
          (then_any _ _ (valid-Yields c (not_negative_field field v.value)) (λ _. done _)) (done _)

    pub checked_query-Yields :
        (parse_date : String → Option Time) (c id user_id user : String) (q : EventsQuery)
        → Yields R (checked_query {W = W} parse_date c id user_id user q) Any
    unfolding checked_query
    checked_query-Yields parse_date c id user_id user q =
        then_any _ _ (checked_or-Yields c _ _ q.limit) λ _.
          then_any _ _ (checked_or-Yields c _ _ q.offset) λ _.
            then_any _ _ (checked_pointer-Yields c _ q.price_from) λ _.
              then_any _ _ (checked_pointer-Yields c _ q.price_to) λ _.
                then_any _ _ (valid-Yields c (parse_date_filter parse_date "date_from" q.date_from))
                  λ _.
                    then_any _ _ (valid-Yields c (parse_date_filter parse_date "date_to" q.date_to))
                      λ _. done _

    module _ (sessions : SessionService W) where
      pub session_user-Yields :
          (unauthorized : Response) (sid : String)
          → R unauthorized
          → Yields R (session_user sessions unauthorized sid) Any
      unfolding session_user
      session_user-Yields unauthorized sid fits =
          then_any _ _
            (map_err-Yields R _ (sessions.get_session sid)
              (λ e. or_internal R errors (is e not_found) unauthorized fits))
            λ (v : SessionValue).
              if-Yields R Any (v.user_id == "") _ _ (refused unauthorized fits) (done v.user_id)

      pub authorized_user-Yields :
          (unauthorized : Response) (sid : String)
          → R unauthorized
          → Yields R (authorized_user sessions unauthorized sid) Any
      unfolding authorized_user
      authorized_user-Yields unauthorized sid fits =
          if-Yields R Any (sid == "") _ _ (refused unauthorized fits)
            (session_user-Yields unauthorized sid fits)

      pub extend_session-Yields :
          (sid user_id : String) → Yields R (extend_session sessions sid user_id) Any
      unfolding extend_session
      extend_session-Yields sid user_id = logged-Yields R _

      pub validate_reaction_session-Yields :
          (ttl : ℕ) (sid : String) → Yields R (validate_reaction_session sessions ttl sid) Any
      unfolding validate_reaction_session
      validate_reaction_session-Yields ttl sid = if-Yields R Any (sid == "") _ _ (done _) (
          attempt-Yields R Any (sessions.get_session sid) _ _
            (λ e.
              if-Yields R Any (is e not_found) _ _ (done _)
                (refused new_internal_error (errors 500 "" _)))
            λ (v : SessionValue). if-Yields R Any (v.user_id == "") _ _ (done _) (done _))
