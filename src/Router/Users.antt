-- ===== src/Router/Users.antt =====
-- APIGetUsers and APIGetUser of internal/router/handler.go
use ndbx.Prelude.{ℕ, String, length, if◌then◌else◌}
use ndbx.Errors.{is, not_found}
use ndbx.Exec.{pure, map_err, ◌>>=◌}
use ndbx.Router.{
  Opt, users, user, new_internal_error, new_not_found_error, UserService, Handler, answering,
}
use ndbx.Router.Cookie.{extract_sid, form_set_cookie}
use ndbx.Router.Listing.{default_limit, default_offset, checked_or}

pub record UsersQuery : Type 0 where
  pub id : Opt String
  pub name : Opt String
  pub limit : Opt ℕ
  pub offset : Opt ℕ

module _ {W : Type 0} (accounts : UserService W) (session_ttl_seconds : ℕ) where
  unfoldable pub api_get_users : UsersQuery → Opt String → Handler W
  api_get_users q cookie =
      let set_cookie = form_set_cookie (extract_sid cookie.value) session_ttl_seconds in
      answering (do
        limit ← checked_or set_cookie "limit" default_limit q.limit
        offset ← checked_or set_cookie "offset" default_offset q.offset
        found ←
            map_err (λ _. new_internal_error)
              (accounts.get_users
                (record { id = q.id.value; name = q.name.value; limit = limit; offset = offset }))
        pure (users set_cookie found (length found)))

  unfoldable pub api_get_user : String → Opt String → Handler W
  api_get_user id cookie =
      let set_cookie = form_set_cookie (extract_sid cookie.value) session_ttl_seconds in
      answering (do
        found ←
            map_err
              (λ e.
                if is e not_found
                then new_not_found_error set_cookie "Not found"
                else new_internal_error)
              (accounts.get_user id)
        pure (user set_cookie found))
