-- ===== src/Router/Cookie.antt =====
-- extractSID and formSetCookie of internal/router/handler.go
pub mod RoundTrip
use ndbx.Prelude.{ℕ, String, text_append, Option, none, some, List, [], ◌∷◌, ◌==◌, if◌then◌else◌}
use ndbx.Strconv.{format_int}
use ndbx.GoStrings.{split, trim_space, has_prefix, after_first}

abbrev pub sid_prefix : String
sid_prefix = "X-Session-Id="

-- The value behind the first `=`; a cookie with the prefix has one.
abbrev pub second_part : Option String → String
second_part none = ""
second_part (some s) = s

-- The loop over the cookies.
unfoldable pub find_sid : List String → String
find_sid [] = ""
find_sid (cookie ∷ cookies) =
    if has_prefix (trim_space cookie) sid_prefix
    then second_part (after_first b'=' (trim_space cookie))
    else find_sid cookies

unfoldable pub extract_sid : String → String
unfolding find_sid
extract_sid cookie_header = find_sid (split b';' cookie_header)

unfoldable pub form_set_cookie : String → ℕ → String
form_set_cookie sid max_age_seconds = text_append "X-Session-Id=" (
    text_append sid (
      text_append "; HttpOnly; Path=/; Max-Age="
        (format_int (if sid == "" then 0 else max_age_seconds))))
