-- ===== src/Router/Cookie/RoundTrip.antt =====
-- The session id that extractSID, of internal/router/handler.go, reads of a cookie.
use Prim.Native.String.{[], ◌∷◌}
use mathlib.Core.Path.{subst}
use text.Mathlib.TextLemmas.{append_assoc, nil-append, cons-append}
use ndbx.Prelude.{
  ◌==◌, if◌then◌else◌, ℕ, String, text_append, ◌≡◌, refl, ◌∙◌, ap, false, some, arith, sym,
}
use mathlib.Core.List
use ndbx.Strconv.{format_int}
use ndbx.Cryptic.Hex.{IsHex}
use ndbx.GoStrings.{split, trim_space, has_prefix, after_first, is_space}
use ndbx.GoStrings.Laws.{
  Free, Solid, is_free, is_solid, is_free-Free, is_solid-Solid, Free-append, Solid-append,
  split-append, split_whole, trim_space-Solid, trim_space-blank, has_prefix-append,
  after_first-append,
}
use ndbx.Router.Cookie.{sid_prefix, find_sid, extract_sid, form_set_cookie}

IsHex-Free : (s : String) → IsHex s → Free b';' s
IsHex-Free [] h = tt
IsHex-Free (c ∷ s) (p, h) = ((λ e. omega arith), IsHex-Free s h)

IsHex-Solid : (s : String) → IsHex s → Solid s
unfolding is_space
IsHex-Solid [] h = tt
IsHex-Solid (c ∷ s) (p, h) = (ground arith, IsHex-Solid s h)

cookie-Free : (sid : String) → IsHex sid → Free b';' (text_append sid_prefix sid)
unfolding is_free
cookie-Free sid h =
    Free-append b';' sid_prefix sid (is_free-Free b';' sid_prefix refl) (IsHex-Free sid h)

cookie-Solid : (sid : String) → IsHex sid → Solid (text_append sid_prefix sid)
unfolding is_solid is_space
cookie-Solid sid h =
    Solid-append sid_prefix sid (is_solid-Solid sid_prefix refl) (IsHex-Solid sid h)

equals_last : (sid : String) → text_append "X-Session-Id" ("=" ∷ sid) ≡ text_append sid_prefix sid
equals_last sid =
    ap (text_append "X-Session-Id")
      (sym (cons-append "=" "" sid ∙ ap (λ t. "=" ∷ t) (nil-append sid)))
    ∙ sym (append_assoc "X-Session-Id" "=" sid)

after_equals : (sid : String) → after_first b'=' (text_append sid_prefix sid) ≡ some sid
unfolding is_free
after_equals sid =
    subst (λ t. after_first b'=' t ≡ some sid) (equals_last sid)
      (after_first-append "X-Session-Id" "=" sid (is_free-Free b'=' "X-Session-Id" refl))

-- A part of the header that is the cookie gives its session id.
part_of_cookie :
    (sid : String) (rest : List.List String)
    → IsHex sid
    → find_sid (List.◌∷◌ (text_append sid_prefix sid) rest) ≡ sid
unfolding find_sid
part_of_cookie sid rest h =
    rw
      (
        trim_space-Solid (text_append sid_prefix sid) (cookie-Solid sid h),
        has_prefix-append sid_prefix sid,
        after_equals sid,
      )
      refl

find_second :
    (other sid : String)
    → IsHex sid
    → has_prefix (trim_space other) sid_prefix ≡ false
    → find_sid (List.◌∷◌ other (List.◌∷◌ (text_append " " (text_append sid_prefix sid)) List.[]))
      ≡ sid
unfolding find_sid
find_second other sid h another =
    rw
      (
        another,
        trim_space-blank (text_append sid_prefix sid) (cookie-Solid sid h),
        has_prefix-append sid_prefix sid,
        after_equals sid,
      )
      refl

attributes : ℕ → String
attributes max_age = text_append " HttpOnly; Path=/; Max-Age=" (format_int max_age)

set_cookie_parts :
    (sid : String) (max_age : ℕ)
    → (n : ℕ) × (form_set_cookie sid max_age
        ≡ text_append (text_append sid_prefix sid) (";" ∷ attributes n))
unfolding form_set_cookie attributes
set_cookie_parts sid max_age =
    let n = if sid == "" then 0 else max_age in
    (
      n,
      ap (λ t. text_append sid_prefix (text_append sid t))
            (cons-append ";" " HttpOnly; Path=/; Max-Age=" (format_int n))
          ∙ sym (append_assoc sid_prefix sid (";" ∷ attributes n)),
    )

cookie_after :
    (other cookie : String)
    → Free b';' other
    → Free b';' cookie
    → split b';' (text_append other (text_append "; " cookie))
      ≡ List.◌∷◌ other (List.◌∷◌ (text_append " " cookie) List.[])
unfolding is_free
cookie_after other cookie h k = rw (cons-append ";" " " cookie) (
    split-append other ";" (text_append " " cookie) h
    ∙ ap (List.◌∷◌ other) (
        split_whole b';' (text_append " " cookie)
          (Free-append b';' " " cookie (is_free-Free b';' " " refl) k)))

-- A hexadecimal session id is read back from the header with its cookie alone, from the Set-Cookie
-- text that the handlers form for it, whatever the age, and from a header where a cookie without
-- semicolon and of another name stands before it.
pub extract_sid-form_set_cookie :
    (sid : String) (max_age : ℕ)
    → IsHex sid
    → (extract_sid (text_append sid_prefix sid) ≡ sid)
      × (extract_sid (form_set_cookie sid max_age) ≡ sid)
      × ((other : String)
          → Free b';' other
          → has_prefix (trim_space other) sid_prefix ≡ false
          → extract_sid (text_append other (text_append "; " (text_append sid_prefix sid))) ≡ sid)
unfolding extract_sid
extract_sid-form_set_cookie sid max_age h = (
  rw (split_whole b';' (text_append sid_prefix sid) (cookie-Free sid h))
      (part_of_cookie sid List.[] h),
  (let (n, parts) = set_cookie_parts sid max_age in
      rw (parts, split-append (text_append sid_prefix sid) ";" (attributes n) (cookie-Free sid h))
        (part_of_cookie sid (split b';' (attributes n)) h)),
  λ other free another.
      rw (cookie_after other (text_append sid_prefix sid) free (cookie-Free sid h))
        (find_second other sid h another),
)
