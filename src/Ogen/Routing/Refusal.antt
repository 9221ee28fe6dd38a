-- ===== src/Ogen/Routing/Refusal.antt =====
-- notAllowed of internal/router/ogen/oas_cfg_gen.go.
use ndbx.Prelude.{ℕ, String, ◌==◌, Option, none, some, List, [], ◌∷◌, ◌++◌, lookup, if◌then◌else◌}
use ndbx.Ogen.Routing.{NotAllowed}

-- What notAllowed writes: the status and the headers that it sets.
pub record Refusal : Type 0 where
  pub status : ℕ
  pub headers : List (String × String)

abbrev pub set_header : String → Option String → List (String × String)
set_header name none = []
set_header name (some value) = (name, value) ∷ []

abbrev pub unless_empty : String → Option String
unless_empty s = if s == "" then none else some s

-- notAllowed, for a server without a MethodNotAllowed of its own: `requested` is the header
-- Access-Control-Request-Method, and `to_upper` is strings.ToUpper.
unfoldable pub refuse :
    (to_upper : String → String) (requested method : String) → NotAllowed → Refusal
refuse to_upper requested method params =
    if method == "OPTIONS"
    then record {
      status = 204;
      headers =
          ("Access-Control-Allow-Methods", params.allowed_methods)
            ∷ set_header "Access-Control-Allow-Headers" (
                if requested == ""
                then none
                else lookup (to_upper requested) params.allowed_headers)
          ++ set_header "Accept-Post" (unless_empty params.accept_post)
          ++ set_header "Accept-Patch" (unless_empty params.accept_patch);
    }
    else record { status = 405; headers = ("Allow", params.allowed_methods) ∷ [] }
