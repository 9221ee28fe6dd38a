-- ===== src/HttpServer.antt =====
-- pkg/httpserver/validator.go and Wrap of pkg/httpserver/middleware.go. An error is its text.
pub mod Heartbeat
use ndbx.Prelude.{ℕ, String, text_append, Option, none, some, List, [], ◌∷◌, ◌==◌, if◌then◌else◌}
use ndbx.Prelude.Words.{is_neg64}
use ndbx.Exec.{Result, ok, err}
use ndbx.GoTime.{Time, Rfc3339}

-- fmt.Errorf("invalid \"%s\" field", fieldName)
abbrev pub invalid_field : String → String
invalid_field field_name = text_append "invalid \"" (text_append field_name "\" field")

unfoldable pub not_empty : String → String → Result String (Unit {0})
not_empty field_name value = if value == "" then err (invalid_field field_name) else ok tt

unfoldable pub not_negative : String → ℕ → Result String (Unit {0})
not_negative field_name val =
    if is_neg64 val
    then err (text_append "invalid \"" (text_append field_name "\" parameter"))
    else ok tt

unfoldable pub not_negative_field : String → ℕ → Result String (Unit {0})
not_negative_field field_name val = if is_neg64 val then err (invalid_field field_name) else ok tt

unfoldable pub parse_rfc3339 : Rfc3339 → String → String → Result String Time
parse_rfc3339 clock field_name value = elim (clock.parse value) [
  | none ↦ err (invalid_field field_name)
  | some t ↦ ok t
]

-- The first middleware of the list is the outermost: the loop runs from the last to the first.
unfoldable pub wrap : {H : Type 0} → H → List (H → H) → H
wrap h [] = h
wrap h (m ∷ ms) = m (wrap h ms)
