-- ===== src/Ogen/Serving/Written.antt =====
-- The handlers of internal/router/handler.go against the encoders of
-- internal/router/ogen/oas_response_encoders_gen.go.
use ndbx.Prelude.{String}
use ndbx.Errors.{Err}
use ndbx.Exec.{Result}
use ndbx.Router.{Response}
use ndbx.Router.Calls.{Services}
use ndbx.Router.Sessions
use ndbx.Router.Reactions
use ndbx.Ogen.{Operation}
use ndbx.Ogen.Serving.Encoding.{IsEncoded, Writes, CanFail, error-IsEncoded}
use ndbx.Ogen.Serving.Steps.{Errors}

module _ (encode_header : String → Result Err String) (writes : Writes encode_header) where
  module _ {W : Type 0} (s : Services W) where
    abbrev errors : (op : Operation) → CanFail op → Errors (IsEncoded encode_header op)
    errors = error-IsEncoded encode_header writes
