-- ===== src/Examples/Serving.antt =====
-- Requests from the bytes of the network to the answer, on the server of Examples/Machines.
use ndbx.Prelude.{String, none, [], false}
use ndbx.Errors.{Err}
use ndbx.Exec.{Result, ok}
use ndbx.Router.Calls.{Services}
use ndbx.App.Machine.{program}
use ndbx.Ogen.Bodies.{Json}
use ndbx.Ogen.Serving.{Incoming}
use ndbx.Examples.Doubles.{sample_clock, sample_redis, Hashes}
use ndbx.Examples.Machines.{sample_around}

abbrev server : Services Hashes
server = program sample_clock sample_redis sample_around

abbrev plain_header : String → Result Err String
plain_header text = ok text

-- A request without a cookie, a query or a body.
abbrev empty_request : Incoming
empty_request = record {
  reader = record {
    path_unescape = λ s. ok s;
    path_value = λ name s. ok s;
    query_value = λ name. none;
    header_value = λ name. none;
    to_string = λ s. ok s;
    to_int64 = λ s. ok 0;
  };
  args_escaped = false;
  body = record { content_type = ok "application/json"; content_length = 0; read = ok "" };
}

abbrev no_json : Json String
no_json = record {
  members = λ text. ([], none);
  str = λ s. ok s;
  int32 = λ s. ok 0;
  int64 = λ s. ok 0;
  skip = λ s. ok tt;
  trailing = λ text. false;
}
