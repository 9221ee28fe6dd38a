-- ===== src/HttpServer/Heartbeat.antt =====
-- HeartbeatMiddleware of pkg/httpserver/middleware.go: an HTTP handler is a function from the
-- request and the world to the answer and the world.
use ndbx.Prelude.{ℕ, String, ◌&&◌, ◌||◌, ◌==◌, if◌then◌else◌}
use ndbx.GoStrings.{equal_fold}

pub record Request : Type 0 where
  pub method : String
  pub path : String

pub record Answer : Type 0 where
  pub status : ℕ
  pub content_type : String
  pub body : String

abbrev pub HttpHandler : Type 0 → Type 0
HttpHandler W = Request → W → Answer × W

-- `fold` is strings.EqualFold.
unfoldable pub heartbeat_middleware : {W : Type 0} → String → HttpHandler W → HttpHandler W
heartbeat_middleware endpoint h r w =
    if (r.method == "GET" || r.method == "HEAD") && equal_fold r.path endpoint
    then (record { status = 200; content_type = "text/plain"; body = "{\"status\":\"ok\"}" }, w)
    else h r w
