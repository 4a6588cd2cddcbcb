-- ===== src/Handler.antt =====
-- `Handler` of internal/gateway/server.go: the routes of net/http's ServeMux, the probes and what is
-- wrapped around them. The access log's writer passes on what it gets, and on the statuses of final
-- responses both have the same status and bytes (AccessLog), so the handlers act on the writer below it.
mod Mux
pub mod Plain
pub mod Guards
pub mod Records
pub mod Answers
pub mod Correlation
pub mod Readiness
mod Tests
unfoldable pub use Mux.*
use gateway_service.Prelude.{
  ℕ, ◌+◌, Bool, true, false, not, ◌&&◌, ◌||◌, Option, none, some, List, [], ◌∷◌, ◌++◌, map, drop,
  ◌==◌, if◌then◌else◌, length, is_empty,
}
use gateway_service.Text.{Str, lit, eqb, has_prefix, split}
use gateway_service.Header.{Header, get, request_id_header}
use gateway_service.Route.{Url, Route, match_route}
use gateway_service.Http.{Request}
use gateway_service.Audit.{AuditEntry}
use gateway_service.Filter.{audit_admin_route_name}
use gateway_service.World.{
  Platform, Server, World, AuditSink, AuthVerifier, Exec, ◌>>=◌, ◌>>◌, pure, past, set_header, send,
}
use gateway_service.Proxy.{
  handle_proxy, trace_header, write_error, remote_ip, request_id_from_context,
}
use gateway_service.Admin.{handle_audit_log_list, handle_audit_log_detail}
use gateway_service.Support.{
  SupportSchedule, handle_player_support, player_support_admin_route_name,
}
use gateway_service.Support.Replay.{ReplaySchedule, handle_player_support_pull_replay}

pub record Schedules : Type 0 where
  pub support : SupportSchedule
  pub replay : ReplaySchedule

-- The wildcards of a pattern, by their names.
abbrev pub wildcards : List (Str × Str) → Str → Str
wildcards [] key = []
wildcards ((name, value) ∷ more) key = if eqb name key then value else wildcards more key

abbrev pub with_wildcards : Request → List (Str × Str) → Request
with_wildcards r found = record r { path_value = wildcards found }

-- One line of the access log.
pub record LogEntry : Type 0 where
  pub request_id : Str
  pub method : Str
  pub path : Str
  pub route : Str
  pub status : ℕ
  pub bytes : ℕ
  pub remote_ip : Str
  pub host : Str
  pub forwarded_for : Str
  pub cf_ray : Str
  pub cf_connecting_ip : Str

unfoldable pub is_probe_path : Str → Bool
is_probe_path path = eqb path (lit "/health") || eqb path (lit "/ready")

module _ (p : Platform) (s : Server) where
  -- writeJSON of a map with one status
  write_status : Str → Exec (Unit {0})
  write_status payload = do
    set_header (lit "Content-Type") (lit "application/json")
    send 200 (payload ++ 10 ∷ [])

  handle_health : Request → Exec (Unit {0})
  handle_health r = write_status (lit "{\"status\":\"ok\"}")

  -- handleReady behind the ping
  ready_pinged : Bool → Exec (Unit {0})
  ready_pinged true = write_status (lit "{\"status\":\"ready\"}")
  ready_pinged false =
      write_error p s 503 (lit "audit_unavailable") (lit "audit sink is unavailable")

  -- handleReady behind the test of the configuration
  ready_configured : Option AuditSink → Exec (Unit {0})
  ready_configured none = write_status (lit "{\"status\":\"ready\"}")
  ready_configured (some sink) = do t ← past; ready_pinged (sink.ping t)

  -- `s.verifier == nil || s.internalToken == "" || len(s.routes) == 0`
  unconfigured : Option AuthVerifier → Bool
  unconfigured none = true
  unconfigured (some verifier) = is_empty s.internal_token || is_empty s.routes

  ready_tested : Bool → Exec (Unit {0})
  ready_tested true = write_error p s 503 (lit "gateway_not_ready") (lit "gateway is not ready")
  ready_tested false = ready_configured s.audit_sink

  pub handle_ready : Request → Exec (Unit {0})
  handle_ready r = ready_tested (unconfigured s.verifier)

  -- RedirectHandler with 301
  handle_redirect : Str → Request → Exec (Unit {0})
  handle_redirect location r = do
    set_header (lit "Location") location
    if eqb r.method (lit "GET") || eqb r.method (lit "HEAD")
        then set_header (lit "Content-Type") (lit "text/html; charset=utf-8")
        else pure tt
    send 301 (if eqb r.method (lit "GET") then p.redirect_body location else [])

  -- The request `*`
  handle_asterisk : Request → Exec (Unit {0})
  handle_asterisk r = do set_header (lit "Connection") (lit "close"); send 400 []

  -- http.NotFound
  handle_not_found : Request → Exec (Unit {0})
  handle_not_found r = do
    set_header (lit "Content-Type") (lit "text/plain; charset=utf-8")
    set_header (lit "X-Content-Type-Options") (lit "nosniff")
    send 404 (lit "404 page not found" ++ 10 ∷ [])

  -- The handler of an endpoint.
  pub serve : Schedules → Request → Endpoint → Exec (Unit {0})
  serve c r asterisk = handle_asterisk r
  serve c r not_found = handle_not_found r
  serve c r health = handle_health r
  serve c r ready = handle_ready r
  serve c r audit_list = handle_audit_log_list p s r
  serve c r proxy = handle_proxy p s r
  serve c r (redirect location) = handle_redirect location r
  serve c r (audit_detail id) =
      handle_audit_log_detail p s (with_wildcards r ((lit "request_id", id) ∷ []))
  serve c r (player_support user) =
      handle_player_support p s c.support (with_wildcards r ((lit "user_id", user) ∷ []))
  serve c r (pull_replay user operation) =
      handle_player_support_pull_replay p s c.replay
        (with_wildcards r ((lit "user_id", user) ∷ (lit "operation_id", operation) ∷ []))

  route_or_unmatched : Option Route → Str
  route_or_unmatched none = lit "unmatched"
  route_or_unmatched (some route) = route.name

  unfoldable pub route_name : Str → Str
  unfolding route_or_unmatched
  route_name path =
      if eqb path (lit "/health")
      then lit "health"
      else if eqb path (lit "/ready")
      then lit "ready"
      else if eqb path (lit "/api/v1/admin/audit/http-api-calls")
          || has_prefix path (lit "/api/v1/admin/audit/http-api-calls/")
      then audit_admin_route_name
      else if has_prefix path (lit "/api/v1/admin/player-support/players/")
      then player_support_admin_route_name
      else route_or_unmatched (match_route s.routes path)

  -- What accessLog logs behind the handler.
  log_entry : Request → World → LogEntry
  log_entry r w = record {
    request_id =
        if is_empty (request_id_from_context r)
        then get w.writer.header request_id_header
        else request_id_from_context r;
    method = r.method;
    path = r.url.path;
    route = route_name r.url.path;
    status = if w.writer.status == 0 then 200 else w.writer.status;
    bytes = length w.writer.body;
    remote_ip = remote_ip p r.remote_addr;
    host = r.host;
    forwarded_for = get r.header (lit "X-Forwarded-For");
    cf_ray = get r.header (lit "CF-Ray");
    cf_connecting_ip = get r.header (lit "CF-Connecting-IP");
  }

  -- A handler that panicked leaves no line.
  access_log : Request → Exec (Option LogEntry)
  unfolding log_entry
  access_log r w =
      (if is_probe_path r.url.path || w.panicked then none else some (log_entry r w), w)

  -- securityHeaders
  security_headers : Exec (Unit {0})
  security_headers = do
    set_header (lit "X-Content-Type-Options") (lit "nosniff")
    set_header (lit "Referrer-Policy") (lit "no-referrer")

  -- `s.accessLog(securityHeaders(mux))`
  pub handler : Schedules → Request → Exec (Option LogEntry)
  handler c r = do
    trace_header p s r.trace_id
    security_headers
    serve c r (select p r)
    access_log r
