-- ===== src/Proxy.antt =====
-- The proxy of internal/gateway/server.go: handleProxy and what it calls.
pub mod Headers
pub mod Gate
pub mod Bookkeeping
pub mod Answering
pub mod Accounting
pub mod Body
pub mod Refusal
use gateway_service.Prelude.{
  ℕ, zero, suc, ◌+◌, Bool, true, false, not, ◌&&◌, ◌||◌, Option, none, some, List, [], ◌∷◌, ◌++◌,
  ltb, leb, ◌==◌, if◌then◌else◌, length, take, is_empty, ℤ, pos, negate, ◌-◌,
}
use gateway_service.Text.{Str, lit, trim_space}
use gateway_service.Header.{
  Header, get, set, copy_forward_headers, copy_response_headers, internal_token_header,
  user_id_header, request_accepted_at_header, request_id_header,
}
use gateway_service.Route.{Url, Route, match_route, build_target_url}
use gateway_service.Http.{Request, Outgoing, Upstream, Stream, limit_above, read_limited, read_all}
use gateway_service.Audit.{
  AuditBody, AuditEntry, AuditStatus, BodyEncoding, no_body, client_request_id, audit_body_sized,
  audit_body_from_bytes, response_audit_body, sanitized_request_headers, sanitized_response_headers,
}
use gateway_service.Token.{extract_access_token}
use gateway_service.Json.{encode}
use gateway_service.Section.{error_value}
use gateway_service.Section.Shapes.{error_response}
use gateway_service.World.{
  Platform, Server, AuditSink, AuthVerifier, Verified, Trace, Event, World, Exec, ◌>>=◌, ◌>>◌, pure,
  draw, note, past, set_header, update_header, send,
}

-- The host of an address, or the address itself where it has no port.
unfoldable pub remote_ip : Platform → Str → Str
remote_ip p addr = elim (p.split_host addr) [ none ↦ addr | some host ↦ host ]

unfoldable pub request_id_from_context : Request → Str
request_id_from_context r = elim r.context_id [ none ↦ [] | some id ↦ id ]

-- `t.Sub(u)`
abbrev duration_between : ℕ → ℕ → ℤ
duration_between u t = if ltb t u then negate (u - t) else pos (t - u)

-- json.Marshal of an errorResponse
unfoldable pub error_json : Platform → Str → Str → Str
error_json p code message = p.json.print (
    encode p.json.quote error_response
      (error_value (record { code = code; message = message }), tt))

forwarded_for : Str → Str → Header → Header
forwarded_for given remote h =
    if not (is_empty given) && not (is_empty remote)
    then set h (lit "X-Forwarded-For") (given ++ (lit ", " ++ remote))
    else if not (is_empty given)
    then set h (lit "X-Forwarded-For") given
    else if not (is_empty remote)
    then set h (lit "X-Forwarded-For") remote
    else h

-- setForwardedHeaders on the header of the outgoing request
unfoldable pub set_forwarded_headers : Platform → Request → Header → Header
unfolding forwarded_for
set_forwarded_headers p src h =
    let client = trim_space (get src.header (lit "X-Forwarded-For")) in
    let given =
      if is_empty client then trim_space (get src.header (lit "CF-Connecting-IP")) else client in
    set
      (set (forwarded_for given (remote_ip p src.remote_addr) h) (lit "X-Forwarded-Host") src.host)
      (lit "X-Forwarded-Proto") (if src.tls then lit "https" else lit "http")

-- What readProxyRequestBody returns.
pub data Reading : Type 0 where
  unreadable : Reading
  read : Str → AuditBody → Bool → Reading

pub record ProxyResult : Type 0 where
  pub status_code : ℕ
  pub header : Header
  pub body : Str
  pub audit_body : AuditBody
  pub target_url : Str

module _ (p : Platform) (s : Server) where
  -- readProxyRequestBody once io.ReadAll has returned
  proxy_reading : Str → Option Str → Reading
  proxy_reading content_type none = unreadable
  proxy_reading content_type (some body) =
      let kept = if ltb s.max_body_bytes (length body) then take s.max_body_bytes body else body in
      read kept
        (audit_body_sized p.normalize_json kept content_type s.audit_max_body_bytes (length body))
        (ltb s.max_body_bytes (length body))

  -- readProxyRequestBody on a body that may be nil
  proxy_body : Str → Option Stream → Reading
  unfolding proxy_reading
  proxy_body content_type none = read [] (record no_body { encoding = BodyEncoding.utf8 }) false
  proxy_body content_type (some stream) =
      proxy_reading content_type (read_limited stream (limit_above s.max_body_bytes))

  unfoldable pub read_proxy_request_body : Request → Reading
  unfolding proxy_body
  read_proxy_request_body r = proxy_body (get r.header (lit "Content-Type")) r.body

  -- writeError and writeJSON
  unfoldable pub write_error : ℕ → Str → Str → Exec (Unit {0})
  unfolding send
  write_error status code message = do
    set_header (lit "Content-Type") (lit "application/json")
    send status (error_json p code message ++ 10 ∷ [])

  unfoldable pub start_audit_or_fail : AuditEntry → Exec Bool
  start_audit_or_fail entry = elim s.audit_sink [
    | none ↦ pure true
    | some sink ↦ do
      t ← past
      note (Event.audit_start entry)
      if sink.start t entry then pure true else do
        write_error 503 (lit "audit_unavailable") (lit "audit sink is unavailable")
        pure false
  ]

  abbrev completed : AuditStatus → AuditStatus
  completed AuditStatus.unset = AuditStatus.complete
  completed status = status

  -- A failure of the sink is logged only.
  unfoldable pub finish_audit : AuditEntry → Exec (Unit {0})
  finish_audit entry = elim s.audit_sink [
    | none ↦ pure tt
    | some sink ↦ do
      finished ← draw p.wall_clock
      note (
          Event.audit_finish (record entry {
            finished_at = finished;
            duration = duration_between entry.started_at finished;
            audit_status = completed entry.audit_status;
          }))
  ]

  -- The entry that writeAuditedError completes.
  error_entry : AuditEntry → ℕ → Str → Str → AuditEntry
  error_entry entry status code message = record entry {
    response_status = status;
    response_headers =
        sanitized_response_headers (set [] (lit "Content-Type") (lit "application/json"));
    response_body =
        audit_body_from_bytes p.normalize_json (error_json p code message) (lit "application/json")
          s.audit_max_body_bytes;
    error_code = code;
    error_message = message;
    audit_status = AuditStatus.complete;
  }

  unfoldable pub write_audited_error : AuditEntry → ℕ → Str → Str → Exec (Unit {0})
  unfolding error_entry
  write_audited_error entry status code message = do
    finish_audit (error_entry entry status code message)
    set_header (lit "Content-Type") (lit "application/json")
    send status (error_json p code message)

  -- The request that proxyAuthenticatedRequest sends.
  unfoldable pub outgoing : Request → Str → Route → ℕ → ℕ → Outgoing
  unfolding set_forwarded_headers request_id_from_context
  outgoing r body route user accepted_at =
      let h = copy_forward_headers [] r.header in
      let h = set h internal_token_header s.internal_token in
      let h = set h user_id_header (p.uuid_string user) in
      let h = set h request_id_header (request_id_from_context r) in
      let h = set h request_accepted_at_header (p.rfc3339_nano accepted_at) in
      record {
        method = r.method;
        url = build_target_url route r.url;
        header = set_forwarded_headers p r h;
        body = body;
        content_length = length body;
      }

  -- The upstream's answer, once its body is read.
  proxy_result : Url → Upstream → Option Str → Option ProxyResult
  proxy_result target response none = none
  proxy_result target response (some body) = some (record {
    status_code = response.status;
    header = response.header;
    body = body;
    audit_body =
        response_audit_body p.normalize_json body (get response.header (lit "Content-Type"))
          s.audit_max_body_bytes;
    target_url = p.url_string target;
  })

  answered : Url → Option Upstream → Option ProxyResult
  unfolding proxy_result
  answered target none = none
  answered target (some response) = proxy_result target response (read_all response.body)

  -- proxyAuthenticatedRequest; `none` is an error, `body` what `r.Body` was replaced by.
  unfoldable pub proxy_authenticated_request :
      Request → Str → Route → ℕ → ℕ → Exec (Option ProxyResult)
  unfolding answered
  proxy_authenticated_request r body route user accepted_at =
      let request = outgoing r body route user accepted_at in
      if not (p.request_valid r.method request.url) then pure none else do
        t ← past
        note (Event.forward request)
        pure (answered request.url (s.client t request))

  -- handleProxy behind the upstream's answer
  proxy_respond : AuditEntry → ProxyResult → Exec (Unit {0})
  proxy_respond entry result = do
    finish_audit (record entry {
      upstream_url = result.target_url;
      response_status = result.status_code;
      response_headers = sanitized_response_headers result.header;
      response_body = result.audit_body;
      audit_status = AuditStatus.complete;
    })
    update_header (λ h. copy_response_headers h result.header)
    send result.status_code result.body

  -- handleProxy behind the call of the upstream
  proxy_answered : AuditEntry → Option ProxyResult → Exec (Unit {0})
  proxy_answered entry none =
      write_audited_error entry 502 (lit "upstream_unavailable")
        (lit "upstream service is unavailable")
  proxy_answered entry (some result) = proxy_respond entry result

  -- handleProxy behind the verification of the session
  proxy_verified : Request → Str → Route → AuditEntry → ℕ → Exec (Unit {0})
  proxy_verified r body route entry user = do
    let entry = record entry { auth_result = lit "authenticated"; user_id = some user }
    accepted_at ← draw s.now
    result ← proxy_authenticated_request r body route user accepted_at
    proxy_answered entry result

  -- A request that is turned away for its session, with the entry's note of why.
  unfoldable pub deny : AuditEntry → Str → Exec (Unit {0})
  deny entry reason =
      write_audited_error (record entry { auth_result = reason }) 401 (lit "unauthorized")
        (lit "login is required")

  unfoldable pub auth_down : AuditEntry → Str → Exec (Unit {0})
  auth_down entry reason =
      write_audited_error (record entry { auth_result = reason }) 503 (lit "auth_unavailable")
        (lit "auth verifier is unavailable")

  -- handleProxy behind the answer of the verifier
  proxy_decided : Request → Str → Route → AuditEntry → Verified → Exec (Unit {0})
  proxy_decided r body route entry (Verified.user id) = proxy_verified r body route entry id
  proxy_decided r body route entry Verified.invalid_session = deny entry (lit "invalid_session")
  proxy_decided r body route entry Verified.auth_unavailable =
      auth_down entry (lit "auth_verification_failed")

  -- handleProxy behind the token, with the server's verifier
  proxy_token : Request → Str → Route → AuditEntry → Str → Option AuthVerifier → Exec (Unit {0})
  proxy_token r body route entry token none = auth_down entry (lit "auth_verifier_missing")
  proxy_token r body route entry token (some verifier) = do
    t ← past
    note (Event.verify token)
    proxy_decided r body route entry (verifier t token)

  -- handleProxy behind the extraction of a token
  proxy_routed : Request → Str → Route → AuditEntry → Option Str → Exec (Unit {0})
  proxy_routed r body route entry none = deny entry (lit "missing_session")
  proxy_routed r body route entry (some token) = proxy_token r body route entry token s.verifier

  -- handleProxy behind the selection of a route
  proxy_started : Request → Str → AuditEntry → Option Route → Exec (Unit {0})
  proxy_started r body entry none =
      write_audited_error (record entry { auth_result = lit "route_not_found" }) 404
        (lit "not_found") (lit "route not found")
  proxy_started r body entry (some route) =
      proxy_routed r body route (record entry { route = route.name })
        (extract_access_token p r s.auth_cookie_name)

  -- handleProxy behind the reading of the body
  proxy_read : Request → AuditEntry → Reading → Exec (Unit {0})
  proxy_read r entry unreadable = do
    ok ← start_audit_or_fail (record entry { request_body = no_body })
    if not ok
        then pure tt
        else write_audited_error (record entry { request_body = no_body }) 400
            (lit "invalid_request_body") (lit "request body could not be read")
  proxy_read r entry (read body audit_body true) = do
    ok ← start_audit_or_fail (record entry { request_body = audit_body })
    if not ok
        then pure tt
        else write_audited_error (record entry { request_body = audit_body }) 413
            (lit "request_too_large") (lit "request body is too large")
  proxy_read r entry (read body audit_body false) = do
    ok ← start_audit_or_fail (record entry { request_body = audit_body })
    if not ok
        then pure tt
        else proxy_started r body (record entry { request_body = audit_body })
            (match_route s.routes r.url.path)

  -- The entry that handleProxy and beginDirectAudit start with.
  unfoldable pub fresh_entry : Request → ℕ → ℕ → Str → AuditBody → AuditEntry
  fresh_entry r request_id started route body = record {
    request_id = request_id;
    client_request_id = client_request_id r.header;
    started_at = started;
    finished_at = 0;
    duration = pos 0;
    method = r.method;
    path = r.url.path;
    raw_query = r.url.raw_query;
    route = route;
    upstream_url = [];
    user_id = none;
    remote_ip = remote_ip p r.remote_addr;
    auth_result = lit "not_checked";
    request_headers = sanitized_request_headers r.header;
    request_body = body;
    response_status = 0;
    response_headers = [];
    response_body = no_body;
    error_code = [];
    error_message = [];
    audit_status = AuditStatus.started;
  }

  pub trace_header : Option Str → Exec (Unit {0})
  trace_header none = pure tt
  trace_header (some id) = set_header (lit "X-Trace-Id") id

  pub handle_proxy : Request → Exec (Unit {0})
  handle_proxy r = do
    started ← draw p.wall_clock
    request_id ← draw p.new_uuid
    set_header request_id_header (p.uuid_string request_id)
    trace_header r.trace_id
    proxy_read (record r { context_id = some (p.uuid_string request_id) })
        (fresh_entry r request_id started [] no_body) (read_proxy_request_body r)
