-- ===== src/Admin.antt =====
-- The administrators' handlers over the audit log: internal/gateway/admin_audit.go.
mod Views
pub mod Gate
pub mod Reads
pub mod Accounting
use gateway_service.Prelude.{
  ℕ, zero, suc, ◌+◌, Bool, true, false, not, ◌&&◌, ◌||◌, Option, none, some, List, [], ◌∷◌, ◌++◌,
  ◌==◌, if◌then◌else◌, length, any, is_empty, ℤ,
}
use gateway_service.Text.{Str, lit, trim_space}
use gateway_service.Header.{Header, set, request_id_header}
use gateway_service.Http.{Request}
use gateway_service.Audit.{
  AuditEntry, AuditStatus, BodyEncoding, no_body, audit_body_from_bytes, sanitized_response_headers,
}
use gateway_service.Filter.{AuditLogFilter, audit_admin_route_name, normalize_limit}
use gateway_service.Filter.Parse.{Result, ok, err, message, parse_audit_log_filter}
use gateway_service.Token.{extract_access_token}
use gateway_service.World.{
  Platform, Server, AuthVerifier, AuditLogStore, Lookup, Verified, Event, Exec, ◌>>=◌, ◌>>◌, pure,
  draw, note, past, set_header, send,
}
use gateway_service.Admin.Views.{list_json, detail_json}
use gateway_service.Proxy.{
  fresh_entry, start_audit_or_fail, finish_audit, write_audited_error, deny, auth_down,
}

-- isAuditLogAdmin
unfoldable pub is_audit_log_admin : List ℕ → ℕ → Bool
is_audit_log_admin admins user = if is_empty admins then false else any (λ id. id == user) admins

module _ (p : Platform) (s : Server) where
  -- The entry that beginDirectAudit returns, and the request with its id in the context.
  unfoldable pub begin_direct_audit : Request → Str → Exec (AuditEntry × Request)
  begin_direct_audit r route = do
    started ← draw p.wall_clock
    request_id ← draw p.new_uuid
    set_header request_id_header (p.uuid_string request_id)
    pure (
      fresh_entry p s r request_id started route (record no_body { encoding = BodyEncoding.utf8 }),
      record r { context_id = some (p.uuid_string request_id) },
    )

  -- authorizeAuditLogAdmin once the user is known; the entry comes back with the user.
  authorize_user : AuditEntry → ℕ → Bool → Exec (Option AuditEntry)
  authorize_user entry user true =
      pure (some (record entry { auth_result = lit "authenticated"; user_id = some user }))
  authorize_user entry user false = do
    write_audited_error p s (record entry { auth_result = lit "forbidden"; user_id = some user })
        403 (lit "forbidden") (lit "admin access is required")
    pure none

  -- authorizeAuditLogAdmin behind the answer of the verifier
  authorize_decided : AuditEntry → Verified → Exec (Option AuditEntry)
  authorize_decided entry (Verified.user id) =
      authorize_user entry id (is_audit_log_admin s.admin_user_ids id)
  authorize_decided entry Verified.invalid_session = do
    deny p s entry (lit "invalid_session")
    pure none
  authorize_decided entry Verified.auth_unavailable = do
    auth_down p s entry (lit "auth_verification_failed")
    pure none

  -- authorizeAuditLogAdmin behind the token, with the server's verifier
  authorize_token : AuditEntry → Str → Option AuthVerifier → Exec (Option AuditEntry)
  authorize_token entry token none = do auth_down p s entry (lit "auth_verifier_missing"); pure none
  authorize_token entry token (some verifier) = do
    t ← past
    note (Event.verify token)
    authorize_decided entry (verifier t token)

  authorize_presented : AuditEntry → Option Str → Exec (Option AuditEntry)
  authorize_presented entry none = do deny p s entry (lit "missing_session"); pure none
  authorize_presented entry (some token) = authorize_token entry token s.verifier

  -- authorizeAuditLogAdmin: `none` is a request that was turned away.
  pub authorize_audit_log_admin : Request → AuditEntry → Exec (Option AuditEntry)
  authorize_audit_log_admin r entry =
      authorize_presented entry (extract_access_token p r s.auth_cookie_name)

  -- The entry that writeAuditedJSON completes.
  json_entry : AuditEntry → ℕ → Str → AuditEntry
  json_entry entry status body = record entry {
    response_status = status;
    response_headers =
        sanitized_response_headers (set [] (lit "Content-Type") (lit "application/json"));
    response_body =
        audit_body_from_bytes p.normalize_json body (lit "application/json") s.audit_max_body_bytes;
    audit_status = AuditStatus.complete;
  }

  -- writeAuditedJSON on what json.Marshal returns
  unfoldable pub write_audited_json : AuditEntry → ℕ → Option Str → Exec (Unit {0})
  unfolding json_entry
  write_audited_json entry status none =
      write_audited_error p s entry 500 (lit "internal_error") (lit "response could not be encoded")
  write_audited_json entry status (some body) = do
    finish_audit p s (json_entry entry status body)
    set_header (lit "Content-Type") (lit "application/json")
    send status body

  -- A handler behind the administrator's session
  direct_authorized : (AuditEntry → Exec (Unit {0})) → Option AuditEntry → Exec (Unit {0})
  direct_authorized rest none = pure tt
  direct_authorized rest (some entry) = rest entry

  -- What the direct handlers begin with: the audit record, the administrator's session, then a rest
  -- that gets the record with the user.
  unfoldable pub direct : Request → Str → (AuditEntry → Exec (Unit {0})) → Exec (Unit {0})
  unfolding direct_authorized
  direct r route rest = do
    (entry, request) ← begin_direct_audit r route
    started ← start_audit_or_fail p s entry
    if not started then pure tt else do
      authorized ← authorize_audit_log_admin request entry
      direct_authorized rest authorized

  list_answered : AuditEntry → AuditLogFilter → Option (List Str) → Exec (Unit {0})
  list_answered entry filter none =
      write_audited_error p s entry 503 (lit "audit_log_unavailable")
        (lit "audit logs are unavailable")
  list_answered entry filter (some items) =
      write_audited_json entry 200 (list_json p.json items (normalize_limit filter.limit))

  list_stored : AuditEntry → AuditLogFilter → Option AuditLogStore → Exec (Unit {0})
  list_stored entry filter none =
      write_audited_error p s entry 503 (lit "audit_log_unavailable")
        (lit "audit log store is unavailable")
  list_stored entry filter (some store) = do
    t ← past
    note (Event.list_calls filter)
    list_answered entry filter (store.list_http_api_calls t filter)

  list_parsed : AuditEntry → Result AuditLogFilter → Exec (Unit {0})
  list_parsed entry (err e) = write_audited_error p s entry 400 (lit "invalid_query") (message e)
  list_parsed entry (ok filter) = list_stored entry filter s.audit_log_store

  pub handle_audit_log_list : Request → Exec (Unit {0})
  handle_audit_log_list r = direct r audit_admin_route_name λ entry.
      list_parsed entry (parse_audit_log_filter p.uuid_parse p.rfc3339_parse p.unicode_upper r)

  detail_answered : AuditEntry → Lookup → Exec (Unit {0})
  detail_answered entry Lookup.failed =
      write_audited_error p s entry 503 (lit "audit_log_unavailable")
        (lit "audit logs are unavailable")
  detail_answered entry Lookup.missing =
      write_audited_error p s entry 404 (lit "not_found") (lit "audit log entry was not found")
  detail_answered entry (Lookup.found item) = write_audited_json entry 200 (detail_json p.json item)

  detail_stored : AuditEntry → ℕ → Option AuditLogStore → Exec (Unit {0})
  detail_stored entry request_id none =
      write_audited_error p s entry 503 (lit "audit_log_unavailable")
        (lit "audit log store is unavailable")
  detail_stored entry request_id (some store) = do
    t ← past
    note (Event.get_call request_id)
    detail_answered entry (store.get_http_api_call t request_id)

  detail_parsed : AuditEntry → Option ℕ → Exec (Unit {0})
  detail_parsed entry none =
      write_audited_error p s entry 400 (lit "invalid_request_id") (lit "request_id must be a UUID")
  detail_parsed entry (some request_id) = detail_stored entry request_id s.audit_log_store

  pub handle_audit_log_detail : Request → Exec (Unit {0})
  handle_audit_log_detail r =
      direct r audit_admin_route_name
        λ entry. detail_parsed entry (p.uuid_parse (trim_space (r.path_value (lit "request_id"))))
