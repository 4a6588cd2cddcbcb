-- ===== src/Tests/AuditTests.antt =====
-- Audit records, filters and the where clause on sample inputs.
use gateway_service.Prelude.{◌≡◌, ◌≤◌, refl, some, none, ◌∷◌, [], take, length, ltb, pos, All, map}
use gateway_service.Text.{lit, trim_space}
use gateway_service.Header.{values, get, request_id_header}
use gateway_service.Audit.{
  client_request_id, max_client_request_id_length, audit_body_from_bytes, sanitized_request_headers,
  sanitized_response_headers,
}
use gateway_service.Audit.Bodies.{Keeps, audit_body_from_bytes-Keeps, client_request_id_bounded}
use gateway_service.Audit.Secrets.{
  secret_request_headers, sanitized_request_headers_secret, sanitized_response_headers_secret,
}
use gateway_service.Filter.{
  AuditLogFilter, Condition, where_clause, normalize_limit, max_audit_log_limit,
  audit_log_where_clause,
}
use gateway_service.Filter.Where.{where_clause-asked, count_to, pairs, asked}
use gateway_service.Samples.{platform, request}

audit_body_from_bytes-Keeps_example :
    Keeps
      (take 2 (lit "body"))
      (length (lit "body"))
      (ltb 2 (length (lit "body")))
      (audit_body_from_bytes platform.normalize_json (lit "body") [] 2)
audit_body_from_bytes-Keeps_example =
    audit_body_from_bytes-Keeps platform.normalize_json (lit "body") [] 2

client_request_id_bounded_example :
    (length (client_request_id request.header) ≤ max_client_request_id_length)
    × (length (trim_space (get request.header request_id_header)) ≤ max_client_request_id_length
        → client_request_id request.header ≡ trim_space (get request.header request_id_header))
client_request_id_bounded_example = client_request_id_bounded request.header

sanitized_request_headers_secret_example :
    All (λ name. values (sanitized_request_headers request.header) name ≡ []) secret_request_headers
sanitized_request_headers_secret_example = sanitized_request_headers_secret request.header

sanitized_response_headers_secret_example :
    All
      (λ name. values (sanitized_response_headers request.header) name ≡ [])
      (lit "Set-Cookie" ∷ lit "Authorization" ∷ lit "X-Internal-Token" ∷ [])
sanitized_response_headers_secret_example = sanitized_response_headers_secret request.header

abbrev failures : AuditLogFilter
failures = record {
  limit = pos 50;
  request_id = none;
  user_id = some 7;
  method = lit " get ";
  path_contains = [];
  route = [];
  auth_result = [];
  response_status = some (pos 502);
  since = none;
  until = none;
}

where_clause-asked_example :
    (map (λ (c : Condition). c.place) (where_clause failures).conditions
      ≡ count_to (length (where_clause failures).args))
    × (length (where_clause failures).conditions ≡ length (where_clause failures).args)
    × (pairs (where_clause failures).conditions (where_clause failures).args ≡ asked failures)
where_clause-asked_example = where_clause-asked failures

renders :
    (audit_log_where_clause (λ s. s) failures).0
    ≡ lit
        "where user_id = $1 and method = $2 and (route is null or route <> $3) and response_status = $4"
unfolding audit_log_where_clause gateway_service.Filter.render trim_space
    gateway_service.Filter.to_upper gateway_service.Text.itoa
renders = refl
