-- ===== src/Tests/ProxyTests.antt =====
-- The proxy and the administrators' handlers on the sample gateway.
use gateway_service.Json.{object, member, close, text}
use gateway_service.Prelude.{
  ◌+◌, ◌-◌, ◌^◌, ◌≡◌, refl, true, false, some, ◌∷◌, [], List, arith, take, length,
}
use gateway_service.Text.{lit}
use gateway_service.Header.{
  Header, values, get, copy_response_headers, internal_token_header, user_id_header,
  request_id_header, request_accepted_at_header,
}
use gateway_service.Http.{Request, Outgoing, whole}
use gateway_service.Audit.{AuditBody, audit_body_sized}
use gateway_service.World.{Server}
use gateway_service.Proxy.{
  outgoing, handle_proxy, read_proxy_request_body, read, request_id_from_context,
}
use gateway_service.Proxy.Gate.{ForwardsOnly, IsAuthorized, handle_proxy-ForwardsOnly}
use gateway_service.Proxy.Accounting.{IsClosed, handle_proxy-IsClosed}
use gateway_service.Proxy.Headers.{outgoing_trusted, outgoing_no_credentials}
use gateway_service.Proxy.Body.{
  read_proxy_request_body_fits, read_proxy_request_body_large, read_proxy_request_body_overflow,
}
use gateway_service.Admin.{handle_audit_log_list, handle_audit_log_detail}
use gateway_service.Admin.Accounting.{handle_audit_log-IsClosed}
use gateway_service.Admin.Gate.{ReadsOnly}
use gateway_service.Admin.Reads.{AuditReads, handle_audit_log-ReadsOnly}
use gateway_service.AccessLog.{Call, header, payload}
use gateway_service.Verifier.{SupabaseVerifier, verify, Names, IsVouched, verify-IsVouched}
use gateway_service.Samples.{platform, server, request, fresh, assets, sink}

handle_proxy-ForwardsOnly_example :
    ForwardsOnly
      (IsAuthorized platform server request)
      (handle_proxy platform server request fresh).1.trace
handle_proxy-ForwardsOnly_example = handle_proxy-ForwardsOnly platform server request fresh refl

handle_proxy-IsClosed_example :
    IsClosed sink
      (handle_proxy platform server request fresh).1.writer.status
      (handle_proxy platform server request fresh).1.trace
handle_proxy-IsClosed_example =
    handle_proxy-IsClosed platform server sink request fresh refl (λ t o u e. ground arith) refl
      refl

abbrev sent : Outgoing
sent = outgoing platform server request (lit "body") assets 7 1003

outgoing_trusted_example :
    (values sent.header internal_token_header ≡ server.internal_token ∷ [])
    × (values sent.header user_id_header ≡ platform.uuid_string 7 ∷ [])
    × (values sent.header request_id_header ≡ request_id_from_context request ∷ [])
    × (values sent.header request_accepted_at_header ≡ platform.rfc3339_nano 1003 ∷ [])
outgoing_trusted_example = outgoing_trusted platform server request (lit "body") assets 7 1003

outgoing_no_credentials_example :
    (values sent.header (lit "Authorization") ≡ [])
    × (values sent.header (lit "Cookie") ≡ [])
    × (values sent.header (lit "Proxy-Authorization") ≡ [])
outgoing_no_credentials_example =
    outgoing_no_credentials platform server request (lit "body") assets 7 1003

abbrev cookie_setter : Header
cookie_setter = (lit "set-cookie", lit "a=b" ∷ []) ∷ (lit "X-Extra", lit "c" ∷ []) ∷ []

-- An id that the upstream answers with stands behind the gateway's own.
two_request_ids :
    values
      (copy_response_headers
        ((lit "X-Request-Id", lit "gateway" ∷ []) ∷ [])
        ((lit "X-Request-Id", lit "upstream" ∷ []) ∷ []))
      request_id_header
    ≡ lit "gateway" ∷ lit "upstream" ∷ []
unfolding gateway_service.Header.copy_response_headers gateway_service.Header.copy_headers
    gateway_service.Header.should_drop_response_header gateway_service.Header.canonical_header_key
    gateway_service.Header.add_all gateway_service.Header.add gateway_service.Header.put
    gateway_service.Header.values gateway_service.Text.eqb
two_request_ids = refl

read_proxy_request_body_fits_example :
    read_proxy_request_body platform server request
    ≡ read
        (lit "body")
        (audit_body_sized platform.normalize_json
          (lit "body")
          (get request.header (lit "Content-Type"))
          server.audit_max_body_bytes
          (length (lit "body")))
        false
read_proxy_request_body_fits_example =
    read_proxy_request_body_fits platform server request (lit "body") (omega arith) refl
      (omega arith)

abbrev large_request : Request
large_request = record request { body = some (whole (lit "0123456789")) }

read_proxy_request_body_large_example :
    read_proxy_request_body platform server large_request
    ≡ read
        (take server.max_body_bytes (lit "0123456789"))
        (audit_body_sized platform.normalize_json
          (take server.max_body_bytes (lit "0123456789"))
          (get large_request.header (lit "Content-Type"))
          server.audit_max_body_bytes
          (server.max_body_bytes + 1))
        true
read_proxy_request_body_large_example =
    read_proxy_request_body_large platform server large_request (lit "0123456789") (omega arith)
      refl (omega arith)

abbrev unlimited : Server
unlimited = record server { max_body_bytes = 2 ^ 63 - 1 }

read_proxy_request_body_overflow_example :
    (audit_body : AuditBody) × (read_proxy_request_body platform unlimited request
      ≡ read [] audit_body false)
read_proxy_request_body_overflow_example =
    read_proxy_request_body_overflow platform unlimited request (lit "body") refl refl

handle_audit_log-IsClosed_example :
    IsClosed sink
      (handle_audit_log_list platform server request fresh).1.writer.status
      (handle_audit_log_list platform server request fresh).1.trace
    × IsClosed sink
        (handle_audit_log_detail platform server request fresh).1.writer.status
        (handle_audit_log_detail platform server request fresh).1.trace
handle_audit_log-IsClosed_example =
    handle_audit_log-IsClosed platform server sink request fresh refl refl refl

handle_audit_log-ReadsOnly_example :
    ReadsOnly
      (AuditReads platform server request)
      (handle_audit_log_list platform server request fresh).1.trace
    × ReadsOnly
        (AuditReads platform server request)
        (handle_audit_log_detail platform server request fresh).1.trace
handle_audit_log-ReadsOnly_example = handle_audit_log-ReadsOnly platform server request fresh refl

-- A handler that sets a status twice and writes two payloads.
abbrev two_writes : List Call
two_writes = header 404 ∷ payload (lit "not") ∷ header 500 ∷ payload (lit " found") ∷ []

abbrev supabase : SupabaseVerifier
supabase = record {
  user_url = lit "https://abc.supabase.co/auth/v1/user";
  anon_key = lit "key";
  client = λ t request. some (record { status = 200; header = []; body = whole (lit "7") });
  url_valid = λ url. true;
  json = platform.json;
  first_value = λ body. some (object (member (lit "id") (text (lit "7")) close));
  uuid_parse = λ s. some 7;
}

verify-IsVouched_example :
    Names (IsVouched supabase [] (lit "good")) (verify supabase [] (lit "good"))
verify-IsVouched_example = verify-IsVouched supabase [] (lit "good")
