-- ===== src/Postgres/Schema.antt =====
-- The table of db/audit_schema.sql with its checks, and the rows that PostgresAuditSink writes
-- (internal/gateway/audit.go).
use gateway_service.Prelude.{
  ℕ, ◌+◌, ◌/◌, ◌^◌, Bool, true, false, not, ◌&&◌, Option, none, some, List, [], ◌∷◌, ltb, is_empty,
  ℤ, pos, negate,
}
use gateway_service.Text.{Str}
use gateway_service.Header.{Header}
use gateway_service.Audit.{AuditEntry, AuditStatus, BodyEncoding}

-- The columns that the gateway writes, instants in microseconds; created_at and updated_at are the
-- database's own.
pub record Row : Type 0 where
  pub request_id : ℕ
  pub client_request_id : Option Str
  pub started_at : ℕ
  pub finished_at : Option ℕ
  pub duration_ms : Option ℤ
  pub method : Str
  pub path : Str
  pub raw_query : Str
  pub route : Option Str
  pub upstream_url : Option Str
  pub user_id : Option ℕ
  pub remote_ip : Option Str
  pub auth_result : Str
  pub request_headers : Header
  pub request_body_text : Option Str
  pub request_body_base64 : Option Str
  pub request_body_json : Option Str
  pub request_body_encoding : BodyEncoding
  pub request_body_size : ℕ
  pub request_body_truncated : Bool
  pub response_status : Option ℕ
  pub response_headers : Option Header
  pub response_body_text : Option Str
  pub response_body_base64 : Option Str
  pub response_body_json : Option Str
  pub response_body_encoding : Option BodyEncoding
  pub response_body_size : Option ℕ
  pub response_body_truncated : Option Bool
  pub error_code : Option Str
  pub error_message : Option Str
  pub audit_status : AuditStatus

abbrev pub Table : Type 0
Table = List Row

-- `nullif(s, '')`
unfoldable pub nullif : Str → Option Str
nullif [] = none
nullif (c ∷ s) = some (c ∷ s)

-- A timestamptz of an instant in nanoseconds.
unfoldable pub microseconds : ℕ → ℕ
microseconds n = n / 1000

-- Duration.Milliseconds, which rounds towards 0
unfoldable pub milliseconds : ℤ → ℤ
milliseconds (pos n) = pos (n / 1000000)
milliseconds (ℤ.negsuc n) = negate ((n + 1) / 1000000)

-- `if entry.AuditStatus == ""`
unfoldable pub status_or : AuditStatus → AuditStatus → AuditStatus
status_or default AuditStatus.unset = default
status_or default AuditStatus.started = AuditStatus.started
status_or default AuditStatus.complete = AuditStatus.complete

-- The row that the insert of Start writes; the columns it leaves out are null.
unfoldable pub inserted : AuditEntry → Row
unfolding nullif status_or microseconds
inserted e = record {
  request_id = e.request_id;
  client_request_id = nullif e.client_request_id;
  started_at = microseconds e.started_at;
  finished_at = none;
  duration_ms = none;
  method = e.method;
  path = e.path;
  raw_query = e.raw_query;
  route = nullif e.route;
  upstream_url = nullif e.upstream_url;
  user_id = e.user_id;
  remote_ip = nullif e.remote_ip;
  auth_result = e.auth_result;
  request_headers = e.request_headers;
  request_body_text = some e.request_body.text;
  request_body_base64 = nullif e.request_body.base64;
  request_body_json = e.request_body.json;
  request_body_encoding = e.request_body.encoding;
  request_body_size = e.request_body.size;
  request_body_truncated = e.request_body.truncated;
  response_status = none;
  response_headers = none;
  response_body_text = none;
  response_body_base64 = none;
  response_body_json = none;
  response_body_encoding = none;
  response_body_size = none;
  response_body_truncated = none;
  error_code = nullif e.error_code;
  error_message = nullif e.error_message;
  audit_status = status_or AuditStatus.started e.audit_status;
}

-- A row behind the `set` of the update of Finish.
unfoldable pub updated : AuditEntry → Row → Row
unfolding nullif status_or microseconds milliseconds
updated e row = record row {
  finished_at = some (microseconds e.finished_at);
  duration_ms = some (milliseconds e.duration);
  route = nullif e.route;
  upstream_url = nullif e.upstream_url;
  user_id = e.user_id;
  auth_result = e.auth_result;
  response_status = some e.response_status;
  response_headers = some e.response_headers;
  response_body_text = some e.response_body.text;
  response_body_base64 = nullif e.response_body.base64;
  response_body_json = e.response_body.json;
  response_body_encoding = some e.response_body.encoding;
  response_body_size = some e.response_body.size;
  response_body_truncated = some e.response_body.truncated;
  error_code = nullif e.error_code;
  error_message = nullif e.error_message;
  audit_status = status_or AuditStatus.complete e.audit_status;
}

-- The checks of the schema.
unfoldable pub duration_check : Option ℤ → Bool
duration_check none = true
duration_check (some (pos n)) = true
duration_check (some (ℤ.negsuc n)) = false

unfoldable pub encoding_check : BodyEncoding → Bool
encoding_check BodyEncoding.unset = false
encoding_check BodyEncoding.utf8 = true
encoding_check BodyEncoding.base64 = true

unfoldable pub audit_status_check : AuditStatus → Bool
audit_status_check AuditStatus.unset = false
audit_status_check AuditStatus.started = true
audit_status_check AuditStatus.complete = true

-- A condition on a value that may be null.
abbrev pub nullable {ℓ} : {A : Type ℓ} → (A → Bool) → Option A → Bool
nullable test none = true
nullable test (some a) = test a

unfoldable pub row_checks : Row → Bool
unfolding duration_check encoding_check audit_status_check
row_checks row =
    not (is_empty row.method)
    && duration_check row.duration_ms
    && encoding_check row.request_body_encoding
    && nullable encoding_check row.response_body_encoding
    && audit_status_check row.audit_status
    && ltb row.request_body_size (2 ^ 31)
    && nullable (λ size. ltb size (2 ^ 31)) row.response_body_size
