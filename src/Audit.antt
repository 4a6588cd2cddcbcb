-- ===== src/Audit.antt =====
-- internal/gateway/audit.go: audit entries, the bodies and headers that they keep, request ids.
pub mod Bodies
pub mod Secrets
use gateway_service.Prelude.{
  ℕ, ◌+◌, ◌-◌, ◌*◌, ◌^◌, Bool, true, false, not, ◌&&◌, ◌||◌, Option, none, some, List, [], ◌∷◌,
  ◌++◌, map, ltb, leb, ◌==◌, if◌then◌else◌, length, take, is_empty, any, ℤ, negate, pos,
}
use gateway_service.Text.{Str, lit, eqb, contains, lower, trim_space}
use gateway_service.Text.Encoding.{utf8_valid, to_valid_utf8, base64_encode}
use gateway_service.Header.{Header, canonical_header_key, get, put, request_id_header}

abbrev pub max_client_request_id_length : ℕ
max_client_request_id_length = 128

abbrev pub default_audit_write_timeout : ℤ
default_audit_write_timeout = pos 3000000000

-- 4 << 20
abbrev pub default_max_body_bytes : ℕ
default_max_body_bytes = 4 * 2 ^ 20

abbrev pub default_audit_max_body_bytes : ℕ
default_audit_max_body_bytes = default_max_body_bytes

-- `AuditStatus`; `unset` is the empty string.
pub data AuditStatus : Type 0 where
  unset started complete : AuditStatus

-- `Encoding`; `unset` is the empty string.
pub data BodyEncoding : Type 0 where
  unset utf8 base64 : BodyEncoding

pub record AuditBody : Type 0 where
  pub text : Str
  pub base64 : Str
  pub json : Option Str
  pub encoding : BodyEncoding
  pub size : ℕ
  pub truncated : Bool

-- The zero value.
abbrev pub no_body : AuditBody
no_body = record {
  text = [];
  base64 = [];
  json = none;
  encoding = BodyEncoding.unset;
  size = 0;
  truncated = false;
}

-- Times are nanoseconds, ids are the 128 bits of a UUID. The two header columns hold the maps whose
-- JSON the source stores; an empty map stands for the nil of a fresh entry too.
pub record AuditEntry : Type 0 where
  pub request_id : ℕ
  pub client_request_id : Str
  pub started_at : ℕ
  pub finished_at : ℕ
  pub duration : ℤ
  pub method : Str
  pub path : Str
  pub raw_query : Str
  pub route : Str
  pub upstream_url : Str
  pub user_id : Option ℕ
  pub remote_ip : Str
  pub auth_result : Str
  pub request_headers : Header
  pub request_body : AuditBody
  pub response_status : ℕ
  pub response_headers : Header
  pub response_body : AuditBody
  pub error_code : Str
  pub error_message : Str
  pub audit_status : AuditStatus

-- `value <= 0` on an int64
abbrev is_nonpositive : ℤ → Bool
is_nonpositive (pos n) = n == 0
is_nonpositive (ℤ.negsuc n) = true

unfoldable pub normalize_audit_write_timeout : ℤ → ℤ
normalize_audit_write_timeout value =
    if is_nonpositive value then default_audit_write_timeout else value

unfoldable pub normalize_audit_max_body_bytes : ℤ → ℤ
normalize_audit_max_body_bytes value =
    if is_nonpositive value then pos default_audit_max_body_bytes else value

-- A text cut to a number of bytes, without what the cut leaves of a rune.
bounded : ℕ → Str → Str
bounded max id =
    let short = take max id in
    if ltb max (length id) then if utf8_valid short then short else to_valid_utf8 short else id

-- The client's part of requestIDsFromHeader.
unfoldable pub client_request_id : Header → Str
unfolding bounded
client_request_id header =
    bounded max_client_request_id_length (trim_space (get header request_id_header))

-- `normalize` decodes one JSON value that nothing follows and encodes it again (encoding/json).
module _ (normalize : Str → Option Str) where
  -- The JSON column: only of a whole body whose content type speaks of JSON.
  body_json : Str → Str → Bool → Option Str
  body_json body content_type truncated =
      if contains (map lower content_type) (lit "json") && not truncated
      then normalize body
      else none

  unfoldable pub new_audit_body : Str → Str → Bool → ℕ → AuditBody
  unfolding body_json
  new_audit_body body content_type truncated original_size =
      if is_empty body
      then record {
        text = [];
        base64 = [];
        json = none;
        encoding = BodyEncoding.utf8;
        size = original_size;
        truncated = truncated;
      }
      else if utf8_valid body
      then record {
        text = body;
        base64 = [];
        json = body_json body content_type truncated;
        encoding = BodyEncoding.utf8;
        size = original_size;
        truncated = truncated;
      }
      else record {
        text = [];
        base64 = base64_encode body;
        json = body_json body content_type truncated;
        encoding = BodyEncoding.base64;
        size = original_size;
        truncated = truncated;
      }

  -- auditBodyFromBytesWithOriginalSize
  unfoldable pub audit_body_sized : Str → Str → ℕ → ℕ → AuditBody
  audit_body_sized body content_type max_bytes original_size =
      let audit_body = take max_bytes body in
      new_audit_body audit_body content_type
        (ltb max_bytes (length body) || ltb (length audit_body) original_size) original_size

  unfoldable pub audit_body_from_bytes : Str → Str → ℕ → AuditBody
  audit_body_from_bytes body content_type max_bytes =
      audit_body_sized body content_type max_bytes (length body)

  -- readResponseAuditBody once the reader has been read
  unfoldable pub response_audit_body : Str → Str → ℕ → AuditBody
  response_audit_body body content_type max_bytes =
      new_audit_body (take max_bytes body) content_type (ltb max_bytes (length body)) (length body)

-- The loop of sanitizedHeaders: a later spelling of a key replaces an earlier one.
sanitize_from : (Str → Bool) → Header → Header → Header
sanitize_from drop kept [] = kept
sanitize_from drop kept ((key, vs) ∷ headers) =
    let name = canonical_header_key key in
    sanitize_from drop (if drop name then kept else put kept name vs) headers

unfoldable pub sanitized_headers : Header → (Str → Bool) → Header
unfolding sanitize_from
sanitized_headers headers drop = sanitize_from drop [] headers

unfoldable pub should_drop_audit_request_header : Str → Bool
should_drop_audit_request_header key = any (eqb (canonical_header_key key)) (
    lit "Apikey"
    ∷ lit "Api-Key"
    ∷ lit "X-Api-Key"
    ∷ lit "Authorization"
    ∷ lit "Cookie"
    ∷ lit "Proxy-Authorization"
    ∷ lit "X-Internal-Token"
    ∷ lit "X-User-Id"
    ∷ [])

unfoldable pub should_drop_audit_response_header : Str → Bool
should_drop_audit_response_header key =
    any (eqb (canonical_header_key key))
      (lit "Authorization" ∷ lit "Set-Cookie" ∷ lit "X-Internal-Token" ∷ [])

unfoldable pub sanitized_request_headers : Header → Header
sanitized_request_headers headers = sanitized_headers headers should_drop_audit_request_header

unfoldable pub sanitized_response_headers : Header → Header
sanitized_response_headers headers = sanitized_headers headers should_drop_audit_response_header
