-- ===== src/Filter/Parse.antt =====
-- parseAuditLogFilter of internal/gateway/admin_audit.go.
use gateway_service.Prelude.{
  ℕ, Bool, not, Option, none, some, if◌then◌else◌, ℤ, lt_ℕ, is_empty, ◌||◌,
}
use gateway_service.Text.{Str, lit, trim_space, parse_int}
use gateway_service.Http.{Request}
use gateway_service.Filter.{AuditLogFilter, default_audit_log_limit, normalize_audit_log_filter}

pub data FilterError : Type 0 where
  bad_limit bad_request_id bad_user_id bad_status bad_since bad_until : FilterError

unfoldable pub message : FilterError → Str
message FilterError.bad_limit = lit "limit must be a positive integer"
message FilterError.bad_request_id = lit "request_id must be a UUID"
message FilterError.bad_user_id = lit "user_id must be a UUID"
message FilterError.bad_status = lit "status must be an HTTP status code"
message FilterError.bad_since = lit "since must be an RFC3339 timestamp"
message FilterError.bad_until = lit "until must be an RFC3339 timestamp"

pub data Result {ℓ} (A : Type ℓ) : Type ℓ where
  ok : A → Result A
  err : FilterError → Result A

infixl 5 ◌>>=◌
abbrev pub ◌>>=◌ {ℓ κ} : {A : Type ℓ} {B : Type κ} → Result A → (A → Result B) → Result B
ok a >>= f = f a
err e >>= f = err e

abbrev or_err {ℓ} : {A : Type ℓ} → Option A → FilterError → Result (Option A)
or_err none e = err e
or_err (some a) e = ok (some a)

-- A parameter that may be missing or blank, and is parsed otherwise.
unfoldable pub optional {ℓ} :
    {A : Type ℓ} → Str → (Str → Option A) → FilterError → Result (Option A)
optional value parse e =
    let raw = trim_space value in if is_empty raw then ok none else or_err (parse raw) e

-- A number that passes a test.
abbrev checked : (ℤ → Bool) → Option ℤ → Option ℤ
checked test none = none
checked test (some n) = if test n then some n else none

unfoldable pub parse_limit : Str → Option ℤ
parse_limit raw = checked (λ n. not (lt_ℕ n 1)) (parse_int raw)

unfoldable pub parse_status : Str → Option ℤ
parse_status raw = checked (λ n. not (lt_ℕ n 100 || not (lt_ℕ n 600))) (parse_int raw)

abbrev given_or {ℓ} : {A : Type ℓ} → Option A → A → A
given_or none a = a
given_or (some b) a = b

-- The parsers of UUIDs and of RFC 3339 times, and Unicode's upper case, are other packages'.
unfoldable pub parse_audit_log_filter :
    (Str → Option ℕ) → (Str → Option ℕ) → (Str → Str) → Request → Result AuditLogFilter
unfolding optional parse_limit parse_status
parse_audit_log_filter uuid_parse time_parse unicode_upper r = do
  limit ← optional (r.query (lit "limit")) parse_limit FilterError.bad_limit
  request_id ← optional (r.query (lit "request_id")) uuid_parse FilterError.bad_request_id
  user_id ← optional (r.query (lit "user_id")) uuid_parse FilterError.bad_user_id
  status ← optional (r.query (lit "status")) parse_status FilterError.bad_status
  since ← optional (r.query (lit "since")) time_parse FilterError.bad_since
  until ← optional (r.query (lit "until")) time_parse FilterError.bad_until
  ok (
      normalize_audit_log_filter unicode_upper (record {
        limit = given_or limit default_audit_log_limit;
        request_id = request_id;
        user_id = user_id;
        method = r.query (lit "method");
        path_contains = r.query (lit "path");
        route = r.query (lit "route");
        auth_result = r.query (lit "auth_result");
        response_status = status;
        since = since;
        until = until;
      }))
