-- ===== src/Tests/StoreTests.antt =====
-- The audit log in a table, and its list.
use gateway_service.Prelude.{
  ℕ, ℤ, arith, ◌≡◌, refl, true, false, some, none, [], ◌∷◌, pos, map, take,
}
use gateway_service.Text.{Str, lit}
use gateway_service.Audit.{AuditEntry, AuditBody, AuditStatus, BodyEncoding}
use gateway_service.Filter.{AuditLogFilter, normalize_limit, normalize_audit_log_filter}
use gateway_service.World.{Event}
use gateway_service.Postgres.{Table, Reply, Database, table_of, inserted, postgres_finish}
use gateway_service.Postgres.Clock.{postgres_finish_backwards}
use gateway_service.Postgres.Queries.{Expressions}
use gateway_service.Postgres.Queries.Conditions.{wanted}
use gateway_service.Postgres.Queries.Pages.{IsPage}
use gateway_service.Postgres.Entries.{list_entry, postgres_store}
use gateway_service.Postgres.Entries.Listing.{list_http_api_calls-IsPage}
use gateway_service.Samples.{platform}

abbrev body : AuditBody
body = record {
  text = lit "{}";
  base64 = [];
  json = some (lit "{}");
  encoding = BodyEncoding.utf8;
  size = 2;
  truncated = false;
}

abbrev entry : ℕ → ℕ → AuditEntry
entry id started = record {
  request_id = id;
  client_request_id = [];
  started_at = started;
  finished_at = 0;
  duration = pos 0;
  method = lit "GET";
  path = lit "/api/v1/assets/me";
  raw_query = [];
  route = lit "assets";
  upstream_url = [];
  user_id = none;
  remote_ip = lit "10.0.0.1";
  auth_result = lit "pending";
  request_headers = [];
  request_body = body;
  response_status = 0;
  response_headers = [];
  response_body = body;
  error_code = [];
  error_message = [];
  audit_status = AuditStatus.unset;
}

abbrev logged : Database
logged = record {
  initial = inserted (entry 1 1000) ∷ inserted (entry 2 3000) ∷ inserted (entry 3 2000) ∷ [];
  pings = λ t. true;
  reply = λ t. Reply.done;
  holds_text = λ s. true;
  holds_json = λ s. true;
  holds_headers = λ h. true;
}

abbrev expressions : Expressions
expressions = record {
  ilike = λ s pattern. true;
  left = λ s n. take n s;
  jsonb_build_object = λ columns. lit "{}";
}

abbrev two_gets : AuditLogFilter
two_gets = record {
  limit = pos 2;
  request_id = none;
  user_id = none;
  method = lit " get";
  path_contains = [];
  route = [];
  auth_result = [];
  response_status = none;
  since = none;
  until = some 5000;
}

list_http_api_calls-IsPage_example :
    (n : ℕ) × (found : Table) × (normalize_limit two_gets.limit ≡ pos n)
    × ((postgres_store logged expressions platform.unicode_upper).list_http_api_calls [] two_gets
        ≡ some (map (list_entry expressions) found))
    × IsPage
        (wanted expressions (
          normalize_audit_log_filter platform.unicode_upper
            (normalize_audit_log_filter platform.unicode_upper two_gets)))
        n
        (table_of logged [])
        found
unfolding gateway_service.Filter.where_clause gateway_service.Filter.normalize_audit_log_filter
    gateway_service.Text.trim_space gateway_service.Filter.to_upper gateway_service.Text.upper
    gateway_service.Postgres.Queries.accepts
list_http_api_calls-IsPage_example =
    list_http_api_calls-IsPage logged expressions platform.unicode_upper [] two_gets refl refl

-- A record that is finished two milliseconds before it was started.
abbrev set_back : AuditEntry
set_back = record (entry 1 1000) { duration = ℤ.negsuc 1999999 }

postgres_finish_backwards_example :
    (postgres_finish logged [] set_back ≡ false)
    × (table_of logged (Event.audit_finish set_back ∷ []) ≡ table_of logged [])
postgres_finish_backwards_example =
    postgres_finish_backwards logged set_back 1999999 [] refl (omega arith)
