-- ===== src/Postgres/Entries.antt =====
-- What the queries of the audit log return of a row, and the store that they make.
pub mod Listing
use gateway_service.Prelude.{
  ℕ, Bool, true, false, Option, none, some, List, [], ◌∷◌, map, ◌==◌, if◌then◌else◌, pos,
}
use gateway_service.Text.{Str, lit}
use gateway_service.Filter.{AuditLogFilter}
use gateway_service.World.{Trace, AuditLogStore, Lookup}
use gateway_service.Postgres.{Row, Table, Reply, Database, table_of}
use gateway_service.Postgres.Queries.{Value, Expressions, or_null, coalesce, listed}

module _ (x : Expressions) where
  -- `left(coalesce(text, base64, ''), 320)`
  preview : Option Str → Option Str → Value
  preview text base64 = Value.text (x.left (coalesce text (coalesce base64 [])) 320)

  -- The columns of an entry in the list.
  list_columns : Row → List (Str × Value)
  unfolding preview
  list_columns row =
      (lit "request_id", Value.uuid row.request_id)
      ∷ (lit "client_request_id", or_null Value.text row.client_request_id)
      ∷ (lit "started_at", Value.instant row.started_at)
      ∷ (lit "finished_at", or_null Value.instant row.finished_at)
      ∷ (lit "duration_ms", or_null Value.number row.duration_ms)
      ∷ (lit "method", Value.text row.method)
      ∷ (lit "path", Value.text row.path)
      ∷ (lit "raw_query", Value.text row.raw_query)
      ∷ (lit "route", or_null Value.text row.route)
      ∷ (lit "user_id", or_null Value.uuid row.user_id)
      ∷ (lit "remote_ip", or_null Value.text row.remote_ip)
      ∷ (lit "auth_result", Value.text row.auth_result)
      ∷ (lit "response_status", or_null (λ n. Value.number (pos n)) row.response_status)
      ∷ (lit "request_body_size", Value.number (pos row.request_body_size))
      ∷ (lit "request_body_truncated", Value.truth row.request_body_truncated)
      ∷ (lit "request_body_preview", preview row.request_body_text row.request_body_base64)
      ∷ (lit "response_body_size", or_null (λ n. Value.number (pos n)) row.response_body_size)
      ∷ (lit "response_body_truncated", or_null Value.truth row.response_body_truncated)
      ∷ (lit "response_body_preview", preview row.response_body_text row.response_body_base64)
      ∷ (lit "error_code", or_null Value.text row.error_code)
      ∷ (lit "error_message", or_null Value.text row.error_message)
      ∷ (lit "audit_status", Value.status row.audit_status)
      ∷ []

  pub list_entry : Row → Str
  unfolding list_columns
  list_entry row = x.jsonb_build_object (list_columns row)

-- All columns.
detail_columns : Row → List (Str × Value)
detail_columns row =
    (lit "request_id", Value.uuid row.request_id)
    ∷ (lit "client_request_id", or_null Value.text row.client_request_id)
    ∷ (lit "started_at", Value.instant row.started_at)
    ∷ (lit "finished_at", or_null Value.instant row.finished_at)
    ∷ (lit "duration_ms", or_null Value.number row.duration_ms)
    ∷ (lit "method", Value.text row.method)
    ∷ (lit "path", Value.text row.path)
    ∷ (lit "raw_query", Value.text row.raw_query)
    ∷ (lit "route", or_null Value.text row.route)
    ∷ (lit "upstream_url", or_null Value.text row.upstream_url)
    ∷ (lit "user_id", or_null Value.uuid row.user_id)
    ∷ (lit "remote_ip", or_null Value.text row.remote_ip)
    ∷ (lit "auth_result", Value.text row.auth_result)
    ∷ (lit "request_headers", Value.headers row.request_headers)
    ∷ (lit "request_body_text", or_null Value.text row.request_body_text)
    ∷ (lit "request_body_base64", or_null Value.text row.request_body_base64)
    ∷ (lit "request_body_json", or_null Value.json row.request_body_json)
    ∷ (lit "request_body_encoding", Value.encoding row.request_body_encoding)
    ∷ (lit "request_body_size", Value.number (pos row.request_body_size))
    ∷ (lit "request_body_truncated", Value.truth row.request_body_truncated)
    ∷ (lit "response_status", or_null (λ n. Value.number (pos n)) row.response_status)
    ∷ (lit "response_headers", or_null Value.headers row.response_headers)
    ∷ (lit "response_body_text", or_null Value.text row.response_body_text)
    ∷ (lit "response_body_base64", or_null Value.text row.response_body_base64)
    ∷ (lit "response_body_json", or_null Value.json row.response_body_json)
    ∷ (lit "response_body_encoding", or_null Value.encoding row.response_body_encoding)
    ∷ (lit "response_body_size", or_null (λ n. Value.number (pos n)) row.response_body_size)
    ∷ (lit "response_body_truncated", or_null Value.truth row.response_body_truncated)
    ∷ (lit "error_code", or_null Value.text row.error_code)
    ∷ (lit "error_message", or_null Value.text row.error_message)
    ∷ (lit "audit_status", Value.status row.audit_status)
    ∷ []

module _ (db : Database) (x : Expressions) (upper : Str → Str) where
  pub detail_entry : Row → Str
  unfolding detail_columns
  detail_entry row = x.jsonb_build_object (detail_columns row)

  entries : Reply → Option Table → Option (List Str)
  unfolding list_entry
  entries Reply.done (some found) = some (map (list_entry x) found)
  entries Reply.done none = none
  entries Reply.refused found = none
  entries Reply.lost found = none

  list_http_api_calls : Trace → AuditLogFilter → Option (List Str)
  unfolding entries
  list_http_api_calls t filter = entries (db.reply t) (listed db x upper filter (table_of db t))

  -- `where request_id = $1`
  row_of : ℕ → Table → Option Row
  row_of id [] = none
  row_of id (row ∷ table) = if row.request_id == id then some row else row_of id table

  detail : Reply → Option Row → Lookup
  unfolding detail_entry
  detail Reply.done none = Lookup.missing
  detail Reply.done (some row) = Lookup.found (detail_entry row)
  detail Reply.refused o = Lookup.failed
  detail Reply.lost o = Lookup.failed

  get_http_api_call : Trace → ℕ → Lookup
  unfolding detail row_of
  get_http_api_call t id = detail (db.reply t) (row_of id (table_of db t))

  pub postgres_store : AuditLogStore
  unfolding list_http_api_calls get_http_api_call
  postgres_store = record {
    list_http_api_calls = list_http_api_calls;
    get_http_api_call = get_http_api_call;
  }
