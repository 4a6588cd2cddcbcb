-- ===== src/Postgres.antt =====
-- `PostgresAuditSink` of internal/gateway/audit.go over the table of db/audit_schema.sql: the
-- statements of Start and Finish as functions on the rows of audit.http_api_calls.
mod Schema
pub mod Statements
pub mod Rows
pub mod Refusals
pub mod Clock
pub mod Queries
pub mod Entries
unfoldable pub use Schema.*
use gateway_service.Prelude.{
  ℕ, ◌+◌, ◌/◌, ◌^◌, Bool, true, false, not, ◌&&◌, ◌||◌, Option, none, some, List, [], ◌∷◌, map, ltb,
  ◌==◌, if◌then◌else◌, is_empty, any, all, ℤ, pos, negate, ◌-◌,
}
use gateway_service.Text.{Str}
use gateway_service.Header.{Header}
use gateway_service.Audit.{AuditEntry, AuditStatus, BodyEncoding}
use gateway_service.World.{Trace, Event, AuditSink}

-- A statement is carried out, or refused, or carried out while the gateway is told otherwise, as by a
-- timeout.
pub data Reply : Type 0 where
  done refused lost : Reply

-- What a database does besides the statements: when it replies, and which texts, JSON values and
-- headers as JSON its columns hold.
pub record Database : Type 0 where
  pub initial : Table
  pub pings : Trace → Bool
  pub reply : Trace → Reply
  pub holds_text : Str → Bool
  pub holds_json : Str → Bool
  pub holds_headers : Header → Bool

module _ (db : Database) where
  -- Every column holds its value.
  admits : Row → Bool
  unfolding row_checks
  admits row =
      row_checks row
      && nullable db.holds_text row.client_request_id
      && db.holds_text row.method
      && db.holds_text row.path
      && db.holds_text row.raw_query
      && nullable db.holds_text row.route
      && nullable db.holds_text row.upstream_url
      && nullable db.holds_text row.remote_ip
      && db.holds_text row.auth_result
      && db.holds_headers row.request_headers
      && nullable db.holds_headers row.response_headers
      && nullable db.holds_text row.request_body_text
      && nullable db.holds_json row.request_body_json
      && nullable db.holds_text row.response_body_text
      && nullable db.holds_json row.response_body_json
      && nullable db.holds_text row.error_code
      && nullable db.holds_text row.error_message

  -- The insert, under the primary key.
  pub insert_row : Row → Table → Option Table
  insert_row row table =
      if any (λ (r : Row). r.request_id == row.request_id) table || not (admits row)
      then none
      else some (row ∷ table)

  pub changed : AuditEntry → Row → Row
  changed e row = if row.request_id == e.request_id then updated e row else row

  -- The update; `where request_id = $1` is the test of `changed`.
  pub update_rows : AuditEntry → Table → Option Table
  unfolding changed
  update_rows e table =
      if all (λ (r : Row). not (r.request_id == e.request_id) || admits (updated e r)) table
      then some (map (changed e) table)
      else none

  -- RowsAffected
  affected : AuditEntry → Table → ℕ
  affected e [] = 0
  affected e (row ∷ table) = (if row.request_id == e.request_id then 1 else 0) + affected e table

  abbrev pub table_or : Table → Option Table → Table
  table_or old none = old
  table_or old (some new) = new

  -- What a statement leaves, and whether its error is nil.
  abbrev pub effect : Reply → Table → Option Table → Table
  effect Reply.done old result = table_or old result
  effect Reply.lost old result = table_or old result
  effect Reply.refused old result = old

  abbrev pub succeeded : Reply → Option Table → Bool
  succeeded Reply.done none = false
  succeeded Reply.done (some table) = true
  succeeded Reply.lost result = false
  succeeded Reply.refused result = false

  -- The table after all that happened.
  pub table_of : Trace → Table
  table_of [] = db.initial
  table_of (Event.audit_start e ∷ t) =
      effect (db.reply t) (table_of t) (insert_row (inserted e) (table_of t))
  table_of (Event.audit_finish e ∷ t) =
      effect (db.reply t) (table_of t) (update_rows e (table_of t))
  table_of (Event.verify token ∷ t) = table_of t
  table_of (Event.forward o ∷ t) = table_of t
  table_of (Event.list_calls f ∷ t) = table_of t
  table_of (Event.get_call n ∷ t) = table_of t
  table_of (Event.respond n ∷ t) = table_of t

  -- Start
  pub postgres_start : Trace → AuditEntry → Bool
  postgres_start t e = succeeded (db.reply t) (insert_row (inserted e) (table_of t))

  -- Finish: the update must meet one row.
  pub postgres_finish : Trace → AuditEntry → Bool
  postgres_finish t e =
      succeeded (db.reply t) (update_rows e (table_of t)) && affected e (table_of t) == 1

  pub postgres_sink : AuditSink
  unfolding postgres_start postgres_finish
  postgres_sink = record { ping = db.pings; start = postgres_start; finish = postgres_finish }
