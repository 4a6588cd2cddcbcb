-- ===== src/Postgres/Entries/Listing.antt =====
-- The page of entries that ListHTTPAPICalls returns.
use gateway_service.Prelude.{ℕ, ◌≡◌, refl, true, some, map, all, pos}
use gateway_service.Text.{Str}
use gateway_service.Filter.{
  AuditLogFilter, where_clause, normalize_audit_log_filter, normalize_limit,
}
use gateway_service.World.{Trace}
use gateway_service.Postgres.{Table, Reply, Database, table_of}
use gateway_service.Postgres.Queries.{Expressions, accepts}
use gateway_service.Postgres.Queries.Conditions.{wanted}
use gateway_service.Postgres.Queries.Pages.{IsPage, listed-IsPage}
use gateway_service.Postgres.Entries.{list_entry, list_http_api_calls, entries, postgres_store}

-- Where the database answers and its columns can hold what the normalised filter asks for, the list of
-- the audit log is the page of the rows that meet each field of the filter that is set, without the
-- administrators' own queries unless a route or a request is asked for: newest first, no more than the
-- limit as it is bounded, and no row left out that is newer than one returned.
pub list_http_api_calls-IsPage :
    (db : Database) (x : Expressions) (upper : Str → Str) (t : Trace) (filter : AuditLogFilter)
    → db.reply t ≡ Reply.done
    → all
        (accepts db x)
        (where_clause
          (normalize_audit_log_filter upper (normalize_audit_log_filter upper filter))).args
      ≡ true
    → (n : ℕ) × (found : Table) × (normalize_limit filter.limit ≡ pos n)
      × ((postgres_store db x upper).list_http_api_calls t filter ≡ some (map (list_entry x) found))
      × IsPage
          (wanted x (normalize_audit_log_filter upper (normalize_audit_log_filter upper filter)))
          n
          (table_of db t)
          found
unfolding postgres_store list_http_api_calls entries
list_http_api_calls-IsPage db x upper t filter answered accepted =
    let (n, found, limit, result, page) =
      listed-IsPage db x upper filter (table_of db t) accepted in
    (n, found, limit, rw (answered, result) refl, page)
