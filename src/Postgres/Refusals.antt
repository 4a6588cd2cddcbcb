-- ===== src/Postgres/Refusals.antt =====
-- Requests whose record the table cannot hold.
use gateway_service.Prelude.{◌≡◌, refl, false, none, some, [], ◌∷◌, arith}
use gateway_service.Http.{Request}
use gateway_service.Audit.{AuditEntry, BodyEncoding}
use gateway_service.World.{Platform, Server, World, Event, Trace}
use gateway_service.Proxy.{handle_proxy, read_proxy_request_body, unreadable}
use gateway_service.Proxy.Refusal.{handle_proxy-IsRefused}
use gateway_service.Postgres.{
  Reply, Database, Table, inserted, admits, row_checks, encoding_check, insert_row, effect,
  succeeded, table_of, postgres_start, postgres_sink,
}

module _ (db : Database) where
  -- The schema's check refuses the empty encoding.
  insert_row_unencoded :
      (e : AuditEntry) (table : Table)
      → e.request_body.encoding ≡ BodyEncoding.unset
      → insert_row db (inserted e) table ≡ none
  unfolding insert_row admits row_checks encoding_check inserted
  insert_row_unencoded e table h = rw h (ground arith)

  postgres_start_unencoded :
      (t : Trace) (e : AuditEntry)
      → e.request_body.encoding ≡ BodyEncoding.unset
      → postgres_start db t e ≡ false
  unfolding postgres_start
  postgres_start_unencoded t e h =
      rw (insert_row_unencoded e (table_of db t) h) (none_fails (db.reply t))
    where
      none_fails : (reply : Reply) → succeeded db reply none ≡ false
      none_fails Reply.done = refl
      none_fails Reply.lost = refl
      none_fails Reply.refused = refl

  table_of_unencoded :
      (e : AuditEntry)
      → e.request_body.encoding ≡ BodyEncoding.unset
      → table_of db (Event.respond 503 ∷ Event.audit_start e ∷ []) ≡ db.initial
  unfolding table_of
  table_of_unencoded e h = rw (insert_row_unencoded e db.initial h) (none_leaves (db.reply []))
    where
      none_leaves : (reply : Reply) → effect db reply db.initial none ≡ db.initial
      none_leaves Reply.done = refl
      none_leaves Reply.lost = refl
      none_leaves Reply.refused = refl

-- A request whose body cannot be read is answered with a 503 and leaves no record, whatever the
-- database replies, where the gateway writes to the table of the schema.
pub handle_proxy_unreadable :
    (p : Platform) (s : Server) (db : Database) (r : Request) (w : World)
    → s.audit_sink ≡ some (postgres_sink db)
    → read_proxy_request_body p s r ≡ unreadable
    → w.trace ≡ []
    → w.writer.status ≡ 0
    → ((handle_proxy p s r w).1.writer.status ≡ 503)
      × (table_of db (handle_proxy p s r w).1.trace ≡ db.initial)
unfolding postgres_sink
handle_proxy_unreadable p s db r w audited broken e f =
    let (entry, unset, asked, answered) =
      handle_proxy-IsRefused p s (postgres_sink db) audited r w broken (postgres_start_unencoded db)
        e f in
    (answered, rw asked (table_of_unencoded db entry unset))
