-- ===== src/Handler/Records.antt =====
-- What the audit log records of a request, over all endpoints, in the table of the schema.
use gateway_service.Prelude.{ℕ, ◌≡◌, ap, ◌∙◌, some, [], ◌∷◌}
use gateway_service.Text.{lit}
use gateway_service.Http.{Request, Outgoing, Upstream, IsFinal}
use gateway_service.World.{Platform, Server, World, Trace, Event}
use gateway_service.Proxy.Accounting.{handle_proxy-IsClosed}
use gateway_service.Proxy.Bookkeeping.{trace_header-keeps}
use gateway_service.Admin.Accounting.{handle_audit_log-IsClosed}
use gateway_service.Support.Replay.Accounting.{handle_player_support-IsClosed}
use gateway_service.Postgres.{Database, table_of, postgres_sink}
use gateway_service.Postgres.Rows.{IsRecorded, closed-IsRecorded, table_of_answered}
use gateway_service.Handler.{
  Schedules, Endpoint, asterisk, not_found, health, ready, audit_list, proxy, redirect,
  audit_detail, player_support, pull_replay, with_wildcards, serve, select, handler,
  security_headers, access_log,
}
use gateway_service.Handler.Plain.{IsPlain, serve_plain}

-- What happened and what the table holds behind a request for an endpoint: a record of it, as it is meant
-- to be, where the endpoint is audited, and else what it held before.
abbrev pub IsAccounted : Database → Endpoint → ℕ → Trace → Type 0
IsAccounted db proxy status t = IsRecorded db status t
IsAccounted db audit_list status t = IsRecorded db status t
IsAccounted db (audit_detail id) status t = IsRecorded db status t
IsAccounted db (player_support user) status t = IsRecorded db status t
IsAccounted db (pull_replay user operation) status t = IsRecorded db status t
IsAccounted db _ status t = table_of db t ≡ db.initial

module _ (p : Platform) (s : Server) (db : Database)
    (audited : s.audit_sink ≡ some (postgres_sink db))
    (final : (t : Trace) (o : Outgoing) (u : Upstream) → s.client t o ≡ some u → IsFinal u.status)
    (c : Schedules) (r : Request) where
  plain :
      (endpoint : Endpoint) (w : World)
      → IsPlain endpoint
      → w.trace ≡ []
      → table_of db (serve p s c r endpoint w).1.trace ≡ db.initial
  plain endpoint w only e =
      let (n, asked, _, _) = serve_plain p s c r endpoint w only in
      ap (table_of db) (asked ∙ ap (λ (t : Trace). Event.respond n ∷ t) e) ∙ table_of_answered db n

  serve-IsAccounted :
      (endpoint : Endpoint) (w : World)
      → w.trace ≡ []
      → w.writer.status ≡ 0
      → IsAccounted db endpoint
          (serve p s c r endpoint w).1.writer.status
          (serve p s c r endpoint w).1.trace
  unfolding serve
  serve-IsAccounted asterisk w e f = plain asterisk w tt e
  serve-IsAccounted not_found w e f = plain not_found w tt e
  serve-IsAccounted health w e f = plain health w tt e
  serve-IsAccounted ready w e f = plain ready w tt e
  serve-IsAccounted (redirect location) w e f = plain (redirect location) w tt e
  serve-IsAccounted proxy w e f =
      closed-IsRecorded db _ _ (handle_proxy-IsClosed p s (postgres_sink db) r w audited final e f)
  serve-IsAccounted audit_list w e f =
      closed-IsRecorded db _ _ (handle_audit_log-IsClosed p s (postgres_sink db) r w audited e f).0
  serve-IsAccounted (audit_detail id) w e f =
      let r' : Request = with_wildcards r ((lit "request_id", id) ∷ []) in
      closed-IsRecorded db _ _ (handle_audit_log-IsClosed p s (postgres_sink db) r' w audited e f).1
  serve-IsAccounted (player_support user) w e f =
      let r' : Request = with_wildcards r ((lit "user_id", user) ∷ []) in
      closed-IsRecorded db _ _
        (handle_player_support-IsClosed p s (postgres_sink db) c.support c.replay r' w audited e
          f).0
  serve-IsAccounted (pull_replay user operation) w e f =
      let r' : Request =
        with_wildcards r ((lit "user_id", user) ∷ (lit "operation_id", operation) ∷ []) in
      closed-IsRecorded db _ _
        (handle_player_support-IsClosed p s (postgres_sink db) c.support c.replay r' w audited e
          f).1

-- Where the gateway writes to the table of the schema and the statuses of the HTTP client's responses are
-- those of final ones, 101 or 200 to 999, a request for an audited endpoint adds at most one row and leaves
-- the others as they were. Either Start reported a failure and the client got a 503: then nothing else
-- happened, and no row was added, or the started one where the database lost the reply of the insert. Or
-- the record was started, and right before the answer Finish was called on it under the same request id,
-- as complete with the status that the client got: then the added row is the finished one, complete with
-- that status, or Finish reported a failure and it is the one that was started. A request for another
-- endpoint leaves the table.
pub handler-IsRecorded :
    (p : Platform) (s : Server) (db : Database) (c : Schedules) (r : Request) (w : World)
    → s.audit_sink ≡ some (postgres_sink db)
    → ((t : Trace) (o : Outgoing) (u : Upstream) → s.client t o ≡ some u → IsFinal u.status)
    → w.trace ≡ []
    → w.writer.status ≡ 0
    → IsAccounted db (select p r) (handler p s c r w).1.writer.status (handler p s c r w).1.trace
unfolding handler security_headers access_log
handler-IsRecorded p s db c r w audited final e f =
    let kept = trace_header-keeps p s r.trace_id w in
    serve-IsAccounted p s db audited final c r (select p r) _ (kept.0 ∙ e) (kept.1 ∙ f)
