-- ===== src/Postgres/Rows.antt =====
-- What has happened and what is in the table when a request is answered.
use mathlib.Core.Path.{subst}
use gateway_service.Prelude.{
  All, ℕ, ◌≡◌, refl, sym, ap, ◌∙◌, true, false, some, [], ◌∷◌, ◌++◌, ◌==◌, any, inl, inr,
}
use gateway_service.Audit.{AuditEntry, AuditStatus}
use gateway_service.World.{Trace, Event}
use gateway_service.Proxy.Bookkeeping.{IsCall}
use gateway_service.Proxy.Accounting.{IsOpen, IsClosed}
use gateway_service.Postgres.Statements.{
  insert_row-succeeded, insert_row-failed, update_rows-effect,
}
use gateway_service.Postgres.{
  Row, Reply, Database, inserted, updated, changed, table_of, postgres_start, postgres_finish,
  postgres_sink, status_or,
}

-- A trace that starts one record, goes on with calls, finishes the record and answers with a status.
abbrev pub record_trace : ℕ → AuditEntry → AuditEntry → Trace → Trace
record_trace status first last calls =
    Event.respond status ∷ Event.audit_finish last ∷ (calls ++ (Event.audit_start first ∷ []))

-- What happened and what is in the table when a request is answered with a status. Either its record
-- was started and Start reported a failure, when the client gets a 503 and nothing else happened: the
-- table is as before, or the insert's reply was lost and its row is there. Or its record was started
-- and, with only calls of services between, finished under the same id, as complete with the client's
-- status: the one row that was added is the finished one, or Finish reported a failure and the row is
-- still the one that was inserted.
pub data IsRecorded (db : Database) (status : ℕ) (t : Trace) : Type 0 where
  untouched :
      (e : AuditEntry)
      → t ≡ Event.respond 503 ∷ Event.audit_start e ∷ []
      → status ≡ 503
      → postgres_start db [] e ≡ false
      → table_of db t ≡ db.initial
      → IsRecorded db status t
  lost_insert :
      (e : AuditEntry)
      → t ≡ Event.respond 503 ∷ Event.audit_start e ∷ []
      → status ≡ 503
      → postgres_start db [] e ≡ false
      → db.reply [] ≡ Reply.lost
      → table_of db t ≡ inserted e ∷ db.initial
      → IsRecorded db status t
  unfinished :
      (first last : AuditEntry) (calls : Trace)
      → All IsCall calls
      → t ≡ record_trace status first last calls
      → first.request_id ≡ last.request_id
      → last.audit_status ≡ AuditStatus.complete
      → last.response_status ≡ status
      → postgres_finish db (calls ++ (Event.audit_start first ∷ [])) last ≡ false
      → table_of db t ≡ inserted first ∷ db.initial
      → IsRecorded db status t
  completed :
      (first last : AuditEntry) (calls : Trace)
      → All IsCall calls
      → t ≡ record_trace status first last calls
      → first.request_id ≡ last.request_id
      → table_of db t ≡ updated last (inserted first) ∷ db.initial
      → (updated last (inserted first)).audit_status ≡ AuditStatus.complete
      → (updated last (inserted first)).response_status ≡ some status
      → IsRecorded db status t

module _ (db : Database) where
  -- An open record was started first, and is a row on top of those that were there, under an id that none
  -- of them has.
  record OpenRow (id : ℕ) (t : Trace) : Type 0 where
    entry : AuditEntry
    calls : Trace
    services : All IsCall calls
    begun : t ≡ calls ++ (Event.audit_start entry ∷ [])
    top : table_of db t ≡ inserted entry ∷ db.initial
    same : entry.request_id ≡ id
    others : any (λ (r : Row). r.request_id == id) db.initial ≡ false

  started :
      (id : ℕ) (e : AuditEntry)
      → e.request_id ≡ id
      → postgres_start db [] e ≡ true
      → OpenRow id (Event.audit_start e ∷ [])
  unfolding table_of postgres_start inserted
  started id e same accepted =
      let (top, others) = insert_row-succeeded db (db.reply []) (inserted e) db.initial accepted in
      record {
        entry = e;
        calls = [];
        services = tt;
        begun = refl;
        top = top;
        same = same;
        others = rw (sym same) others;
      }

  -- A call that leaves the table leaves the row.
  passed :
      (id : ℕ) (e : Event) (t : Trace)
      → IsCall e
      → table_of db (e ∷ t) ≡ table_of db t
      → OpenRow id t
      → OpenRow id (e ∷ t)
  passed id e t call kept o = record {
    entry = o.entry;
    calls = e ∷ o.calls;
    services = (call, o.services);
    begun = ap (λ (u : Trace). e ∷ u) o.begun;
    top = kept ∙ o.top;
    same = o.same;
    others = o.others;
  }

  open_row : (id : ℕ) (t : Trace) → IsOpen (postgres_sink db) id t → OpenRow id t
  unfolding table_of postgres_sink postgres_start
  open_row id [] h = absurd h
  open_row id (Event.audit_start e ∷ t) (same, empty, accepted) =
      subst (λ (r : Trace). OpenRow id (Event.audit_start e ∷ r)) (sym empty)
        (started id e same accepted)
  open_row id (Event.verify token ∷ t) h = passed id _ t tt refl (open_row id t h)
  open_row id (Event.forward o ∷ t) h = passed id _ t tt refl (open_row id t h)
  open_row id (Event.list_calls f ∷ t) h = passed id _ t tt refl (open_row id t h)
  open_row id (Event.get_call n ∷ t) h = passed id _ t tt refl (open_row id t h)
  open_row id (Event.audit_finish e ∷ t) h = absurd h
  open_row id (Event.respond n ∷ t) h = absurd h

  finished :
      (e : AuditEntry) (t : Trace) (status : ℕ)
      → e.response_status ≡ status
      → e.audit_status ≡ AuditStatus.complete
      → OpenRow e.request_id t
      → IsRecorded db status (Event.respond status ∷ Event.audit_finish e ∷ t)
  unfolding table_of postgres_finish updated inserted status_or
  finished e t status s c o =
      elim (update_rows-effect db (db.reply t) e (inserted o.entry) db.initial o.same o.others) [
        | inl (kept, failed) ↦
            unfinished o.entry e o.calls o.services
              (ap (λ (u : Trace). Event.respond status ∷ Event.audit_finish e ∷ u) o.begun) o.same c
              s
              (subst (λ (u : Trace). postgres_finish db u e ≡ false) o.begun
                (rw (o.top, failed) refl))
              (rw o.top kept)
        | inr changed ↦
            completed o.entry e o.calls o.services
              (ap (λ (u : Trace). Event.respond status ∷ Event.audit_finish e ∷ u) o.begun) o.same
              (rw o.top changed) (rw c refl) (ap some s)
      ]

  refused :
      (e : AuditEntry) (status : ℕ)
      → status ≡ 503
      → postgres_start db [] e ≡ false
      → IsRecorded db status (Event.respond 503 ∷ Event.audit_start e ∷ [])
  unfolding table_of postgres_start
  refused e status s failed =
      elim (insert_row-failed db (db.reply []) (inserted e) db.initial failed) [
        | inl same ↦ untouched e refl s failed same
        | inr (added, lost) ↦ lost_insert e refl s failed lost added
      ]

  answered :
      (n status : ℕ) (t : Trace)
      → IsClosed (postgres_sink db) status (Event.respond n ∷ t)
      → IsRecorded db status (Event.respond n ∷ t)
  unfolding postgres_sink
  answered n status [] h = absurd h
  answered n status (Event.audit_finish e ∷ t) (same, s, c, h) =
      subst (λ (m : ℕ). IsRecorded db status (Event.respond m ∷ Event.audit_finish e ∷ t))
        (sym same) (finished e t status s c (open_row e.request_id t h))
  answered n status (Event.audit_start e ∷ t) (same, s, empty, failed) =
      rw (empty, same, s) (refused e 503 refl failed)
  answered n status (Event.verify token ∷ t) h = absurd h
  answered n status (Event.forward o ∷ t) h = absurd h
  answered n status (Event.list_calls f ∷ t) h = absurd h
  answered n status (Event.get_call k ∷ t) h = absurd h
  answered n status (Event.respond k ∷ t) h = absurd h

  -- A closed trace leaves the table recorded.
  pub closed-IsRecorded :
      (status : ℕ) (t : Trace) → IsClosed (postgres_sink db) status t → IsRecorded db status t
  closed-IsRecorded status [] h = absurd h
  closed-IsRecorded status (Event.respond n ∷ t) h = answered n status t h
  closed-IsRecorded status (Event.audit_finish e ∷ t) h = absurd h
  closed-IsRecorded status (Event.audit_start e ∷ t) h = absurd h
  closed-IsRecorded status (Event.verify token ∷ t) h = absurd h
  closed-IsRecorded status (Event.forward o ∷ t) h = absurd h
  closed-IsRecorded status (Event.list_calls f ∷ t) h = absurd h
  closed-IsRecorded status (Event.get_call k ∷ t) h = absurd h

  -- An answer alone leaves the table.
  pub table_of_answered : (n : ℕ) → table_of db (Event.respond n ∷ []) ≡ db.initial
  unfolding table_of
  table_of_answered n = refl
