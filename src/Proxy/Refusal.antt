-- ===== src/Proxy/Refusal.antt =====
-- What a client gets when the audit sink refuses the record of its request.
use gateway_service.Prelude.{◌≡◌, refl, ◌∙◌, ap, false, not, some, [], ◌∷◌, arith, if◌then◌else◌}
use gateway_service.Http.{Request, write_header, write_body}
use gateway_service.Audit.{AuditEntry, BodyEncoding, no_body}
use gateway_service.World.{
  Platform, Server, World, Event, Trace, AuditSink, Exec, send, ◌>>=◌, pure,
}
use gateway_service.Proxy.{
  start_audit_or_fail, write_error, proxy_read, handle_proxy, read_proxy_request_body, Reading,
  unreadable, read,
}
use gateway_service.Proxy.Bookkeeping.{trace_header-keeps}

module _ (p : Platform) (s : Server) (sink : AuditSink) (audited : s.audit_sink ≡ some sink) where
  start_refused :
      (entry : AuditEntry) (w : World)
      → sink.start w.trace entry ≡ false
      → w.writer.status ≡ 0
      → ((start_audit_or_fail p s entry w).0 ≡ false)
        × ((start_audit_or_fail p s entry w).1.trace
            ≡ Event.respond 503 ∷ Event.audit_start entry ∷ w.trace)
        × ((start_audit_or_fail p s entry w).1.writer.status ≡ 503)
  unfolding start_audit_or_fail write_error send write_header write_body
  start_refused entry w refused fresh = rw (audited, refused) (ground arith)

  -- A stage behind a refused start does not run.
  stop_refused :
      (entry : AuditEntry) (next : Exec (Unit {0})) (w : World)
      → sink.start w.trace entry ≡ false
      → w.trace ≡ []
      → w.writer.status ≡ 0
      → (((start_audit_or_fail p s entry >>= λ ok. if not ok then pure tt else next) w).1.trace
          ≡ Event.respond 503 ∷ Event.audit_start entry ∷ [])
        × (((start_audit_or_fail p s entry >>= λ ok. if not ok then pure tt else next)
              w).1.writer.status
            ≡ 503)
  stop_refused entry next w refused e f =
      let (stopped, asked, answered) = start_refused entry w refused f in
      rw stopped
        (asked ∙ ap (λ (t : Trace). Event.respond 503 ∷ Event.audit_start entry ∷ t) e, answered)

  abbrev pub RefusesUnset : Type 0
  RefusesUnset =
      (t : Trace) (e : AuditEntry)
      → e.request_body.encoding ≡ BodyEncoding.unset
      → sink.start t e ≡ false

  -- The client got a 503, and nothing happened but the start of such a record.
  abbrev pub IsRefused : World → Type 0
  IsRefused w =
      (e : AuditEntry) × (e.request_body.encoding ≡ BodyEncoding.unset)
      × (w.trace ≡ Event.respond 503 ∷ Event.audit_start e ∷ [])
      × (w.writer.status ≡ 503)

  proxy_read-IsRefused :
      (r : Request) (entry : AuditEntry) (reading : Reading) (w : World)
      → reading ≡ unreadable
      → RefusesUnset
      → w.trace ≡ []
      → w.writer.status ≡ 0
      → IsRefused (proxy_read p s r entry reading w).1
  unfolding proxy_read
  proxy_read-IsRefused r entry unreadable w broken refuses e f =
      let unset : AuditEntry = record entry { request_body = no_body } in
      let (asked, answered) = stop_refused unset _ w (refuses w.trace unset refl) e f in
      (unset, refl, asked, answered)
  proxy_read-IsRefused r entry (read body audit_body large) w broken refuses e f = cc

  -- A sink that takes no record without an encoding turns an unreadable body into a 503.
  pub handle_proxy-IsRefused :
      (r : Request) (w : World)
      → read_proxy_request_body p s r ≡ unreadable
      → RefusesUnset
      → w.trace ≡ []
      → w.writer.status ≡ 0
      → IsRefused (handle_proxy p s r w).1
  unfolding handle_proxy
  handle_proxy-IsRefused r w broken refuses e f =
      proxy_read-IsRefused _ _ (read_proxy_request_body p s r) _ broken refuses
        ((trace_header-keeps p s r.trace_id _).0 ∙ e) ((trace_header-keeps p s r.trace_id _).1 ∙ f)
