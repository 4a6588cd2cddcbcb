-- ===== src/Proxy/Accounting.antt =====
-- What the audit log records of a proxied request, against what the client gets.
use mathlib.Core.Path.{subst}
use gateway_service.Prelude.{
  ◌∙◌, ℕ, ◌≡◌, refl, true, false, [], ◌∷◌, arith, some, Bool-cases, inl, inr,
}
use gateway_service.Text.{Str}
use gateway_service.Header.{Header}
use gateway_service.Http.{Request, Outgoing, Upstream, IsFinal, write_header, write_body}
use gateway_service.Audit.{AuditEntry, AuditStatus}
use gateway_service.World.{Platform, Server, World, Event, Trace, AuditSink, send}
use gateway_service.Proxy.{handle_proxy, start_audit_or_fail, finish_audit, write_error}
use gateway_service.Proxy.Answering.{handle_proxy-IsAnswered}
use gateway_service.Proxy.Bookkeeping.{
  IsCall, IsStarted, KeepsId, Bookkeeping, finish_and_send, trace_header-keeps,
}

-- A trace that begins with the start of one audit record, followed by calls of services.
abbrev pub IsOpen : AuditSink → ℕ → Trace → Type 0
IsOpen sink id [] = ⊥
IsOpen sink id (Event.audit_start e ∷ t) = (e.request_id ≡ id) × (t ≡ []) × (sink.start [] e ≡ true)
IsOpen sink id (Event.verify token ∷ t) = IsOpen sink id t
IsOpen sink id (Event.forward o ∷ t) = IsOpen sink id t
IsOpen sink id (Event.list_calls f ∷ t) = IsOpen sink id t
IsOpen sink id (Event.get_call n ∷ t) = IsOpen sink id t
IsOpen sink id (Event.audit_finish e ∷ t) = ⊥
IsOpen sink id (Event.respond n ∷ t) = ⊥

-- The record is finished before the response, under its request id, as complete and with the status
-- that the client gets; or the sink refused it, and the client got a 503 and nothing else happened.
abbrev pub IsClosed : AuditSink → ℕ → Trace → Type 0
IsClosed sink status (Event.respond n ∷ Event.audit_finish e ∷ t) =
    (n ≡ status)
    × (e.response_status ≡ status)
    × (e.audit_status ≡ AuditStatus.complete)
    × IsOpen sink e.request_id t
IsClosed sink status (Event.respond n ∷ Event.audit_start e ∷ t) =
    (n ≡ status) × (status ≡ 503) × (t ≡ []) × (sink.start [] e ≡ false)
IsClosed sink status _ = ⊥

-- The state of a request whose audit record is open and whose response is not yet written.
abbrev pub IsPending : AuditSink → ℕ → World → Type 0
IsPending sink id w = IsOpen sink id w.trace × (w.writer.status ≡ 0)

module _ (p : Platform) (s : Server) (sink : AuditSink) (audited : s.audit_sink ≡ some sink) where
  pub call-IsOpen :
      (id : ℕ) (e : Event) (t : Trace) → IsCall e → IsOpen sink id t → IsOpen sink id (e ∷ t)
  call-IsOpen id (Event.verify token) t c h = h
  call-IsOpen id (Event.forward o) t c h = h
  call-IsOpen id (Event.list_calls f) t c h = h
  call-IsOpen id (Event.get_call n) t c h = h
  call-IsOpen id (Event.audit_start e) t c h = absurd c
  call-IsOpen id (Event.audit_finish e) t c h = absurd c
  call-IsOpen id (Event.respond n) t c h = absurd c

  pub start_audit_or_fail-IsStarted :
      (entry : AuditEntry) (w : World)
      → w.trace ≡ []
      → w.writer.status ≡ 0
      → IsStarted
          (IsPending sink entry.request_id)
          (λ w'. IsClosed sink w'.writer.status w'.trace)
          (start_audit_or_fail p s entry w).0
          (start_audit_or_fail p s entry w).1
  unfolding start_audit_or_fail write_error send write_header write_body
  start_audit_or_fail-IsStarted entry w e f = elim (Bool-cases (sink.start w.trace entry)) [
    | inl ok ↦
        rw (audited, ok) ((refl, e, subst (λ (t : Trace). sink.start t entry ≡ true) e ok), f)
    | inr refused ↦
        rw (audited, refused)
          (ground (arith, subst (λ (t : Trace). sink.start t entry ≡ false) e refused))
  ]

  pub finish_and_send-IsClosed :
      (entry : AuditEntry) (f : Header → Header) (payload : Str) (w : World)
      → IsFinal entry.response_status
      → entry.audit_status ≡ AuditStatus.complete
      → KeepsId f
      → IsPending sink entry.request_id w
      → IsClosed sink
          (finish_and_send p s entry f payload w).1.writer.status
          (finish_and_send p s entry f payload w).1.trace
  unfolding finish_audit send write_header write_body
  finish_and_send-IsClosed entry f payload w final complete keeps (opened, fresh) =
      rw (audited, complete) (ground arith)

  -- The audit log as a bookkeeping.
  unfoldable pub closing : Bookkeeping p s
  closing = record {
    allowed = IsFinal;
    own = λ status final. final;
    ready = λ id w. (w.trace ≡ []) × (w.writer.status ≡ 0);
    pending = IsPending sink;
    answered = λ w. IsClosed sink w.writer.status w.trace;
    begins = λ id w e f. (e, f);
    titles = λ id trace_id w (e, f).
        let kept = trace_header-keeps p s trace_id w in (kept.0 ∙ e, kept.1 ∙ f);
    calls = λ id e w c (opened, fresh). (call-IsOpen id e w.trace c opened, fresh);
    ticks = λ id n w h. h;
    starts = λ entry w (e, f). start_audit_or_fail-IsStarted entry w e f;
    ends = finish_and_send-IsClosed;
  }

-- Where the statuses of the HTTP client's responses are those of final ones, 101 or 200 to 999, and
-- there is an audit sink, each proxied request leaves one audit record that was started first and is
-- finished right before the response, complete, under the same request id and with the status that
-- the client gets; unless the sink refuses the record, when the client gets a 503 and nothing else
-- happens.
pub handle_proxy-IsClosed :
    (p : Platform) (s : Server) (sink : AuditSink) (r : Request) (w : World)
    → s.audit_sink ≡ some sink
    → ((t : Trace) (o : Outgoing) (u : Upstream) → s.client t o ≡ some u → IsFinal u.status)
    → w.trace ≡ []
    → w.writer.status ≡ 0
    → IsClosed sink (handle_proxy p s r w).1.writer.status (handle_proxy p s r w).1.trace
unfolding closing
handle_proxy-IsClosed p s sink r w audited final e f =
    handle_proxy-IsAnswered p s (closing p s sink audited) r w final e f
