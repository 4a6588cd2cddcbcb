-- ===== src/Handler/Answers.antt =====
-- That each request to the gateway is answered, over all endpoints.
use gateway_service.Prelude.{
  ◌<◌, ℕ, ◌≡◌, refl, sym, ◌∙◌, [], ◌∷◌, ◌++◌, arith, Option, none, some, Bool-cases, inl, inr,
}
use mathlib.Core.Path.{subst}
use gateway_service.Text.{Str, lit}
use gateway_service.Http.{Request, Outgoing, Upstream, IsFinal, write_header, write_body}
use gateway_service.Audit.{AuditEntry}
use gateway_service.World.{Platform, Server, World, Trace, Event, AuditSink, send, set_header}
use gateway_service.Proxy.{start_audit_or_fail, finish_audit, write_error, error_json}
use gateway_service.Proxy.Answering.{handle_proxy-IsAnswered}
use gateway_service.Proxy.Bookkeeping.{IsCall, IsStarted, Bookkeeping, trace_header-keeps}
use gateway_service.Admin.Accounting.{handle_audit_log-IsAnswered}
use gateway_service.Support.Replay.Accounting.{handle_player_support-IsAnswered}
use gateway_service.Handler.{
  Schedules, Endpoint, asterisk, not_found, health, ready, audit_list, proxy, redirect,
  audit_detail, player_support, pull_replay, with_wildcards, serve, select, handler,
  security_headers, access_log,
}
use gateway_service.Handler.Plain.{IsPlain, serve_plain}

-- No response has been written.
abbrev pub IsSilent : Trace → Type 0
IsSilent [] = Unit
IsSilent (Event.respond n ∷ t) = ⊥
IsSilent (e ∷ t) = IsSilent t

-- The newest event is the one response, with the status given, which is that of a final
-- response.
abbrev pub IsAnsweredOnce : ℕ → Trace → Type 0
IsAnsweredOnce status [] = ⊥
IsAnsweredOnce status (Event.respond n ∷ t) = (n ≡ status) × (IsFinal status) × IsSilent t
IsAnsweredOnce status (e ∷ t) = ⊥

-- Where a request is answered, its client got a status.
pub answered-positive : (status : ℕ) (t : Trace) → IsAnsweredOnce status t → 0 < status
answered-positive status [] h = absurd h
answered-positive status (Event.respond n ∷ t) (same, final, silent) = ground (arith, final)
answered-positive status (Event.audit_start e ∷ t) h = absurd h
answered-positive status (Event.audit_finish e ∷ t) h = absurd h
answered-positive status (Event.verify token ∷ t) h = absurd h
answered-positive status (Event.forward o ∷ t) h = absurd h
answered-positive status (Event.list_calls f ∷ t) h = absurd h
answered-positive status (Event.get_call n ∷ t) h = absurd h

abbrev pub IsUnanswered : World → Type 0
IsUnanswered w = IsSilent w.trace × (w.writer.status ≡ 0)

abbrev pub IsAnswered : World → Type 0
IsAnswered w = IsAnsweredOnce w.writer.status w.trace

call-IsSilent : (e : Event) (t : Trace) → IsCall e → IsSilent t → IsSilent (e ∷ t)
call-IsSilent (Event.verify token) t c h = h
call-IsSilent (Event.forward o) t c h = h
call-IsSilent (Event.list_calls f) t c h = h
call-IsSilent (Event.get_call n) t c h = h
call-IsSilent (Event.audit_start e) t c h = absurd c
call-IsSilent (Event.audit_finish e) t c h = absurd c
call-IsSilent (Event.respond n) t c h = absurd c

send-IsAnswered :
    (n : ℕ) (payload : Str) (w : World)
    → IsFinal n
    → IsUnanswered w
    → IsAnswered (send n payload w).1
unfolding send write_header write_body
send-IsAnswered n payload w final (silent, fresh) = ground (arith, silent)

write_error-IsAnswered :
    (p : Platform) (s : Server) (n : ℕ) (code message : Str) (w : World)
    → IsFinal n
    → IsUnanswered w
    → IsAnswered (write_error p s n code message w).1
unfolding write_error
write_error-IsAnswered p s n code message w final h =
    send-IsAnswered n (error_json p code message ++ 10 ∷ [])
      (set_header (lit "Content-Type") (lit "application/json") w).1 final h

answered_once :
    (n status : ℕ) (t u : Trace)
    → t ≡ Event.respond n ∷ u
    → u ≡ []
    → IsFinal n
    → status ≡ n
    → IsAnsweredOnce status t
answered_once n status t u asked e final f = rw (asked, e, f) (refl, final, tt)

module _ (p : Platform) (s : Server) where
  start_audit-IsStarted :
      (o : Option AuditSink) (entry : AuditEntry) (w : World)
      → s.audit_sink ≡ o
      → w.trace ≡ []
      → w.writer.status ≡ 0
      → IsStarted IsUnanswered IsAnswered
          (start_audit_or_fail p s entry w).0
          (start_audit_or_fail p s entry w).1
  unfolding start_audit_or_fail
  start_audit-IsStarted none entry w o e f = rw o (subst IsSilent (sym e) tt, f)
  start_audit-IsStarted (some sink) entry w o e f = elim (Bool-cases (sink.start w.trace entry)) [
    | inl ok ↦ rw (o, ok) (subst IsSilent (sym e) tt, f)
    | inr refused ↦
        rw (o, refused)
          (write_error-IsAnswered p (record s { audit_sink = some sink }) 503
            (lit "audit_unavailable") (lit "audit sink is unavailable")
            (record w { trace = Event.audit_start entry ∷ w.trace }) refl
            (subst IsSilent (sym e) tt, f))
  ]

  finish_audit-IsUnanswered :
      (o : Option AuditSink) (entry : AuditEntry) (w : World)
      → s.audit_sink ≡ o
      → IsUnanswered w
      → IsUnanswered (finish_audit p s entry w).1
  unfolding finish_audit
  finish_audit-IsUnanswered none entry w o h = rw o h
  finish_audit-IsUnanswered (some sink) entry w o h = rw o h

  -- Being answered as a bookkeeping, with an audit sink and without one.
  answering : Bookkeeping p s
  answering = record {
    allowed = IsFinal;
    own = λ status final. final;
    ready = λ id w. (w.trace ≡ []) × (w.writer.status ≡ 0);
    pending = λ id w. IsUnanswered w;
    answered = IsAnswered;
    begins = λ id w e f. (e, f);
    titles = λ id trace_id w (e, f).
        let kept = trace_header-keeps p s trace_id w in (kept.0 ∙ e, kept.1 ∙ f);
    calls = λ id e w c (silent, fresh). (call-IsSilent e w.trace c silent, fresh);
    ticks = λ id n w h. h;
    starts = λ entry w (e, f). start_audit-IsStarted s.audit_sink entry w refl e f;
    ends = λ entry f payload w final complete keeps h.
        send-IsAnswered entry.response_status payload _ final
          (finish_audit-IsUnanswered s.audit_sink entry w refl h);
  }

  plain :
      (c : Schedules) (r : Request) (endpoint : Endpoint) (w : World)
      → IsPlain endpoint
      → w.trace ≡ []
      → w.writer.status ≡ 0
      → IsAnswered (serve p s c r endpoint w).1
  plain c r endpoint w only e f =
      let (n, asked, final, status) = serve_plain p s c r endpoint w only in
      answered_once n _ _ w.trace asked e final (status f)

  serve-IsAnswered :
      (c : Schedules) (r : Request) (endpoint : Endpoint) (w : World)
      → ((t : Trace) (o : Outgoing) (u : Upstream) → s.client t o ≡ some u → IsFinal u.status)
      → w.trace ≡ []
      → w.writer.status ≡ 0
      → IsAnswered (serve p s c r endpoint w).1
  unfolding serve answering
  serve-IsAnswered c r asterisk w set e f = plain c r asterisk w tt e f
  serve-IsAnswered c r not_found w set e f = plain c r not_found w tt e f
  serve-IsAnswered c r health w set e f = plain c r health w tt e f
  serve-IsAnswered c r ready w set e f = plain c r ready w tt e f
  serve-IsAnswered c r (redirect location) w set e f = plain c r (redirect location) w tt e f
  serve-IsAnswered c r proxy w set e f = handle_proxy-IsAnswered p s answering r w set e f
  serve-IsAnswered c r audit_list w set e f = (handle_audit_log-IsAnswered p s answering r w e f).0
  serve-IsAnswered c r (audit_detail id) w set e f =
      (handle_audit_log-IsAnswered p s answering (with_wildcards r ((lit "request_id", id) ∷ [])) w
        e f).1
  serve-IsAnswered c r (player_support user) w set e f =
      (handle_player_support-IsAnswered p s answering c.support c.replay
        (with_wildcards r ((lit "user_id", user) ∷ [])) w e f).0
  serve-IsAnswered c r (pull_replay user operation) w set e f =
      (handle_player_support-IsAnswered p s answering c.support c.replay
        (with_wildcards r ((lit "user_id", user) ∷ (lit "operation_id", operation) ∷ [])) w e f).1

-- Where the statuses of the HTTP client's responses are those of final ones, 101 or 200 to 999, every
-- request to every endpoint is answered: whatever the services answer, with an audit sink or without
-- one, the handling of the request ends with a response, which is the only one, and the client gets its
-- status, which is that of a final response.
pub handler-IsAnswered :
    (p : Platform) (s : Server) (c : Schedules) (r : Request) (w : World)
    → ((t : Trace) (o : Outgoing) (u : Upstream) → s.client t o ≡ some u → IsFinal u.status)
    → w.trace ≡ []
    → w.writer.status ≡ 0
    → IsAnsweredOnce (handler p s c r w).1.writer.status (handler p s c r w).1.trace
unfolding handler security_headers access_log
handler-IsAnswered p s c r w set e f =
    let kept = trace_header-keeps p s r.trace_id w in
    serve-IsAnswered p s c r (select p r) _ set (kept.0 ∙ e) (kept.1 ∙ f)
