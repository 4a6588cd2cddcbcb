-- ===== src/Handler/Correlation.antt =====
-- Under which id the client can find what was recorded of its request, over all endpoints.
use gateway_service.Prelude.{
  ℕ, ◌<◌, ◌≡◌, refl, sym, ap, ◌∙◌, [], ◌∷◌, ◌++◌, arith, Option, none, some, Bool-cases, inl, inr,
}
use mathlib.Core.Path.{subst}
use gateway_service.Text.{Str, lit, eqb}
use gateway_service.Header.{Header, canonical_header_key, set, request_id_header}
use gateway_service.Header.Laws.{values-set}
use gateway_service.Http.{Request, write_header, write_body}
use gateway_service.Audit.{AuditEntry}
use gateway_service.World.{Platform, Server, World, Trace, Event, AuditSink, send, set_header}
use gateway_service.Proxy.{start_audit_or_fail, finish_audit, write_error, error_json}
use gateway_service.Proxy.Answering.{handle_proxy-IsAnswered}
use gateway_service.Proxy.Bookkeeping.{
  IsCall, IsStarted, ShowsId, content_type-KeepsId, Bookkeeping, trace_header-keeps,
  trace_header-KeepsId,
}
use gateway_service.Admin.Accounting.{handle_audit_log-IsAnswered}
use gateway_service.Support.Replay.Accounting.{handle_player_support-IsAnswered}
use gateway_service.Handler.{
  Schedules, Endpoint, asterisk, not_found, health, ready, audit_list, proxy, redirect,
  audit_detail, player_support, pull_replay, with_wildcards, serve, select, handler,
  security_headers, access_log,
}
use gateway_service.Handler.Plain.{IsPlain, serve_plain}

module _ (p : Platform) where
  -- Each record that was started or finished has an id that a header shows first.
  abbrev pub IsCorrelated : Header → Trace → Type 0
  IsCorrelated h [] = Unit
  IsCorrelated h (Event.audit_start e ∷ t) =
      ShowsId (p.uuid_string e.request_id) h × IsCorrelated h t
  IsCorrelated h (Event.audit_finish e ∷ t) =
      ShowsId (p.uuid_string e.request_id) h × IsCorrelated h t
  IsCorrelated h (_ ∷ t) = IsCorrelated h t

  -- All records have one id.
  abbrev Logged : ℕ → Trace → Type 0
  Logged id [] = Unit
  Logged id (Event.audit_start e ∷ t) = (e.request_id ≡ id) × Logged id t
  Logged id (Event.audit_finish e ∷ t) = (e.request_id ≡ id) × Logged id t
  Logged id (_ ∷ t) = Logged id t

  -- The id is the one that the response will show, and that it shows once it is sent.
  abbrev IsTitled : ℕ → World → Type 0
  IsTitled id w =
      Logged id w.trace × ShowsId (p.uuid_string id) w.writer.header × (w.writer.status ≡ 0)

  abbrev IsSent : World → Type 0
  IsSent w =
      0 < w.writer.status → (id : ℕ) × Logged id w.trace × ShowsId (p.uuid_string id) w.writer.sent

  Logged-IsCorrelated :
      (id : ℕ) (h : Header) (t : Trace)
      → ShowsId (p.uuid_string id) h
      → Logged id t
      → IsCorrelated h t
  Logged-IsCorrelated id h [] shown l = tt
  Logged-IsCorrelated id h (Event.audit_start e ∷ t) shown (same, l) =
      (rw same shown, Logged-IsCorrelated id h t shown l)
  Logged-IsCorrelated id h (Event.audit_finish e ∷ t) shown (same, l) =
      (rw same shown, Logged-IsCorrelated id h t shown l)
  Logged-IsCorrelated id h (Event.verify token ∷ t) shown l = Logged-IsCorrelated id h t shown l
  Logged-IsCorrelated id h (Event.forward o ∷ t) shown l = Logged-IsCorrelated id h t shown l
  Logged-IsCorrelated id h (Event.list_calls f ∷ t) shown l = Logged-IsCorrelated id h t shown l
  Logged-IsCorrelated id h (Event.get_call n ∷ t) shown l = Logged-IsCorrelated id h t shown l
  Logged-IsCorrelated id h (Event.respond n ∷ t) shown l = Logged-IsCorrelated id h t shown l

  call-Logged : (id : ℕ) (e : Event) (t : Trace) → IsCall e → Logged id t → Logged id (e ∷ t)
  call-Logged id (Event.verify token) t c h = h
  call-Logged id (Event.forward o) t c h = h
  call-Logged id (Event.list_calls f) t c h = h
  call-Logged id (Event.get_call n) t c h = h
  call-Logged id (Event.audit_start e) t c h = absurd c
  call-Logged id (Event.audit_finish e) t c h = absurd c
  call-Logged id (Event.respond n) t c h = absurd c

  send-IsSent : (id n : ℕ) (payload : Str) (w : World) → IsTitled id w → IsSent (send n payload w).1
  send-IsSent id n payload w (logged, shown, fresh) answered =
      (id, sent-trace logged, subst (ShowsId (p.uuid_string id)) (sym sent-header) shown)
    where
      sent-trace : Logged id w.trace → Logged id (send n payload w).1.trace
      sent-trace l = unfold send in l

      sent-header : (send n payload w).1.writer.sent ≡ w.writer.header
      sent-header = unfold send write_header write_body in ground (arith, answered)

write_error-IsSent :
    (p : Platform) (s : Server) (id n : ℕ) (code message : Str) (w : World)
    → IsTitled p id w
    → IsSent p (write_error p s n code message w).1
unfolding write_error
write_error-IsSent p s id n code message w (l, shown, fresh) =
    send-IsSent p id n (error_json p code message ++ 10 ∷ [])
      (set_header (lit "Content-Type") (lit "application/json") w).1
      (l, content_type-KeepsId (lit "application/json") _ w.writer.header shown, fresh)

module _ (p : Platform) (s : Server) where
  start_audit-IsStarted :
      (o : Option AuditSink) (entry : AuditEntry) (w : World)
      → s.audit_sink ≡ o
      → IsTitled p entry.request_id w
      → IsStarted
          (IsTitled p entry.request_id)
          (IsSent p)
          (start_audit_or_fail p s entry w).0
          (start_audit_or_fail p s entry w).1
  unfolding start_audit_or_fail
  start_audit-IsStarted none entry w o h = rw o h
  start_audit-IsStarted (some sink) entry w o (l, shown, fresh) =
      elim (Bool-cases (sink.start w.trace entry)) [
        | inl ok ↦ rw (o, ok) ((refl, l), shown, fresh)
        | inr refused ↦
            rw (o, refused)
              (write_error-IsSent p (record s { audit_sink = some sink }) entry.request_id 503
                (lit "audit_unavailable") (lit "audit sink is unavailable")
                (record w { trace = Event.audit_start entry ∷ w.trace }) ((refl, l), shown, fresh))
      ]

  finish_audit-IsTitled :
      (o : Option AuditSink) (entry : AuditEntry) (w : World)
      → s.audit_sink ≡ o
      → IsTitled p entry.request_id w
      → IsTitled p entry.request_id (finish_audit p s entry w).1
  unfolding finish_audit
  finish_audit-IsTitled none entry w o h = rw o h
  finish_audit-IsTitled (some sink) entry w o (l, shown, fresh) = rw o ((refl, l), shown, fresh)

  request_id-ShowsId : (v : Str) (h : Header) → ShowsId v (set h request_id_header v)
  unfolding canonical_header_key eqb
  request_id-ShowsId v h = ([], values-set h request_id_header request_id_header v)

  -- The id in the response as a bookkeeping.
  correlating : Bookkeeping p s
  correlating = record {
    allowed = λ status. Unit;
    own = λ status final. tt;
    ready =
        λ id w. (w.trace ≡ []) × ShowsId (p.uuid_string id) w.writer.header × (w.writer.status ≡ 0);
    pending = IsTitled p;
    answered = IsSent p;
    begins = λ id w e f. (e, request_id-ShowsId (p.uuid_string id) w.writer.header, f);
    titles = λ id trace_id w (e, shown, f).
        let kept = trace_header-keeps p s trace_id w in
        (kept.0 ∙ e, trace_header-KeepsId p s _ trace_id w shown, kept.1 ∙ f);
    calls = λ id e w c (l, shown, fresh). (call-Logged p id e w.trace c l, shown, fresh);
    ticks = λ id n w h. h;
    starts = λ entry w (e, shown, f).
        start_audit-IsStarted s.audit_sink entry w refl
          (subst (Logged p entry.request_id) (sym e) tt, shown, f);
    ends = λ entry f payload w any complete keeps h.
        let (l, shown, fresh) = finish_audit-IsTitled s.audit_sink entry w refl h in
        send-IsSent p entry.request_id entry.response_status payload _ (l, keeps _ _ shown, fresh);
  }

  plain :
      (c : Schedules) (r : Request) (endpoint : Endpoint) (w : World)
      → IsPlain endpoint
      → w.trace ≡ []
      → IsCorrelated p (serve p s c r endpoint w).1.writer.sent (serve p s c r endpoint w).1.trace
  plain c r endpoint w only e =
      let (n, asked, _, _) = serve_plain p s c r endpoint w only in
      subst (IsCorrelated p (serve p s c r endpoint w).1.writer.sent)
        (sym (asked ∙ ap (λ (t : Trace). Event.respond n ∷ t) e)) tt

  sent-IsCorrelated :
      (w : World) → IsSent p w → 0 < w.writer.status → IsCorrelated p w.writer.sent w.trace
  sent-IsCorrelated w h answered =
      let (id, l, shown) = h answered in Logged-IsCorrelated p id w.writer.sent w.trace shown l

  serve-IsCorrelated :
      (c : Schedules) (r : Request) (endpoint : Endpoint) (w : World)
      → w.trace ≡ []
      → w.writer.status ≡ 0
      → 0 < (serve p s c r endpoint w).1.writer.status
      → IsCorrelated p (serve p s c r endpoint w).1.writer.sent (serve p s c r endpoint w).1.trace
  unfolding serve correlating
  serve-IsCorrelated c r asterisk w e f answered = plain c r asterisk w tt e
  serve-IsCorrelated c r not_found w e f answered = plain c r not_found w tt e
  serve-IsCorrelated c r health w e f answered = plain c r health w tt e
  serve-IsCorrelated c r ready w e f answered = plain c r ready w tt e
  serve-IsCorrelated c r (redirect location) w e f answered = plain c r (redirect location) w tt e
  serve-IsCorrelated c r proxy w e f answered =
      sent-IsCorrelated (serve p s c r proxy w).1
        (handle_proxy-IsAnswered p s correlating r w (λ t o u g. tt) e f) answered
  serve-IsCorrelated c r audit_list w e f answered =
      sent-IsCorrelated (serve p s c r audit_list w).1
        (handle_audit_log-IsAnswered p s correlating r w e f).0 answered
  serve-IsCorrelated c r (audit_detail id) w e f answered =
      sent-IsCorrelated (serve p s c r (audit_detail id) w).1
        (handle_audit_log-IsAnswered p s correlating
          (with_wildcards r ((lit "request_id", id) ∷ [])) w e f).1
        answered
  serve-IsCorrelated c r (player_support user) w e f answered =
      sent-IsCorrelated (serve p s c r (player_support user) w).1
        (handle_player_support-IsAnswered p s correlating c.support c.replay
          (with_wildcards r ((lit "user_id", user) ∷ [])) w e f).0
        answered
  serve-IsCorrelated c r (pull_replay user operation) w e f answered =
      sent-IsCorrelated (serve p s c r (pull_replay user operation) w).1
        (handle_player_support-IsAnswered p s correlating c.support c.replay
          (with_wildcards r ((lit "user_id", user) ∷ (lit "operation_id", operation) ∷ [])) w e f).1
        answered

-- Where a response is sent to the client, that is, where its header has been written when the handler
-- ends, the first X-Request-Id in it is the id of every record that was started or finished for its request, whatever the client and the
-- services send under this name, on every endpoint.
pub handler-IsCorrelated :
    (p : Platform) (s : Server) (c : Schedules) (r : Request) (w : World)
    → w.trace ≡ []
    → w.writer.status ≡ 0
    → 0 < (handler p s c r w).1.writer.status
    → IsCorrelated p (handler p s c r w).1.writer.sent (handler p s c r w).1.trace
unfolding handler security_headers access_log
handler-IsCorrelated p s c r w e f answered =
    let kept = trace_header-keeps p s r.trace_id w in
    serve-IsCorrelated p s c r (select p r) _ (kept.0 ∙ e) (kept.1 ∙ f) answered
