-- ===== src/Handler/Readiness.antt =====
-- When the readiness probe sends traffic to the gateway.
use mathlib.Core.Option.{some-injective}
use gateway_service.Prelude.{
  ℕ, ◌≡◌, refl, sym, ap, ◌∙◌, Bool, true, false, Option, none, some, is_empty, inl, inr, ◌⊎◌, arith,
}
use gateway_service.Text.{Str}
use gateway_service.Http.{Request, write_header, write_body}
use gateway_service.World.{Platform, Server, World, Trace, AuditSink, AuthVerifier, send}
use gateway_service.Proxy.{write_error}
use gateway_service.Handler.{
  write_status, ready_pinged, ready_configured, unconfigured, ready_tested, handle_ready,
}

-- The gateway can serve a request: it has what verifies sessions, the token of the internal services
-- and a route, and its audit sink, if it has one, is reachable.
pub record IsReady (s : Server) (t : Trace) : Type 0 where
  pub verifier : AuthVerifier
  pub verifies : s.verifier ≡ some verifier
  pub has_token : is_empty s.internal_token ≡ false
  pub has_routes : is_empty s.routes ≡ false
  pub reachable : (sink : AuditSink) → s.audit_sink ≡ some sink → sink.ping t ≡ true

-- What a probe answers.
abbrev pub IsProbed : Type 0 → ℕ → Type 0
IsProbed P status = (P × (status ≡ 200)) ⊎ (¬ P × (status ≡ 503))

false-true : false ≡ true → ⊥
false-true h = cc

module _ (p : Platform) (s : Server) (w : World) (fresh : w.writer.status ≡ 0) where
  write_status-status : (payload : Str) → (write_status p s payload w).1.writer.status ≡ 200
  unfolding write_status send write_header write_body
  write_status-status payload = ground arith

  write_error-status :
      (code message : Str) → (write_error p s 503 code message w).1.writer.status ≡ 503
  unfolding write_error send write_header write_body
  write_error-status code message = ground arith

  -- Every sink that the gateway has is reachable.
  abbrev IsReachable : Type 0
  IsReachable = (sink : AuditSink) → s.audit_sink ≡ some sink → sink.ping w.trace ≡ true

  ready_pinged-IsProbed :
      (sink : AuditSink) (up : Bool)
      → s.audit_sink ≡ some sink
      → sink.ping w.trace ≡ up
      → IsProbed IsReachable (ready_pinged p s up w).1.writer.status
  unfolding ready_pinged
  ready_pinged-IsProbed sink true e up = inl (
    (λ other same.
        ap (λ (k : AuditSink). k.ping w.trace) (some-injective other sink (sym same ∙ e)) ∙ up),
    write_status-status _,
  )
  ready_pinged-IsProbed sink false e down =
      inr ((λ reachable. false-true (sym down ∙ reachable sink e)), write_error-status _ _)

  ready_configured-IsProbed :
      (o : Option AuditSink)
      → s.audit_sink ≡ o
      → IsProbed IsReachable (ready_configured p s o w).1.writer.status
  unfolding ready_configured
  ready_configured-IsProbed none e = inl ((λ sink h. cc), write_status-status _)
  ready_configured-IsProbed (some sink) e = ready_pinged-IsProbed sink (sink.ping w.trace) e refl

  unconfigured-IsReady :
      (o : Option AuthVerifier)
      → s.verifier ≡ o
      → unconfigured p s o ≡ false
      → IsReachable
      → IsReady s w.trace
  unfolding unconfigured
  unconfigured-IsReady none e h reachable = cc
  unconfigured-IsReady (some verifier) e h reachable = record {
    verifier = verifier;
    verifies = e;
    has_token = (ground arith);
    has_routes = (ground arith);
    reachable = reachable;
  }

  IsReady-configured : IsReady s w.trace → unconfigured p s s.verifier ≡ false
  unfolding unconfigured
  IsReady-configured ready = rw (ready.verifies, ready.has_token, ready.has_routes) refl

  ready_tested-IsProbed :
      (bad : Bool)
      → unconfigured p s s.verifier ≡ bad
      → IsProbed (IsReady s w.trace) (ready_tested p s bad w).1.writer.status
  unfolding ready_tested
  ready_tested-IsProbed true e =
      inr ((λ ready. false-true (sym (IsReady-configured ready) ∙ e)), write_error-status _ _)
  ready_tested-IsProbed false e = elim (ready_configured-IsProbed s.audit_sink refl) [
    | inl (reachable, ok) ↦ inl (unconfigured-IsReady s.verifier refl e reachable, ok)
    | inr (down, refused) ↦ inr ((λ ready. down ready.reachable), refused)
  ]

-- The readiness probe answers 200 where the gateway has a verifier, a token for the internal services
-- and a route, and its audit sink, if it has one, is reachable; and else it answers 503.
pub handle_ready-IsProbed :
    (p : Platform) (s : Server) (r : Request) (w : World)
    → w.writer.status ≡ 0
    → IsProbed (IsReady s w.trace) (handle_ready p s r w).1.writer.status
unfolding handle_ready
handle_ready-IsProbed p s r w fresh = ready_tested-IsProbed p s w fresh _ refl
