-- ===== src/Startup/Ready.antt =====
-- A gateway that started is ready as soon as its audit log is reachable.
use mathlib.Core.Path.{subst}
use gateway_service.Prelude.{
  ◌≡◌, refl, ap, ◌∙◌, true, Option, none, some, is_empty, Bool-cases, inl, inr,
}
use gateway_service.Http.{Request}
use gateway_service.World.{Platform, Server, World, Trace, AuditSink, AuditLogStore, new_server}
use gateway_service.Route.Matching.{sort_routes-filled}
use gateway_service.Config.{Config, Checked, accepted, rejected, Env}
use gateway_service.Config.Routes.{Ensures}
use gateway_service.Config.Loading.{IsUsable, load_config-IsUsable}
use gateway_service.Verifier.{SupabaseVerifier, NewVerifier, failed, created, verify}
use gateway_service.Telemetry.{Tracing}
use gateway_service.Handler.{handle_ready}
use gateway_service.Handler.Readiness.{IsReady, IsProbed, handle_ready-IsProbed}
use gateway_service.Startup.{
  Launch, Gateway, Outcome, serving, stopped, serve_with, run_opened, run_verified, run_traced,
  run_configured, run,
}

-- What a start leads to, if it leads to a gateway.
abbrev Starts : (Gateway → Type 0) → Outcome → Type 0
Starts P (stopped reason) = Unit
Starts P (serving g) = P g

-- Each sink of the server is reachable.
abbrev pub IsReachable : Server → Trace → Type 0
IsReachable s t = (sink : AuditSink) → s.audit_sink ≡ some sink → sink.ping t ≡ true

abbrev CanServe : Gateway → Type 0
CanServe g = (t : Trace) → IsReachable g.server t → IsReady g.server t

module _ (l : Launch) (c : Config) (usable : IsUsable c) where
  serve_with-CanServe :
      (tracing : Tracing) (verifier : SupabaseVerifier)
      (database : Option (AuditSink × AuditLogStore))
      → Starts CanServe (serve_with l c tracing verifier database)
  unfolding serve_with new_server
  serve_with-CanServe tracing verifier database t reachable = record {
    verifier = verify verifier;
    verifies = refl;
    has_token = ap (is_empty {A = _}) usable.has_token.1 ∙ usable.has_token.0;
    has_routes = sort_routes-filled c.routes usable.has_routes.1;
    reachable = reachable;
  }

  run_verified-CanServe :
      (tracing : Tracing) (o : NewVerifier) → Starts CanServe (run_verified l c tracing o)
  unfolding run_verified
  run_verified-CanServe tracing (failed e) = tt
  run_verified-CanServe tracing (created verifier) =
      elim (Bool-cases (is_empty c.audit_database_url)) [
        | inl blank ↦ rw blank (serve_with-CanServe tracing verifier none)
        | inr filled ↦ rw filled (opened _)
      ]
    where
      opened :
          (o : Option (AuditSink × AuditLogStore))
          → Starts CanServe (run_opened l c tracing verifier o)
      opened none = unfold run_opened in tt
      opened (some database) =
          unfold run_opened in serve_with-CanServe tracing verifier (some database)

  run_traced-CanServe : (o : Option Tracing) → Starts CanServe (run_traced l c o)
  unfolding run_traced
  run_traced-CanServe none = tt
  run_traced-CanServe (some tracing) = run_verified-CanServe tracing _

run_configured-CanServe :
    (l : Launch) (env : Env) (o : Checked Config)
    → Ensures IsUsable o
    → Starts CanServe (run_configured l env o)
unfolding run_configured
run_configured-CanServe l env (rejected e) h = tt
run_configured-CanServe l env (accepted c) h = run_traced-CanServe l c h _

run-CanServe : (l : Launch) (env : Env) → Starts CanServe (run l env)
unfolding run
run-CanServe l env = run_configured-CanServe l env _ (load_config-IsUsable l.parsers env)

-- A gateway that starts from its environment answers its readiness probe with 200 as long as its audit
-- sink, if it has one, is reachable, and else with 503.
pub run-IsProbed :
    (l : Launch) (env : Env) (g : Gateway) (p : Platform) (r : Request) (w : World)
    → run l env ≡ serving g
    → w.writer.status ≡ 0
    → IsProbed (IsReachable g.server w.trace) (handle_ready p g.server r w).1.writer.status
run-IsProbed l env g p r w started fresh =
    let can : CanServe g = subst (Starts CanServe) started (run-CanServe l env) in
    elim (handle_ready-IsProbed p g.server r w fresh) [
      | inl (ready, ok) ↦ inl (ready.reachable, ok)
      | inr (unready, refused) ↦ inr ((λ reachable. unready (can w.trace reachable)), refused)
    ]
