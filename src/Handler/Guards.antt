-- ===== src/Handler/Guards.antt =====
-- Whom the gateway calls its services for, over all endpoints.
use mathlib.Core.Path.{subst}
use gateway_service.Prelude.{◌≡◌, sym, ◌∙◌, [], ◌∷◌}
use gateway_service.Text.{lit}
use gateway_service.Http.{Request, Outgoing}
use gateway_service.World.{Platform, Server, World, Event, Trace}
use gateway_service.Proxy.Gate.{ForwardsOnly, IsAuthorized, handle_proxy-ForwardsOnly}
use gateway_service.Proxy.Bookkeeping.{trace_header-keeps}
use gateway_service.Admin.{handle_audit_log_list, handle_audit_log_detail}
use gateway_service.Support.{handle_player_support}
use gateway_service.Support.Replay.{handle_player_support_pull_replay}
use gateway_service.Admin.Gate.{ReadsOnly}
use gateway_service.Admin.Reads.{AuditReads, handle_audit_log-ReadsOnly}
use gateway_service.Support.Gate.{SupportReads, handle_player_support-ReadsOnly}
use gateway_service.Support.Replay.Gate.{handle_player_support_pull_replay-ReadsOnly}
use gateway_service.Handler.Plain.{IsPlain, serve_plain}
use gateway_service.Handler.{
  Schedules, Endpoint, asterisk, not_found, health, ready, audit_list, proxy, redirect,
  audit_detail, player_support, pull_replay, with_wildcards, serve, select, handler,
  security_headers, access_log,
}

-- What the endpoint that the mux selects may call: the proxy calls an upstream for the user of the
-- session; a view of a player calls services for the player of its path, for an administrator; the
-- other endpoints call none.
abbrev pub IsPermitted : Platform → Server → Request → Endpoint → Outgoing → Type 0
IsPermitted p s r proxy o = IsAuthorized p s r o
IsPermitted p s r (player_support user) o =
    SupportReads p s (with_wildcards r ((lit "user_id", user) ∷ [])) (Event.forward o)
IsPermitted p s r (pull_replay user operation) o =
    SupportReads p s
      (with_wildcards r ((lit "user_id", user) ∷ (lit "operation_id", operation) ∷ []))
      (Event.forward o)
IsPermitted p s r _ o = ⊥

module _ (Q : Outgoing → Type 0) where
  ReadsOnly-ForwardsOnly :
      (P : Event → Type 0) (t : Trace)
      → ((o : Outgoing) → P (Event.forward o) → Q o)
      → ReadsOnly P t
      → ForwardsOnly Q t
  ReadsOnly-ForwardsOnly P [] f h = tt
  ReadsOnly-ForwardsOnly P (Event.forward o ∷ t) f (q, h) = (f o q, ReadsOnly-ForwardsOnly P t f h)
  ReadsOnly-ForwardsOnly P (Event.audit_start e ∷ t) f h = ReadsOnly-ForwardsOnly P t f h
  ReadsOnly-ForwardsOnly P (Event.audit_finish e ∷ t) f h = ReadsOnly-ForwardsOnly P t f h
  ReadsOnly-ForwardsOnly P (Event.verify token ∷ t) f h = ReadsOnly-ForwardsOnly P t f h
  ReadsOnly-ForwardsOnly P (Event.list_calls k ∷ t) f (_, h) = ReadsOnly-ForwardsOnly P t f h
  ReadsOnly-ForwardsOnly P (Event.get_call n ∷ t) f (_, h) = ReadsOnly-ForwardsOnly P t f h
  ReadsOnly-ForwardsOnly P (Event.respond n ∷ t) f h = ReadsOnly-ForwardsOnly P t f h

module _ (p : Platform) (s : Server) where
  plain :
      (c : Schedules) (r : Request) (endpoint : Endpoint) (w : World)
      → IsPlain endpoint
      → w.trace ≡ []
      → ForwardsOnly (IsPermitted p s r endpoint) (serve p s c r endpoint w).1.trace
  plain c r endpoint w only e =
      rw (serve_plain p s c r endpoint w only).1
        (subst (ForwardsOnly (IsPermitted p s r endpoint)) (sym e) tt)

  serve-ForwardsOnly :
      (c : Schedules) (r : Request) (endpoint : Endpoint) (w : World)
      → w.trace ≡ []
      → ForwardsOnly (IsPermitted p s r endpoint) (serve p s c r endpoint w).1.trace
  unfolding serve
  serve-ForwardsOnly c r asterisk w e = plain c r asterisk w tt e
  serve-ForwardsOnly c r not_found w e = plain c r not_found w tt e
  serve-ForwardsOnly c r health w e = plain c r health w tt e
  serve-ForwardsOnly c r ready w e = plain c r ready w tt e
  serve-ForwardsOnly c r (redirect location) w e = plain c r (redirect location) w tt e
  serve-ForwardsOnly c r proxy w e = handle_proxy-ForwardsOnly p s r w e
  serve-ForwardsOnly c r audit_list w e =
      ReadsOnly-ForwardsOnly _ (AuditReads p s r) (handle_audit_log_list p s r w).1.trace
        (λ o no. no) (handle_audit_log-ReadsOnly p s r w e).0
  serve-ForwardsOnly c r (audit_detail id) w e =
      let r' : Request = with_wildcards r ((lit "request_id", id) ∷ []) in
      ReadsOnly-ForwardsOnly _ (AuditReads p s r') (handle_audit_log_detail p s r' w).1.trace
        (λ o no. no) (handle_audit_log-ReadsOnly p s r' w e).1
  serve-ForwardsOnly c r (player_support user) w e =
      let r' : Request = with_wildcards r ((lit "user_id", user) ∷ []) in
      ReadsOnly-ForwardsOnly _ (SupportReads p s r')
        (handle_player_support p s c.support r' w).1.trace (λ o h. h)
        (handle_player_support-ReadsOnly p s c.support r' w e)
  serve-ForwardsOnly c r (pull_replay user operation) w e =
      let r' : Request =
        with_wildcards r ((lit "user_id", user) ∷ (lit "operation_id", operation) ∷ []) in
      ReadsOnly-ForwardsOnly _ (SupportReads p s r')
        (handle_player_support_pull_replay p s c.replay r' w).1.trace (λ o h. h)
        (handle_player_support_pull_replay-ReadsOnly p s c.replay r' w e)

-- The gateway calls a service only from the endpoint that the request's path and method select,
-- whatever the services answer: the proxy with the proxied form of the request, for the user whom the
-- verifier named for its token, to a route that its path selects; the views of a player with a GET to a
-- configured route about the player that the path names, where the verifier named an administrator;
-- and the other endpoints call none.
pub handler-ForwardsOnly :
    (p : Platform) (s : Server) (c : Schedules) (r : Request) (w : World)
    → w.trace ≡ []
    → ForwardsOnly (IsPermitted p s r (select p r)) (handler p s c r w).1.trace
unfolding handler security_headers access_log
handler-ForwardsOnly p s c r w e =
    serve-ForwardsOnly p s c r (select p r) _ ((trace_header-keeps p s r.trace_id w).0 ∙ e)
