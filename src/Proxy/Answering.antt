-- ===== src/Proxy/Answering.antt =====
-- The proxy under a bookkeeping of its requests.
use mathlib.Core.Path.{subst}
use gateway_service.Prelude.{
  ℕ, ◌+◌, ◌≡◌, refl, Bool, true, false, [], arith, Option, none, some, if◌then◌else◌, Bool-cases,
  inl, inr, not,
}
use gateway_service.Text.{Str, lit}
use gateway_service.Header.{copy_response_headers, set}
use gateway_service.Http.{Request, Outgoing, Upstream, IsFinal, read_all}
use gateway_service.Audit.{AuditEntry, AuditStatus, no_body, sanitized_response_headers}
use gateway_service.Route.{Route, Url}
use gateway_service.World.{
  Platform, Server, World, Event, Trace, Verified, AuthVerifier, Exec, ◌>>=◌, pure,
}
use gateway_service.Proxy.{
  outgoing, write_audited_error, deny, auth_down, proxy_respond, ProxyResult,
  proxy_authenticated_request, proxy_verified, proxy_token, proxy_answered, proxy_decided,
  proxy_routed, proxy_started, proxy_read, handle_proxy, fresh_entry, Reading, unreadable, read,
  read_proxy_request_body, start_audit_or_fail, error_entry, answered, proxy_result,
}
use gateway_service.Proxy.Bookkeeping.{
  Bookkeeping, IsStarted, content_type-KeepsId, copy_response_headers-KeepsId,
}

module _ (p : Platform) (s : Server) (k : Bookkeeping p s) where
  pub write_audited_error-IsAnswered :
      (entry : AuditEntry) (status : ℕ) (code message : Str) (w : World)
      → IsFinal status
      → k.pending entry.request_id w
      → k.answered (write_audited_error p s entry status code message w).1
  unfolding write_audited_error error_entry
  write_audited_error-IsAnswered entry status code message w final h =
      k.ends (error_entry p s entry status code message)
        (λ x. set x (lit "Content-Type") (lit "application/json")) _ w (k.own status final) refl
        (content_type-KeepsId (lit "application/json")) h

  -- Either branch behind the start of the audit.
  pub started_or_stop-IsAnswered :
      (entry : AuditEntry) (next : Exec (Unit {0})) (w : World)
      → k.ready entry.request_id w
      → ((w' : World) → k.pending entry.request_id w' → k.answered (next w').1)
      → k.answered ((start_audit_or_fail p s entry >>= λ ok. if not ok then pure tt else next) w).1
  started_or_stop-IsAnswered entry next w h go =
      both (start_audit_or_fail p s entry w).0 (start_audit_or_fail p s entry w).1
        (k.starts entry w h)
    where
      both :
          (ok : Bool) (w' : World)
          → IsStarted (k.pending entry.request_id) k.answered ok w'
          → k.answered ((if not ok then pure tt else next) w').1
      both true w' h' = go w' h'
      both false w' h' = h'

  pub deny-IsAnswered :
      (entry : AuditEntry) (reason : Str) (w : World)
      → k.pending entry.request_id w
      → k.answered (deny p s entry reason w).1
  unfolding deny
  deny-IsAnswered entry reason w h =
      write_audited_error-IsAnswered (record entry { auth_result = reason }) 401 _ _ w refl h

  pub auth_down-IsAnswered :
      (entry : AuditEntry) (reason : Str) (w : World)
      → k.pending entry.request_id w
      → k.answered (auth_down p s entry reason w).1
  unfolding auth_down
  auth_down-IsAnswered entry reason w h =
      write_audited_error-IsAnswered (record entry { auth_result = reason }) 503 _ _ w refl h

  proxy_respond-IsAnswered :
      (entry : AuditEntry) (result : ProxyResult) (w : World)
      → k.allowed result.status_code
      → k.pending entry.request_id w
      → k.answered (proxy_respond p s entry result w).1
  unfolding proxy_respond
  proxy_respond-IsAnswered entry result w allowed h =
      k.ends
        (record entry {
          upstream_url = result.target_url;
          response_status = result.status_code;
          response_headers = sanitized_response_headers result.header;
          response_body = result.audit_body;
          audit_status = AuditStatus.complete;
        })
        (λ hs. copy_response_headers hs result.header) result.body w allowed refl
        (copy_response_headers-KeepsId result.header) h

  proxy_answered-IsAnswered :
      (entry : AuditEntry) (result : Option ProxyResult) (w : World)
      → ((res : ProxyResult) → result ≡ some res → k.allowed res.status_code)
      → k.pending entry.request_id w
      → k.answered (proxy_answered p s entry result w).1
  unfolding proxy_answered
  proxy_answered-IsAnswered entry none w allowed h =
      write_audited_error-IsAnswered entry 502 _ _ w refl h
  proxy_answered-IsAnswered entry (some result) w allowed h =
      proxy_respond-IsAnswered entry result w (allowed result refl) h

  proxy_authenticated_request-IsPending :
      (r : Request) (body : Str) (route : Route) (user accepted_at id : ℕ) (w : World)
      → k.pending id w
      → k.pending id (proxy_authenticated_request p s r body route user accepted_at w).1
  unfolding proxy_authenticated_request
  proxy_authenticated_request-IsPending r body route user accepted_at id w h =
      elim (Bool-cases
        (p.request_valid r.method (outgoing p s r body route user accepted_at).url)) [
          | inl e ↦
              rw e (k.calls id (Event.forward (outgoing p s r body route user accepted_at)) w tt h)
          | inr e ↦ rw e h
        ]

  proxy_result-status :
      (target : Url) (u : Upstream) (o : Option Str) (res : ProxyResult)
      → proxy_result p s target u o ≡ some res
      → u.status ≡ res.status_code
  unfolding proxy_result
  proxy_result-status target u none res x = cc
  proxy_result-status target u (some body) res x = ground arith

  answered-status :
      (target : Url) (o : Option Upstream) (res : ProxyResult)
      → ((u : Upstream) → o ≡ some u → k.allowed u.status)
      → answered p s target o ≡ some res
      → k.allowed res.status_code
  unfolding answered
  answered-status target none res allowed x = cc
  answered-status target (some u) res allowed x =
      subst k.allowed (proxy_result-status target u (read_all u.body) res x) (allowed u refl)

  -- The statuses of the HTTP client's responses are allowed.
  module _
      (status_set : (t : Trace) (o : Outgoing) (u : Upstream)
        → s.client t o ≡ some u
        → k.allowed u.status) where
    proxy_authenticated_request-status :
        (r : Request) (body : Str) (route : Route) (user accepted_at : ℕ) (w : World)
        (res : ProxyResult)
        → (proxy_authenticated_request p s r body route user accepted_at w).0 ≡ some res
        → k.allowed res.status_code
    unfolding proxy_authenticated_request
    proxy_authenticated_request-status r body route user accepted_at w res =
        elim (Bool-cases
          (p.request_valid r.method (outgoing p s r body route user accepted_at).url)) [
            | inl e ↦ rw e (
                answered-status (outgoing p s r body route user accepted_at).url
                  (s.client w.trace (outgoing p s r body route user accepted_at)) res
                  (status_set w.trace (outgoing p s r body route user accepted_at)))
            | inr e ↦ rw e (λ x. cc)
          ]

    proxy_verified-IsAnswered :
        (r : Request) (body : Str) (route : Route) (entry : AuditEntry) (user : ℕ) (w : World)
        → k.pending entry.request_id w
        → k.answered (proxy_verified p s r body route entry user w).1
    unfolding proxy_verified
    proxy_verified-IsAnswered r body route entry user w h =
        proxy_answered-IsAnswered
          (record entry { auth_result = lit "authenticated"; user_id = some user }) _ _
          (λ res x. proxy_authenticated_request-status r body route user _ _ res x)
          (proxy_authenticated_request-IsPending r body route user (s.now w.ticks) entry.request_id
            (record w { ticks = w.ticks + 1 }) (k.ticks entry.request_id (w.ticks + 1) w h))

    proxy_decided-IsAnswered :
        (r : Request) (body : Str) (route : Route) (entry : AuditEntry) (v : Verified) (w : World)
        → k.pending entry.request_id w
        → k.answered (proxy_decided p s r body route entry v w).1
    unfolding proxy_decided
    proxy_decided-IsAnswered r body route entry (Verified.user id) w h =
        proxy_verified-IsAnswered r body route entry id w h
    proxy_decided-IsAnswered r body route entry Verified.invalid_session w h =
        deny-IsAnswered entry (lit "invalid_session") w h
    proxy_decided-IsAnswered r body route entry Verified.auth_unavailable w h =
        auth_down-IsAnswered entry (lit "auth_verification_failed") w h

    proxy_token-IsAnswered :
        (r : Request) (body : Str) (route : Route) (entry : AuditEntry) (token : Str)
        (o : Option AuthVerifier) (w : World)
        → k.pending entry.request_id w
        → k.answered (proxy_token p s r body route entry token o w).1
    unfolding proxy_token
    proxy_token-IsAnswered r body route entry token none w h =
        auth_down-IsAnswered entry (lit "auth_verifier_missing") w h
    proxy_token-IsAnswered r body route entry token (some verifier) w h =
        proxy_decided-IsAnswered r body route entry _ _
          (k.calls entry.request_id (Event.verify token) w tt h)

    proxy_routed-IsAnswered :
        (r : Request) (body : Str) (route : Route) (entry : AuditEntry) (o : Option Str) (w : World)
        → k.pending entry.request_id w
        → k.answered (proxy_routed p s r body route entry o w).1
    unfolding proxy_routed
    proxy_routed-IsAnswered r body route entry none w h =
        deny-IsAnswered entry (lit "missing_session") w h
    proxy_routed-IsAnswered r body route entry (some token) w h =
        proxy_token-IsAnswered r body route entry token s.verifier w h

    proxy_started-IsAnswered :
        (r : Request) (body : Str) (entry : AuditEntry) (o : Option Route) (w : World)
        → k.pending entry.request_id w
        → k.answered (proxy_started p s r body entry o w).1
    unfolding proxy_started
    proxy_started-IsAnswered r body entry none w h =
        write_audited_error-IsAnswered (record entry { auth_result = lit "route_not_found" }) 404 _
          _ w refl h
    proxy_started-IsAnswered r body entry (some route) w h =
        proxy_routed-IsAnswered r body route (record entry { route = route.name }) _ w h

    proxy_read-IsAnswered :
        (r : Request) (entry : AuditEntry) (reading : Reading) (w : World)
        → k.ready entry.request_id w
        → k.answered (proxy_read p s r entry reading w).1
    unfolding proxy_read
    proxy_read-IsAnswered r entry unreadable w ready =
        started_or_stop-IsAnswered _ _ w ready λ w' h.
          write_audited_error-IsAnswered (record entry { request_body = no_body }) 400 _ _ w' refl h
    proxy_read-IsAnswered r entry (read body audit_body true) w ready =
        started_or_stop-IsAnswered _ _ w ready λ w' h.
          write_audited_error-IsAnswered (record entry { request_body = audit_body }) 413 _ _ w'
            refl h
    proxy_read-IsAnswered r entry (read body audit_body false) w ready =
        started_or_stop-IsAnswered _ _ w ready λ w' h.
          proxy_started-IsAnswered r body (record entry { request_body = audit_body }) _ w' h

module _ (p : Platform) (s : Server) (k : Bookkeeping p s) where
  pub handle_proxy-IsAnswered :
      (r : Request) (w : World)
      → ((t : Trace) (o : Outgoing) (u : Upstream) → s.client t o ≡ some u → k.allowed u.status)
      → w.trace ≡ []
      → w.writer.status ≡ 0
      → k.answered (handle_proxy p s r w).1
  unfolding handle_proxy fresh_entry
  handle_proxy-IsAnswered r w status_set e f =
      let id = p.new_uuid (w.ticks + 1) in
      proxy_read-IsAnswered p s k status_set (record r { context_id = some (p.uuid_string id) })
        (fresh_entry p s r id (p.wall_clock w.ticks) [] no_body) (read_proxy_request_body p s r) _
        (k.titles id r.trace_id _ (k.begins id (record w { ticks = w.ticks + 1 + 1 }) e f))
