-- ===== src/Proxy/Gate.antt =====
-- What a request must pass before the proxy calls an upstream.
use mathlib.Core.Path.{subst}
use gateway_service.Prelude.{
  sym, ◌∙◌, ℕ, ◌+◌, ◌^◌, ◌<◌, ◌≤◌, length, ◌≡◌, refl, Bool, true, false, [], ◌∷◌, Option, none,
  some, if◌then◌else◌, Bool-cases, Option-cases, inl, inr, not,
}
use gateway_service.Text.{Str, lit}
use gateway_service.Http.{Request, Outgoing}
use gateway_service.Audit.{AuditBody, AuditEntry}
use gateway_service.Route.{Route, match_route}
use gateway_service.Token.{extract_access_token}
use gateway_service.World.{
  Platform, Server, World, Event, Trace, Verified, AuthVerifier, Exec, send, ◌>>=◌, pure,
}
use gateway_service.Proxy.Body.{IsWhole, read_proxy_request_body-IsWhole}
use gateway_service.Proxy.{
  outgoing, write_audited_error, deny, auth_down, proxy_respond, ProxyResult,
  proxy_authenticated_request, proxy_verified, proxy_token, proxy_answered, proxy_decided,
  proxy_routed, proxy_started, proxy_read, handle_proxy, trace_header, Reading, unreadable, read,
  read_proxy_request_body, start_audit_or_fail, finish_audit, write_error,
}

abbrev identified_as : Platform → Request → ℕ → Request
identified_as p r request_id = record r { context_id = some (p.uuid_string request_id) }

-- Every upstream call of a trace satisfies a predicate.
abbrev pub ForwardsOnly : (Outgoing → Type 0) → Trace → Type 0
ForwardsOnly P [] = Unit
ForwardsOnly P (Event.forward o ∷ t) = P o × ForwardsOnly P t
ForwardsOnly P (Event.audit_start e ∷ t) = ForwardsOnly P t
ForwardsOnly P (Event.audit_finish e ∷ t) = ForwardsOnly P t
ForwardsOnly P (Event.verify token ∷ t) = ForwardsOnly P t
ForwardsOnly P (Event.list_calls f ∷ t) = ForwardsOnly P t
ForwardsOnly P (Event.get_call n ∷ t) = ForwardsOnly P t
ForwardsOnly P (Event.respond n ∷ t) = ForwardsOnly P t

-- An outgoing request is the proxied form of `r` for a route that `r`'s path selects and for a user
-- whom the verifier named for `r`'s token; `body` is what the reader accepted, which is the whole body
-- of `r`, within the limit, where the limit is below 2^63 - 1.
pub record IsAuthorized (p : Platform) (s : Server) (r : Request) (out : Outgoing) : Type 0 where
  pub route : Route
  pub token : Str
  pub verifier : AuthVerifier
  pub seen : Trace
  pub user : ℕ
  pub body : Str
  pub audit_body : AuditBody
  pub accepted_at : ℕ
  pub request_id : ℕ
  pub selected : match_route s.routes r.url.path ≡ some route
  pub presented : extract_access_token p r s.auth_cookie_name ≡ some token
  pub configured : s.verifier ≡ some verifier
  pub verified : verifier seen token ≡ Verified.user user
  pub fits : read_proxy_request_body p s r ≡ read body audit_body false
  pub whole : s.max_body_bytes + 1 < 2 ^ 63 → IsWhole r.body body × (length body ≤ s.max_body_bytes)
  pub sent :
      out
      ≡ outgoing p s
          (record r { context_id = some (p.uuid_string request_id) })
          body
          route
          user
          accepted_at

module _ (p : Platform) (s : Server) (P : Outgoing → Type 0) where
  write_audited_error-ForwardsOnly :
      (entry : AuditEntry) (status : ℕ) (code message : Str) (w : World)
      → ForwardsOnly P w.trace
      → ForwardsOnly P (write_audited_error p s entry status code message w).1.trace
  unfolding write_audited_error finish_audit send
  write_audited_error-ForwardsOnly entry status code message w h =
      elim (Option-cases s.audit_sink) [ inl e ↦ rw e h | inr (sink, e) ↦ rw e h ]

  proxy_respond-ForwardsOnly :
      (entry : AuditEntry) (result : ProxyResult) (w : World)
      → ForwardsOnly P w.trace
      → ForwardsOnly P (proxy_respond p s entry result w).1.trace
  unfolding proxy_respond finish_audit send
  proxy_respond-ForwardsOnly entry result w h = elim (Option-cases s.audit_sink) [
    | inl e ↦ rw e h
    | inr (sink, e) ↦ rw e h
  ]

  proxy_answered-ForwardsOnly :
      (entry : AuditEntry) (result : Option ProxyResult) (w : World)
      → ForwardsOnly P w.trace
      → ForwardsOnly P (proxy_answered p s entry result w).1.trace
  unfolding proxy_answered
  proxy_answered-ForwardsOnly entry none w h = write_audited_error-ForwardsOnly entry 502 _ _ w h
  proxy_answered-ForwardsOnly entry (some result) w h = proxy_respond-ForwardsOnly entry result w h

  deny-ForwardsOnly :
      (entry : AuditEntry) (reason : Str) (w : World)
      → ForwardsOnly P w.trace
      → ForwardsOnly P (deny p s entry reason w).1.trace
  unfolding deny
  deny-ForwardsOnly entry reason w h =
      write_audited_error-ForwardsOnly (record entry { auth_result = reason }) 401 _ _ w h

  auth_down-ForwardsOnly :
      (entry : AuditEntry) (reason : Str) (w : World)
      → ForwardsOnly P w.trace
      → ForwardsOnly P (auth_down p s entry reason w).1.trace
  unfolding auth_down
  auth_down-ForwardsOnly entry reason w h =
      write_audited_error-ForwardsOnly (record entry { auth_result = reason }) 503 _ _ w h

  proxy_authenticated_request-ForwardsOnly :
      (r : Request) (body : Str) (route : Route) (user accepted_at : ℕ) (w : World)
      → P (outgoing p s r body route user accepted_at)
      → ForwardsOnly P w.trace
      → ForwardsOnly P (proxy_authenticated_request p s r body route user accepted_at w).1.trace
  unfolding proxy_authenticated_request
  proxy_authenticated_request-ForwardsOnly r body route user accepted_at w q h =
      elim (Bool-cases
        (p.request_valid r.method (outgoing p s r body route user accepted_at).url)) [
          | inl e ↦ rw e (q, h)
          | inr e ↦ rw e h
        ]

  proxy_verified-ForwardsOnly :
      (r : Request) (body : Str) (route : Route) (entry : AuditEntry) (user : ℕ) (w : World)
      → ((accepted_at : ℕ) → P (outgoing p s r body route user accepted_at))
      → ForwardsOnly P w.trace
      → ForwardsOnly P (proxy_verified p s r body route entry user w).1.trace
  unfolding proxy_verified
  proxy_verified-ForwardsOnly r body route entry user w q h =
      proxy_answered-ForwardsOnly
        (record entry { auth_result = lit "authenticated"; user_id = some user })
        (proxy_authenticated_request p s r body route user (s.now w.ticks)
          (record w { ticks = w.ticks + 1 })).0
        (proxy_authenticated_request p s r body route user (s.now w.ticks)
          (record w { ticks = w.ticks + 1 })).1
        (proxy_authenticated_request-ForwardsOnly r body route user (s.now w.ticks)
          (record w { ticks = w.ticks + 1 }) (q (s.now w.ticks)) h)

module _ (p : Platform) (s : Server) (r : Request) (request_id : ℕ) (body : Str)
    (audit_body : AuditBody)
    (fits : read_proxy_request_body p s r ≡ read body audit_body false) where
  abbrev identified : Request
  identified = record r { context_id = some (p.uuid_string request_id) }

  module _ (route : Route) (selected : match_route s.routes r.url.path ≡ some route) where
    proxy_decided-ForwardsOnly :
        (token : Str) (verifier : AuthVerifier) (seen : Trace) (v : Verified) (entry : AuditEntry)
        (w : World)
        → extract_access_token p r s.auth_cookie_name ≡ some token
        → s.verifier ≡ some verifier
        → verifier seen token ≡ v
        → ForwardsOnly (IsAuthorized p s r) w.trace
        → ForwardsOnly
            (IsAuthorized p s r)
            (proxy_decided p s identified body route entry v w).1.trace
    unfolding proxy_decided
    proxy_decided-ForwardsOnly token verifier seen (Verified.user id) entry w presented e v h =
        proxy_verified-ForwardsOnly p s (IsAuthorized p s r) identified body route entry id w
          (λ accepted_at. record {
            route = route;
            token = token;
            verifier = verifier;
            seen = seen;
            user = id;
            body = body;
            audit_body = audit_body;
            accepted_at = accepted_at;
            request_id = request_id;
            selected = selected;
            presented = presented;
            configured = e;
            verified = v;
            fits = fits;
            whole = λ bound. read_proxy_request_body-IsWhole p s r body audit_body bound fits;
            sent = refl;
          })
          h
    proxy_decided-ForwardsOnly token verifier seen Verified.invalid_session entry w _ _ _ h =
        deny-ForwardsOnly p s (IsAuthorized p s r) entry (lit "invalid_session") w h
    proxy_decided-ForwardsOnly token verifier seen Verified.auth_unavailable entry w _ _ _ h =
        auth_down-ForwardsOnly p s (IsAuthorized p s r) entry (lit "auth_verification_failed") w h

    proxy_token-ForwardsOnly :
        (token : Str) (o : Option AuthVerifier) (entry : AuditEntry) (w : World)
        → extract_access_token p r s.auth_cookie_name ≡ some token
        → s.verifier ≡ o
        → ForwardsOnly (IsAuthorized p s r) w.trace
        → ForwardsOnly
            (IsAuthorized p s r)
            (proxy_token p s identified body route entry token o w).1.trace
    unfolding proxy_token
    proxy_token-ForwardsOnly token none entry w presented e h =
        auth_down-ForwardsOnly p s (IsAuthorized p s r) entry (lit "auth_verifier_missing") w h
    proxy_token-ForwardsOnly token (some verifier) entry w presented e h =
        proxy_decided-ForwardsOnly token verifier w.trace (verifier w.trace token) entry
          (record w { trace = Event.verify token ∷ w.trace }) presented e refl h

    proxy_routed-ForwardsOnly :
        (o : Option Str) (entry : AuditEntry) (w : World)
        → extract_access_token p r s.auth_cookie_name ≡ o
        → ForwardsOnly (IsAuthorized p s r) w.trace
        → ForwardsOnly
            (IsAuthorized p s r)
            (proxy_routed p s identified body route entry o w).1.trace
    unfolding proxy_routed
    proxy_routed-ForwardsOnly none entry w e h =
        deny-ForwardsOnly p s (IsAuthorized p s r) entry (lit "missing_session") w h
    proxy_routed-ForwardsOnly (some token) entry w e h =
        proxy_token-ForwardsOnly token s.verifier entry w e refl h

  proxy_started-ForwardsOnly :
      (o : Option Route) (entry : AuditEntry) (w : World)
      → match_route s.routes r.url.path ≡ o
      → ForwardsOnly (IsAuthorized p s r) w.trace
      → ForwardsOnly (IsAuthorized p s r) (proxy_started p s identified body entry o w).1.trace
  unfolding proxy_started
  proxy_started-ForwardsOnly none entry w e h =
      write_audited_error-ForwardsOnly p s (IsAuthorized p s r)
        (record entry { auth_result = lit "route_not_found" }) 404 _ _ w h
  proxy_started-ForwardsOnly (some route) entry w e h =
      proxy_routed-ForwardsOnly route e _ (record entry { route = route.name }) w same_token h
    where
      -- The request's id is not read for its token.
      same_token :
          extract_access_token p r s.auth_cookie_name
          ≡ extract_access_token p identified s.auth_cookie_name
      same_token = unfold extract_access_token in refl

module _ (p : Platform) (s : Server) (P : Outgoing → Type 0) where
  -- A refusal by the audit sink calls nothing.
  start_audit_or_fail-ForwardsOnly :
      (entry : AuditEntry) (w : World)
      → ForwardsOnly P w.trace
      → ForwardsOnly P (start_audit_or_fail p s entry w).1.trace
  unfolding start_audit_or_fail write_error send
  start_audit_or_fail-ForwardsOnly entry w h = elim (Option-cases s.audit_sink) [
    | inl e ↦ rw e h
    | inr (sink, e) ↦ elim (Bool-cases (sink.start w.trace entry)) [
      | inl ok ↦ rw (e, ok) h
      | inr no_start ↦ rw (e, no_start) h
    ]
  ]

  -- Either branch behind the start of the audit.
  started_or_stop-ForwardsOnly :
      (entry : AuditEntry) (next : Exec (Unit {0})) (w : World)
      → ((w' : World) → ForwardsOnly P w'.trace → ForwardsOnly P (next w').1.trace)
      → ForwardsOnly P w.trace
      → ForwardsOnly P
          ((start_audit_or_fail p s entry >>= λ ok. if not ok then pure tt else next) w).1.trace
  started_or_stop-ForwardsOnly entry next w k h =
      both (start_audit_or_fail p s entry w).0 (start_audit_or_fail p s entry w).1
        (start_audit_or_fail-ForwardsOnly entry w h)
    where
      both :
          (ok : Bool) (w' : World)
          → ForwardsOnly P w'.trace
          → ForwardsOnly P ((if not ok then pure tt else next) w').1.trace
      both true w' h' = k w' h'
      both false w' h' = h'

proxy_read-ForwardsOnly :
    (p : Platform) (s : Server) (r : Request) (request_id : ℕ) (entry : AuditEntry)
    (reading : Reading) (w : World)
    → read_proxy_request_body p s r ≡ reading
    → ForwardsOnly (IsAuthorized p s r) w.trace
    → ForwardsOnly
        (IsAuthorized p s r)
        (proxy_read p s (identified_as p r request_id) entry reading w).1.trace
unfolding proxy_read
proxy_read-ForwardsOnly p s r request_id entry unreadable w e h =
    started_or_stop-ForwardsOnly p s (IsAuthorized p s r) _ _ w
      (λ w' h'. write_audited_error-ForwardsOnly p s (IsAuthorized p s r) _ 400 _ _ w' h') h
proxy_read-ForwardsOnly p s r request_id entry (read body audit_body true) w e h =
    started_or_stop-ForwardsOnly p s (IsAuthorized p s r) _ _ w
      (λ w' h'. write_audited_error-ForwardsOnly p s (IsAuthorized p s r) _ 413 _ _ w' h') h
proxy_read-ForwardsOnly p s r request_id entry (read body audit_body false) w e h =
    started_or_stop-ForwardsOnly p s (IsAuthorized p s r) _ _ w
      (λ w' h'.
        proxy_started-ForwardsOnly p s r request_id body audit_body e _
          (record entry { request_body = audit_body }) w' refl h')
      h

trace_header-trace :
    (p : Platform) (s : Server) (o : Option Str) (w : World)
    → (trace_header p s o w).1.trace ≡ w.trace
unfolding trace_header
trace_header-trace p s none w = refl
trace_header-trace p s (some id) w = refl

-- The proxy calls an upstream only with the proxied form of the request and of a body that the reader
-- accepted, for a route that the path selects and a user whom the verifier named for the token that the
-- request presents, whatever the services answer. Where the limit of bodies is below 2^63 - 1, that body
-- is the whole body of the request, which arrived unbroken, and within the limit.
pub handle_proxy-ForwardsOnly :
    (p : Platform) (s : Server) (r : Request) (w : World)
    → w.trace ≡ []
    → ForwardsOnly (IsAuthorized p s r) (handle_proxy p s r w).1.trace
unfolding handle_proxy
handle_proxy-ForwardsOnly p s r w e =
    proxy_read-ForwardsOnly p s r (p.new_uuid (w.ticks + 1)) _ (read_proxy_request_body p s r) _
      refl
      (subst (ForwardsOnly (IsAuthorized p s r)) (sym (trace_header-trace p s r.trace_id _ ∙ e)) tt)
