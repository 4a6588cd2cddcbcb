-- ===== src/Admin/Gate.antt =====
-- Who may read the audit log, or have the gateway call its services on behalf of a player.
use mathlib.Core.List.{Memᴰ}
use mathlib.Core.Path.{subst}
use gateway_service.Prelude.{
  ℕ, ◌≡◌, refl, sym, Bool, true, false, List, [], ◌∷◌, arith, Option, none, some, if◌then◌else◌,
  Bool-cases, Option-cases, inl, inr, not, ◌==◌, any, ==_iff,
}
use gateway_service.Text.{Str, lit}
use gateway_service.Http.{Request}
use gateway_service.Audit.{AuditEntry}
use gateway_service.Token.{extract_access_token}
use gateway_service.World.{
  Platform, Server, World, Event, Trace, Verified, AuthVerifier, Exec, send, ◌>>=◌, pure,
}
use gateway_service.Proxy.{
  finish_audit, deny, auth_down, write_audited_error, start_audit_or_fail, write_error,
}
use gateway_service.Admin.{
  is_audit_log_admin, begin_direct_audit, authorize_user, authorize_decided, authorize_token,
  authorize_presented, authorize_audit_log_admin, write_audited_json, direct, direct_authorized,
}

any-Memᴰ : (ids : List ℕ) (user : ℕ) → any (λ id. id == user) ids ≡ true → Memᴰ user ids
any-Memᴰ [] user h = cc
any-Memᴰ (id ∷ ids) user h = elim (Bool-cases (id == user)) [
  | inl same ↦ Memᴰ.head (sym ((==_iff id user).0 same))
  | inr other ↦ Memᴰ.tail (any-Memᴰ ids user (ground arith))
]

is_audit_log_admin-Memᴰ :
    (ids : List ℕ) (user : ℕ) → is_audit_log_admin ids user ≡ true → Memᴰ user ids
unfolding is_audit_log_admin
is_audit_log_admin-Memᴰ [] user h = cc
is_audit_log_admin-Memᴰ (id ∷ ids) user h = any-Memᴰ (id ∷ ids) user h

-- The verifier named an administrator for the token that the request presents.
pub record IsAdminSession (p : Platform) (s : Server) (r : Request) : Type 0 where
  pub token : Str
  pub verifier : AuthVerifier
  pub seen : Trace
  pub user : ℕ
  pub presented : extract_access_token p r s.auth_cookie_name ≡ some token
  pub configured : s.verifier ≡ some verifier
  pub verified : verifier seen token ≡ Verified.user user
  pub admitted : Memᴰ user s.admin_user_ids

-- Every reading of the audit log and every call of a service in a trace is permitted.
abbrev pub ReadsOnly : (Event → Type 0) → Trace → Type 0
ReadsOnly P [] = Unit
ReadsOnly P (Event.forward o ∷ t) = P (Event.forward o) × ReadsOnly P t
ReadsOnly P (Event.list_calls f ∷ t) = P (Event.list_calls f) × ReadsOnly P t
ReadsOnly P (Event.get_call n ∷ t) = P (Event.get_call n) × ReadsOnly P t
ReadsOnly P (Event.audit_start e ∷ t) = ReadsOnly P t
ReadsOnly P (Event.audit_finish e ∷ t) = ReadsOnly P t
ReadsOnly P (Event.verify token ∷ t) = ReadsOnly P t
ReadsOnly P (Event.respond n ∷ t) = ReadsOnly P t

module _ (p : Platform) (s : Server) (P : Event → Type 0) where
  pub write_audited_error-ReadsOnly :
      (entry : AuditEntry) (status : ℕ) (code message : Str) (w : World)
      → ReadsOnly P w.trace
      → ReadsOnly P (write_audited_error p s entry status code message w).1.trace
  unfolding write_audited_error finish_audit send
  write_audited_error-ReadsOnly entry status code message w h = elim (Option-cases s.audit_sink) [
    | inl e ↦ rw e h
    | inr (sink, e) ↦ rw e h
  ]

  pub write_audited_json-ReadsOnly :
      (entry : AuditEntry) (status : ℕ) (payload : Option Str) (w : World)
      → ReadsOnly P w.trace
      → ReadsOnly P (write_audited_json p s entry status payload w).1.trace
  unfolding write_audited_json finish_audit send
  write_audited_json-ReadsOnly entry status none w h =
      write_audited_error-ReadsOnly entry 500 _ _ w h
  write_audited_json-ReadsOnly entry status (some body) w h = elim (Option-cases s.audit_sink) [
    | inl e ↦ rw e h
    | inr (sink, e) ↦ rw e h
  ]

  start_audit_or_fail-ReadsOnly :
      (entry : AuditEntry) (w : World)
      → ReadsOnly P w.trace
      → ReadsOnly P (start_audit_or_fail p s entry w).1.trace
  unfolding start_audit_or_fail write_error send
  start_audit_or_fail-ReadsOnly entry w h = elim (Option-cases s.audit_sink) [
    | inl e ↦ rw e h
    | inr (sink, e) ↦ elim (Bool-cases (sink.start w.trace entry)) [
      | inl accepted ↦ rw (e, accepted) h
      | inr refused ↦ rw (e, refused) h
    ]
  ]

  -- Either branch behind the start of the audit.
  started_or_stop-ReadsOnly :
      (entry : AuditEntry) (next : Exec (Unit {0})) (w : World)
      → ((w' : World) → ReadsOnly P w'.trace → ReadsOnly P (next w').1.trace)
      → ReadsOnly P w.trace
      → ReadsOnly P
          ((start_audit_or_fail p s entry >>= λ started. if not started then pure tt else next)
            w).1.trace
  started_or_stop-ReadsOnly entry next w k h =
      both (start_audit_or_fail p s entry w).0 (start_audit_or_fail p s entry w).1
        (start_audit_or_fail-ReadsOnly entry w h)
    where
      both :
          (started : Bool) (w' : World)
          → ReadsOnly P w'.trace
          → ReadsOnly P ((if not started then pure tt else next) w').1.trace
      both true w' h' = k w' h'
      both false w' h' = h'

  -- The record comes back only with the reason.
  abbrev IsJudged : Type 0 → Option AuditEntry → World → Type 0
  IsJudged Q none w = ReadsOnly P w.trace
  IsJudged Q (some entry) w = Q × ReadsOnly P w.trace

  authorize_user-IsJudged :
      (Q : Type 0) (entry : AuditEntry) (user : ℕ) (admin : Bool) (w : World)
      → (admin ≡ true → Q)
      → ReadsOnly P w.trace
      → IsJudged Q
          (authorize_user p s entry user admin w).0
          (authorize_user p s entry user admin w).1
  unfolding authorize_user
  authorize_user-IsJudged Q entry user true w q h = (q refl, h)
  authorize_user-IsJudged Q entry user false w q h = write_audited_error-ReadsOnly _ 403 _ _ w h

module _ (p : Platform) (s : Server) (r : Request) (P : Event → Type 0) where
  authorize_decided-IsJudged :
      (entry : AuditEntry) (token : Str) (verifier : AuthVerifier) (seen : Trace) (v : Verified)
      (w : World)
      → extract_access_token p r s.auth_cookie_name ≡ some token
      → s.verifier ≡ some verifier
      → verifier seen token ≡ v
      → ReadsOnly P w.trace
      → IsJudged p s P
          (IsAdminSession p s r)
          (authorize_decided p s entry v w).0
          (authorize_decided p s entry v w).1
  unfolding authorize_decided deny auth_down
  authorize_decided-IsJudged entry token verifier seen (Verified.user id) w presented e v h =
      authorize_user-IsJudged p s P (IsAdminSession p s r) entry id _ w
        (λ admin. record {
          token = token;
          verifier = verifier;
          seen = seen;
          user = id;
          presented = presented;
          configured = e;
          verified = v;
          admitted = is_audit_log_admin-Memᴰ s.admin_user_ids id admin;
        })
        h
  authorize_decided-IsJudged entry token verifier seen Verified.invalid_session w _ _ _ h =
      write_audited_error-ReadsOnly p s P (record entry { auth_result = lit "invalid_session" }) 401
        _ _ w h
  authorize_decided-IsJudged entry token verifier seen Verified.auth_unavailable w _ _ _ h =
      write_audited_error-ReadsOnly p s P
        (record entry { auth_result = lit "auth_verification_failed" }) 503 _ _ w h

  authorize_token-IsJudged :
      (entry : AuditEntry) (token : Str) (o : Option AuthVerifier) (w : World)
      → extract_access_token p r s.auth_cookie_name ≡ some token
      → s.verifier ≡ o
      → ReadsOnly P w.trace
      → IsJudged p s P
          (IsAdminSession p s r)
          (authorize_token p s entry token o w).0
          (authorize_token p s entry token o w).1
  unfolding authorize_token auth_down
  authorize_token-IsJudged entry token none w presented e h =
      write_audited_error-ReadsOnly p s P
        (record entry { auth_result = lit "auth_verifier_missing" }) 503 _ _ w h
  authorize_token-IsJudged entry token (some verifier) w presented e h =
      authorize_decided-IsJudged entry token verifier w.trace (verifier w.trace token)
        (record w { trace = Event.verify token ∷ w.trace }) presented e refl h

  authorize_presented-IsJudged :
      (entry : AuditEntry) (o : Option Str) (w : World)
      → extract_access_token p r s.auth_cookie_name ≡ o
      → ReadsOnly P w.trace
      → IsJudged p s P
          (IsAdminSession p s r)
          (authorize_presented p s entry o w).0
          (authorize_presented p s entry o w).1
  unfolding authorize_presented deny
  authorize_presented-IsJudged entry none w e h =
      write_audited_error-ReadsOnly p s P (record entry { auth_result = lit "missing_session" }) 401
        _ _ w h
  authorize_presented-IsJudged entry (some token) w e h =
      authorize_token-IsJudged entry token s.verifier w e refl h

  direct_authorized-ReadsOnly :
      (rest : AuditEntry → Exec (Unit {0})) (o : Option AuditEntry) (w : World)
      → ((entry : AuditEntry) (w' : World)
          → IsAdminSession p s r
          → ReadsOnly P w'.trace
          → ReadsOnly P (rest entry w').1.trace)
      → IsJudged p s P (IsAdminSession p s r) o w
      → ReadsOnly P (direct_authorized p s rest o w).1.trace
  unfolding direct_authorized
  direct_authorized-ReadsOnly rest none w f h = h
  direct_authorized-ReadsOnly rest (some entry) w f (q, h) = f entry w q h

  -- A handler that reads only behind an administrator's session.
  pub direct-ReadsOnly :
      (route : Str) (rest : AuditEntry → Exec (Unit {0})) (w : World)
      → ((entry : AuditEntry) (w' : World)
          → IsAdminSession p s r
          → ReadsOnly P w'.trace
          → ReadsOnly P (rest entry w').1.trace)
      → w.trace ≡ []
      → ReadsOnly P (direct p s r route rest w).1.trace
  unfolding direct begin_direct_audit authorize_audit_log_admin
  direct-ReadsOnly route rest w f e =
      let b = begin_direct_audit p s r route w in
      started_or_stop-ReadsOnly p s P b.0.0 _ b.1
        (λ w' h.
          let a = authorize_audit_log_admin p s b.0.1 b.0.0 w' in
          direct_authorized-ReadsOnly rest a.0 a.1 f
            (authorize_presented-IsJudged b.0.0 _ w' (unfold extract_access_token in refl) h))
        (subst (ReadsOnly P) (sym e) tt)
