-- ===== src/Handler/Plain.antt =====
-- The endpoints that only answer: the probes and what the mux answers itself.
use gateway_service.Prelude.{
  ℕ, ◌≡◌, refl, ap, arith, Bool, true, false, ◌||◌, Option, none, some, [], ◌∷◌, ◌++◌, Bool-cases,
  inl, inr,
}
use gateway_service.Text.{Str, lit, eqb}
use gateway_service.Http.{Request, IsFinal, write_header, write_body}
use gateway_service.World.{Platform, Server, World, Event, AuditSink, Exec, Trace, send, set_header}
use gateway_service.Proxy.{write_error, error_json}
use gateway_service.Handler.{
  Schedules, Endpoint, asterisk, not_found, health, ready, audit_list, proxy, redirect,
  audit_detail, player_support, pull_replay, write_status, handle_health, ready_pinged,
  ready_configured, ready_tested, handle_ready, handle_redirect, handle_asterisk, handle_not_found,
  serve,
}

abbrev pub IsPlain : Endpoint → Type 0
IsPlain proxy = ⊥
IsPlain audit_list = ⊥
IsPlain (audit_detail id) = ⊥
IsPlain (player_support user) = ⊥
IsPlain (pull_replay user operation) = ⊥
IsPlain _ = Unit

-- What an answer leaves: the trace grown by one response, whose status the client gets if nothing was
-- written before.
abbrev pub IsAnswer : World → World → Type 0
IsAnswer w after =
    (n : ℕ) × (after.trace ≡ Event.respond n ∷ w.trace)
    × (IsFinal n)
    × (w.writer.status ≡ 0 → after.writer.status ≡ n)

-- An endpoint that only answers.
abbrev pub OnlyAnswers : Exec (Unit {0}) → Type 0
OnlyAnswers act = (w : World) → IsAnswer w (act w).1

send-OnlyAnswers :
    (n : ℕ) (payload : Str) (w w' : World)
    → IsFinal n
    → w'.trace ≡ w.trace
    → w'.writer.status ≡ w.writer.status
    → IsAnswer w (send n payload w').1
unfolding send write_header write_body
send-OnlyAnswers n payload w w' final e f =
    (n, ap (λ (t : Trace). Event.respond n ∷ t) e, final, λ fresh. ground arith)

module _ (p : Platform) (s : Server) where
  write_status-OnlyAnswers : (payload : Str) → OnlyAnswers (write_status p s payload)
  unfolding write_status
  write_status-OnlyAnswers payload w = send-OnlyAnswers 200 _ w _ refl refl refl

  write_error-OnlyAnswers :
      (n : ℕ) (code message : Str) → IsFinal n → OnlyAnswers (write_error p s n code message)
  unfolding write_error
  write_error-OnlyAnswers n code message final w =
      send-OnlyAnswers n (error_json p code message ++ 10 ∷ []) w
        (set_header (lit "Content-Type") (lit "application/json") w).1 final refl refl

  ready_configured-OnlyAnswers : (o : Option AuditSink) → OnlyAnswers (ready_configured p s o)
  unfolding ready_configured
  ready_configured-OnlyAnswers none w = write_status-OnlyAnswers _ w
  ready_configured-OnlyAnswers (some sink) w = pinged (sink.ping w.trace)
    where
      pinged : (up : Bool) → IsAnswer w (ready_pinged p s up w).1
      pinged true = unfold ready_pinged in write_status-OnlyAnswers _ w
      pinged false = unfold ready_pinged in write_error-OnlyAnswers 503 _ _ refl w

  handle_ready-OnlyAnswers : (r : Request) → OnlyAnswers (handle_ready p s r)
  unfolding handle_ready
  handle_ready-OnlyAnswers r w = tested _
    where
      tested : (bad : Bool) → IsAnswer w (ready_tested p s bad w).1
      tested true = unfold ready_tested in write_error-OnlyAnswers 503 _ _ refl w
      tested false = unfold ready_tested in ready_configured-OnlyAnswers s.audit_sink w

  handle_redirect-OnlyAnswers :
      (location : Str) (r : Request) → OnlyAnswers (handle_redirect p s location r)
  unfolding handle_redirect
  handle_redirect-OnlyAnswers location r w =
      elim (Bool-cases (eqb r.method (lit "GET") || eqb r.method (lit "HEAD"))) [
        | inl page ↦ rw page (send-OnlyAnswers 301 _ w _ refl refl refl)
        | inr other ↦ rw other (send-OnlyAnswers 301 _ w _ refl refl refl)
      ]

  handle_asterisk-OnlyAnswers : (r : Request) → OnlyAnswers (handle_asterisk p s r)
  unfolding handle_asterisk
  handle_asterisk-OnlyAnswers r w = send-OnlyAnswers 400 _ w _ refl refl refl

  handle_not_found-OnlyAnswers : (r : Request) → OnlyAnswers (handle_not_found p s r)
  unfolding handle_not_found
  handle_not_found-OnlyAnswers r w = send-OnlyAnswers 404 _ w _ refl refl refl

  handle_health-OnlyAnswers : (r : Request) → OnlyAnswers (handle_health p s r)
  unfolding handle_health
  handle_health-OnlyAnswers r w = write_status-OnlyAnswers _ w

  pub serve_plain :
      (c : Schedules) (r : Request) (endpoint : Endpoint) (w : World)
      → IsPlain endpoint
      → IsAnswer w (serve p s c r endpoint w).1
  unfolding serve
  serve_plain c r asterisk w h = handle_asterisk-OnlyAnswers r w
  serve_plain c r not_found w h = handle_not_found-OnlyAnswers r w
  serve_plain c r health w h = handle_health-OnlyAnswers r w
  serve_plain c r ready w h = handle_ready-OnlyAnswers r w
  serve_plain c r (redirect location) w h = handle_redirect-OnlyAnswers location r w
  serve_plain c r proxy w h = absurd h
  serve_plain c r audit_list w h = absurd h
  serve_plain c r (audit_detail id) w h = absurd h
  serve_plain c r (player_support user) w h = absurd h
  serve_plain c r (pull_replay user operation) w h = absurd h
