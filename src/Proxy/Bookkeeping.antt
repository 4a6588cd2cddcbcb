-- ===== src/Proxy/Bookkeeping.antt =====
-- What a bookkeeping of requests must give, so that it holds of every request that the handlers answer.
use gateway_service.Prelude.{
  ℕ, ◌≡◌, refl, Bool, true, false, List, [], ◌∷◌, ◌++◌, Option, none, some, ◌∙◌,
}
use gateway_service.Text.{Str, lit, eqb}
use gateway_service.Header.{
  Header, copy_response_headers, should_drop_response_header, set, values, canonical_header_key,
  request_id_header,
}
use gateway_service.Header.Laws.{values-set, values-copy_headers, kept}
use gateway_service.Http.{IsFinal}
use gateway_service.Audit.{AuditEntry, AuditStatus}
use gateway_service.World.{
  Platform, Server, World, Event, Exec, send, ◌>>◌, update_header, set_header,
}
use gateway_service.Proxy.{trace_header, start_audit_or_fail, finish_audit, answered}

-- The first value of X-Request-Id.
abbrev pub ShowsId : Str → Header → Type 0
ShowsId v h = (rest : List Str) × (values h request_id_header ≡ v ∷ rest)

abbrev pub KeepsId : (Header → Header) → Type 0
KeepsId f = (v : Str) (h : Header) → ShowsId v h → ShowsId v (f h)

pub set-KeepsId :
    (key value : Str)
    → eqb (canonical_header_key key) request_id_header ≡ false
    → KeepsId (λ h. set h key value)
set-KeepsId key value other v h (rest, e) =
    (rest, values-set h key request_id_header value ∙ rw other e)

pub content_type-KeepsId : (value : Str) → KeepsId (λ h. set h (lit "Content-Type") value)
unfolding canonical_header_key eqb
content_type-KeepsId value = set-KeepsId (lit "Content-Type") value refl

pub copy_response_headers-KeepsId : (src : Header) → KeepsId (λ h. copy_response_headers h src)
unfolding copy_response_headers
copy_response_headers-KeepsId src v h (rest, e) = (
  rest ++ kept should_drop_response_header src request_id_header,
  values-copy_headers should_drop_response_header h src request_id_header ∙ rw e refl,
)

-- A call of a service.
abbrev pub IsCall : Event → Type 0
IsCall (Event.verify token) = Unit
IsCall (Event.forward o) = Unit
IsCall (Event.list_calls f) = Unit
IsCall (Event.get_call n) = Unit
IsCall _ = ⊥

-- What holds behind the start of the audit.
abbrev pub IsStarted : (World → Type 0) → (World → Type 0) → Bool → World → Type 0
IsStarted pending answered true w = pending w
IsStarted pending answered false w = answered w

-- The end of an answer: its record is finished, then its headers and its payload are written.
abbrev pub finish_and_send :
    Platform → Server → AuditEntry → (Header → Header) → Str → Exec (Unit {0})
finish_and_send p s entry f payload =
    finish_audit p s entry >> (update_header f >> send entry.response_status payload)

-- The states of a request that is ready under an id, since the header X-Request-Id has it, of one whose
-- answer is pending, and of one that is answered: the header with the trace's id keeps a request ready,
-- its start makes it pending or answers it, the calls of services and the readings of clocks keep it
-- pending, and its end answers it where the status is allowed, as those of final responses are.
pub record Bookkeeping (p : Platform) (s : Server) : Type 1 where
  pub allowed : ℕ → Type 0
  pub own : (status : ℕ) → IsFinal status → allowed status
  pub ready : ℕ → World → Type 0
  pub pending : ℕ → World → Type 0
  pub answered : World → Type 0
  pub begins :
      (id : ℕ) (w : World)
      → w.trace ≡ []
      → w.writer.status ≡ 0
      → ready id (set_header request_id_header (p.uuid_string id) w).1
  pub calls :
      (id : ℕ) (e : Event) (w : World)
      → IsCall e
      → pending id w
      → pending id (record w { trace = e ∷ w.trace })
  pub titles :
      (id : ℕ) (trace_id : Option Str) (w : World)
      → ready id w
      → ready id (trace_header p s trace_id w).1
  pub ticks : (id n : ℕ) (w : World) → pending id w → pending id (record w { ticks = n })
  pub starts :
      (entry : AuditEntry) (w : World)
      → ready entry.request_id w
      → IsStarted
          (pending entry.request_id)
          answered
          (start_audit_or_fail p s entry w).0
          (start_audit_or_fail p s entry w).1
  pub ends :
      (entry : AuditEntry) (f : Header → Header) (payload : Str) (w : World)
      → allowed entry.response_status
      → entry.audit_status ≡ AuditStatus.complete
      → KeepsId f
      → pending entry.request_id w
      → answered (finish_and_send p s entry f payload w).1

pub trace_header-keeps :
    (p : Platform) (s : Server) (o : Option Str) (w : World)
    → ((trace_header p s o w).1.trace ≡ w.trace)
      × ((trace_header p s o w).1.writer.status ≡ w.writer.status)
unfolding trace_header
trace_header-keeps p s none w = (refl, refl)
trace_header-keeps p s (some id) w = (refl, refl)

pub trace_header-KeepsId :
    (p : Platform) (s : Server) (v : Str) (o : Option Str) (w : World)
    → ShowsId v w.writer.header
    → ShowsId v (trace_header p s o w).1.writer.header
unfolding trace_header canonical_header_key eqb
trace_header-KeepsId p s v none w h = h
trace_header-KeepsId p s v (some id) w h =
    set-KeepsId (lit "X-Trace-Id") id refl v w.writer.header h
