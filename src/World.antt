-- ===== src/World.antt =====
-- What the handlers run against: the packages and services that the gateway calls, `Server` and `New`
-- of internal/gateway/server.go, the state of one request, and the actions on it.
use gateway_service.Prelude.{
  ℕ, ◌+◌, Bool, not, ◌==◌, ◌&&◌, ◌||◌, Option, none, some, List, ◌∷◌, if◌then◌else◌, ℤ, to_ℕ, lt_ℕ,
}
use gateway_service.Text.{Str, trim_space}
use gateway_service.Header.{Header, set}
use gateway_service.Route.{Url, Route, sort_routes}
use gateway_service.Http.{Outgoing, Upstream, Writer, write_header, write_body, is_valid}
use gateway_service.Audit.{AuditEntry, normalize_audit_max_body_bytes, default_max_body_bytes}
use gateway_service.Filter.{AuditLogFilter}
use gateway_service.Json.{Codec}

-- Packages that the gateway only calls. `new_uuid n` is the id that the n-th draw yields and
-- `wall_clock n` the time that the n-th reading yields.
pub record Platform : Type 0 where
  pub new_uuid : ℕ → ℕ
  pub uuid_string : ℕ → Str
  pub uuid_parse : Str → Option ℕ
  pub wall_clock : ℕ → ℕ
  pub rfc3339_nano : ℕ → Str
  pub rfc3339_parse : Str → Option ℕ
  pub url_string : Url → Str
  pub request_valid : Str → Url → Bool
  pub split_host : Str → Option Str
  pub unicode_upper : Str → Str
  pub normalize_json : Str → Option Str
  pub path_escape : Str → Str
  pub path_unescape : Str → Str
  pub escaped_path : Url → Str
  pub clean_path : Str → Str
  pub redirect_body : Str → Str
  pub query_escape : Str → Str
  pub json : Codec
  pub time_json : ℕ → Option Str

-- What the gateway asks of its services, and the status that it gives to WriteHeader, newest first
-- in a trace.
pub data Event : Type 0 where
  audit_start : AuditEntry → Event
  audit_finish : AuditEntry → Event
  verify : Str → Event
  forward : Outgoing → Event
  list_calls : AuditLogFilter → Event
  get_call : ℕ → Event
  respond : ℕ → Event

abbrev pub Trace : Type 0
Trace = List Event

-- The result of `AuthVerifier.Verify`: a user's id, ErrInvalidSession, or another error.
pub data Verified : Type 0 where
  user : ℕ → Verified
  invalid_session : Verified
  auth_unavailable : Verified

-- `AuditSink`; `true` is the nil error. A service may answer by all that has happened before.
pub record AuditSink : Type 0 where
  pub ping : Trace → Bool
  pub start : Trace → AuditEntry → Bool
  pub finish : Trace → AuditEntry → Bool

pub data Lookup : Type 0 where
  failed missing : Lookup
  found : Str → Lookup

-- `AuditLogStore`
pub record AuditLogStore : Type 0 where
  pub list_http_api_calls : Trace → AuditLogFilter → Option (List Str)
  pub get_http_api_call : Trace → ℕ → Lookup

abbrev pub AuthVerifier : Type 0
AuthVerifier = Trace → Str → Verified

abbrev pub Client : Type 0
Client = Trace → Outgoing → Option Upstream

-- `sink_store` is the sink as a store, where it is one too.
pub record Options : Type 0 where
  pub verifier : Option AuthVerifier
  pub internal_token : Str
  pub auth_cookie_name : Str
  pub routes : List Route
  pub client : Option Client
  pub max_body_bytes : ℤ
  pub audit_sink : Option AuditSink
  pub sink_store : Option AuditLogStore
  pub audit_log_store : Option AuditLogStore
  pub audit_max_body_bytes : ℤ
  pub admin_user_ids : List ℕ
  pub now : Option (ℕ → ℕ)

pub record Server : Type 0 where
  pub verifier : Option AuthVerifier
  pub internal_token : Str
  pub auth_cookie_name : Str
  pub routes : List Route
  pub client : Client
  pub max_body_bytes : ℕ
  pub audit_sink : Option AuditSink
  pub audit_log_store : Option AuditLogStore
  pub audit_max_body_bytes : ℕ
  pub admin_user_ids : List ℕ
  pub now : ℕ → ℕ

abbrev or_else {ℓ} : {A : Type ℓ} → Option A → A → A
or_else none a = a
or_else (some b) a = b

abbrev first_of_two {ℓ} : {A : Type ℓ} → Option A → Option A → Option A
first_of_two none b = b
first_of_two (some a) b = some a

-- `New`; the default client and the default clock are the last arguments.
unfoldable pub new_server : Client → (ℕ → ℕ) → Options → Server
new_server default_client time_now opts = record {
  verifier = opts.verifier;
  internal_token = trim_space opts.internal_token;
  auth_cookie_name = trim_space opts.auth_cookie_name;
  routes = sort_routes opts.routes;
  client = or_else opts.client default_client;
  max_body_bytes =
      if lt_ℕ opts.max_body_bytes 1 then default_max_body_bytes else to_ℕ opts.max_body_bytes;
  audit_sink = opts.audit_sink;
  audit_log_store = first_of_two opts.audit_log_store opts.sink_store;
  audit_max_body_bytes = to_ℕ (normalize_audit_max_body_bytes opts.audit_max_body_bytes);
  admin_user_ids = opts.admin_user_ids;
  now = or_else opts.now time_now;
}

-- The state of one request: its response writer, what has happened, how often the clock or the
-- source of ids was read, and whether its handler has panicked.
pub record World : Type 0 where
  pub writer : Writer
  pub trace : Trace
  pub ticks : ℕ
  pub panicked : Bool

abbrev pub Exec : Type 0 → Type 0
Exec A = World → A × World

infixl 5 ◌>>=◌ ◌>>◌
abbrev pub ◌>>=◌ : {A B : Type 0} → Exec A → (A → Exec B) → Exec B
◌>>=◌ m f w = f (m w).0 (m w).1

abbrev pub ◌>>◌ : {A B : Type 0} → Exec A → Exec B → Exec B
m >> k = m >>= λ _. k

abbrev pub pure : {A : Type 0} → A → Exec A
pure a w = (a, w)

-- Reads the next value of a clock or of the source of ids.
abbrev pub draw : (ℕ → ℕ) → Exec ℕ
draw source w = (source w.ticks, record w { ticks = w.ticks + 1 })

abbrev pub note : Event → Exec (Unit {0})
note e w = (tt, record w { trace = e ∷ w.trace })

abbrev pub past : Exec Trace
past w = (w.trace, w)

abbrev pub set_header : Str → Str → Exec (Unit {0})
set_header key value w =
    (tt, record w { writer = record w.writer { header = set w.writer.header key value } })

abbrev pub update_header : (Header → Header) → Exec (Unit {0})
update_header f w = (tt, record w { writer = record w.writer { header = f w.writer.header } })

-- `w.WriteHeader(status)`, then `w.Write(payload)`. WriteHeader panics on a status that has not three
-- digits, and then the connection is closed without an answer. It is the last that a handler does.
unfoldable pub send : ℕ → Str → Exec (Unit {0})
unfolding write_header write_body
send status payload w =
    let panics = w.writer.status == 0 && not (is_valid status) in
    (
      tt,
      record w {
        writer = if panics then w.writer else (write_body (write_header w.writer status) payload).0;
        trace = respond status ∷ w.trace;
        panicked = w.panicked || panics;
      },
    )
