-- ===== src/Startup.antt =====
-- cmd/gateway-service/main.go: how the gateway is put together from its environment, and how it ends.
pub mod Ready
mod Tests
use gateway_service.Prelude.{
  ℕ, Bool, true, false, Option, none, some, [], if◌then◌else◌, is_empty, ℤ, pos,
}
use gateway_service.Text.{Str, lit}
use gateway_service.Http.{Upstream}
use gateway_service.Audit.{normalize_audit_write_timeout}
use gateway_service.World.{
  Trace, Client, AuditSink, AuditLogStore, AuthVerifier, Options, Server, new_server,
}
use gateway_service.Config.{
  Parsers, Config, ConfigError, Checked, accepted, rejected, Env, load_config,
}
use gateway_service.Verifier.{
  AuthRequest, SupabaseVerifier, VerifierPackages, VerifierError, NewVerifier, failed, created,
  new_supabase_verifier, verify,
}
use gateway_service.Telemetry.{Tracing, Exporting, setup}

-- What `run` calls: the packages, clients with a timeout, and the opening of a pool: `connect n url m`
-- answers a ping within the timeout `m`, under a context with the timeout `n`.
pub record Launch : Type 0 where
  pub parsers : Parsers
  pub exporting : Exporting
  pub verifier_packages : VerifierPackages
  pub auth_client : ℤ → Trace → AuthRequest → Option Upstream
  pub timeout_client : ℤ → Client
  pub connect : ℤ → Str → ℤ → Option (AuditSink × AuditLogStore)
  pub default_client : Client
  pub time_now : ℕ → ℕ

-- The gateway behind its start.
pub record Gateway : Type 0 where
  pub addr : Str
  pub tracing : Tracing
  pub server : Server

pub data Stop : Type 0 where
  bad_config : ConfigError → Stop
  no_telemetry no_audit_database : Stop
  no_verifier : VerifierError → Stop

pub data Outcome : Type 0 where
  stopped : Stop → Outcome
  serving : Gateway → Outcome

-- The sink and the store that it also is.
abbrev sink_of : Option (AuditSink × AuditLogStore) → Option AuditSink
sink_of none = none
sink_of (some (sink, store)) = some sink

abbrev store_of : Option (AuditSink × AuditLogStore) → Option AuditLogStore
store_of none = none
store_of (some (sink, store)) = some store

module _ (l : Launch) where
  -- NewPostgresAuditSink under a context with a timeout
  new_postgres_audit_sink : ℤ → Str → ℤ → Option (AuditSink × AuditLogStore)
  new_postgres_audit_sink timeout url write_timeout =
      l.connect timeout url (normalize_audit_write_timeout write_timeout)

  serve_with : Config → Tracing → SupabaseVerifier → Option (AuditSink × AuditLogStore) → Outcome
  serve_with c tracing verifier database = serving (record {
    addr = c.addr;
    tracing = tracing;
    server = new_server l.default_client l.time_now (record {
      verifier = some (verify verifier);
      internal_token = c.internal_token;
      auth_cookie_name = c.auth_cookie_name;
      routes = c.routes;
      client = some (l.timeout_client c.request_timeout);
      max_body_bytes = pos c.max_body_bytes;
      audit_sink = sink_of database;
      sink_store = store_of database;
      audit_log_store = none;
      audit_max_body_bytes = pos c.audit_max_body_bytes;
      admin_user_ids = c.audit_log_admin_user_ids;
      now = none;
    });
  })

  run_opened : Config → Tracing → SupabaseVerifier → Option (AuditSink × AuditLogStore) → Outcome
  run_opened c tracing verifier none = stopped no_audit_database
  run_opened c tracing verifier (some database) = serve_with c tracing verifier (some database)

  run_verified : Config → Tracing → NewVerifier → Outcome
  unfolding new_postgres_audit_sink
  run_verified c tracing (failed e) = stopped (no_verifier e)
  run_verified c tracing (created verifier) =
      if is_empty c.audit_database_url
      then serve_with c tracing verifier none
      else run_opened c tracing verifier
          (new_postgres_audit_sink c.audit_write_timeout c.audit_database_url c.audit_write_timeout)

  run_traced : Config → Option Tracing → Outcome
  run_traced c none = stopped no_telemetry
  run_traced c (some tracing) = run_verified c tracing (
      new_supabase_verifier l.verifier_packages c.supabase_anon_key
        (some (l.auth_client c.request_timeout)) c.supabase_url)

  run_configured : Env → Checked Config → Outcome
  run_configured env (rejected e) = stopped (bad_config e)
  run_configured env (accepted c) = run_traced c (setup l.exporting env (lit "gateway-service"))

  pub run : Env → Outcome
  run env = run_configured env (load_config l.parsers env)

-- How serving ends: the listener fails or is closed, or a signal comes and the shutdown is clean or not.
pub data Ending : Type 0 where
  listener_failed listener_closed : Ending
  signalled : Bool → Ending

-- Whether `run` returns nil at its end.
ended_well : Ending → Bool
ended_well listener_failed = false
ended_well listener_closed = true
ended_well (signalled clean) = clean

-- main
pub exit_code : Outcome → Ending → ℕ
unfolding ended_well
exit_code (stopped reason) ending = 1
exit_code (serving g) ending = if ended_well ending then 0 else 1
