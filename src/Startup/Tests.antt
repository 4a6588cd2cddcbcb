-- ===== src/Startup/Tests.antt =====
-- The start of a gateway from the sample environment.
use gateway_service.Prelude.{◌≡◌, refl, ap, true, none, some, [], ◌+◌, pos}
use gateway_service.Text.{Str, lit}
use gateway_service.World.{new_server}
use gateway_service.Config.Tests.{parsers, env, config, env_accepted}
use gateway_service.Verifier.{VerifierPackages, SupabaseVerifier, verify}
use gateway_service.Telemetry.{Exporting, Tracing}
use gateway_service.Handler.{handle_ready}
use gateway_service.Handler.Readiness.{IsProbed}
use gateway_service.Startup.{
  Launch, Gateway, serving, run, run_configured, run_traced, run_verified, serve_with,
}
use gateway_service.Startup.Ready.{IsReachable, run-IsProbed}
use gateway_service.Samples.{platform, target, request, fresh}

abbrev packages : VerifierPackages
packages = record {
  url_parse = λ s. some (target s);
  join_path = λ base parts. some (lit "https://abc.supabase.co/auth/v1/user");
  default_client = λ t r. none;
  url_valid = λ s. true;
  json = platform.json;
  first_value = λ body. none;
  uuid_parse = λ s. none;
}

abbrev launch : Launch
launch = record {
  parsers = parsers;
  exporting = record {
    unicode_lower = λ s. s;
    parse_float = λ s. none;
    resource = λ name. true;
    exporter = true;
  };
  verifier_packages = packages;
  auth_client = λ timeout t r. none;
  timeout_client = λ timeout t o. none;
  connect = λ limit url timeout. none;
  default_client = λ t o. none;
  time_now = λ n. n + 1000;
}

abbrev verifier : SupabaseVerifier
verifier = record {
  user_url = lit "https://abc.supabase.co/auth/v1/user";
  anon_key = lit "key";
  client = λ t r. none;
  url_valid = λ s. true;
  json = platform.json;
  first_value = λ body. none;
  uuid_parse = λ s. none;
}

abbrev gateway : Gateway
gateway = record {
  addr = lit ":8080";
  tracing = Tracing.untraced;
  server =
      new_server (λ t o. none) (λ n. n + 1000)
        (record {
          verifier = some (verify verifier);
          internal_token = lit "secret";
          auth_cookie_name = lit "sb-abc-auth-token";
          routes = config.routes;
          client = some (λ t o. none);
          max_body_bytes = pos config.max_body_bytes;
          audit_sink = none;
          sink_store = none;
          audit_log_store = none;
          audit_max_body_bytes = pos config.audit_max_body_bytes;
          admin_user_ids = [];
          now = none;
        });
}

starts : run launch env ≡ serving gateway
unfolding run run_configured run_traced run_verified serve_with gateway_service.Telemetry.setup
    gateway_service.Telemetry.telemetry_disabled gateway_service.Telemetry.parse_bool
    gateway_service.Verifier.new_supabase_verifier gateway_service.Verifier.verifier_based
    gateway_service.Verifier.verifier_joined gateway_service.Text.trim_space
    gateway_service.Text.eqb
starts = ap (run_configured launch env) env_accepted

run-IsProbed_example :
    IsProbed
      (IsReachable gateway.server fresh.trace)
      (handle_ready platform gateway.server request fresh).1.writer.status
run-IsProbed_example = run-IsProbed launch env gateway platform request fresh starts refl
