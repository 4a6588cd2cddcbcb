-- ===== src/Config/Tests.antt =====
-- A configuration of a sample environment.
use gateway_service.Prelude.{
  ◌*◌, ◌≡◌, ◌≤◌, refl, true, some, none, [], ◌∷◌, pos, lt_ℕ, if◌then◌else◌,
}
use gateway_service.Text.{lit, eqb, trim_space, trim_right, split, cut, has_prefix, has_suffix}
use gateway_service.Route.{validate_route}
use gateway_service.Audit.{default_max_body_bytes, default_audit_max_body_bytes}
use gateway_service.Config.{
  Parsers, Config, Env, infer_supabase_cookie_name, cookie_of_host, wrap, accepted,
  duration_of_seconds, parse_routes, load_config, require, positive_env, duration_from_seconds_env,
  uuid_set_from_env, load_routes, route_parts, route_named, route_split, route_targeted,
  route_checked, at_least_one,
}
use gateway_service.Config.Routes.{Ensures}
use gateway_service.Config.Loading.{IsUsable, duration_of_seconds_bounds, load_config-IsUsable}
use gateway_service.Samples.{target}

abbrev pub parsers : Parsers
parsers = record {
  url_parse = λ s. some (target s);
  hostname = λ u. lit "abc.supabase.co";
  uuid_parse = λ s. none;
}

abbrev pub env : Env
env name =
    if eqb name (lit "SUPABASE_URL")
    then lit "https://abc.supabase.co"
    else if eqb name (lit "SUPABASE_ANON_KEY")
    then lit "key"
    else if eqb name (lit "INTERNAL_TOKEN")
    then lit " secret "
    else if eqb name (lit "ASSET_SERVICE_URL")
    then lit "http://assets/"
    else []

abbrev pub config : Config
config = record {
  addr = lit ":8080";
  supabase_url = lit "https://abc.supabase.co";
  supabase_anon_key = lit "key";
  internal_token = lit "secret";
  auth_cookie_name = lit "sb-abc-auth-token";
  routes =
      record {
        name = lit "assets";
        prefix = lit "/api/v1/assets";
        target = target (lit "http://assets/v1");
      }
      ∷ [];
  request_timeout = pos 15000000000;
  max_body_bytes = default_max_body_bytes;
  audit_database_url = [];
  audit_max_body_bytes = default_audit_max_body_bytes;
  audit_write_timeout = pos 3000000000;
  audit_log_admin_user_ids = [];
}

-- The sample environment is accepted.
pub env_accepted : load_config parsers env ≡ accepted config
unfolding load_config require positive_env duration_from_seconds_env uuid_set_from_env load_routes
    parse_routes route_parts route_named route_split route_targeted route_checked at_least_one
    trim_space eqb trim_right split cut validate_route has_prefix has_suffix
    infer_supabase_cookie_name cookie_of_host duration_of_seconds wrap
env_accepted = refl

load_config-IsUsable_example : Ensures IsUsable (load_config parsers env)
load_config-IsUsable_example = load_config-IsUsable parsers env

duration_of_seconds_bounds_example :
    (9223372037 ≤ 9223372036 → duration_of_seconds 9223372037 ≡ pos (9223372037 * 1000000000))
    × (9223372037 ≤ 9223372037
        → 9223372037 ≤ 18446744073
        → lt_ℕ (duration_of_seconds 9223372037) 0 ≡ true)
duration_of_seconds_bounds_example = duration_of_seconds_bounds 9223372037
