-- ===== src/Samples.antt =====
-- A concrete gateway with two routes, an administrator and services that answer, for the tests and
-- the instances of the theorems.
use gateway_service.Prelude.{◌+◌, true, false, none, some, [], ◌∷◌, ◌++◌, if◌then◌else◌, pos}
use gateway_service.Text.{Str, lit, eqb, itoa}
use gateway_service.Route.{Url, Route}
use gateway_service.Http.{Request, Stream, new_writer}
use gateway_service.World.{
  Platform, Server, AuditSink, AuditLogStore, Lookup, Verified, Options, World, AuthVerifier,
}

abbrev pub platform : Platform
platform = record {
  new_uuid = λ n. n + 100;
  uuid_string = itoa;
  uuid_parse = λ s. if eqb s (lit "7") then some 7 else none;
  wall_clock = λ n. n + 1000;
  rfc3339_nano = λ n. lit "2026-01-01T00:00:00Z";
  rfc3339_parse = λ s. none;
  url_string = λ u. u.scheme ++ (lit "://" ++ (u.host ++ u.path));
  request_valid = λ method url. true;
  split_host = λ addr. none;
  unicode_upper = λ s. s;
  normalize_json = λ s. none;
  path_escape = λ s. s;
  path_unescape = λ s. s;
  escaped_path = λ u. u.path;
  clean_path = λ s. s;
  redirect_body = λ s. s;
  query_escape = λ s. s;
  json = record { parse = λ s. none; print = λ j. lit "{}"; unquote = λ s. s; quote = λ s. s };
  time_json = λ n. some (lit "2026-01-01T00:00:00Z");
}

abbrev pub target : Str → Url
target host = record {
  scheme = lit "http";
  host = host;
  path = lit "/v1";
  raw_query = [];
  rest = [];
}

abbrev pub assets : Route
assets = record {
  name = lit "assets";
  prefix = lit "/api/v1/assets";
  target = target (lit "assets");
}

abbrev pub api : Route
api = record { name = lit "api"; prefix = lit "/api"; target = target (lit "api") }

abbrev pub root : Route
root = record { name = lit "root"; prefix = lit "/"; target = target (lit "root") }

abbrev pub sink : AuditSink
sink = record { ping = λ t. true; start = λ t entry. true; finish = λ t entry. true }

abbrev pub store : AuditLogStore
store = record {
  list_http_api_calls = λ t filter. some [];
  get_http_api_call = λ t id. Lookup.missing;
}

abbrev pub verifier : AuthVerifier
verifier t token = if eqb token (lit "good") then Verified.user 7 else Verified.invalid_session

abbrev pub options : Options
options = record {
  verifier = some verifier;
  internal_token = lit "secret";
  auth_cookie_name = [];
  routes = api ∷ assets ∷ [];
  client =
      some (λ t o. some (record { status = 200; header = []; body = Stream.whole (lit "ok") }));
  max_body_bytes = pos 8;
  audit_sink = some sink;
  sink_store = some store;
  audit_log_store = none;
  audit_max_body_bytes = pos 4;
  admin_user_ids = 7 ∷ [];
  now = none;
}

-- The fields of `new_server` on these options.
abbrev pub server : Server
server = record {
  verifier = some verifier;
  internal_token = lit "secret";
  auth_cookie_name = [];
  routes = assets ∷ api ∷ [];
  client = λ t o. some (record { status = 200; header = []; body = Stream.whole (lit "ok") });
  max_body_bytes = 8;
  audit_sink = some sink;
  audit_log_store = some store;
  audit_max_body_bytes = 4;
  admin_user_ids = 7 ∷ [];
  now = λ n. n + 1000;
}

abbrev pub request : Request
request = record {
  method = lit "GET";
  url = record {
    scheme = [];
    host = [];
    path = lit "/api/v1/assets/me";
    raw_query = lit "a=1";
    rest = [];
  };
  remote_addr = lit "10.0.0.1";
  host = lit "gateway";
  tls = false;
  header =
      (lit "Authorization", lit "Bearer good" ∷ [])
      ∷ (lit "x-user-id", lit "8" ∷ [])
      ∷ (lit "Cookie", lit "a=b" ∷ [])
      ∷ [];
  cookies = [];
  query = λ key. [];
  path_value = λ key. lit "7";
  trace_id = none;
  context_id = none;
  body = some (Stream.whole (lit "body"));
}

abbrev pub fresh : World
fresh = record { writer = new_writer; trace = []; ticks = 0; panicked = false }
