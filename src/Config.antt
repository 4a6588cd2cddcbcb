-- ===== src/Config.antt =====
-- The configuration: internal/gateway/config.go. The environment is a function from names to values,
-- empty where a variable is not set.
pub mod Routes
pub mod Loading
pub mod Tests
use gateway_service.Prelude.{
  ℕ, ◌+◌, ◌-◌, ◌*◌, ◌%◌, ◌^◌, Bool, true, false, not, ◌||◌, Option, none, some, List, [], ◌∷◌, ◌++◌,
  ltb, if◌then◌else◌, is_empty, ℤ, pos, negate, lt_ℕ, to_ℕ,
}
use gateway_service.Text.{Str, lit, trim_space, trim_right, split, cut, parse_int}
use gateway_service.Route.{Url, Route, RouteError, validate_route}
use gateway_service.Audit.{default_max_body_bytes, default_audit_max_body_bytes}

-- Packages that the configuration calls: `hostname` is `URL.Hostname`.
pub record Parsers : Type 0 where
  pub url_parse : Str → Option Url
  pub hostname : Url → Str
  pub uuid_parse : Str → Option ℕ

pub data ConfigError : Type 0 where
  required : Str → ConfigError
  not_positive : Str → ConfigError
  not_uuids : Str → ConfigError
  bad_entry bad_target : Str → ConfigError
  bad_route : RouteError → ConfigError
  no_routes no_route_source : ConfigError

pub data Checked (A : Type 0) : Type 0 where
  accepted : A → Checked A
  rejected : ConfigError → Checked A

infixl 5 ◌>>=◌
abbrev pub ◌>>=◌ : {A B : Type 0} → Checked A → (A → Checked B) → Checked B
accepted a >>= f = f a
rejected e >>= f = rejected e

abbrev pub Env : Type 0
Env = Str → Str

pub record Config : Type 0 where
  pub addr : Str
  pub supabase_url : Str
  pub supabase_anon_key : Str
  pub internal_token : Str
  pub auth_cookie_name : Str
  pub routes : List Route
  pub request_timeout : ℤ
  pub max_body_bytes : ℕ
  pub audit_database_url : Str
  pub audit_max_body_bytes : ℕ
  pub audit_write_timeout : ℤ
  pub audit_log_admin_user_ids : List ℕ

-- A value that must not be empty.
require : Str → Str → Checked Str
require name value = if is_empty value then rejected (ConfigError.required name) else accepted value

-- An integer that must be positive, behind strconv.
positive_parsed : Str → Option ℤ → Checked ℕ
positive_parsed name none = rejected (ConfigError.not_positive name)
positive_parsed name (some n) =
    if lt_ℕ n 1 then rejected (ConfigError.not_positive name) else accepted (to_ℕ n)

-- A positive integer of the environment, with the default for a blank value.
positive_env : Env → Str → ℕ → Checked ℕ
unfolding positive_parsed
positive_env env name default =
    let raw = trim_space (env name) in
    if is_empty raw then accepted default else positive_parsed name (parse_int raw)

-- An integer as an int64.
wrap : ℕ → ℤ
wrap n = let m = n % 2 ^ 64 in if ltb m (2 ^ 63) then pos m else negate (2 ^ 64 - m)

-- `time.Duration(seconds) * time.Second`, in nanoseconds
unfoldable pub duration_of_seconds : ℕ → ℤ
unfolding wrap
duration_of_seconds seconds = wrap (seconds * 1000000000)

duration_from_seconds_env : Env → Str → ℕ → Checked ℤ
duration_from_seconds_env env name default = do
  seconds ← positive_env env name default
  accepted (duration_of_seconds seconds)

module _ (q : Parsers) where
  uuid_parsed : Str → Option ℕ → Checked (List ℕ) → Checked (List ℕ)
  uuid_parsed name none rest = rejected (ConfigError.not_uuids name)
  uuid_parsed name (some id) rest = do ids ← rest; accepted (id ∷ ids)

  -- The loop of uuidSetFromEnv
  uuid_parts : Str → List Str → Checked (List ℕ)
  unfolding uuid_parsed
  uuid_parts name [] = accepted []
  uuid_parts name (part ∷ parts) =
      let rest = uuid_parts name parts in
      if is_empty (trim_space part)
      then rest
      else uuid_parsed name (q.uuid_parse (trim_space part)) rest

  -- The set is a list; `uuid_parts` on the empty value finds no ids.
  uuid_set_from_env : Env → Str → Checked (List ℕ)
  uuid_set_from_env env name =
      let raw = trim_space (env name) in
      if is_empty raw then accepted [] else uuid_parts name (split raw b',')

  cookie_of_host : Str → Str
  cookie_of_host host = elim (split host b'.') [
    | [] ↦ []
    | project ∷ _ ↦ if is_empty project then [] else lit "sb-" ++ (project ++ lit "-auth-token")
  ]

  infer_supabase_cookie_name : Str → Str
  unfolding cookie_of_host
  infer_supabase_cookie_name url = elim (q.url_parse url) [
    | none ↦ []
    | some parsed ↦ if is_empty (q.hostname parsed) then [] else cookie_of_host (q.hostname parsed)
  ]

  -- parseRoutes behind validateRoute
  route_checked : Route → Option RouteError → Checked Route
  route_checked route none = accepted route
  route_checked route (some e) = rejected (ConfigError.bad_route e)

  abbrev rooted : Str → Str
  rooted prefix = if is_empty prefix then lit "/" else prefix

  -- parseRoutes behind url.Parse
  route_targeted : Str → Str → Option Url → Checked Route
  route_targeted name prefix none = rejected (ConfigError.bad_target name)
  route_targeted name prefix (some target) =
      let route : Route = record {
        name = trim_space name;
        prefix = rooted (trim_right (trim_space prefix) b'/');
        target = target;
      } in
      route_checked route (validate_route route)

  route_split : Str → Str → Option (Str × Str) → Checked Route
  route_split part name none = rejected (ConfigError.bad_entry part)
  route_split part name (some (prefix, target)) =
      route_targeted name prefix (q.url_parse (trim_space target))

  route_named : Str → Option (Str × Str) → Checked Route
  route_named part none = rejected (ConfigError.bad_entry part)
  route_named part (some (name, rest)) = route_split part name (cut rest b'|')

  -- The loop of parseRoutes
  route_parts : List Str → Checked (List Route)
  route_parts [] = accepted []
  route_parts (part ∷ parts) =
      let rest = route_parts parts in
      if is_empty (trim_space part) then rest else do
        route ← route_named (trim_space part) (cut (trim_space part) b'=')
        routes ← rest
        accepted (route ∷ routes)

  at_least_one : List Route → Checked (List Route)
  at_least_one [] = rejected ConfigError.no_routes
  at_least_one (route ∷ routes) = accepted (route ∷ routes)

  pub parse_routes : Str → Checked (List Route)
  parse_routes value = do routes ← route_parts (split value b','); at_least_one routes

  load_routes : Env → Checked (List Route)
  load_routes env =
      let value = trim_space (env (lit "UPSTREAM_ROUTES")) in
      let asset = trim_right (trim_space (env (lit "ASSET_SERVICE_URL"))) b'/' in
      if not (is_empty value)
      then parse_routes value
      else if is_empty asset
      then rejected ConfigError.no_route_source
      else parse_routes (lit "assets=/api/v1/assets|" ++ (asset ++ lit "/v1"))

  abbrev or_default : Str → Str → Str
  or_default value default = if is_empty value then default else value

  pub load_config : Env → Checked Config
  load_config env = do
    url ← require (lit "SUPABASE_URL") (trim_space (env (lit "SUPABASE_URL")))
    anon ← require (lit "SUPABASE_ANON_KEY") (trim_space (env (lit "SUPABASE_ANON_KEY")))
    token ← require (lit "INTERNAL_TOKEN") (trim_space (env (lit "INTERNAL_TOKEN")))
    routes ← load_routes env
    timeout ← duration_from_seconds_env env (lit "REQUEST_TIMEOUT_SECONDS") 15
    max_body ← positive_env env (lit "MAX_BODY_BYTES") default_max_body_bytes
    max_audit ← positive_env env (lit "AUDIT_MAX_BODY_BYTES") default_audit_max_body_bytes
    write_timeout ← duration_from_seconds_env env (lit "AUDIT_WRITE_TIMEOUT_SECONDS") 3
    admins ← uuid_set_from_env env (lit "AUDIT_LOG_ADMIN_USER_IDS")
    accepted (record {
      addr = lit ":" ++ or_default (trim_space (env (lit "PORT"))) (lit "8080");
      supabase_url = url;
      supabase_anon_key = anon;
      internal_token = token;
      auth_cookie_name =
          or_default (trim_space (env (lit "SUPABASE_AUTH_COOKIE_NAME")))
            (infer_supabase_cookie_name url);
      routes = routes;
      request_timeout = timeout;
      max_body_bytes = max_body;
      audit_database_url = trim_space (env (lit "AUDIT_DATABASE_URL"));
      audit_max_body_bytes = max_audit;
      audit_write_timeout = write_timeout;
      audit_log_admin_user_ids = admins;
    })
