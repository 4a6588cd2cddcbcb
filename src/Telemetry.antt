-- ===== src/Telemetry.antt =====
-- internal/telemetry/telemetry.go: when traces are exported and how they are sampled, the trace id of a
-- request, and the attributes of a log record.
use gateway_service.Prelude.{
  ℕ, ◌*◌, ◌^◌, Bool, true, false, not, ◌&&◌, ◌||◌, Option, none, some, List, [], ◌∷◌, ◌++◌, map,
  leb, ltb, all, ◌==◌, if◌then◌else◌, is_empty,
}
use gateway_service.Text.{Str, lit, eqb, lower, trim_space}
use gateway_service.Http.{Request}
use gateway_service.World.{Exec}
use gateway_service.Config.{Env}
use gateway_service.Handler.{is_probe_path}

-- strconv.ParseBool
unfoldable pub parse_bool : Str → Option Bool
parse_bool s =
    if eqb s (lit "1")
      || eqb s (lit "t")
      || eqb s (lit "T")
      || eqb s (lit "true")
      || eqb s (lit "TRUE")
      || eqb s (lit "True")
    then some true
    else if eqb s (lit "0")
        || eqb s (lit "f")
        || eqb s (lit "F")
        || eqb s (lit "false")
        || eqb s (lit "FALSE")
        || eqb s (lit "False")
    then some false
    else none

abbrev is_true : Option Bool → Bool
is_true none = false
is_true (some b) = b

unfoldable pub telemetry_disabled : Env → Bool
unfolding parse_bool
telemetry_disabled env =
    is_true (parse_bool (trim_space (env (lit "OTEL_SDK_DISABLED"))))
    || is_empty (trim_space (env (lit "OTEL_EXPORTER_OTLP_ENDPOINT")))
      && is_empty (trim_space (env (lit "OTEL_EXPORTER_OTLP_TRACES_ENDPOINT")))

-- The bits of 1.0 as a float64. The floats from 0 to 1 are those whose bits are at most these, and the
-- negative zero.
abbrev pub one_bits : ℕ
one_bits = 1023 * 2 ^ 52

unfoldable pub is_ratio : ℕ → Bool
is_ratio bits = leb bits one_bits || bits == 2 ^ 63

-- The samplers of the SDK; a ratio is the bits of a float64.
pub data Sampler : Type 0 where
  never_sample always_sample : Sampler
  trace_id_ratio_based parent_based_ratio : ℕ → Sampler

-- strings.ToLower: over ASCII it maps bytes, for other texts `unicode_lower` is Unicode's map.
to_lower : (Str → Str) → Str → Str
to_lower unicode_lower s = if all (λ c. ltb c 0x80) s then map lower s else unicode_lower s

-- `parse_float` is strconv.ParseFloat into the bits of a float64.
module _ (unicode_lower : Str → Str) (parse_float : Str → Option ℕ) where
  ratio_parsed : Option ℕ → ℕ
  unfolding is_ratio
  ratio_parsed none = one_bits
  ratio_parsed (some bits) = if is_ratio bits then bits else one_bits

  sampling_ratio : Env → ℕ
  unfolding ratio_parsed
  sampling_ratio env =
      let raw = trim_space (env (lit "OTEL_TRACES_SAMPLER_ARG")) in
      if is_empty raw then one_bits else ratio_parsed (parse_float raw)

  pub configured_sampler : Env → Sampler
  unfolding sampling_ratio to_lower
  configured_sampler env =
      let name = to_lower unicode_lower (trim_space (env (lit "OTEL_TRACES_SAMPLER"))) in
      let ratio = sampling_ratio env in
      if eqb name (lit "always_off")
      then never_sample
      else if eqb name (lit "always_on")
      then always_sample
      else if eqb name (lit "traceidratio")
      then trace_id_ratio_based ratio
      else parent_based_ratio ratio

  unfoldable pub service_name : Env → Str → Str
  service_name env default =
      let name = trim_space (env (lit "OTEL_SERVICE_NAME")) in
      if is_empty name then default else name

-- What Setup leaves: no traces, or traces of a service with a sampler.
pub data Tracing : Type 0 where
  untraced : Tracing
  traced : Str → Sampler → Tracing

-- Packages that Setup calls: whether a resource for a service and an exporter can be created.
pub record Exporting : Type 0 where
  pub unicode_lower : Str → Str
  pub parse_float : Str → Option ℕ
  pub resource : Str → Bool
  pub exporter : Bool

unfoldable pub setup : Exporting → Env → Str → Option Tracing
unfolding telemetry_disabled configured_sampler service_name
setup x env default =
    let name = service_name x.unicode_lower x.parse_float env default in
    if telemetry_disabled env
    then some untraced
    else if not (x.resource name && x.exporter)
    then none
    else some (traced name (configured_sampler x.unicode_lower x.parse_float env))

-- trace.TraceID{1} in hexadecimal digits
abbrev pub probe_trace_id : Str
probe_trace_id = lit "01000000000000000000000000000000"

-- HTTPHandler; `instrumented` is the trace id that otelhttp gives a request, if it is valid.
pub http_handler : {A : Type 0} → (Request → Option Str) → (Request → Exec A) → Request → Exec A
unfolding is_probe_path
http_handler instrumented next r =
    if is_probe_path r.url.path
    then next (record r { trace_id = some probe_trace_id })
    else next (record r { trace_id = instrumented r })

-- A span's context.
pub record SpanContext : Type 0 where
  pub trace_id : Str
  pub span_id : Str
  pub valid : Bool
  pub sampled : Bool

-- The attributes that Handle hands on.
pub handle_record : SpanContext → List (Str × Str) → List (Str × Str)
handle_record span attributes =
    if span.valid && span.sampled
    then attributes ++ (lit "trace_id", span.trace_id) ∷ (lit "span_id", span.span_id) ∷ []
    else attributes
