-- ===== src/Config/Loading.antt =====
-- What a configuration that LoadConfig accepts guarantees, and the range of its durations.
use gateway_service.Prelude.{
  ℕ, ◌-◌, ◌*◌, ◌%◌, ◌^◌, ◌≤◌, ◌<◌, ◌≡◌, refl, true, false, Option, none, some, arith, zero, suc,
  negate, Bool-cases, inl, inr, is_empty, ℤ, pos, negsuc, lt_ℕ, ltb,
}
use gateway_service.Text.{Str, lit, trim_space, trim_right, parse_int}
use gateway_service.Text.Trimming.{trim_space_again}
use gateway_service.Config.{
  Parsers, Config, Env, require, positive_parsed, positive_env, duration_of_seconds, wrap,
  duration_from_seconds_env, load_routes, load_config, uuid_set_from_env,
}
use gateway_service.Config.Routes.{
  Ensures, bind-Ensures, any-Ensures, AreRoutes, parse_routes-AreRoutes,
}

-- A text that is not empty and has no white space around it.
abbrev pub IsFilled : Str → Type 0
IsFilled s = (is_empty s ≡ false) × (trim_space s ≡ s)

require-Ensures : (name value : Str) → Ensures IsFilled (require name (trim_space value))
unfolding require
require-Ensures name value = elim (Bool-cases (is_empty (trim_space value))) [
  | inl blank ↦ rw blank tt
  | inr filled ↦ rw filled (filled, trim_space_again value)
]

positive_parsed-Ensures :
    (name : Str) (o : Option ℤ) → Ensures (λ n. 1 ≤ n) (positive_parsed name o)
unfolding positive_parsed
positive_parsed-Ensures name none = tt
positive_parsed-Ensures name (some (pos n)) = elim (Bool-cases (lt_ℕ (pos n) 1)) [
  | inl small ↦ rw small tt
  | inr large ↦ rw large (ground arith)
]
positive_parsed-Ensures name (some (negsuc n)) = tt

positive_env-Ensures :
    (env : Env) (name : Str) (default : ℕ)
    → 1 ≤ default
    → Ensures (λ n. 1 ≤ n) (positive_env env name default)
unfolding positive_env
positive_env-Ensures env name default h = elim (Bool-cases (is_empty (trim_space (env name)))) [
  | inl blank ↦ rw blank h
  | inr filled ↦ rw filled (positive_parsed-Ensures name (parse_int (trim_space (env name))))
]

mod_wide : (n : ℕ) → n < 2 ^ 64 → n % 2 ^ 64 ≡ n
mod_wide n h = omega arith

wrap_small : (n : ℕ) → n < 2 ^ 63 → wrap n ≡ pos n
unfolding wrap
wrap_small n h = rw (mod_wide n (omega arith)) (ground arith)

negative_negate : (n : ℕ) → 0 < n → lt_ℕ (negate n) 0 ≡ true
negative_negate zero h = absurd (omega arith)
negative_negate (suc n) h = refl

ltb-false : (n m : ℕ) → m ≤ n → ltb n m ≡ false
ltb-false n m h = ground arith

wrap_large : (n : ℕ) → 2 ^ 63 ≤ n → n < 2 ^ 64 → lt_ℕ (wrap n) 0 ≡ true
unfolding wrap
wrap_large n h k =
    rw (mod_wide n (omega arith), ltb-false n (2 ^ 63) h)
      (negative_negate (2 ^ 64 - n) (omega arith))

-- A number of seconds up to 9223372036 is the duration that it names; a larger one up to 18446744073
-- is a negative duration.
pub duration_of_seconds_bounds :
    (seconds : ℕ)
    → (seconds ≤ 9223372036 → duration_of_seconds seconds ≡ pos (seconds * 1000000000))
      × (9223372037 ≤ seconds → seconds ≤ 18446744073 → lt_ℕ (duration_of_seconds seconds) 0 ≡ true)
unfolding duration_of_seconds
duration_of_seconds_bounds seconds = (
  λ h. wrap_small (seconds * 1000000000) (omega arith),
  λ h k. wrap_large (seconds * 1000000000) (omega arith) (omega arith),
)

-- What LoadConfig promises.
pub record IsUsable (c : Config) : Type 0 where
  pub has_url : IsFilled c.supabase_url
  pub has_anon_key : IsFilled c.supabase_anon_key
  pub has_token : IsFilled c.internal_token
  pub has_routes : AreRoutes (c.routes)
  pub reads_bodies : 1 ≤ c.max_body_bytes
  pub keeps_bodies : 1 ≤ c.audit_max_body_bytes

load_routes-AreRoutes : (q : Parsers) (env : Env) → Ensures AreRoutes (load_routes q env)
unfolding load_routes
load_routes-AreRoutes q env =
    elim (Bool-cases (is_empty (trim_space (env (lit "UPSTREAM_ROUTES"))))) [
      | inl blank ↦
          elim (Bool-cases
            (is_empty (trim_right (trim_space (env (lit "ASSET_SERVICE_URL"))) b'/'))) [
              | inl missing ↦ rw (blank, missing) tt
              | inr present ↦ rw (blank, present) (parse_routes-AreRoutes q _)
            ]
      | inr filled ↦ rw filled (parse_routes-AreRoutes q _)
    ]

-- A configuration that LoadConfig accepts has a Supabase URL, its key and an internal token, none of
-- them empty or with white space around it, at least one route, only routes that validateRoute accepts, and positive limits for bodies.
pub load_config-IsUsable : (q : Parsers) (env : Env) → Ensures IsUsable (load_config q env)
unfolding load_config duration_from_seconds_env
load_config-IsUsable q env =
    bind-Ensures IsFilled IsUsable (require (lit "SUPABASE_URL") _) _ (require-Ensures _ _)
      λ url has_url.
        bind-Ensures IsFilled IsUsable (require (lit "SUPABASE_ANON_KEY") _) _ (require-Ensures _ _)
          λ anon has_anon.
            bind-Ensures IsFilled IsUsable (require (lit "INTERNAL_TOKEN") _) _
              (require-Ensures _ _)
              λ token has_token.
                bind-Ensures AreRoutes IsUsable (load_routes q env) _ (load_routes-AreRoutes q env)
                  λ routes has_routes.
                    bind-Ensures (λ _. Unit {0}) IsUsable
                      (duration_from_seconds_env env (lit "REQUEST_TIMEOUT_SECONDS") 15) _
                      (any-Ensures _)
                      λ timeout _.
                        bind-Ensures _ IsUsable (positive_env env (lit "MAX_BODY_BYTES") _) _
                          (positive_env-Ensures env _ _ (omega arith))
                          λ max_body reads.
                            bind-Ensures _ IsUsable
                              (positive_env env (lit "AUDIT_MAX_BODY_BYTES") _) _
                              (positive_env-Ensures env _ _ (omega arith))
                              λ max_audit keeps.
                                bind-Ensures (λ _. Unit {0}) IsUsable
                                  (duration_from_seconds_env env (lit "AUDIT_WRITE_TIMEOUT_SECONDS")
                                    3)
                                  _ (any-Ensures _)
                                  λ write_timeout _.
                                    bind-Ensures (λ _. Unit {0}) IsUsable
                                      (uuid_set_from_env q env (lit "AUDIT_LOG_ADMIN_USER_IDS")) _
                                      (any-Ensures _)
                                      λ admins _. record {
                                        has_url = has_url;
                                        has_anon_key = has_anon;
                                        has_token = has_token;
                                        has_routes = has_routes;
                                        reads_bodies = reads;
                                        keeps_bodies = keeps;
                                      }
