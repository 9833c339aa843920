-- ===== src/Environment/Tests.antt =====
-- Loads of an environment, and the theorems about them at concrete inputs.
use task_queue_system.Prelude.{
  ℕ, ◌≤◌, ◌≡◌, ◌≢◌, refl, [], ◌∷◌, Text, txt, Option, none, some, Bool, true, ◌&&◌, leb, arith,
  if◌then◌else◌, text_eq, trim,
}
use task_queue_system.Prelude.Numeric.{to_natural}
use task_queue_system.Prelude.Dict.{Dict, lookup}
use task_queue_system.Json.{null}
use task_queue_system.Config.{Config, development}
use task_queue_system.Samples.{sample_config}
use task_queue_system.Http.{Request}
use task_queue_system.Failure.{ok, throws, plain}
use task_queue_system.Cors.{parse_origin_list, split_commas, strip_slash}
use task_queue_system.AdminAuth.{parse_basic_auth}
use task_queue_system.AdminAuth.Access.{lets_in, match_config}
use task_queue_system.Health.{metrics_guard}
use task_queue_system.Environment.{Coercion, AtMost, IsInRange, load}
use task_queue_system.Environment.Range.{IsValid, load-IsValid}
use task_queue_system.Environment.Guarded.{has_credentials, metrics_protected}

is_at_most : ℕ → Option ℕ → Bool
is_at_most n none = true
is_at_most n (some m) = leb n m

within : (least : ℕ) → (most : Option ℕ) → Option ℕ → Option ℕ
unfolding is_at_most
within least most none = none
within least most (some n) = if leb least n && is_at_most n most then some n else none

abbrev numbers : Coercion
numbers = record { number = λ least most t. within least most (to_natural t) }

within-range :
    (least : ℕ) (most : Option ℕ) (o : Option ℕ) (n : ℕ)
    → within least most o ≡ some n
    → (least ≤ n) × AtMost n most
unfolding within is_at_most
within-range least most none n e = cc
within-range least none (some k) n e = ground (arith, e)
within-range least (some m) (some k) n e = ground (arith, e)

numbers-IsInRange : IsInRange numbers
numbers-IsInRange = record {
  bounds = λ least most t n e. within-range least most (to_natural t) n e;
}

-- The host sets the port and the admin's credentials, but not NODE_ENV.
abbrev host : Dict Text
host =
    (txt "PORT", txt "8080")
    ∷ (txt "BULLBOARD_USER", txt "admin")
    ∷ (txt "BULLBOARD_PASSWORD", txt "s3cret")
    ∷ (txt "CORS_ALLOWED_ORIGINS", txt "*, https://a.io/")
    ∷ []

abbrev loaded_config : Config
loaded_config = record sample_config {
  port = 8080;
  dashboard_max_cache_entries = 64;
  dashboard_max_refreshes_per_window = 60;
  node_env = development;
  cors_allowed_origins = txt "https://a.io" ∷ [];
}

host_loads : load numbers host ≡ ok loaded_config
unfolding load lookup text_eq within is_at_most to_natural trim parse_origin_list split_commas
    strip_slash
host_loads = refl

-- Too many workers, and a port that is no number.
bad_host_throws :
    load numbers ((txt "WORKER_CONCURRENCY", txt "99") ∷ (txt "PORT", txt "$$") ∷ [])
    ≡ throws (
        plain (
          txt
            "Invalid environment configuration. Offending variables: PORT, WORKER_CONCURRENCY. Values are intentionally omitted from this message."))
unfolding load lookup text_eq within is_at_most to_natural trim
bad_host_throws = refl

load-IsValid_example : IsValid loaded_config
load-IsValid_example = load-IsValid numbers host loaded_config numbers-IsInRange host_loads

-- A request without credentials.
abbrev scrape : Request
scrape = record {
  method = txt "GET";
  path = txt "/metrics";
  ip = none;
  headers = [];
  query = [];
  body = null;
}

host_is_deployed : lookup (txt "NODE_ENV") host ≢ some (txt "development")
unfolding lookup text_eq
host_is_deployed = λ e. none_some e
  where
    none_some : Path (Option Text) none (some (txt "development")) → ⊥
    none_some p = cc

metrics_protected_example : lets_in (metrics_guard (λ t. t) (λ t. t) loaded_config scrape []) ≡ (
    has_credentials loaded_config
    && match_config
        (λ t. t)
        (λ t. t)
        loaded_config
        (parse_basic_auth (λ t. t) (λ t. t) (lookup (txt "authorization") [])))
metrics_protected_example =
    metrics_protected numbers host loaded_config (λ t. t) (λ t. t) scrape [] host_loads
      host_is_deployed
