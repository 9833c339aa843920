-- ===== src/Environment.antt =====
-- config/environment.ts: the schema of the environment and the configuration that is made of it.
-- `process.env` is an argument, after dotenv. The numbers that zod reads out of a text are a parameter.
pub mod Range
pub mod Guarded
pub mod Logs
mod Tests
use task_queue_system.Prelude.{
  ℕ, ◌≤◌, ◌≡◌, [], ◌∷◌, ◌++◌, Text, txt, List, Option, none, some, Bool, true, false, ◌&&◌, not,
  if◌then◌else◌, text_eq, is_empty, includes,
}
use task_queue_system.Prelude.Dict.{Dict, lookup}
use task_queue_system.Config.{Config, NodeEnv, development, production, test}
use task_queue_system.Failure.{Failure, Result, ok, throws, plain}
use task_queue_system.Cors.{parse_origin_list}

-- A variable's type, with what stands for one that is not set.
pub data Variable : Type 0 where
  one_of : (names : List Text) → (default_ : Text) → Variable
  whole : (least : ℕ) → (most : Option ℕ) → (default_ : ℕ) → Variable
  word : (default_ : Text) → Variable

pub data Value : Type 0 where
  chosen : Text → Value
  counted : ℕ → Value

-- `z.coerce.number().int()` with its bounds: the output for a text, or `none` for an issue.
pub record Coercion : Type 0 where
  pub number : (least : ℕ) → (most : Option ℕ) → Text → Option ℕ

abbrev pub AtMost : ℕ → Option ℕ → Type 0
AtMost n none = Unit
AtMost n (some m) = n ≤ m

-- What zod documents of `positive`, `nonnegative` and `max`.
pub record IsInRange (z : Coercion) : Type 0 where
  pub bounds :
      (least : ℕ) (most : Option ℕ) (t : Text) (n : ℕ)
      → z.number least most t ≡ some n
      → (least ≤ n) × AtMost n most

abbrev positive : ℕ → Variable
positive n = whole 1 none n

abbrev nonnegative : ℕ → Variable
nonnegative n = whole 0 none n

abbrev pub environment_schema : List (Text × Variable)
environment_schema =
    (
      txt "NODE_ENV",
      one_of (txt "development" ∷ txt "production" ∷ txt "test" ∷ []) (txt "development"),
    )
    ∷ (txt "PORT", positive 3000)
    ∷ (
      txt "LOG_LEVEL",
      one_of (txt "fatal" ∷ txt "error" ∷ txt "warn" ∷ txt "info" ∷ txt "debug" ∷ txt "trace" ∷ [])
          (txt "info"),
    )
    ∷ (txt "REDIS_URL", word [])
    ∷ (txt "REDIS_HOST", word (txt "localhost"))
    ∷ (txt "REDIS_PORT", positive 6379)
    ∷ (txt "REDIS_PASSWORD", word [])
    ∷ (txt "WORKER_CONCURRENCY", whole 1 (some 50) 5)
    ∷ (txt "WORKER_DRAIN_DELAY_SECONDS", positive 60)
    ∷ (txt "WORKER_STALLED_INTERVAL_MS", positive 300000)
    ∷ (txt "RATE_LIMIT_MAX", positive 100)
    ∷ (txt "RATE_LIMIT_DURATION_MS", positive 60000)
    ∷ (txt "HTTP_RATE_LIMIT_WINDOW_MS", positive 60000)
    ∷ (txt "HTTP_RATE_LIMIT_MAX_PER_IP", positive 20)
    ∷ (txt "HTTP_RATE_LIMIT_MAX_GLOBAL", positive 200)
    ∷ (txt "JSON_BODY_LIMIT", word (txt "16kb"))
    ∷ (txt "TRUST_PROXY_HOPS", nonnegative 1)
    ∷ (txt "MAX_QUEUE_DEPTH", positive 1000)
    ∷ (txt "QUEUE_DEPTH_CACHE_TTL_MS", nonnegative 5000)
    ∷ (txt "DASHBOARD_SNAPSHOT_TTL_MS", positive 900000)
    ∷ (txt "DASHBOARD_POLL_INTERVAL_SECONDS", positive 10)
    ∷ (txt "DASHBOARD_MAX_CACHE_ENTRIES", positive 64)
    ∷ (txt "DASHBOARD_MAX_REFRESHES_PER_WINDOW", positive 60)
    ∷ (txt "DASHBOARD_REFRESH_WINDOW_MS", positive 60000)
    ∷ (txt "DASHBOARD_RATE_LIMIT_MAX_PER_IP", positive 120)
    ∷ (txt "WEBHOOK_TIMEOUT_MS", positive 5000)
    ∷ (txt "BULLBOARD_USER", word [])
    ∷ (txt "BULLBOARD_PASSWORD", word [])
    ∷ (txt "CORS_ALLOWED_ORIGINS", word (txt "https://slakedesign.com,https://www.slakedesign.com"))
    ∷ (txt "SQLITE_DB_PATH", word (txt "./data/idempotency.db"))
    ∷ []

counted_or : Option ℕ → Option Value
counted_or none = none
counted_or (some n) = some (counted n)

-- The output of one variable; `none` is at least one issue.
pub value_of : Coercion → Variable → Option Text → Option Value
unfolding counted_or
value_of z (one_of names d) none = some (chosen d)
value_of z (one_of names d) (some t) = if includes names t then some (chosen t) else none
value_of z (whole least most d) none = some (counted d)
value_of z (whole least most d) (some t) = counted_or (z.number least most t)
value_of z (word d) none = some (chosen d)
value_of z (word d) (some t) = some (chosen t)

add_value : Text → Option Value → Option (Dict Value) → Option (Dict Value)
add_value name none rest = none
add_value name (some v) none = none
add_value name (some v) (some m) = some ((name, v) ∷ m)

-- `safeParse`: the output, if there is no issue.
pub safe_parse : Coercion → List (Text × Variable) → Dict Text → Option (Dict Value)
unfolding value_of add_value
safe_parse z [] env = some []
safe_parse z ((name, v) ∷ s) env =
    add_value name (value_of z v (lookup name env)) (safe_parse z s env)

add_key : Text → Option Value → List Text → List Text
add_key name none keys = name ∷ keys
add_key name (some v) keys = keys

-- `invalidKeys`
invalid_keys : Coercion → List (Text × Variable) → Dict Text → List Text
unfolding value_of add_key
invalid_keys z [] env = []
invalid_keys z ((name, v) ∷ s) env =
    add_key name (value_of z v (lookup name env)) (invalid_keys z s env)

-- `keys.join(', ')`
join : List Text → Text
join [] = []
join (k ∷ []) = k
join (k ∷ l ∷ keys) = k ++ (txt ", " ++ join (l ∷ keys))

invalid_environment : List Text → Failure
unfolding join
invalid_environment keys = plain (
    txt "Invalid environment configuration. Offending variables: "
    ++ (join keys ++ txt ". Values are intentionally omitted from this message."))

text_of : Option Value → Text
text_of none = []
text_of (some (chosen t)) = t
text_of (some (counted n)) = []

number_of : Option Value → ℕ
number_of none = 0
number_of (some (chosen t)) = 0
number_of (some (counted n)) = n

chosen_at : Text → Dict Value → Text
unfolding text_of
chosen_at name m = text_of (lookup name m)

counted_at : Text → Dict Value → ℕ
unfolding number_of
counted_at name m = number_of (lookup name m)

node_env_of : Text → NodeEnv
node_env_of t =
    if text_eq t (txt "production")
    then production
    else if text_eq t (txt "test")
    then test
    else development

-- It is the variable that is read, and not the output, which has a default.
pub is_explicit : Option Text → Bool
is_explicit none = false
is_explicit (some t) = text_eq t (txt "development")

pub config_of : Dict Value → Dict Text → Config
unfolding chosen_at counted_at node_env_of is_explicit
config_of base env = record {
  node_env = node_env_of (chosen_at (txt "NODE_ENV") base);
  port = counted_at (txt "PORT") base;
  log_level = chosen_at (txt "LOG_LEVEL") base;
  redis_url = chosen_at (txt "REDIS_URL") base;
  redis_host = chosen_at (txt "REDIS_HOST") base;
  redis_port = counted_at (txt "REDIS_PORT") base;
  redis_password = chosen_at (txt "REDIS_PASSWORD") base;
  worker_concurrency = counted_at (txt "WORKER_CONCURRENCY") base;
  rate_limit_max = counted_at (txt "RATE_LIMIT_MAX") base;
  rate_limit_duration_ms = counted_at (txt "RATE_LIMIT_DURATION_MS") base;
  http_rate_limit_window_ms = counted_at (txt "HTTP_RATE_LIMIT_WINDOW_MS") base;
  http_rate_limit_max_per_ip = counted_at (txt "HTTP_RATE_LIMIT_MAX_PER_IP") base;
  http_rate_limit_max_global = counted_at (txt "HTTP_RATE_LIMIT_MAX_GLOBAL") base;
  max_queue_depth = counted_at (txt "MAX_QUEUE_DEPTH") base;
  queue_depth_cache_ttl_ms = counted_at (txt "QUEUE_DEPTH_CACHE_TTL_MS") base;
  dashboard_snapshot_ttl_ms = counted_at (txt "DASHBOARD_SNAPSHOT_TTL_MS") base;
  dashboard_poll_interval_seconds = counted_at (txt "DASHBOARD_POLL_INTERVAL_SECONDS") base;
  dashboard_max_cache_entries = counted_at (txt "DASHBOARD_MAX_CACHE_ENTRIES") base;
  dashboard_max_refreshes_per_window = counted_at (txt "DASHBOARD_MAX_REFRESHES_PER_WINDOW") base;
  dashboard_refresh_window_ms = counted_at (txt "DASHBOARD_REFRESH_WINDOW_MS") base;
  dashboard_rate_limit_max_per_ip = counted_at (txt "DASHBOARD_RATE_LIMIT_MAX_PER_IP") base;
  webhook_timeout_ms = counted_at (txt "WEBHOOK_TIMEOUT_MS") base;
  bullboard_user = chosen_at (txt "BULLBOARD_USER") base;
  bullboard_password = chosen_at (txt "BULLBOARD_PASSWORD") base;
  cors_allowed_origins = parse_origin_list (chosen_at (txt "CORS_ALLOWED_ORIGINS") base);
  admin_auth_configured =
      not (is_empty (chosen_at (txt "BULLBOARD_USER") base))
      && not (is_empty (chosen_at (txt "BULLBOARD_PASSWORD") base));
  is_explicit_development = is_explicit (lookup (txt "NODE_ENV") env);
}

-- The module as it is imported.
unfoldable pub load : Coercion → Dict Text → Result Config
unfolding safe_parse invalid_environment config_of invalid_keys
load z env = elim (safe_parse z environment_schema env) [
  | none ↦ throws (invalid_environment (invalid_keys z environment_schema env))
  | some base ↦ ok (config_of base env)
]
