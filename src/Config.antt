-- ===== src/Config.antt =====
-- config/environment.ts: the validated configuration.
use task_queue_system.Prelude.{ℕ, Text, List, Bool}

pub data NodeEnv : Type 0 where
  development production test : NodeEnv

-- `Environment`: the schema's fields, and the three that the module derives. Only what the modelled
-- code reads is listed; JSON_BODY_LIMIT and the worker's tuning go to libraries as they are.
pub record Config : Type 0 where
  pub node_env : NodeEnv
  pub port : ℕ
  pub log_level : Text
  pub redis_url : Text
  pub redis_host : Text
  pub redis_port : ℕ
  pub redis_password : Text
  pub worker_concurrency : ℕ
  pub rate_limit_max : ℕ
  pub rate_limit_duration_ms : ℕ
  pub http_rate_limit_window_ms : ℕ
  pub http_rate_limit_max_per_ip : ℕ
  pub http_rate_limit_max_global : ℕ
  pub max_queue_depth : ℕ
  pub queue_depth_cache_ttl_ms : ℕ
  pub dashboard_snapshot_ttl_ms : ℕ
  pub dashboard_poll_interval_seconds : ℕ
  pub dashboard_max_cache_entries : ℕ
  pub dashboard_max_refreshes_per_window : ℕ
  pub dashboard_refresh_window_ms : ℕ
  pub dashboard_rate_limit_max_per_ip : ℕ
  pub webhook_timeout_ms : ℕ
  pub bullboard_user : Text
  pub bullboard_password : Text
  pub cors_allowed_origins : List Text
  pub admin_auth_configured : Bool
  pub is_explicit_development : Bool
