-- ===== src/Samples.antt =====
-- A configuration with the defaults of config/environment.ts, but for small dashboard limits. The
-- tests and the applications of the theorems use it.
use task_queue_system.Prelude.{Text, txt, List, [], ◌∷◌, true, false}
use task_queue_system.Prelude.{ltb, get_or}
use task_queue_system.RateLimit.{Limiter}
use task_queue_system.Config.{Config, production}
use task_queue_system.Prelude.{ℕ, suc, some, none, ◌≡◌, refl, subst}
use task_queue_system.Queue.{Queue, ReturnsJob, Job, default_attempts}
use task_queue_system.Failure.{Result, ok, throws}
use task_queue_system.Json.{Json}

abbrev pub queue_names : List Text
queue_names = txt "task-processing-queue" ∷ txt "dlq-task-queue" ∷ []

abbrev pub sample_config : Config
sample_config = record {
  node_env = production;
  port = 3000;
  log_level = txt "info";
  redis_url = [];
  redis_host = txt "localhost";
  redis_port = 6379;
  redis_password = [];
  worker_concurrency = 5;
  rate_limit_max = 100;
  rate_limit_duration_ms = 60000;
  http_rate_limit_window_ms = 60000;
  http_rate_limit_max_per_ip = 20;
  http_rate_limit_max_global = 200;
  max_queue_depth = 1000;
  queue_depth_cache_ttl_ms = 5000;
  dashboard_snapshot_ttl_ms = 900000;
  dashboard_poll_interval_seconds = 10;
  dashboard_max_cache_entries = 2;
  dashboard_max_refreshes_per_window = 2;
  dashboard_refresh_window_ms = 60000;
  dashboard_rate_limit_max_per_ip = 120;
  webhook_timeout_ms = 5000;
  bullboard_user = txt "admin";
  bullboard_password = txt "s3cret";
  cors_allowed_origins = txt "https://slakedesign.com" ∷ [];
  admin_auth_configured = true;
  is_explicit_development = false;
}

-- A queue that is always there: its state counts the jobs that wait.
abbrev pub job_of : (name job_id : Text) → Json → Job
job_of name job_id payload = record {
  id = some job_id;
  name = name;
  payload = payload;
  attempts_made = 0;
  attempts = some default_attempts;
  stacktrace = none;
}

abbrev pub sample_queue : Queue
sample_queue = record {
  State = ℕ;
  get_job_counts = λ n. (ok (record { waiting = some n; active = none; delayed = some 0 }), n);
  get_state_counts =
      λ n. (ok (record { active = 0; completed = 2; failed = 0; delayed = 0; waiting = n }), n);
  add = λ name job_id payload n. (ok (job_of name job_id payload), suc n);
}

pub sample_queue-ReturnsJob : ReturnsJob sample_queue
sample_queue-ReturnsJob = record {
  added = λ name job_id payload n job e.
      subst
        (λ (r : Result Job). elim r [
          | ok j ↦
              (j.name ≡ name)
              × (j.id ≡ some job_id)
              × (j.payload ≡ payload)
              × (j.attempts ≡ some default_attempts)
          | throws _ ↦ Unit
        ])
        e (refl, refl, refl, refl);
}

-- A limiter that counts the hits of all keys together.
abbrev pub sample_limiter : Limiter
sample_limiter = record {
  State = ℕ;
  hit = λ o key now n. ((ltb n o.limit, []), suc n);
  ip_key = λ ip. get_or ip [];
}
