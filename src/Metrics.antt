-- ===== src/Metrics.antt =====
-- metrics/metrics.service.ts: what the program reports to the metrics client, call by call. The
-- client's registry is a library; a counter's value is the number of its reports.
mod Labels
use task_queue_system.Prelude.Dict.{Dict}
use task_queue_system.Prelude.{txt, ℕ, suc, Text, List, [], ◌∷◌, Bool, false, true, if◌then◌else◌}

-- `source` of `task_queue_dashboard_snapshot_total`.
pub data Source : Type 0 where
  cache redis stale shed : Source

pub data Report : Type 0 where
  jobs_processed_total : (job_type status : Text) → Report
  jobs_failed_total : (job_type error_type : Text) → Report
  processing_duration : (job_type : Text) → (milliseconds : ℕ) → Report
  queue_depth : (queue_name state : Text) → ℕ → Report
  dashboard_snapshot_total : Source → Report

pub data MetricKind : Type 0 where
  counter gauge histogram : MetricKind

-- How a metric is registered; a bound of a histogram is in milliseconds.
pub record Metric : Type 0 where
  pub kind : MetricKind
  pub name : Text
  pub label_names : List Text
  pub buckets : List ℕ

-- The metric that a report is made to.
unfoldable pub metric_of : Report → Metric
metric_of (jobs_processed_total job_type status) = record {
  kind = counter;
  name = txt "task_queue_jobs_processed_total";
  label_names = txt "job_type" ∷ txt "status" ∷ [];
  buckets = [];
}
metric_of (jobs_failed_total job_type error_type) = record {
  kind = counter;
  name = txt "task_queue_jobs_failed_total";
  label_names = txt "job_type" ∷ txt "error_type" ∷ [];
  buckets = [];
}
metric_of (processing_duration job_type milliseconds) = record {
  kind = histogram;
  name = txt "task_queue_processing_duration_seconds";
  label_names = txt "job_type" ∷ [];
  buckets = 50 ∷ 100 ∷ 250 ∷ 500 ∷ 1000 ∷ 2500 ∷ 5000 ∷ 10000 ∷ 30000 ∷ [];
}
metric_of (queue_depth queue_name state n) = record {
  kind = gauge;
  name = txt "task_queue_depth_jobs";
  label_names = txt "queue_name" ∷ txt "state" ∷ [];
  buckets = [];
}
metric_of (dashboard_snapshot_total source) = record {
  kind = counter;
  name = txt "task_queue_dashboard_snapshot_total";
  label_names = txt "source" ∷ [];
  buckets = [];
}

source_text : Source → Text
source_text cache = txt "cache"
source_text redis = txt "redis"
source_text stale = txt "stale"
source_text shed = txt "shed"

-- The labels that a report is made with.
unfoldable pub labels_of : Report → Dict Text
unfolding source_text
labels_of (jobs_processed_total job_type status) =
    (txt "job_type", job_type) ∷ (txt "status", status) ∷ []
labels_of (jobs_failed_total job_type error_type) =
    (txt "job_type", job_type) ∷ (txt "error_type", error_type) ∷ []
labels_of (processing_duration job_type milliseconds) = (txt "job_type", job_type) ∷ []
labels_of (queue_depth queue_name state n) =
    (txt "queue_name", queue_name) ∷ (txt "state", state) ∷ []
labels_of (dashboard_snapshot_total source) = (txt "source", source_text source) ∷ []

-- The value of a counter: how many reports it counts.
unfoldable pub count : (Report → Bool) → List Report → ℕ
count p [] = 0
count p (r ∷ rs) = if p r then suc (count p rs) else count p rs

abbrev pub is_source : Source → Report → Bool
is_source cache (dashboard_snapshot_total cache) = true
is_source redis (dashboard_snapshot_total redis) = true
is_source stale (dashboard_snapshot_total stale) = true
is_source shed (dashboard_snapshot_total shed) = true
is_source _ _ = false

-- A report of a failed attempt.
abbrev pub is_failed_attempt : Report → Bool
is_failed_attempt (jobs_failed_total _ _) = true
is_failed_attempt _ = false
