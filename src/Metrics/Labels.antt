-- ===== src/Metrics/Labels.antt =====
-- The labels of the reports. prom-client throws at a report whose labels are not those of its metric.
use mathlib.Core.List.{map}
use task_queue_system.Prelude.{◌≡◌, refl}
use task_queue_system.Metrics.{
  Report, jobs_processed_total, jobs_failed_total, processing_duration, queue_depth,
  dashboard_snapshot_total, labels_of, metric_of,
}

-- Every report names the labels of its metric, in their order.
labels_of-label_names : (r : Report) → map (λ l. l.0) (labels_of r) ≡ (metric_of r).label_names
unfolding labels_of metric_of
labels_of-label_names (jobs_processed_total job_type status) = refl
labels_of-label_names (jobs_failed_total job_type error_type) = refl
labels_of-label_names (processing_duration job_type milliseconds) = refl
labels_of-label_names (queue_depth queue_name state n) = refl
labels_of-label_names (dashboard_snapshot_total source) = refl
