-- ===== src/Health.antt =====
-- app.ts: the health check, the metrics route and the service index. The states of the Redis client and
-- of SQLite and the text of the metrics registry are arguments. A `text` as
-- a body is sent as it stands.
pub mod Trace
use task_queue_system.Prelude.{
  ℕ, [], ◌∷◌, Text, txt, List, Option, none, some, Bool, true, false, ◌&&◌, if◌then◌else◌, text_eq,
}
use task_queue_system.Prelude.Dict.{insert}
use task_queue_system.Config.{Config}
use task_queue_system.Json.{Json, text, object}
use task_queue_system.Http.{Request, Headers, Response, Outcome, proceed, respond}
use task_queue_system.Failure.{Failure, Result, ok, throws}
use task_queue_system.Metrics.{Report, queue_depth}
use task_queue_system.Dashboard.Cache.{Board}
use task_queue_system.Queue.{Queue, StateCounts, task_queue_name}
use task_queue_system.AdminAuth.{require_admin_auth}

-- What the health check sees of Redis: a ready client, which is not asked; the answer to PING in
-- time; or an exception, of which a timeout is one.
pub data RedisProbe : Type 0 where
  ready failed : RedisProbe
  answered : Text → RedisProbe

is_up : RedisProbe → Bool
is_up ready = true
is_up (answered t) = text_eq t (txt "PONG")
is_up failed = false

is_readable : Option Failure → Bool
is_readable none = true
is_readable (some e) = false

abbrev up_or_down : Bool → Json
up_or_down up = text (if up then txt "UP" else txt "DOWN")

unfoldable pub health : RedisProbe → Option Failure → (timestamp : Text) → Headers → Response
unfolding is_up is_readable
health redis sqlite_fault timestamp headers =
    let healthy = is_up redis && is_readable sqlite_fault in
    record {
      status = if healthy then 200 else 503;
      headers = headers;
      body = some (
          object (
            (txt "status", text (if healthy then txt "HEALTHY" else txt "DEGRADED"))
            ∷ (txt "timestamp", text timestamp)
            ∷ (
              txt "services",
              object (
                  (txt "redis", up_or_down (is_up redis))
                  ∷ (txt "sqlite", up_or_down (is_readable sqlite_fault))
                  ∷ (txt "worker", text (txt "UP"))
                  ∷ []),
            )
            ∷ []));
    }

set_gauges : StateCounts → Board → Board
set_gauges n b = record b {
  reports =
      queue_depth task_queue_name (txt "waiting") n.waiting
      ∷ queue_depth task_queue_name (txt "delayed") n.delayed
      ∷ queue_depth task_queue_name (txt "failed") n.failed
      ∷ queue_depth task_queue_name (txt "completed") n.completed
      ∷ queue_depth task_queue_name (txt "active") n.active
      ∷ b.reports;
}

metrics_error : Headers → Response
metrics_error headers = record {
  status = 500;
  headers = headers;
  body = some (text (txt "Metrics generation error"));
}

metrics_text : (content_type : Text) → Result Text → Headers → Response
unfolding metrics_error
metrics_text content_type (throws e) headers =
    metrics_error (insert (txt "content-type") content_type headers)
metrics_text content_type (ok t) headers = record {
  status = 200;
  headers = insert (txt "content-type") content_type headers;
  body = some (text t);
}

-- The route from the answer of `getJobCounts` on.
unfoldable pub after_counts :
    Result StateCounts → (content_type : Text) → Result Text → Headers → Board → Response × Board
unfolding metrics_error metrics_text set_gauges
after_counts (throws e) content_type registry headers b = (metrics_error headers, b)
after_counts (ok n) content_type registry headers b =
    (metrics_text content_type registry headers, set_gauges n b)

-- The route behind its guard: it asks the task queue for its counts.
unfoldable pub metrics :
    (q : Queue)
    → (content_type : Text) → Result Text
    → Headers
    → Board × q.State
    → Response × (Board × q.State)
metrics q content_type registry headers (b, queue) =
    let (counts, queue') = q.get_state_counts queue in
    let (r, b') = after_counts counts content_type registry headers b in (r, (b', queue'))

-- `metricsGuards`
unfoldable pub metrics_guard : (decode sha256 : Text → Text) → Config → Request → Headers → Outcome
metrics_guard decode sha256 c req headers =
    if c.is_explicit_development
    then proceed req headers
    else require_admin_auth decode sha256 c req headers

unfoldable pub service_index : Headers → Response
service_index headers = record {
  status = 200;
  headers = headers;
  body = some (
      object (
        (txt "service", text (txt "Slake Design Task Queue Microservice"))
        ∷ (txt "status", text (txt "ONLINE"))
        ∷ (txt "version", text (txt "1.0.0"))
        ∷ (
          txt "endpoints",
          object (
              (txt "health", text (txt "/health"))
              ∷ (txt "queueDashboard", text (txt "/admin/queues"))
              ∷ (txt "dispatchEmailJob", text (txt "POST /api/jobs/email"))
              ∷ (txt "dispatchWebhookJob", text (txt "POST /api/jobs/webhook"))
              ∷ []),
        )
        ∷ []));
}
