-- ===== src/Worker.antt =====
-- workers/task.worker.ts, processors/registry.ts and `sendToDLQ` of queue/dlq.ts: what the worker
-- runs for a job, and what its `completed` and `failed` handlers do. The state that they share is
-- the dashboard's board with the reports to the metrics client, the idempotency rows, and the dead
-- letter queue. Faults of SQLite and readings of the clock are arguments.
pub mod Failures
pub mod Life
mod Tests
use task_queue_system.Prelude.{
  ℕ, ◌∷◌, ◌++◌, [], Text, txt, List, Option, none, some, Bool, true, false, leb, if◌then◌else◌,
  text_eq, decimal, includes, get_or, zero, suc,
}
use task_queue_system.Prelude.Dict.{Dict, lookup}
use task_queue_system.Config.{Config}
use task_queue_system.Json.{
  payload_field, optional_field, optional_text, Json, Items, null, text, array, object, natural,
  fields, entries,
}
use task_queue_system.Failure.{Failure, Result, ok, throws, plain, message_of, name_of}
use task_queue_system.Metrics.{Report, jobs_processed_total, jobs_failed_total, processing_duration}
use task_queue_system.Dashboard.Cache.{Board, invalidate_dashboard_snapshot}
use task_queue_system.Schema.{email_notification, webhook_delivery, JobExecutionResult}
use task_queue_system.Schema.Zod.{Zod}
use task_queue_system.Storage.{Row, record_failure}
use task_queue_system.Queue.{Job, Queue}
use task_queue_system.Processors.{JsonText, Readings, Store, process_email_job, process_webhook_job}

-- What `processorRegistry[jobName]` gives. The registry is an object literal, so a name of
-- Object.prototype is found there too.
pub data Processor : Type 0 where
  email_processor webhook_processor : Processor
  inherited : Text → Processor

abbrev prototype_names : List Text
prototype_names =
    txt "constructor"
    ∷ txt "hasOwnProperty"
    ∷ txt "isPrototypeOf"
    ∷ txt "propertyIsEnumerable"
    ∷ txt "toLocaleString"
    ∷ txt "toString"
    ∷ txt "valueOf"
    ∷ txt "__proto__"
    ∷ txt "__defineGetter__"
    ∷ txt "__defineSetter__"
    ∷ txt "__lookupGetter__"
    ∷ txt "__lookupSetter__"
    ∷ []

unfoldable pub get_processor_for_job : Text → Result Processor
get_processor_for_job job_name =
    if text_eq job_name email_notification
    then ok email_processor
    else if text_eq job_name webhook_delivery
    then ok webhook_processor
    else if includes prototype_names job_name
    then ok (inherited job_name)
    else throws (plain (txt "No processor registered for job type: " ++ job_name))

-- `${job.id}`
id_text : Option Text → Text
id_text id = get_or id (txt "undefined")

-- The ID that a job's run is traced under: the producer's stamp, or else the job's own ID.
unfoldable pub correlation_id_of : Job → Text
unfolding id_text
correlation_id_of job = elim (payload_field (txt "correlationId") job.payload) [
  | some (text t) ↦ t
  | _ ↦ txt "job-" ++ id_text job.id
]

module _ (jt : JsonText) (r : Readings) (z : Zod) (c : Config)
    (call : Text → Job → Result JobExecutionResult) where
  run_processor : Result Processor → Job → Store → Result JobExecutionResult × Store
  run_processor (throws e) job s = (throws e, s)
  run_processor (ok email_processor) job s = process_email_job jt r z job s
  run_processor (ok webhook_processor) job s = process_webhook_job jt r z c job s
  run_processor (ok (inherited name)) job s = (call name job, s)

  -- The function that the worker runs for a job; `call` is a call of a member of Object.prototype.
  unfoldable pub run_job : Job → Store → Result JobExecutionResult × Store
  unfolding run_processor
  run_job job s = run_processor (get_processor_for_job job.name) job s

add_report : Report → Board → Board
add_report r b = record b { reports = r ∷ b.reports }

-- The `completed` handler.
unfoldable pub on_completed : Job → JobExecutionResult → Board → Board
unfolding add_report
on_completed job result b =
    add_report (processing_duration job.name result.duration_ms)
      (add_report (jobs_processed_total job.name (txt "success")) (invalidate_dashboard_snapshot b))

-- `a || b` for texts.
or_else : Text → Text → Text
or_else [] b = b
or_else (c ∷ s) b = c ∷ s

-- `job?.opts?.attempts || 3`
unfoldable pub max_attempts : Job → ℕ
max_attempts job = elim job.attempts [ none ↦ 3 | some zero ↦ 3 | some (suc n) ↦ suc n ]

-- `job.data?.idempotencyKey`, a text in a payload from the producer; an empty one is falsy.
unfoldable pub failed_key : Json → Option Text
failed_key payload = elim (payload_field (txt "idempotencyKey") payload) [
  | some (text (c ∷ s)) ↦ some (c ∷ s)
  | _ ↦ none
]

text_items : List Text → Items
text_items [] = Items.nil
text_items (t ∷ ts) = Items.cons (text t) (text_items ts)

optional_items : Option (List Text) → Option Json
unfolding text_items
optional_items none = none
optional_items (some ts) = some (array (text_items ts))

-- `DLQPayload`; an undefined field is not there.
unfoldable pub dlq_payload : Job → Failure → Text → Json
unfolding optional_items or_else
dlq_payload job e failed_at = object (
    optional_field (txt "originalJobId") (optional_text job.id)
    ++ ((txt "jobName", text job.name)
        ∷ (txt "data", job.payload)
        ∷ (txt "failedReason", text (or_else (message_of e) (txt "Unknown error")))
        ∷ (txt "failedAt", text failed_at)
        ∷ (txt "attemptsMade", natural job.attempts_made)
        ∷ optional_field (txt "stacktrace") (optional_items job.stacktrace)))

-- What one call of the `failed` handler reads of its surroundings.
pub record Moment : Type 0 where
  pub failed_at : Text
  pub now : ℕ
  pub recorded_at : Text
  pub record_fault : Option Failure

module _ (q : Queue) where
  pub record Floor : Type 0 where
    pub board : Board
    pub rows : List Row
    pub dlq : q.State

  -- A failed `add` is caught by the handler, and so changes the queue at most.
  after_dlq_add : Floor → Result Job × q.State → Floor
  after_dlq_add f (throws e, dlq) = record f { dlq = dlq }
  after_dlq_add f (ok job, dlq) = record f {
    board = invalidate_dashboard_snapshot f.board;
    dlq = dlq;
  }

  dlq_job_id : Job → Moment → Text
  unfolding id_text
  dlq_job_id job m = txt "dlq_" ++ (id_text job.id ++ (txt "_" ++ decimal m.now))

  unfoldable pub send_to_dlq : Job → Failure → Moment → Floor → Floor
  unfolding after_dlq_add dlq_job_id
  send_to_dlq job e m f =
      after_dlq_add f
        (q.add (txt "DLQ_" ++ job.name) (dlq_job_id job m) (dlq_payload job e m.failed_at) f.dlq)

  module _ (jt : JsonText) where
    -- The record of a terminal failure: none without a key, and a fault is caught.
    pub record_terminal : Job → Failure → Moment → Option Text → Option Failure → Floor → Floor
    record_terminal job e m none fault f = f
    record_terminal job e m (some key) (some _) f = f
    record_terminal job e m (some key) none f = record f {
      rows =
          record_failure key job.name
            (jt.stringify (object ((txt "error", text (message_of e)) ∷ []))) m.recorded_at f.rows;
    }

    pub note_failure : Text → Failure → Floor → Floor
    unfolding add_report or_else
    note_failure job_name e f = record f {
      board =
          add_report (jobs_failed_total job_name (or_else (name_of e) (txt "Error")))
            (invalidate_dashboard_snapshot f.board);
    }

    -- The `failed` handler.
    unfoldable pub on_failed : Option Job → Failure → Moment → Floor → Floor
    unfolding note_failure record_terminal or_else
    on_failed none e m f = note_failure (txt "unknown") e f
    on_failed (some job) e m f =
        let noted = note_failure (or_else job.name (txt "unknown")) e f in
        let recorded = record_terminal job e m (failed_key job.payload) m.record_fault noted in
        let routed = send_to_dlq job e m recorded in
        if leb (max_attempts job) job.attempts_made then routed else noted
