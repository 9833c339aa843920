-- ===== src/Worker/Life/Runs.antt =====
-- What one run of a job comes to, whichever of the two processors it is for.
use task_queue_system.Prelude.{
  suc, ◌≤◌, ◌≡◌, ◌⊎◌, refl, inl, inr, Text, List, true, arith, length, ap, text_eq, text_eq_iff,
  if◌then◌else◌,
}
use task_queue_system.Config.{Config}
use task_queue_system.Failure.{Result, ok, throws}
use task_queue_system.Schema.{
  email_notification, webhook_delivery, JobExecutionResult, Schema, email_job_record_schema,
  webhook_job_record_schema,
}
use task_queue_system.Schema.Zod.{Zod, Parsed, valid}
use task_queue_system.Storage.{Row, has_been_processed}
use task_queue_system.Storage.Records.{has_been_processed-record_success}
use task_queue_system.Queue.{Job}
use task_queue_system.Processors.{JsonText, Readings, Store, process_email_job, process_webhook_job}
use task_queue_system.Processors.Outcome.{
  EmailEnds, WebhookEnds, IsReplay, IsDone, process_email_job-EmailEnds,
  process_webhook_job-WebhookEnds, key_of,
}
use task_queue_system.Worker.{run_job, run_processor, get_processor_for_job, Dict, Json}

-- The schema that a processor checks a job's payload by.
abbrev pub record_schema_of : Text → Schema
record_schema_of job_name =
    if text_eq job_name email_notification
    then email_job_record_schema
    else webhook_job_record_schema

-- The result is of the key in the payload.
abbrev pub HasKey : Parsed → JobExecutionResult → Type 0
HasKey parsed res = (d : Dict Json) × (parsed ≡ valid d) × (res.idempotency_key ≡ key_of d)

-- What one run of a job does to the store: an error leaves the rows as they were, a result comes with a
-- COMPLETED row of the payload's key, and either way at most one request is sent.
abbrev pub RunEnds : Parsed → Text → Store → Result JobExecutionResult × Store → Type 0
RunEnds parsed job_name s (throws e, s') =
    (s'.rows ≡ s.rows) × (length s'.sent ≤ suc (length s.sent))
RunEnds parsed job_name s (ok res, s') =
    HasKey parsed res
    × (has_been_processed job_name res.idempotency_key s'.rows ≡ true)
    × (length s'.sent ≤ suc (length s.sent))

replay_processed :
    (jt : JsonText) (job_name key : Text) (rows : List Row) (res : JobExecutionResult)
    → IsReplay jt job_name key rows res
    → has_been_processed job_name res.idempotency_key rows ≡ true
unfolding has_been_processed
replay_processed jt job_name key rows res h = rw (h.same_key, h.found, h.status) refl

done_processed :
    (jt : JsonText) (job_name key now : Text) (rows rows' : List Row) (res : JobExecutionResult)
    → IsDone jt job_name key now rows rows' res
    → has_been_processed job_name res.idempotency_key rows' ≡ true
done_processed jt job_name key now rows rows' res h =
    rw (h.same_key, h.stored, has_been_processed-record_success)
      (ground (arith, (text_eq_iff key key).1 refl, (text_eq_iff job_name job_name).1 refl))

module _ (jt : JsonText) (r : Readings) (c : Config) where
  email-RunEnds :
      (parsed : Parsed) (s : Store) (o : Result JobExecutionResult × Store)
      → EmailEnds jt r parsed s o
      → RunEnds parsed email_notification s o
  email-RunEnds parsed s (throws e, s') same =
      (ap (λ t. t.rows) same, omega (arith, ap (λ t. length t.sent) same))
  email-RunEnds parsed s (ok res, s') (d, p, inl (replay, same)) = rw same (
    (d, p, replay.same_key),
    replay_processed jt email_notification _ s.rows res replay,
    omega arith,
  )
  email-RunEnds parsed s (ok res, s') (d, p, inr (done, sent)) = (
    (d, p, done.same_key),
    done_processed jt email_notification _ _ s.rows s'.rows res done,
    omega (arith, ap length sent),
  )

  webhook-RunEnds :
      (parsed : Parsed) (s : Store) (o : Result JobExecutionResult × Store)
      → WebhookEnds jt r c parsed s o
      → RunEnds parsed webhook_delivery s o
  webhook-RunEnds parsed s (throws e, s') (same, inl sent) = (same, omega (arith, ap length sent))
  webhook-RunEnds parsed s (throws e, s') (same, inr (o, sent)) =
      (same, omega (arith, ap length sent))
  webhook-RunEnds parsed s (ok res, s') (d, p, inl (replay, same)) = rw same (
    (d, p, replay.same_key),
    replay_processed jt webhook_delivery _ s.rows res replay,
    omega arith,
  )
  webhook-RunEnds parsed s (ok res, s') (d, p, inr (done, delivered)) = (
    (d, p, done.same_key),
    done_processed jt webhook_delivery _ _ s.rows s'.rows res done,
    omega (arith, ap length delivered.sent),
  )

module _ (jt : JsonText) (r : Readings) (z : Zod) (c : Config)
    (call : Text → Job → Result JobExecutionResult) where
  pub run_job-RunEnds :
      (job : Job) (s : Store)
      → (job.name ≡ email_notification) ⊎ (job.name ≡ webhook_delivery)
      → RunEnds
          (z.parse (record_schema_of job.name) job.payload)
          job.name
          s
          (run_job jt r z c call job s)
  unfolding run_job run_processor get_processor_for_job text_eq process_email_job
      process_webhook_job
  run_job-RunEnds job s (inl e) =
      rw e (email-RunEnds jt r c _ s _ (process_email_job-EmailEnds jt r z job s))
  run_job-RunEnds job s (inr e) =
      rw e (webhook-RunEnds jt r c _ s _ (process_webhook_job-WebhookEnds jt r z c job s))
