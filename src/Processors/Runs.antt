-- ===== src/Processors/Runs.antt =====
-- Runs of both processors, in any order, on one store: a completed record stays as it is.
use task_queue_system.Prelude.{◌≡◌, inl, inr, Text, List, some, ◌∷◌, []}
use task_queue_system.Config.{Config}
use task_queue_system.Failure.{Result, ok, throws}
use task_queue_system.Schema.{email_notification, webhook_delivery, JobExecutionResult}
use task_queue_system.Schema.Zod.{Zod, Parsed}
use task_queue_system.Storage.{Row, completed, get_record}
use task_queue_system.Storage.Completed.{record_success_keeps}
use task_queue_system.Queue.{Job}
use task_queue_system.Processors.{
  JsonText, Readings, Store, replay, process_email_job, process_webhook_job,
}
use task_queue_system.Processors.Outcome.{
  EmailEnds, WebhookEnds, IsDone, key_of, process_email_job-EmailEnds,
  process_webhook_job-WebhookEnds,
}

pub data Run : Type 0 where
  email webhook : Readings → Job → Run

module _ (jt : JsonText) (z : Zod) (c : Config) where
  pub run_one : Store → Run → Store
  run_one s (email r job) = (process_email_job jt r z job s).1
  run_one s (webhook r job) = (process_webhook_job jt r z c job s).1

  pub run_all : Store → List Run → Store
  run_all s [] = s
  run_all s (x ∷ xs) = run_all (run_one s x) xs

  module _ (job_name key : Text) (row : Row) (k : row.status ≡ completed) where
    abbrev IsFound : List Row → Type 0
    IsFound rows = get_record job_name key rows ≡ some row

    done_keeps :
        (r : Readings) (job_name' key' : Text) (rows rows' : List Row) (res : JobExecutionResult)
        → IsDone jt job_name' key' r.recorded_at rows rows' res
        → IsFound rows
        → IsFound rows'
    done_keeps r job_name' key' rows rows' res d found =
        rw d.stored (
          record_success_keeps job_name key job_name' key' _ r.recorded_at rows row d.fresh found k)

    email_keeps :
        (r : Readings) (parsed : Parsed) (s : Store) (o : Result JobExecutionResult × Store)
        → EmailEnds jt r parsed s o
        → IsFound s.rows
        → IsFound o.1.rows
    email_keeps r parsed s (throws e, s') same found = rw same found
    email_keeps r parsed s (ok res, s') (d, p, inl (replay, same)) found = rw same found
    email_keeps r parsed s (ok res, s') (d, p, inr (done, sent)) found =
        done_keeps r email_notification (key_of d) s.rows s'.rows res done found

    webhook_keeps :
        (r : Readings) (parsed : Parsed) (s : Store) (o : Result JobExecutionResult × Store)
        → WebhookEnds jt r c parsed s o
        → IsFound s.rows
        → IsFound o.1.rows
    webhook_keeps r parsed s (throws e, s') (same, sent) found = rw same found
    webhook_keeps r parsed s (ok res, s') (d, p, inl (replay, same)) found = rw same found
    webhook_keeps r parsed s (ok res, s') (d, p, inr (done, sent)) found =
        done_keeps r webhook_delivery (key_of d) s.rows s'.rows res done found

    run_one_keeps : (s : Store) (x : Run) → IsFound s.rows → IsFound (run_one s x).rows
    unfolding run_one
    run_one_keeps s (email r job) found =
        email_keeps r _ s _ (process_email_job-EmailEnds jt r z job s) found
    run_one_keeps s (webhook r job) found =
        webhook_keeps r _ s _ (process_webhook_job-WebhookEnds jt r z c job s) found

    pub run_all_keeps : (s : Store) (xs : List Run) → IsFound s.rows → IsFound (run_all s xs).rows
    unfolding run_all
    run_all_keeps s [] found = found
    run_all_keeps s (x ∷ xs) found = run_all_keeps (run_one s x) xs (run_one_keeps s x found)
