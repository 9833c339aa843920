-- ===== src/Producer/Tests.antt =====
-- Runs of a submission, and the theorems about it at concrete inputs.
use task_queue_system.Prelude.{◌≡◌, refl, text_eq, includes, trim, [], ◌∷◌, txt, some, none}
use task_queue_system.Json.{fields, entries, Json, text, object, null}
use task_queue_system.Failure.{Result, ok}
use task_queue_system.Samples.{sample_config, sample_queue, sample_queue-ReturnsJob, queue_names}
use task_queue_system.Schema.{email_notification, email_job_data_schema, webhook_job_data_schema}
use task_queue_system.Schema.Accepts.{sample_zod}
use task_queue_system.Dashboard.System.{init}
use task_queue_system.Producer.{Intake, get_pending_queue_depth, dispatch_email_job}
use task_queue_system.Prelude.Dict.{lookup, Dict}
use task_queue_system.Context.{normalise_correlation_id, is_safe_char}
use task_queue_system.Schema.{webhook_job_record_schema}
use task_queue_system.Schema.Zod.{accepts, meets, field_output, outputs, only_known, valid}
use task_queue_system.Schema.Accepts.{parsed_of, has_at, sample_zod-IsZod}
use task_queue_system.Producer.{
  stamp, assert_queue_has_capacity, add_job, finish_add, check_depth, cached_depth, read_depth,
  total,
}
use task_queue_system.Producer.Stamp.{stamped_webhook_job}
use task_queue_system.Producer.Outcomes.{Ends, email_submission}

abbrev start : Intake sample_config sample_queue
start = record { depth_cache = none; board = (init queue_names).board; queue = 999 }

abbrev mail : Json
mail = object (
    (txt "to", text (txt "a@b.de"))
    ∷ (txt "subject", text (txt "Hi"))
    ∷ (txt "body", text (txt "Hello"))
    ∷ (txt "idempotencyKey", text (txt "order-1"))
    ∷ [])

abbrev entries_of : Json → Dict Json
entries_of (fields m) = entries m
entries_of _ = []

abbrev order : Json
order = object (
    (txt "destination", text (txt "DEMO_AVAILABLE"))
    ∷ (txt "event", text (txt "order.paid"))
    ∷ (txt "idempotencyKey", text (txt "order-1"))
    ∷ [])

email_submission_example :
    Ends sample_config sample_queue sample_zod 5
      (some (txt "trace-7"))
      email_notification
      (txt "email_")
      (sample_zod.parse email_job_data_schema mail)
      start
      (dispatch_email_job sample_config sample_queue sample_zod 5 (some (txt "trace-7")) mail start)
email_submission_example =
    email_submission sample_config sample_queue sample_zod 5 (some (txt "trace-7")) mail start
      sample_queue-ReturnsJob

depth_reads : (get_pending_queue_depth sample_config sample_queue 5 start).0 ≡ ok 999
unfolding get_pending_queue_depth
depth_reads = refl

mail_valid : sample_zod.parse email_job_data_schema mail ≡ valid (entries_of mail)
unfolding accepts outputs only_known meets field_output parsed_of lookup text_eq includes has_at
mail_valid = refl

abbrev order_data : Dict Json
order_data =
    (txt "destination", text (txt "DEMO_AVAILABLE"))
    ∷ (txt "event", text (txt "order.paid"))
    ∷ (txt "payload", object [])
    ∷ (txt "idempotencyKey", text (txt "order-1"))
    ∷ []

order_valid : sample_zod.parse webhook_job_data_schema order ≡ valid order_data
unfolding accepts outputs only_known meets field_output parsed_of lookup text_eq includes
order_valid = refl

trace_accepted : normalise_correlation_id (some (txt "trace-7")) ≡ some (txt "trace-7")
unfolding normalise_correlation_id is_safe_char trim
trace_accepted = refl

stamped_webhook_job_example :
    sample_zod.parse webhook_job_record_schema (object (stamp none order_data))
    ≡ valid (stamp none order_data)
stamped_webhook_job_example =
    stamped_webhook_job sample_zod none order order_data sample_zod-IsZod tt order_valid

-- Two submissions that both read the depth before either adds its job: both are let in at 999, and
-- the queue passes the ceiling of 1000.
abbrev added_late :
    Result (Unit {0}) → Intake sample_config sample_queue → Intake sample_config sample_queue
added_late check s =
    (add_job sample_config sample_queue email_notification (txt "email_1") null (check, s)).1

passes_ceiling :
    (let first = assert_queue_has_capacity sample_config sample_queue 5 start in
      let second = assert_queue_has_capacity sample_config sample_queue 5 first.1 in
      (added_late second.0 (added_late first.0 second.1)).queue)
    ≡ 1001
unfolding assert_queue_has_capacity get_pending_queue_depth add_job finish_add check_depth
    cached_depth read_depth total
passes_ceiling = refl
