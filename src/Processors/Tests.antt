-- ===== src/Processors/Tests.antt =====
-- Runs of the processors, and the theorems about them at concrete inputs.
use task_queue_system.Prelude.{
  ◌≡◌, refl, [], ◌∷◌, Text, txt, List, none, some, true, false, text_eq, includes, decimal,
}
use task_queue_system.Prelude.Dict.{Dict, lookup}
use task_queue_system.Json.{Json, text, object, natural}
use task_queue_system.Failure.{ok}
use task_queue_system.Queue.{Job}
use task_queue_system.Samples.{sample_config}
use task_queue_system.Schema.{
  JobExecutionResult, webhook_delivery, email_notification, email_job_record_schema,
  webhook_job_record_schema,
}
use task_queue_system.Schema.Zod.{accepts, valid, meets, field_output, outputs, only_known}
use task_queue_system.Schema.Accepts.{sample_zod, has_at, parsed_of}
use task_queue_system.Producer.{text_at}
use task_queue_system.Storage.{has_been_processed}
use task_queue_system.Processors.{
  byte_length, is_success, JsonText, Readings, Store, replied, process_webhook_job,
  process_email_job,
}
use task_queue_system.Processors.Outcome.{WebhookEnds, process_webhook_job-WebhookEnds}
use task_queue_system.Processors.Runs.{Run, email, webhook, run_all}
use task_queue_system.Processors.Replay.{IsRestored, IsSameAnswer, webhook_once}

abbrev job_of : Text → Dict Json → Job
job_of name payload = record {
  id = some (txt "1");
  name = name;
  payload = object payload;
  attempts_made = 0;
  attempts = some 3;
  stacktrace = none;
}

abbrev order : Job
order = job_of webhook_delivery (
    (txt "destination", text (txt "DEMO_AVAILABLE"))
    ∷ (txt "event", text (txt "order.paid"))
    ∷ (txt "idempotencyKey", text (txt "order-1"))
    ∷ [])

abbrev mail : Job
mail = job_of email_notification (
    (txt "to", text (txt "a@b.de"))
    ∷ (txt "subject", text (txt "Hi"))
    ∷ (txt "body", text (txt "Hello"))
    ∷ (txt "idempotencyKey", text (txt "order-1"))
    ∷ [])

abbrev now : Readings
now = record {
  message_at = 7;
  random = txt "x";
  elapsed = 12;
  delivered_at = txt "10:00";
  recorded_at = txt "10:00";
  processed_at = txt "10:00";
  fetched = replied 200;
  read_fault = none;
  reread_fault = none;
  write_fault = none;
}

abbrev empty : Store
empty = record { rows = []; sent = [] }

-- JSON's texts for one value, as far as the runs need them.
abbrev json_of : Json → JsonText
json_of j = record { stringify = λ _. txt "{…}"; parse = λ _. ok j }

abbrev delivered : Json
delivered = object (
    (txt "destination", text (txt "DEMO_AVAILABLE"))
    ∷ (txt "event", text (txt "order.paid"))
    ∷ (txt "httpStatus", natural 200)
    ∷ (txt "deliveredAt", text (txt "10:00"))
    ∷ [])

abbrev answer : JobExecutionResult
answer = record {
  success = true;
  job_name = webhook_delivery;
  idempotency_key = txt "order-1";
  processed_at = txt "10:00";
  duration_ms = 12;
  data_ = delivered;
  is_duplicate = false;
}

order_runs :
    (process_webhook_job (json_of delivered) now sample_zod sample_config order empty).0 ≡ ok answer
unfolding process_webhook_job accepts outputs only_known meets field_output parsed_of text_at lookup
    text_eq includes has_at has_been_processed is_success
order_runs = refl

abbrev order_data : Dict Json
order_data =
    (txt "destination", text (txt "DEMO_AVAILABLE"))
    ∷ (txt "event", text (txt "order.paid"))
    ∷ (txt "payload", object [])
    ∷ (txt "idempotencyKey", text (txt "order-1"))
    ∷ []

order_valid : sample_zod.parse webhook_job_record_schema order.payload ≡ valid order_data
unfolding accepts outputs only_known meets field_output parsed_of lookup text_eq includes
order_valid = refl

order-IsRestored : (j : Json) → IsRestored (json_of j) j
order-IsRestored j = record { back = refl; some_text = λ e. cc }

abbrev after_order : Store
after_order = (process_webhook_job (json_of delivered) now sample_zod sample_config order empty).1

-- An email job with the same key and the same order run in between.
abbrev between : List Run
between = email now mail ∷ webhook now order ∷ []

webhook_once_example :
    (res' : JobExecutionResult) × (process_webhook_job
        (json_of delivered)
        now
        sample_zod
        sample_config
        order
        (run_all (json_of delivered) sample_zod sample_config after_order between)
      ≡ (ok res', run_all (json_of delivered) sample_zod sample_config after_order between))
    × IsSameAnswer answer res'
unfolding lookup text_eq text_at
webhook_once_example =
    webhook_once (json_of delivered) sample_zod sample_config now now order order empty between
      order_data answer order_runs refl (order-IsRestored delivered) order_valid refl refl refl

abbrev mailed : Json
mailed = object (
    (txt "messageId", text (txt "msg_7_x"))
    ∷ (txt "deliveredTo", text (txt "a@b.de"))
    ∷ (txt "subject", text (txt "Hi"))
    ∷ (txt "bytesSent", natural 5)
    ∷ [])

abbrev mail_answer : JobExecutionResult
mail_answer = record answer { job_name = email_notification; data_ = mailed }

mail_runs : (process_email_job (json_of mailed) now sample_zod mail empty).0 ≡ ok mail_answer
unfolding process_email_job accepts outputs only_known meets field_output parsed_of text_at lookup
    text_eq includes has_at has_been_processed byte_length decimal
mail_runs = refl

abbrev mail_data : Dict Json
mail_data =
    (txt "to", text (txt "a@b.de"))
    ∷ (txt "subject", text (txt "Hi"))
    ∷ (txt "body", text (txt "Hello"))
    ∷ (txt "idempotencyKey", text (txt "order-1"))
    ∷ []

mail_valid : sample_zod.parse email_job_record_schema mail.payload ≡ valid mail_data
unfolding accepts outputs only_known meets field_output parsed_of lookup text_eq includes has_at
mail_valid = refl

abbrev after_mail : Store
after_mail = (process_email_job (json_of mailed) now sample_zod mail empty).1

process_webhook_job-WebhookEnds_example :
    WebhookEnds
      (json_of delivered)
      now
      sample_config
      (sample_zod.parse webhook_job_record_schema order.payload)
      empty
      (process_webhook_job (json_of delivered) now sample_zod sample_config order empty)
process_webhook_job-WebhookEnds_example =
    process_webhook_job-WebhookEnds (json_of delivered) now sample_zod sample_config order empty
