-- ===== src/Worker/Tests.antt =====
-- Runs of the worker's handlers, and the theorems about them at concrete inputs.
use task_queue_system.Prelude.{◌≡◌, refl, [], ◌∷◌, ℕ, txt, some}
use task_queue_system.Json.{text, object}
use task_queue_system.Failure.{Failure, ok, plain}
use task_queue_system.Samples.{sample_queue, queue_names, job_of}
use task_queue_system.Schema.{webhook_delivery}
use task_queue_system.Dashboard.System.{init}
use task_queue_system.Queue.{Job}
use task_queue_system.Processors.{JsonText}
use task_queue_system.Worker.{Floor, Moment, max_attempts}
use task_queue_system.Worker.Failures.{IsExhausted, fail_up_to, fail_up_to-IsExhausted}

abbrev order : Job
order =
    job_of webhook_delivery (txt "webhook_order-1")
      (object ((txt "idempotencyKey", text (txt "order-1")) ∷ []))

abbrev plain_json : JsonText
plain_json = record { stringify = λ _. txt "{}"; parse = λ _. ok (object []) }

abbrev rejected : ℕ → Failure
rejected n = plain (txt "Webhook delivery to DEMO_UNAVAILABLE was rejected with HTTP 404")

abbrev moment : ℕ → Moment
moment n = record {
  failed_at = txt "10:00";
  now = n;
  recorded_at = txt "10:00";
  record_fault = some (plain (txt "database is locked"));
}

abbrev start : Floor sample_queue
start = record { board = (init queue_names).board; rows = []; dlq = 0 }

three_attempts : max_attempts order ≡ 3
unfolding max_attempts
three_attempts = refl

entered : (fail_up_to sample_queue plain_json order rejected moment 3 start).dlq ≡ 1
entered =
    (fail_up_to-IsExhausted sample_queue plain_json order rejected moment 2 start
      three_attempts).routed

fail_up_to-IsExhausted_example :
    IsExhausted sample_queue plain_json order rejected moment 3 start
      (fail_up_to sample_queue plain_json order rejected moment 3 start)
fail_up_to-IsExhausted_example =
    fail_up_to-IsExhausted sample_queue plain_json order rejected moment 2 start three_attempts
