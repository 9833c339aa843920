-- ===== src/Processors/Overlap/Tests.antt =====
-- Two runs with one key that overlap, and the theorems at concrete inputs.
use task_queue_system.Prelude.{◌≡◌, ◌≤◌, ◌+◌, refl, [], ◌∷◌, txt, List, none}
use task_queue_system.Prelude.{text_eq, includes}
use task_queue_system.Prelude.Dict.{lookup}
use task_queue_system.Json.{text, object}
use task_queue_system.Failure.{ok, plain}
use task_queue_system.Queue.{Job}
use task_queue_system.Samples.{sample_config, job_of}
use task_queue_system.Schema.{webhook_delivery}
use task_queue_system.Schema.Zod.{accepts, meets, field_output, outputs, only_known}
use task_queue_system.Schema.Accepts.{sample_zod, has_at, parsed_of}
use task_queue_system.Producer.{text_at}
use task_queue_system.Storage.{has_been_processed, record_success, record_failure, upsert, is_at}
use task_queue_system.Processors.{JsonText, Readings, Store, replied, is_success}
use task_queue_system.Processors.Overlap.{
  Event, begins, finishes, gives_up, steps, begin_webhook_job, take_at,
}
use task_queue_system.Processors.Overlap.Ends.{deliveries, under_way}
use task_queue_system.Processors.Overlap.Bound.{started, reopened, deliveries_bounded}
use task_queue_system.Worker.{Moment, max_attempts, failed_key}

abbrev order : Job
order = job_of webhook_delivery (txt "1") (
    object (
      (txt "destination", text (txt "DEMO_AVAILABLE"))
      ∷ (txt "event", text (txt "order.paid"))
      ∷ (txt "idempotencyKey", text (txt "order-1"))
      ∷ []))

abbrev now : Readings
now = record {
  message_at = 7;
  random = txt "x";
  elapsed = 12;
  delivered_at = txt "10:00";
  recorded_at = txt "10:00";
  processed_at = txt "10:00";
  fetched = replied 200;
  read_fault = none;
  reread_fault = none;
  write_fault = none;
}

abbrev empty : Store
empty = record { rows = []; sent = [] }

abbrev json_text : JsonText
json_text = record { stringify = λ _. txt "{…}"; parse = λ _. ok (object []) }

-- The second run checks the key before the first has recorded it.
abbrev overlapping : List Event
overlapping = begins now order ∷ begins now order ∷ finishes 1 ∷ finishes 0 ∷ []

abbrev one_by_one : List Event
one_by_one = begins now order ∷ finishes 0 ∷ begins now order ∷ finishes 0 ∷ []

delivers_twice :
    deliveries
      (txt "order-1")
      (steps json_text sample_zod sample_config (started empty) overlapping).results
    ≡ 2
unfolding steps begin_webhook_job accepts outputs only_known meets field_output parsed_of text_at
    lookup text_eq includes has_at has_been_processed is_success take_at
delivers_twice = refl

delivers_once :
    deliveries
      (txt "order-1")
      (steps json_text sample_zod sample_config (started empty) one_by_one).results
    ≡ 1
unfolding steps begin_webhook_job accepts outputs only_known meets field_output parsed_of text_at
    lookup text_eq includes has_at has_been_processed is_success take_at record_success upsert is_at
delivers_once = refl

-- A delivery between two `failed` events of the job, whose records make its key open again.
abbrev moment : Moment
moment = record { failed_at = txt "10:00"; now = 7; recorded_at = txt "10:00"; record_fault = none }

abbrev last_try : Job
last_try = record order { attempts_made = 3 }

abbrev reopening : List Event
reopening =
    begins now order
    ∷ finishes 0
    ∷ gives_up last_try (plain (txt "late")) moment
    ∷ begins now order
    ∷ finishes 0
    ∷ []

deliveries_bounded_example :
    deliveries
        (txt "order-1")
        (steps json_text sample_zod sample_config (started empty) reopening).results
      + under_way
          (txt "order-1")
          (steps json_text sample_zod sample_config (started empty) reopening).awaiting
    ≤ 5 + reopened (txt "order-1") json_text sample_zod sample_config reopening
deliveries_bounded_example =
    deliveries_bounded json_text sample_zod sample_config empty reopening (txt "order-1")

-- The concurrency is 5, and one event makes the key open again; it was delivered twice.
delivered_again :
    (deliveries
        (txt "order-1")
        (steps json_text sample_zod sample_config (started empty) reopening).results
      ≡ 2)
    × (reopened (txt "order-1") json_text sample_zod sample_config reopening ≡ 5)
unfolding steps begin_webhook_job accepts outputs only_known meets field_output parsed_of text_at
    lookup text_eq includes has_at has_been_processed is_success take_at record_success
    record_failure upsert is_at max_attempts failed_key
delivered_again = (refl, refl)
