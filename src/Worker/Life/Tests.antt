-- ===== src/Worker/Life/Tests.antt =====
-- Attempts of a job, and the theorem about them at a concrete input.
use task_queue_system.Prelude.{
  ◌≡◌, refl, [], ◌∷◌, ℕ, Text, txt, List, none, length, text_eq, includes,
}
use task_queue_system.Prelude.Dict.{lookup}
use task_queue_system.Json.{text, object}
use task_queue_system.Failure.{Result, ok, throws, plain}
use task_queue_system.Samples.{sample_config, sample_queue, queue_names, job_of}
use task_queue_system.Schema.{webhook_delivery, JobExecutionResult}
use task_queue_system.Schema.Zod.{accepts}
use task_queue_system.Schema.Accepts.{sample_zod, parsed_of}
use task_queue_system.Dashboard.System.{init}
use task_queue_system.Queue.{Job}
use task_queue_system.Processors.{JsonText, replied, process_webhook_job, is_success}
use task_queue_system.Storage.{has_been_processed}
use task_queue_system.Worker.{max_attempts, run_job, get_processor_for_job, on_failed}
use task_queue_system.Worker.Life.{Attempt, Plant, attempt_all}
use task_queue_system.Producer.{Intake}

abbrev order : Job
order = job_of webhook_delivery (txt "webhook_order-1") (
    object (
      (txt "destination", text (txt "DEMO_AVAILABLE"))
      ∷ (txt "event", text (txt "order.paid"))
      ∷ (txt "payload", object [])
      ∷ (txt "idempotencyKey", text (txt "order-1"))
      ∷ []))

abbrev plain_json : JsonText
plain_json = record { stringify = λ _. txt "{}"; parse = λ _. ok (object []) }

no_member : Text → Job → Result JobExecutionResult
no_member name job = throws (plain name)

-- An attempt that is answered with a status.
abbrev answered : ℕ → Attempt
answered status = record {
  readings = record {
    message_at = 7;
    random = txt "x";
    elapsed = 12;
    delivered_at = txt "10:00";
    recorded_at = txt "10:00";
    processed_at = txt "10:00";
    fetched = replied status;
    read_fault = none;
    reread_fault = none;
    write_fault = none;
  };
  moment = record {
    failed_at = txt "10:00";
    now = 7;
    recorded_at = txt "10:00";
    record_fault = none;
  };
}

abbrev start : Plant sample_queue
start = record {
  floor = record { board = (init queue_names).board; rows = []; dlq = 0 };
  sent = [];
}

abbrev one_retry : List Attempt
one_retry = answered 503 ∷ answered 200 ∷ answered 200 ∷ []

abbrev taken : Intake sample_config sample_queue
taken = record { depth_cache = none; board = (init queue_names).board; queue = 7 }

-- The 503 is retried, the 200 ends the job, and the third attempt is not made.
two_requests :
    length
      (attempt_all sample_queue plain_json sample_zod sample_config no_member order 0 one_retry
        start).1.sent
    ≡ 2
unfolding attempt_all run_job get_processor_for_job text_eq process_webhook_job parsed_of accepts
    includes lookup has_been_processed is_success on_failed max_attempts
two_requests = refl
