-- ===== src/App/Tests.antt =====
-- Answers of the routes, and the theorems about them at concrete inputs.
use task_queue_system.Prelude.{◌≡◌, refl, [], ◌∷◌, txt, some, none, text_eq, includes}
use task_queue_system.Prelude.Dict.{lookup}
use task_queue_system.Json.{Json, text, object}
use task_queue_system.Http.{Request}
use task_queue_system.Samples.{sample_config, sample_queue, sample_queue-ReturnsJob, queue_names}
use task_queue_system.Schema.{webhook_job_data_schema}
use task_queue_system.Schema.Zod.{accepts, meets, field_output, outputs, only_known}
use task_queue_system.Schema.Accepts.{sample_zod, parsed_of}
use task_queue_system.Dashboard.System.{init}
use task_queue_system.Producer.{
  Intake, dispatch_webhook_job, enqueue, assert_queue_has_capacity, get_pending_queue_depth,
}
use task_queue_system.App.{webhook_route, webhook_sink}
use task_queue_system.Schema.{webhook_delivery}
use task_queue_system.Producer.Outcomes.{added_of}
use task_queue_system.App.Answers.{IsAnswer, webhook_route-IsAnswer}

abbrev start : Intake sample_config sample_queue
start = record { depth_cache = none; board = (init queue_names).board; queue = 999 }

abbrev post : Json → Request
post body = record {
  method = txt "POST";
  path = txt "/api/jobs/webhook";
  ip = some (txt "10.0.0.1");
  headers = [];
  query = [];
  body = body;
}

abbrev order : Request
order = post (
    object (
      (txt "destination", text (txt "DEMO_AVAILABLE"))
      ∷ (txt "event", text (txt "order.paid"))
      ∷ (txt "idempotencyKey", text (txt "order-1"))
      ∷ []))

-- The sink is not for a caller from outside.
sink_refuses : (webhook_sink (txt "10:00") order []).status ≡ 403
unfolding webhook_sink text_eq
sink_refuses = refl

order_accepted :
    (webhook_route sample_config sample_queue sample_zod 5 none order [] start).0.status ≡ 202
unfolding webhook_route dispatch_webhook_job enqueue assert_queue_has_capacity
    get_pending_queue_depth accepts outputs only_known meets field_output parsed_of lookup text_eq
    includes
order_accepted = refl

webhook_route-IsAnswer_example :
    IsAnswer sample_config sample_queue 5
      (sample_zod.parse webhook_job_data_schema order.body)
      (added_of sample_config sample_queue 5 none webhook_delivery (txt "webhook_") start)
      start
      (webhook_route sample_config sample_queue sample_zod 5 none order [] start).1
      (webhook_route sample_config sample_queue sample_zod 5 none order [] start).0.status
webhook_route-IsAnswer_example =
    webhook_route-IsAnswer sample_config sample_queue sample_zod 5 none order [] start
      sample_queue-ReturnsJob
