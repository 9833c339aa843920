-- ===== src/Processors/Overlap/Sequential.antt =====
-- The split processor, without anything in between, is the processor.
use task_queue_system.Prelude.{◌≡◌, refl, Bool, true, false}
use task_queue_system.Prelude.Dict.{Dict}
use task_queue_system.Config.{Config}
use task_queue_system.Json.{Json}
use task_queue_system.Failure.{Result, ok, throws}
use task_queue_system.Schema.{webhook_job_record_schema}
use task_queue_system.Schema.Zod.{Zod, Parsed, valid, invalid}
use task_queue_system.Queue.{Job}
use task_queue_system.Processors.{
  JsonText, Readings, Store, webhook_checked, webhook_parsed, process_webhook_job,
}
use task_queue_system.Processors.Overlap.{
  begin_checked, begin_parsed, begin_webhook_job, finish_webhook_job, resume,
}

module _ (jt : JsonText) (r : Readings) (c : Config) where
  resume-checked :
      (d : Dict Json) (s : Store) (processed : Result Bool)
      → resume jt r c (begin_checked jt r c d s processed) ≡ webhook_checked jt r c d s processed
  unfolding resume begin_checked webhook_checked finish_webhook_job
  resume-checked d s (throws e) = refl
  resume-checked d s (ok true) = refl
  resume-checked d s (ok false) = refl

  resume-parsed :
      (parsed : Parsed) (s : Store)
      → resume jt r c (begin_parsed jt r c parsed s) ≡ webhook_parsed jt r c parsed s
  unfolding begin_parsed webhook_parsed resume
  resume-parsed (invalid issues message) s = refl
  resume-parsed (valid d) s = resume-checked d s _

-- If nothing comes in between: the webhook processor up to its call of `fetch`, and then from the
-- answer on, is one run of it, with the same result and the same store.
pub sequential_run :
    (jt : JsonText) (r : Readings) (c : Config) (z : Zod) (job : Job) (s : Store)
    → resume jt r c (begin_webhook_job jt r c z job s) ≡ process_webhook_job jt r z c job s
unfolding begin_webhook_job process_webhook_job
sequential_run jt r c z job s =
    resume-parsed jt r c (z.parse webhook_job_record_schema job.payload) s
