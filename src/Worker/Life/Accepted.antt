-- ===== src/Worker/Life/Accepted.antt =====
-- From a submission to the job's end.
use task_queue_system.Prelude.{◌≡◌, Text, txt, Option, none, some}
use task_queue_system.Prelude.Dict.{Dict}
use task_queue_system.Config.{Config}
use task_queue_system.Json.{Json}
use task_queue_system.Failure.{Failure}
use task_queue_system.Schema.{
  Schema, email_notification, webhook_delivery, email_job_data_schema, webhook_job_data_schema,
  JobExecutionResult,
}
use task_queue_system.Schema.Zod.{Zod, valid}
use task_queue_system.Queue.{Queue, Job, default_attempts}
use task_queue_system.Producer.Outcomes.{Ends}
use task_queue_system.Producer.Submission.{JobKind, email_kind, webhook_kind}
use task_queue_system.Processors.{JsonText}
use task_queue_system.Processors.Outcome.{key_of}
use task_queue_system.Worker.{Moment}
use task_queue_system.Worker.Life.{Plant}
use task_queue_system.Worker.Life.Ends.{IsCompleted, IsGivenUp}

-- The name of a kind's jobs, and the schema of its input.
abbrev pub job_name_of : JobKind → Text
job_name_of email_kind = email_notification
job_name_of webhook_kind = webhook_delivery

abbrev pub input_schema_of : JobKind → Schema
input_schema_of email_kind = email_job_data_schema
input_schema_of webhook_kind = webhook_job_data_schema

abbrev pub id_prefix_of : JobKind → Text
id_prefix_of email_kind = txt "email_"
id_prefix_of webhook_kind = txt "webhook_"

module _ (q : Queue) (jt : JsonText) (z : Zod) where
  -- The key that a valid input has.
  abbrev pub IsKeyOf : JobKind → Json → Text → Type 0
  IsKeyOf kind input key =
      (d : Dict Json) × (z.parse (input_schema_of kind) input ≡ valid d) × (key ≡ key_of d)

  -- The job was delivered under the key of the input, or given up.
  abbrev pub IsAnswered :
      JobKind
      → Json
      → Job
      → (Failure → Moment → Type 0)
      → Plant q
      → Option JobExecutionResult × Plant q
      → Type 0
  IsAnswered kind input job IsLast p0 (some res, p) =
      IsCompleted q jt z job p0 res p × IsKeyOf kind input res.idempotency_key
  IsAnswered kind input job IsLast p0 (none, p) = IsGivenUp q jt z job IsLast default_attempts p0 p
