-- ===== src/Producer/Submission.antt =====
-- A submission of either kind, as the job routes make it.
use task_queue_system.Prelude.{ℕ, Text, Option}
use task_queue_system.Config.{Config}
use task_queue_system.Json.{Json}
use task_queue_system.Failure.{Result}
use task_queue_system.Schema.Zod.{Zod}
use task_queue_system.Queue.{Queue, Job}
use task_queue_system.Producer.{Intake, dispatch_email_job, dispatch_webhook_job}

pub data JobKind : Type 0 where
  email_kind webhook_kind : JobKind

module _ (c : Config) (q : Queue) (z : Zod) where
  unfoldable pub submit : JobKind → ℕ → Option Text → Json → Intake c q → Result Job × Intake c q
  submit email_kind = dispatch_email_job c q z
  submit webhook_kind = dispatch_webhook_job c q z
