-- ===== src/Process/Views.antt =====
-- What the dashboard's polls are answered, in the process as a whole.
use task_queue_system.Prelude.{ℕ, ◌≡◌, Text, List, Option}
use task_queue_system.Config.{Config}
use task_queue_system.Failure.{Result}
use task_queue_system.Schema.{JobExecutionResult}
use task_queue_system.Schema.Zod.{Zod}
use task_queue_system.Queue.{Queue, Job}
use task_queue_system.RateLimit.{Limiter}
use task_queue_system.Processors.{JsonText}
use task_queue_system.Dashboard.System.{System}
use task_queue_system.Server.{Routing}
use task_queue_system.Worker.Life.{Attempt}
use task_queue_system.Prelude.{◌⊎◌}
use task_queue_system.Failure.{ok}
use task_queue_system.Json.{Json}
use task_queue_system.Producer.Submission.{JobKind, submit}
use task_queue_system.Process.{Program, attempts, system_of, advance}

module _ (c : Config) (q dlq : Queue) (l : Limiter) (z : Zod) (routing : Routing) (jt : JsonText)
    (call : Text → Job → Result JobExecutionResult) (names : List Text) where
  abbrev P : Type 0
  P = Program c q dlq l z routing jt call

  abbrev System_of : P → System
  System_of = system_of c q dlq l z routing jt call

  -- A job has been attempted, or a submission has returned a job.
  abbrev pub IsChange : P → P → Type 0
  IsChange p p' =
      ((job : Job) × (n : ℕ) × (a : Attempt) × (p'
          ≡ advance c q dlq l z routing jt call (attempts job n a) p))
      ⊎ ((kind : JobKind) × (now : ℕ) × (id : Option Text) × (input : Json) × (job : Job) × (submit
              c q z kind now id input p.server.intake
            ≡ (ok job, p'.server.intake)))
