-- ===== src/Queue.antt =====
-- queue/queue.ts and queue/dlq.ts, and what the program uses of BullMQ: a job's fields, and the
-- calls on a queue, which are parameters with the queue's own state.
use task_queue_system.Prelude.{ℕ, ◌≡◌, Text, txt, List, Option, some}
use task_queue_system.Json.{Json}
use task_queue_system.Failure.{Result, ok}

abbrev pub task_queue_name : Text
task_queue_name = txt "task-processing-queue"

abbrev pub dlq_queue_name : Text
dlq_queue_name = txt "dlq-task-queue"

-- `attempts` of the task queue's default job options.
abbrev pub default_attempts : ℕ
default_attempts = 3

pub record Job : Type 0 where
  pub id : Option Text
  pub name : Text
  pub payload : Json
  pub attempts_made : ℕ
  pub attempts : Option ℕ
  pub stacktrace : Option (List Text)

-- The answer of `getJobCounts`, by state; a state may be missing.
pub record Counts : Type 0 where
  pub waiting : Option ℕ
  pub active : Option ℕ
  pub delayed : Option ℕ

-- The counts of the five states that the metrics route asks for.
pub record StateCounts : Type 0 where
  pub active : ℕ
  pub completed : ℕ
  pub failed : ℕ
  pub delayed : ℕ
  pub waiting : ℕ

-- A queue: each call may throw, and changes the queue's state.
pub record Queue : Type 1 where
  pub State : Type 0
  pub get_job_counts : State → Result Counts × State
  pub get_state_counts : State → Result StateCounts × State
  pub add : (name job_id : Text) → (payload : Json) → State → Result Job × State

-- What BullMQ documents of `add`: the job that it returns has the given name, ID and payload, and the
-- number of attempts of the queue's default options.
pub record ReturnsJob (q : Queue) : Type 0 where
  pub added :
      (name job_id : Text) (payload : Json) (s : q.State) (job : Job)
      → (q.add name job_id payload s).0 ≡ ok job
      → (job.name ≡ name)
        × (job.id ≡ some job_id)
        × (job.payload ≡ payload)
        × (job.attempts ≡ some default_attempts)
