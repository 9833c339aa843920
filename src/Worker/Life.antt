-- ===== src/Worker/Life.antt =====
-- The attempts of one job: each is a run of the worker's function, with the `completed` or the `failed`
-- handler after it. BullMQ makes them, one by one; the list of them is an argument.
pub mod Runs
pub mod Boards
pub mod Ends
pub mod Accepted
mod Tests
use task_queue_system.Prelude.{ℕ, suc, [], ◌∷◌, List, Option, none, some, Text}
use task_queue_system.Config.{Config}
use task_queue_system.Failure.{Failure, Result, ok, throws}
use task_queue_system.Schema.{JobExecutionResult}
use task_queue_system.Schema.Zod.{Zod}
use task_queue_system.Queue.{Job, Queue}
use task_queue_system.Processors.{JsonText, Readings, Outgoing, Store}
use task_queue_system.Worker.{Floor, Moment, run_job, on_completed, on_failed}
use task_queue_system.Worker.Failures.{at_attempt}

-- What an attempt reads of its surroundings, in its run and in the `failed` handler.
pub record Attempt : Type 0 where
  pub readings : Readings
  pub moment : Moment

module _ (q : Queue) where
  -- The worker's state with the HTTP requests that were sent.
  pub record Plant : Type 0 where
    pub floor : Floor q
    pub sent : List Outgoing

  abbrev pub store_of : Plant → Store
  store_of p = record { rows = p.floor.rows; sent = p.sent }

  abbrev pub with_store : Store → Plant → Plant
  with_store s p = record { floor = record p.floor { rows = s.rows }; sent = s.sent }

  pub or_retry :
      (Plant → Option JobExecutionResult × Plant)
      → Result JobExecutionResult × Plant
      → Option JobExecutionResult × Plant
  or_retry again (ok res, p) = (some res, p)
  or_retry again (throws e, p) = again p

  module _ (jt : JsonText) (job : Job) where
    -- The event that BullMQ emits after a run, with the attempts counted up to it.
    unfoldable pub handled :
        ℕ → Attempt → Plant → Result JobExecutionResult × Store → Result JobExecutionResult × Plant
    handled n a p (ok res, s) =
        let p' = with_store s p in
        (
          ok res,
          record p' {
            floor = record p'.floor { board = on_completed (at_attempt job n) res p'.floor.board };
          },
        )
    handled n a p (throws e, s) =
        let p' = with_store s p in
        (
          throws e,
          record p' { floor = on_failed q jt (some (at_attempt job (suc n))) e a.moment p'.floor },
        )

  module _ (jt : JsonText) (z : Zod) (c : Config) (call : Text → Job → Result JobExecutionResult)
      (job : Job) where
    -- The attempt after `n` others.
    unfoldable pub attempt : ℕ → Attempt → Plant → Result JobExecutionResult × Plant
    unfolding handled
    attempt n a p =
        handled jt job n a p (run_job jt a.readings z c call (at_attempt job n) (store_of p))

    -- The attempts after `n` others, up to the first that returns.
    pub attempt_all : ℕ → List Attempt → Plant → Option JobExecutionResult × Plant
    unfolding attempt or_retry
    attempt_all n [] p = (none, p)
    attempt_all n (a ∷ rest) p = or_retry (λ p'. attempt_all (suc n) rest p') (attempt n a p)
