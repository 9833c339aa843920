-- ===== src/Processors/Overlap.antt =====
-- processors/webhook.processor.ts split at its `await fetch`: runs of several jobs overlap, up to
-- the worker's concurrency, while their requests are under way, and the `failed` handler of
-- workers/task.worker.ts writes to the store in between.
pub mod Sequential
pub mod Ends
pub mod Bound
mod Tests
use task_queue_system.Prelude.{
  ℕ, suc, zero, [], ◌∷◌, txt, List, Option, none, some, Bool, true, false, ltb, leb, Text, length,
  if◌then◌else◌,
}
use task_queue_system.Prelude.Dict.{Dict}
use task_queue_system.Config.{Config}
use task_queue_system.Json.{Json, text, object}
use task_queue_system.Failure.{Failure, Result, ok, throws, zod_error, message_of}
use task_queue_system.Schema.{webhook_delivery, webhook_job_record_schema, JobExecutionResult}
use task_queue_system.Schema.Zod.{Zod, Parsed, valid, invalid}
use task_queue_system.Storage.{has_been_processed, record_failure}
use task_queue_system.Queue.{Job}
use task_queue_system.Producer.{text_at}
use task_queue_system.Worker.{Moment, max_attempts, failed_key}
use task_queue_system.Processors.{
  JsonText, Readings, Store, guarded, replay, request_of, send, after_fetch, process_email_job,
}

-- What a run comes to before it waits, if it does.
pub data Begun : Type 0 where
  ended : Result JobExecutionResult → Begun
  awaits : Dict Json → Begun

module _ (jt : JsonText) (r : Readings) (c : Config) where
  begin_checked : Dict Json → Store → Result Bool → Begun × Store
  unfolding replay request_of send
  begin_checked d s (throws e) = (ended (throws e), s)
  begin_checked d s (ok true) =
      (ended (replay jt r webhook_delivery (text_at (txt "idempotencyKey") d) s.rows), s)
  begin_checked d s (ok false) = (awaits d, send jt r (request_of jt r c d) s)

  pub begin_parsed : Parsed → Store → Begun × Store
  unfolding begin_checked guarded
  begin_parsed (invalid issues message) s = (ended (throws (zod_error issues message)), s)
  begin_parsed (valid d) s = begin_checked d s (
      guarded r.read_fault
        (has_been_processed webhook_delivery (text_at (txt "idempotencyKey") d) s.rows))

  -- Up to and with the call of `fetch`.
  unfoldable pub begin_webhook_job : Zod → Job → Store → Begun × Store
  unfolding begin_parsed
  begin_webhook_job z job s = begin_parsed (z.parse webhook_job_record_schema job.payload) s

  -- From the answer of `fetch` on.
  pub finish_webhook_job : Dict Json → Store → Result JobExecutionResult × Store
  unfolding after_fetch
  finish_webhook_job d s = after_fetch jt r d s r.fetched

  -- A run with nothing in between.
  pub resume : Begun × Store → Result JobExecutionResult × Store
  unfolding finish_webhook_job
  resume (ended res, s) = (res, s)
  resume (awaits d, s) = finish_webhook_job d s

pub record Awaiting : Type 0 where
  pub readings : Readings
  pub data_ : Dict Json

-- The worker: the store, the runs that await `fetch`, and the results of those that ended.
pub record Running : Type 0 where
  pub store : Store
  pub awaiting : List Awaiting
  pub results : List JobExecutionResult

-- `finishes n` lets the n-th of the waiting runs go on. An email job has no `await` and runs at once.
-- `gives_up job e m` is the `failed` event of a job, with what the handler reads of its surroundings.
pub data Event : Type 0 where
  begins mails : Readings → Job → Event
  finishes : ℕ → Event
  gives_up : Job → Failure → Moment → Event

keep_first {ℓ} : {A : Type ℓ} → A → Option (A × List A) → Option (A × List A)
keep_first x none = none
keep_first x (some (y, ys)) = some (y, x ∷ ys)

pub take_at {ℓ} : {A : Type ℓ} → ℕ → List A → Option (A × List A)
unfolding keep_first
take_at n [] = none
take_at zero (x ∷ xs) = some (x, xs)
take_at (suc n) (x ∷ xs) = keep_first x (take_at n xs)

note_begun : Readings → Running → Begun × Store → Running
note_begun r w (ended (throws e), s) = record w { store = s }
note_begun r w (ended (ok res), s) = record w { store = s; results = res ∷ w.results }
note_begun r w (awaits d, s) = record w {
  store = s;
  awaiting = record { readings = r; data_ = d } ∷ w.awaiting;
}

note_finished : Running → Result JobExecutionResult × Store → Running
note_finished w (throws e, s) = record w { store = s }
note_finished w (ok res, s) = record w { store = s; results = res ∷ w.results }

module _ (jt : JsonText) (z : Zod) (c : Config) where
  finish_at : Running → Option (Awaiting × List Awaiting) → Running
  unfolding finish_webhook_job note_finished
  finish_at w none = w
  finish_at w (some (a, rest)) =
      note_finished (record w { awaiting = rest })
        (finish_webhook_job jt a.readings c a.data_ w.store)

  -- What the `failed` handler does to the store: the record of a terminal failure, which also
  -- overwrites a completed one.
  record_given_up : Job → Failure → Moment → Option Text → Option Failure → Running → Running
  record_given_up job e m none fault w = w
  record_given_up job e m (some key) (some _) w = w
  record_given_up job e m (some key) none w = record w {
    store = record w.store {
      rows =
          record_failure key job.name
            (jt.stringify (object ((txt "error", text (message_of e)) ∷ []))) m.recorded_at
            w.store.rows;
    };
  }

  -- BullMQ starts no job beyond `concurrency`.
  unfoldable pub step : Running → Event → Running
  unfolding note_begun finish_at record_given_up
  step w (begins r job) =
      if ltb (length w.awaiting) c.worker_concurrency
      then note_begun r w (begin_webhook_job jt r c z job w.store)
      else w
  step w (mails r job) = record w { store = (process_email_job jt r z job w.store).1 }
  step w (finishes n) = finish_at w (take_at n w.awaiting)
  step w (gives_up job e m) =
      if leb (max_attempts job) job.attempts_made
      then record_given_up job e m (failed_key job.payload) m.record_fault w
      else w

  unfoldable pub steps : Running → List Event → Running
  unfolding step
  steps w [] = w
  steps w (x ∷ xs) = steps (step w x) xs
