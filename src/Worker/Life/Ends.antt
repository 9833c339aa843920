-- ===== src/Worker/Life/Ends.antt =====
-- How a job ends.
use task_queue_system.Prelude.{
  ℕ, suc, ◌+◌, ◌≤◌, ◌<◌, ◌≡◌, ◌⊎◌, refl, inl, inr, [], ◌∷◌, Text, List, Option, none, some, true,
  Bool-cases, arith, length, leb, subst, sym, ◌∙◌,
}
use task_queue_system.Config.{Config}
use task_queue_system.Failure.{Failure, Result, ok, throws, plain}
use task_queue_system.Metrics.{count}
use task_queue_system.Dashboard.Cache.{invalidate_dashboard_snapshot}
use task_queue_system.Schema.{email_notification, webhook_delivery, JobExecutionResult}
use task_queue_system.Schema.Zod.{Zod}
use task_queue_system.Storage.{Row, has_been_processed}
use task_queue_system.Queue.{Job, Queue}
use task_queue_system.Processors.{JsonText, Store}
use task_queue_system.Worker.{
  Floor, run_job, on_failed, on_completed, max_attempts, Moment, add_report,
}
use task_queue_system.Worker.Failures.{
  at_attempt, IsPending, IsExhausted, attempts_failed, note_failure-IsPending, routed_ends,
}
use task_queue_system.Worker.Life.{
  Attempt, Plant, store_of, handled, attempt, attempt_all, or_retry,
}
use task_queue_system.Worker.Life.Runs.{record_schema_of, HasKey, RunEnds, run_job-RunEnds}

module _ (q : Queue) (jt : JsonText) (z : Zod) (c : Config)
    (call : Text → Job → Result JobExecutionResult) (job : Job) where
  -- The last of the attempts after `n` others threw this error in its run, and the `failed` handler ran
  -- at this moment.
  abbrev pub IsLastOf : ℕ → List Attempt → Plant q → Failure → Moment → Type 0
  IsLastOf n [] p e m = ⊥
  IsLastOf n (a ∷ []) p e m =
      ((run_job jt a.readings z c call (at_attempt job n) (store_of q p)).0 ≡ throws e)
      × (m ≡ a.moment)
  IsLastOf n (a ∷ b ∷ rest) p e m =
      IsLastOf (suc n) (b ∷ rest) (attempt q jt z c call job n a p).1 e m

module _ (q : Queue) (jt : JsonText) (z : Zod) (job : Job) where
  -- After `n` failed attempts.
  abbrev Waits : ℕ → Plant q → Plant q → Type 0
  Waits n p0 p =
      ((e : ℕ → Failure) (m : ℕ → Moment) → IsPending q jt job e m n p0.floor p.floor)
      × (length p.sent ≤ n + length p0.sent)

  -- The job's last attempt returned: fewer attempts than its `attempts` failed, and each was counted;
  -- the dead letter queue was left alone; the key of the result is processed; and each attempt sent
  -- one request at most.
  pub record IsCompleted (p0 : Plant q) (res : JobExecutionResult) (p : Plant q) : Type 0 where
    pub failures : ℕ
    pub few : failures < max_attempts job
    pub counted : attempts_failed p.floor ≡ failures + attempts_failed p0.floor
    pub stale : p.floor.board.current_generation ≡ suc failures + p0.floor.board.current_generation
    pub dlq : p.floor.dlq ≡ p0.floor.dlq
    pub key : HasKey (z.parse (record_schema_of job.name) job.payload) res
    pub processed : has_been_processed job.name res.idempotency_key p.floor.rows ≡ true
    pub requests : length p.sent ≤ suc failures + length p0.sent

  -- The job failed at its `n` attempts, the last one with the error and at the moment that `IsLast`
  -- says.
  pub record IsGivenUp (IsLast : Failure → Moment → Type 0) (n : ℕ) (p0 p : Plant q) : Type 0 where
    pub last_error : Failure
    pub last_moment : Moment
    pub last : IsLast last_error last_moment
    pub exhausted : IsExhausted q jt job (λ k. last_error) (λ k. last_moment) n p0.floor p.floor
    pub requests : length p.sent ≤ n + length p0.sent

  abbrev pub IsEnd :
      (Failure → Moment → Type 0) → Plant q → Option JobExecutionResult × Plant q → Type 0
  IsEnd IsLast p0 (some res, p) = IsCompleted p0 res p
  IsEnd IsLast p0 (none, p) = IsGivenUp IsLast (max_attempts job) p0 p

  handled-IsCompleted :
      (n : ℕ) (a : Attempt) (p0 p : Plant q) (res : JobExecutionResult) (s : Store)
      → Waits n p0 p
      → n < max_attempts job
      → RunEnds
          (z.parse (record_schema_of job.name) job.payload)
          job.name
          (store_of q p)
          (ok res, s)
      → IsCompleted p0 res (handled q jt job n a p (ok res, s)).1
  unfolding handled on_completed add_report invalidate_dashboard_snapshot attempts_failed count
  handled-IsCompleted n a p0 p res s (pending, requests) few (key, processed, one) =
      let i = pending (λ k. plain []) (λ k. a.moment) in
      record {
        failures = n;
        few = few;
        counted = omega (arith, i.counted);
        stale = omega (arith, i.generation);
        dlq = i.dlq;
        key = key;
        processed = processed;
        requests = omega (arith, requests, one);
      }

  -- The floor as a failed run leaves it, before its event.
  stored-IsPending :
      (e : ℕ → Failure) (m : ℕ → Moment) (n : ℕ) (f0 f : Floor q) (rows : List Row)
      → rows ≡ f.rows
      → IsPending q jt job e m n f0 f
      → IsPending q jt job e m n f0 (record f { rows = rows })
  unfolding attempts_failed
  stored-IsPending e m n f0 f rows same i = record {
    rows = same ∙ i.rows;
    dlq = i.dlq;
    counted = i.counted;
    generation = i.generation;
  }

  handled-Waits :
      (n : ℕ) (a : Attempt) (p0 p : Plant q) (err : Failure) (s : Store)
      → Waits n p0 p
      → suc n < max_attempts job
      → RunEnds
          (z.parse (record_schema_of job.name) job.payload)
          job.name
          (store_of q p)
          (throws err, s)
      → Waits (suc n) p0 (handled q jt job n a p (throws err, s)).1
  unfolding handled on_failed max_attempts
  handled-Waits n a p0 p err s (pending, requests) few (same, one) =
      elim (Bool-cases (leb (max_attempts job) (suc n))) [
        | inl full ↦ absurd (ground arith)
        | inr room ↦ rw room (
          (λ e m.
              note_failure-IsPending q jt job e m _ err n p0.floor _
                (stored-IsPending e m n p0.floor p.floor s.rows same (pending e m))),
          omega (arith, requests, one),
        )
      ]

  handled-IsGivenUp :
      (n : ℕ) (a : Attempt) (p0 p : Plant q) (err : Failure) (s : Store)
      → Waits n p0 p
      → max_attempts job ≡ suc n
      → RunEnds
          (z.parse (record_schema_of job.name) job.payload)
          job.name
          (store_of q p)
          (throws err, s)
      → (IsLast : Failure → Moment → Type 0) → IsLast err a.moment
      → IsGivenUp IsLast (suc n) p0 (handled q jt job n a p (throws err, s)).1
  unfolding handled on_failed max_attempts
  handled-IsGivenUp n a p0 p err s (pending, requests) last (same, one) IsLast is_last =
      let e = λ (k : ℕ). err in
      let m = λ (k : ℕ). a.moment in
      elim (Bool-cases (leb (max_attempts job) (suc n))) [
        | inl full ↦ rw full record {
          last_error = err;
          last_moment = a.moment;
          last = is_last;
          exhausted = routed_ends q jt job e m (suc n) p0.floor _ (
              note_failure-IsPending q jt job e m _ err n p0.floor _
                (stored-IsPending e m n p0.floor p.floor s.rows same (pending e m)));
          requests = omega (arith, requests, one);
        }
        | inr room ↦ absurd (ground arith)
      ]

  module _ (c : Config) (call : Text → Job → Result JobExecutionResult)
      (known : (job.name ≡ email_notification) ⊎ (job.name ≡ webhook_delivery)) (p0 : Plant q) where
    abbrev Ends : ℕ → List Attempt → Plant q → Type 0
    Ends n attempts p =
        IsEnd (IsLastOf q jt z c call job n attempts p) p0
          (attempt_all q jt z c call job n attempts p)

    or_retry-IsEnd :
        (n : ℕ) (a : Attempt) (rest : List Attempt) (p : Plant q)
        (o : Result JobExecutionResult × Store)
        → run_job jt a.readings z c call (at_attempt job n) (store_of q p) ≡ o
        → RunEnds (z.parse (record_schema_of job.name) job.payload) job.name (store_of q p) o
        → Waits n p0 p
        → n + length (a ∷ rest) ≡ max_attempts job
        → ((p' : Plant q) → Waits (suc n) p0 p' → suc n < max_attempts job → Ends (suc n) rest p')
        → IsEnd
            (IsLastOf q jt z c call job n (a ∷ rest) p)
            p0
            (or_retry q (attempt_all q jt z c call job (suc n) rest) (handled q jt job n a p o))
    unfolding or_retry handled attempt_all attempt
    or_retry-IsEnd n a rest p (ok res, s) ran ends w all next =
        handled-IsCompleted n a p0 p res s w (omega (arith, all)) ends
    or_retry-IsEnd n a [] p (throws e, s) ran ends w all next =
        let IsLast = IsLastOf q jt z c call job n (a ∷ []) p in
        subst (λ k. IsGivenUp IsLast k p0 (handled q jt job n a p (throws e, s)).1)
          (omega (arith, all))
          (handled-IsGivenUp n a p0 p e s w (omega (arith, all)) ends IsLast (rw ran refl, refl))
    or_retry-IsEnd n a (b ∷ rest) p (throws e, s) ran ends w all next =
        let p' = (handled q jt job n a p (throws e, s)).1 in
        subst
          (λ (o : Result JobExecutionResult × Store).
            IsEnd (IsLastOf q jt z c call job (suc n) (b ∷ rest) (handled q jt job n a p o).1) p0
              (attempt_all q jt z c call job (suc n) (b ∷ rest) p'))
          (sym ran)
          (next p' (handled-Waits n a p0 p e s w (omega (arith, all)) ends) (omega (arith, all)))

    attempt_all-Ends :
        (n : ℕ) (attempts : List Attempt) (p : Plant q)
        → Waits n p0 p
        → n < max_attempts job
        → n + length attempts ≡ max_attempts job
        → Ends n attempts p
    unfolding attempt_all attempt
    attempt_all-Ends n [] p w more all = absurd (omega (arith, more, all))
    attempt_all-Ends n (a ∷ rest) p w more all =
        or_retry-IsEnd n a rest p (run_job jt a.readings z c call (at_attempt job n) (store_of q p))
          refl (run_job-RunEnds jt a.readings z c call (at_attempt job n) (store_of q p) known) w
          all (λ p' w' more'. attempt_all-Ends (suc n) rest p' w' more' (omega (arith, all)))

    some_attempts : 0 < max_attempts job
    unfolding max_attempts
    some_attempts = grind arith

-- An email or a webhook job is run for as many attempts as its `attempts` says, each with its event,
-- whatever the attempts meet. Either one of them returns, after fewer failures than that: each failure
-- was counted, the dead letter queue was left alone, the result is of
-- the key in the job's payload, and that key is processed. Or all fail:
-- each was counted, and the dead letter queue was asked once to add the job's entry, with the error
-- that the run of the last attempt threw. Each attempt sends one request at most, and makes the dashboard's snapshots stale.
pub attempt_all-IsEnd :
    (q : Queue) (jt : JsonText) (z : Zod) (c : Config)
    (call : Text → Job → Result JobExecutionResult) (job : Job) (attempts : List Attempt)
    (p : Plant q)
    → (job.name ≡ email_notification) ⊎ (job.name ≡ webhook_delivery)
    → length attempts ≡ max_attempts job
    → IsEnd q jt z job
        (IsLastOf q jt z c call job 0 attempts p)
        p
        (attempt_all q jt z c call job 0 attempts p)
unfolding attempts_failed
attempt_all-IsEnd q jt z c call job attempts p known all =
    attempt_all-Ends q jt z job c call known p 0 attempts p
      (
        λ e m. record { rows = refl; dlq = refl; counted = omega arith; generation = omega arith },
        omega arith,
      )
      (some_attempts q jt z job c call known p) (omega (arith, all))
