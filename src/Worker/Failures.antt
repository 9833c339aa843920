-- ===== src/Worker/Failures.antt =====
-- A job that fails at every attempt, from the first to the last.
use task_queue_system.Prelude.{
  ℕ, zero, suc, ◌+◌, ◌≤◌, ◌<◌, ◌≡◌, refl, inl, inr, ◌++◌, Text, txt, List, Option, none, some, leb,
  Bool-cases, arith, ap, ◌∙◌, [], ◌∷◌,
}
use task_queue_system.Json.{object, text}
use task_queue_system.Failure.{Failure, Result, ok, throws, message_of}
use task_queue_system.Metrics.{count, is_failed_attempt}
use task_queue_system.Dashboard.Cache.{invalidate_dashboard_snapshot}
use task_queue_system.Storage.{Row, record_failure}
use task_queue_system.Queue.{Job, Queue}
use task_queue_system.Processors.{JsonText}
use task_queue_system.Worker.{
  Floor, Moment, on_failed, note_failure, record_terminal, send_to_dlq, after_dlq_add, max_attempts,
  failed_key, dlq_payload, dlq_job_id, add_report,
}

-- The job as the `failed` event of its n-th attempt shows it.
abbrev pub at_attempt : Job → ℕ → Job
at_attempt job n = record job { attempts_made = n }

unfoldable pub attempts_failed : {q : Queue} → Floor q → ℕ
attempts_failed {q} f = count is_failed_attempt f.board.reports

module _ (q : Queue) (jt : JsonText) (job : Job) (e : ℕ → Failure) (m : ℕ → Moment) where
  -- The rows after a last failure: the failure is recorded if there is a key and no fault.
  abbrev pub recorded_rows : Option Text → Failure → Moment → Option Failure → List Row → List Row
  recorded_rows none err at fault rows = rows
  recorded_rows (some key) err at (some _) rows = rows
  recorded_rows (some key) err at none rows =
      record_failure key job.name
        (jt.stringify (object ((txt "error", text (message_of err)) ∷ []))) at.recorded_at rows

  -- The handler's calls for the attempts 1 to n.
  pub fail_up_to : ℕ → Floor q → Floor q
  fail_up_to zero f = f
  fail_up_to (suc n) f =
      on_failed q jt (some (at_attempt job (suc n))) (e (suc n)) (m (suc n)) (fail_up_to n f)

  -- The attempts before the last are counted, and change nothing but the board.
  pub record IsPending (n : ℕ) (f f' : Floor q) : Type 0 where
    pub rows : f'.rows ≡ f.rows
    pub dlq : f'.dlq ≡ f.dlq
    pub counted : attempts_failed f' ≡ n + attempts_failed f
    pub generation : f'.board.current_generation ≡ n + f.board.current_generation

  pub note_failure-IsPending :
      (job_name : Text) (err : Failure) (n : ℕ) (f f' : Floor q)
      → IsPending n f f'
      → IsPending (suc n) f (note_failure q jt job_name err f')
  unfolding note_failure add_report invalidate_dashboard_snapshot attempts_failed count
  note_failure-IsPending job_name err n f f' p = record {
    rows = p.rows;
    dlq = p.dlq;
    counted = omega (arith, p.counted);
    generation = omega (arith, p.generation);
  }

  early : (n : ℕ) (f : Floor q) → n < max_attempts job → IsPending n f (fail_up_to n f)
  unfolding fail_up_to on_failed max_attempts attempts_failed
  early zero f h = record {
    rows = refl;
    dlq = refl;
    counted = omega arith;
    generation = omega arith;
  }
  early (suc n) f h = elim (Bool-cases (leb (max_attempts job) (suc n))) [
    | inl full ↦ absurd (ground arith)
    | inr room ↦ rw room (note_failure-IsPending _ _ n f (fail_up_to n f) (early n f (omega arith)))
  ]

  -- Every attempt is counted, the dead letter queue was asked once to add the job's entry, which has
  -- the last error, and the failure is recorded if the job has a key and SQLite takes the record.
  pub record IsExhausted (n : ℕ) (f f' : Floor q) : Type 0 where
    pub counted : attempts_failed f' ≡ n + attempts_failed f
    pub generation : n + f.board.current_generation ≤ f'.board.current_generation
    pub entry_id : Text
    pub routed :
        f'.dlq
        ≡ (q.add
            (txt "DLQ_" ++ job.name)
            entry_id
            (dlq_payload (at_attempt job n) (e n) (m n).failed_at)
            f.dlq).1
    pub recorded :
        f'.rows ≡ recorded_rows (failed_key job.payload) (e n) (m n) (m n).record_fault f.rows

  after_add-board :
      (f : Floor q) (r : Result Job × q.State)
      → ((after_dlq_add q f r).dlq ≡ r.1)
        × ((after_dlq_add q f r).rows ≡ f.rows)
        × (attempts_failed (after_dlq_add q f r) ≡ attempts_failed f)
        × (f.board.current_generation ≤ (after_dlq_add q f r).board.current_generation)
  unfolding after_dlq_add invalidate_dashboard_snapshot attempts_failed
  after_add-board f (throws err, dlq) = (refl, refl, refl, omega arith)
  after_add-board f (ok entry, dlq) = (refl, refl, refl, omega arith)

  after_record :
      (n : ℕ) (key : Option Text) (fault : Option Failure) (f : Floor q)
      → ((record_terminal q jt (at_attempt job n) (e n) (m n) key fault f).dlq ≡ f.dlq)
        × ((record_terminal q jt (at_attempt job n) (e n) (m n) key fault f).board ≡ f.board)
        × ((record_terminal q jt (at_attempt job n) (e n) (m n) key fault f).rows
            ≡ recorded_rows key (e n) (m n) fault f.rows)
  unfolding record_terminal
  after_record n none fault f = (refl, refl, refl)
  after_record n (some key) (some err) f = (refl, refl, refl)
  after_record n (some key) none f = (refl, refl, refl)

  pub routed_ends :
      (n : ℕ) (f f' : Floor q)
      → IsPending n f f'
      → IsExhausted n f (
          send_to_dlq q (at_attempt job n) (e n) (m n) (
            record_terminal q jt
              (at_attempt job n)
              (e n)
              (m n)
              (failed_key job.payload)
              (m n).record_fault
              f'))
  unfolding send_to_dlq attempts_failed
  routed_ends n f f' p =
      let g =
        record_terminal q jt (at_attempt job n) (e n) (m n) (failed_key job.payload)
          (m n).record_fault f' in
      let add =
        q.add (txt "DLQ_" ++ job.name) (dlq_job_id q (at_attempt job n) (m n))
          (dlq_payload (at_attempt job n) (e n) (m n).failed_at) in
      let (dlq, board, rows) = after_record n (failed_key job.payload) (m n).record_fault f' in
      let (dlq', rows', reports', grows) = after_add-board g (add g.dlq) in
      record {
        counted = reports' ∙ (ap (λ b. count is_failed_attempt b.reports) board ∙ p.counted);
        generation = omega (arith, grows, ap (λ b. b.current_generation) board, p.generation);
        entry_id = dlq_job_id q (at_attempt job n) (m n);
        routed = dlq' ∙ ap (λ d. (add d).1) (dlq ∙ p.dlq);
        recorded =
            rows'
            ∙ (rows
                ∙ ap (recorded_rows (failed_key job.payload) (e n) (m n) (m n).record_fault)
                    p.rows);
      }

  last :
      (n : ℕ) (f : Floor q)
      → max_attempts job ≡ suc n
      → IsExhausted (suc n) f (fail_up_to (suc n) f)
  unfolding fail_up_to on_failed max_attempts
  last n f h = elim (Bool-cases (leb (max_attempts job) (suc n))) [
    | inl full ↦ rw full (
        routed_ends (suc n) f _
          (note_failure-IsPending _ _ n f (fail_up_to n f) (early n f (ground (arith, h)))))
    | inr room ↦ absurd (ground arith)
  ]

-- A job whose `failed` events come for each attempt before the last of its `attempts`: the attempts
-- are counted one by one, every event makes the snapshots stale, no record is written, and the dead
-- letter queue is left alone.
pub fail_up_to-IsPending :
    (q : Queue) (jt : JsonText) (job : Job) (e : ℕ → Failure) (m : ℕ → Moment) (n : ℕ) (f : Floor q)
    → n < max_attempts job
    → IsPending q jt job e m n f (fail_up_to q jt job e m n f)
fail_up_to-IsPending q jt job e m n f h = early q jt job e m n f h

-- A job that fails at every one of its `attempts`: each attempt is counted, the dead letter queue is
-- asked exactly once to add an entry, with the job's data and the last error, also when SQLite
-- refuses the record, and otherwise the failure is recorded under the job's name and key, if it has one.
pub fail_up_to-IsExhausted :
    (q : Queue) (jt : JsonText) (job : Job) (e : ℕ → Failure) (m : ℕ → Moment) (n : ℕ) (f : Floor q)
    → max_attempts job ≡ suc n
    → IsExhausted q jt job e m (suc n) f (fail_up_to q jt job e m (suc n) f)
fail_up_to-IsExhausted q jt job e m n f h = last q jt job e m n f h
