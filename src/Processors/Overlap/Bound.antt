-- ===== src/Processors/Overlap/Bound.antt =====
-- How often a webhook with one key can be delivered, whatever the order of events.
use task_queue_system.Prelude.{
  ℕ, ◌+◌, ◌≤◌, ◌≡◌, ◌⊎◌, refl, inl, inr, [], ◌∷◌, Text, List, Option, none, some, Bool, true, false,
  Bool-cases, ltb, leb, ◌&&◌, if◌then◌else◌, subst, length, arith, text_eq, text_eq_iff,
  length-filter-le, ◌<◌,
}
use task_queue_system.Config.{Config}
use task_queue_system.Failure.{Failure, Result, ok, throws}
use task_queue_system.Schema.{
  email_notification, webhook_delivery, JobExecutionResult, email_job_record_schema,
  webhook_job_record_schema,
}
use task_queue_system.Schema.Zod.{Zod, Parsed}
use task_queue_system.Storage.{Row, has_been_processed, record_success, record_failure}
use task_queue_system.Storage.Records.{
  has_been_processed-record_success, has_been_processed-record_failure,
}
use task_queue_system.Processors.{JsonText, Readings, Store, replay}
use task_queue_system.Processors.Outcome.{EmailEnds, key_of, process_email_job-EmailEnds}
use task_queue_system.Queue.{Job}
use task_queue_system.Worker.{Moment, max_attempts, failed_key}
use task_queue_system.Processors.Overlap.{
  Begun, ended, awaits, begin_webhook_job, Awaiting, Running, Event, begins, mails, finishes,
  gives_up, record_given_up, take_at, note_begun, note_finished, finish_at, step, steps,
}
use task_queue_system.Processors.Overlap.Ends.{
  awaits_key, deliveries, under_way, Taken, take_at-Taken, BeginEnds, FinishEnds, begin_ends,
  finish_ends,
}

module _ (key : Text) where
  abbrev pub is_processed : List Row → Bool
  is_processed rows = has_been_processed webhook_delivery key rows

  -- `before` bounds the deliveries up to the last time that the key was made open again. Until one is
  -- recorded after that, there are no others; then no run begins, and the deliveries and the runs under
  -- way stay within the bound.
  record Bounded (most before : ℕ) (w : Running) : Type 0 where
    few : length w.awaiting ≤ most
    state :
        (deliveries key w.results ≤ before)
        ⊎ ((is_processed w.store.rows ≡ true)
            × (deliveries key w.results + under_way key w.awaiting ≤ before + most))

  widened :
      {most before later : ℕ} {w : Running}
      → before ≤ later
      → Bounded most before w
      → Bounded most later w
  widened le h = record {
    few = h.few;
    state = elim h.state [
      | inl few ↦ inl (omega (arith, few, le))
      | inr (k, b) ↦ inr (k, omega (arith, b, le))
    ];
  }

  processed_kept :
      (job_name key' stored now : Text) (rows : List Row)
      → is_processed rows ≡ true
      → is_processed (record_success key' job_name stored now rows) ≡ true
  processed_kept job_name key' stored now rows h =
      rw (has_been_processed-record_success job_name key' webhook_delivery key stored now rows, h)
        (ground arith)

  failure_kept :
      (job_name key' stored now : Text) (rows : List Row)
      → (text_eq job_name webhook_delivery && text_eq key' key) ≡ false
      → is_processed rows ≡ true
      → is_processed (record_failure key' job_name stored now rows) ≡ true
  failure_kept job_name key' stored now rows other h =
      rw (has_been_processed-record_failure job_name key' webhook_delivery key stored now rows, h)
        (ground (arith, other))

  under_way_le : (xs : List Awaiting) → under_way key xs ≤ length xs
  under_way_le xs = length-filter-le (awaits_key key) xs

  -- The runs of email jobs leave a processed webhook processed.
  email_kept :
      (jt : JsonText) (r : Readings) (parsed : Parsed) (s : Store)
      (o : Result JobExecutionResult × Store)
      → EmailEnds jt r parsed s o
      → is_processed s.rows ≡ true
      → is_processed o.1.rows ≡ true
  email_kept jt r parsed s (throws e, s') same h = rw same h
  email_kept jt r parsed s (ok res, s') (d, p, inl (replay, same)) h = rw same h
  email_kept jt r parsed s (ok res, s') (d, p, inr (done, sent)) h =
      rw done.stored (processed_kept email_notification (key_of d) _ r.recorded_at s.rows h)

  begun_Bounded :
      (most before : ℕ) (r : Readings) (w : Running) (o : Begun × Store)
      → BeginEnds w.store o
      → length w.awaiting < most
      → Bounded most before w
      → Bounded most before (note_begun r w o)
  unfolding note_begun
  begun_Bounded most before r w (ended (throws e), s) same l h = record {
    few = h.few;
    state = rw same h.state;
  }
  begun_Bounded most before r w (ended (ok res), s) (same, dup) l h = record {
    few = h.few;
    state = rw same (elim h.state [
      | inl none_yet ↦ inl (ground (arith, dup, none_yet))
      | inr (k, b) ↦ inr (k, ground (arith, dup, b))
    ]);
  }
  begun_Bounded most before r w (awaits d, s) (same, fresh) l h = record {
    few = l;
    state = rw same (elim h.state [
      | inl none_yet ↦ inl none_yet
      | inr (k, b) ↦ elim (Bool-cases (text_eq (key_of d) key)) [
        | inl mine ↦ absurd (both ((text_eq_iff (key_of d) key).0 mine) fresh k)
        | inr other ↦ inr (k, rw other b)
      ]
    ]);
  }
    where
      both :
          {key' : Text}
          → key' ≡ key
          → has_been_processed webhook_delivery key' w.store.rows ≡ false
          → is_processed w.store.rows ≡ true
          → ⊥
      both e a b = cc

  -- The run that goes on was under way, for this key or for another.
  finished_Bounded :
      (most before : ℕ) (w : Running) (a : Awaiting) (rest : List Awaiting)
      (o : Result JobExecutionResult × Store)
      → Taken key w.awaiting a rest
      → FinishEnds a.data_ w.store o
      → Bounded most before w
      → Bounded most before (note_finished (record w { awaiting = rest }) o)
  unfolding note_finished
  finished_Bounded most before w a rest (throws e, s) (l, u) same h = record {
    few = omega (arith, l, h.few);
    state =
        rw same (elim h.state [
          | inl none_yet ↦ inl none_yet
          | inr (k, b) ↦ inr (k, ground (arith, u, b))
        ]);
  }
  finished_Bounded most before w a rest (ok res, s) (l, u) (same_key, stored, now, written) h =
      record {
        few = omega (arith, l, h.few);
        state = elim (Bool-cases (text_eq (key_of a.data_) key)) [
          | inl mine ↦ inr (
            recorded ((text_eq_iff (key_of a.data_) key).0 mine),
            (elim h.state [
              | inl none_yet ↦
                  ground (arith, same_key, mine, u, l, none_yet, h.few, under_way_le rest)
              | inr (k, b) ↦ ground (arith, same_key, mine, u, b)
            ]),
          )
          | inr other ↦ elim h.state [
            | inl none_yet ↦ inl (ground (arith, same_key, other, none_yet))
            | inr (k, b) ↦ inr (
              rw written
                  (processed_kept webhook_delivery (key_of a.data_) stored now w.store.rows k),
              ground (arith, same_key, other, u, b),
            )
          ]
        ];
      }
    where
      recorded : key_of a.data_ ≡ key → is_processed s.rows ≡ true
      recorded e =
          rw
            (
              written,
              has_been_processed-record_success webhook_delivery (key_of a.data_) webhook_delivery
                  key stored now w.store.rows,
              e,
            )
            (ground (
              arith,
              (text_eq_iff key key).1 refl,
              (text_eq_iff webhook_delivery webhook_delivery).1 refl,
            ))

  module _ (jt : JsonText) (z : Zod) (c : Config) where
    -- Whether an event writes the record of a terminal failure of a webhook with the key.
    abbrev names : Job → Option Text → Bool
    names job none = false
    names job (some key') = text_eq job.name webhook_delivery && text_eq key' key

    abbrev pub reopens : Event → Bool
    reopens (gives_up job e m) = names job (failed_key job.payload)
    reopens (begins r job) = false
    reopens (mails r job) = false
    reopens (finishes n) = false

    -- The worker's concurrency, once for each event that may make the key open again.
    abbrev pub reopened : List Event → ℕ
    reopened [] = 0
    reopened (x ∷ xs) = (if reopens x then c.worker_concurrency else 0) + reopened xs

    record_given_up-Bounded :
        (before : ℕ) (job : Job) (e : Failure) (m : Moment) (o : Option Text)
        (fault : Option Failure) (w : Running)
        → Bounded c.worker_concurrency before w
        → Bounded c.worker_concurrency
            ((if names job o then c.worker_concurrency else 0) + before)
            (record_given_up jt z c job e m o fault w)
    unfolding record_given_up
    record_given_up-Bounded before job e m none fault w h = widened (omega arith) h
    record_given_up-Bounded before job e m (some key') (some f) w h = widened (ground arith) h
    record_given_up-Bounded before job e m (some key') none w h =
        elim (Bool-cases (text_eq job.name webhook_delivery && text_eq key' key)) [
          | inl mine ↦ rw mine (record {
            few = h.few;
            state = elim h.state [
              | inl few ↦ inl (omega (arith, few))
              | inr (k, b) ↦ inl (omega (arith, b))
            ];
          })
          | inr other ↦ rw other (
              widened {before = before} (omega arith) (record {
                few = h.few;
                state = elim h.state [
                  | inl few ↦ inl few
                  | inr (k, b) ↦
                      inr (failure_kept job.name key' _ m.recorded_at w.store.rows other k, b)
                ];
              }))
        ]

    finish_at-Bounded :
        (before : ℕ) (w : Running) (o : Option (Awaiting × List Awaiting))
        → ((a : Awaiting) (rest : List Awaiting) → o ≡ some (a, rest) → Taken key w.awaiting a rest)
        → Bounded c.worker_concurrency before w
        → Bounded c.worker_concurrency before (finish_at jt z c w o)
    unfolding finish_at
    finish_at-Bounded before w none taken h = h
    finish_at-Bounded before w (some (a, rest)) taken h =
        finished_Bounded c.worker_concurrency before w a rest _ (taken a rest refl)
          (finish_ends jt a.readings c a.data_ w.store) h

    begins-Bounded :
        (before : ℕ) (w : Running) (r : Readings) (job : Job)
        → Bounded c.worker_concurrency before w
        → Bounded c.worker_concurrency before (step jt z c w (begins r job))
    unfolding step begin_webhook_job
    begins-Bounded before w r job h =
        elim (Bool-cases (ltb (length w.awaiting) c.worker_concurrency)) [
          | inl free ↦ rw free (
              begun_Bounded c.worker_concurrency before r w _
                (begin_ends jt r c (z.parse webhook_job_record_schema job.payload) w.store)
                (ground (arith, free)) h)
          | inr full ↦ rw full h
        ]

    mails-Bounded :
        (before : ℕ) (w : Running) (r : Readings) (job : Job)
        → Bounded c.worker_concurrency before w
        → Bounded c.worker_concurrency before (step jt z c w (mails r job))
    unfolding step
    mails-Bounded before w r job h = record {
      few = h.few;
      state = elim h.state [
        | inl none_yet ↦ inl none_yet
        | inr (k, b) ↦ inr (
          email_kept jt r (z.parse email_job_record_schema job.payload) w.store _
              (process_email_job-EmailEnds jt r z job w.store) k,
          b,
        )
      ];
    }

    step-Bounded :
        (before : ℕ) (w : Running) (x : Event)
        → Bounded c.worker_concurrency before w
        → Bounded c.worker_concurrency
            ((if reopens x then c.worker_concurrency else 0) + before)
            (step jt z c w x)
    unfolding step begin_webhook_job
    step-Bounded before w (begins r job) h = widened (omega arith) (begins-Bounded before w r job h)
    step-Bounded before w (mails r job) h = widened (omega arith) (mails-Bounded before w r job h)
    step-Bounded before w (finishes n) h = widened (omega arith) (
        finish_at-Bounded before w (take_at n w.awaiting)
          (λ a rest e. take_at-Taken key n w.awaiting rest a e) h)
    step-Bounded before w (gives_up job e m) h =
        elim (Bool-cases (leb (max_attempts job) job.attempts_made)) [
          | inl last ↦
              rw last
                (record_given_up-Bounded before job e m (failed_key job.payload) m.record_fault w h)
          | inr retried ↦ rw retried (widened (ground arith) h)
        ]

    steps-Bounded :
        (xs : List Event) (before : ℕ) (w : Running)
        → Bounded c.worker_concurrency before w
        → Bounded c.worker_concurrency (reopened xs + before) (steps jt z c w xs)
    unfolding steps
    steps-Bounded [] before w h = widened (omega arith) h
    steps-Bounded (x ∷ xs) before w h =
        let more = if reopens x then c.worker_concurrency else 0 in
        subst (λ n. Bounded c.worker_concurrency n (steps jt z c (step jt z c w x) xs))
          (omega arith)
          (steps-Bounded xs (more + before) (step jt z c w x) (step-Bounded before w x h))

-- A worker that has just started on a store.
abbrev pub started : Store → Running
started s = record { store = s; awaiting = []; results = [] }

-- Whatever webhook and email jobs a worker runs and whichever of them fail, in whatever order they
-- begin, their requests are answered and their `failed` events are handled: for each key, the recorded
-- deliveries of webhooks and the requests still under way are together no more than the worker's
-- concurrency, once, and once more for each `failed` event of a webhook with that key, whose record of
-- a terminal failure makes the key open again. With a concurrency of 1 and no such event, a key is thus
-- delivered and recorded at most once.
pub deliveries_bounded :
    (jt : JsonText) (z : Zod) (c : Config) (s : Store) (xs : List Event) (key : Text)
    → let w = steps jt z c (started s) xs in
      deliveries key w.results + under_way key w.awaiting
      ≤ c.worker_concurrency + reopened key jt z c xs
deliveries_bounded jt z c s xs key =
    let w = steps jt z c (started s) xs in
    let h =
      steps-Bounded key jt z c xs 0 (started s)
        (record { few = omega arith; state = inl (omega arith) }) in
    elim h.state [
      | inl few ↦ omega (arith, few, h.few, under_way_le key w.awaiting)
      | inr (k, b) ↦ omega (arith, b)
    ]
