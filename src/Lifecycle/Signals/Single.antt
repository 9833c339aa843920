-- ===== src/Lifecycle/Signals/Single.antt =====
-- With one signal, the shutdown split at its awaits is the shutdown in one step.
use mathlib.Core.List.{append_assoc}
use task_queue_system.Prelude.{
  ℕ, zero, suc, ◌≡◌, ◌∙◌, inl, inr, refl, [], ◌∷◌, ◌++◌, List, Option, none, some, Bool-cases,
}
use task_queue_system.Lifecycle.{
  Effect, Process, Closing, Awaited, done, fails, hangs, exits, http_closed, task_queue_closed,
  dlq_closed, database_closed, worker_closed, redis_quit, redis_disconnected, graceful_shutdown,
  after, stop_worker, close_redis, quit_redis, closed_http,
}
use task_queue_system.Lifecycle.Signals.{
  Stage, at_http, at_task_queue, at_dlq, at_worker, at_quit, ends, Turn, stays, to_worker,
  after_http, after_worker, after_task_queue, to_redis, to_database, after_dlq, after_quit,
  take_turn, Shutdowns, ShutdownEvent, signal, resumes, put_at, settled, resumed, on_running,
  on_event, on_events, before_signals,
}

abbrev exit_of : Option ℕ → List Effect
exit_of none = []
exit_of (some code) = exits code ∷ []

-- What the process did: what it closed, and its exit.
abbrev pub done_by : Shutdowns → List Effect
done_by s = s.closed ++ exit_of s.code

-- The first sequence goes on so many times.
abbrev pub again : ℕ → Closing → List ShutdownEvent
again zero k = []
again (suc n) k = resumes 0 k ∷ again n k

abbrev alone : Stage → List Effect → Process → Shutdowns
alone stage log p = record { process = p; sequences = stage ∷ []; closed = log; code = none }

over_stays :
    (es : List ShutdownEvent) (p : Process) (xs : List Stage) (log : List Effect) (code : ℕ)
    → done_by
        (on_events es (record { process = p; sequences = xs; closed = log; code = some code }))
      ≡ log ++ exits code ∷ []
unfolding on_events on_event on_running
over_stays [] p xs log code = refl
over_stays (e ∷ es) p xs log code = over_stays es p xs log code

module _ (k : Closing) where
  -- What is done after a turn of the only sequence.
  abbrev turned : ℕ → Stage → List Effect → Process → Turn → List Effect
  turned n stage log p t = done_by (on_events (again n k) (settled 0 (alone stage log p) t t.next))

  ended :
      (n : ℕ) (stage : Stage) (log : List Effect) (p : Process) (effects : List Effect) (code : ℕ)
      (p' : Process)
      → turned n stage log p (stays effects (ends code) p') ≡ log ++ (effects ++ exits code ∷ [])
  unfolding settled stays
  ended n stage log p effects code p' =
      over_stays (again n k) p' (stage ∷ []) (log ++ effects) code
      ∙ append_assoc log effects (exits code ∷ [])

  quit_done :
      (n : ℕ) (r : ℕ) (log : List Effect) (p : Process) (a : Awaited)
      → turned n (at_quit r) log p (after_quit a r p) ≡ log ++ quit_redis a r (exits 0 ∷ [])
  unfolding after_quit quit_redis
  quit_done n r log p done = ended n (at_quit r) log p (redis_quit r ∷ []) 0 p
  quit_done n r log p fails = ended n (at_quit r) log p (redis_disconnected r ∷ []) 0 p
  quit_done n r log p hangs = ended n (at_quit r) log p [] 1 p

  redis_done :
      (n : ℕ) (stage : Stage) (log : List Effect) (p : Process) (more : List Effect) (r : Option ℕ)
      → turned (suc n) stage log p (to_redis k more r p)
        ≡ log ++ (more ++ close_redis k r (exits 0 ∷ []))
  unfolding to_redis close_redis
  redis_done n stage log p more none = ended (suc n) stage log p more 0 p
  redis_done n stage log p more (some r) = elim (Bool-cases k.client_ended) [
    | inl over ↦ simp over (ended (suc n) stage log p more 0 (record p { redis = none }))
    | inr alive ↦ simp alive (
        unfold stays settled put_at on_events on_event on_running resumed take_turn in
        quit_done n r (log ++ more) (record p { redis = none }) k.quit
        ∙ append_assoc log more (quit_redis k.quit r (exits 0 ∷ [])))
  ]

  abbrev last_part : Process → List Effect
  last_part p = close_redis k p.redis (exits 0 ∷ [])

  abbrev database_part : Process → List Effect
  database_part p = after k.database database_closed (last_part p)

  abbrev dlq_part : Process → List Effect
  dlq_part p = after k.dlq dlq_closed (database_part p)

  abbrev queues_part : Process → List Effect
  queues_part p = after k.task_queue task_queue_closed (dlq_part p)

  database_done :
      (n : ℕ) (log : List Effect) (p : Process) (a : Awaited)
      → turned (suc n) at_dlq log p (to_database k a p)
        ≡ log ++ dlq_closed ∷ after a database_closed (last_part p)
  unfolding to_database after
  database_done n log p done = redis_done n at_dlq log p (dlq_closed ∷ database_closed ∷ []) p.redis
  database_done n log p fails = ended (suc n) at_dlq log p (dlq_closed ∷ []) 1 p
  database_done n log p hangs = ended (suc n) at_dlq log p (dlq_closed ∷ []) 1 p

  dlq_done :
      (n : ℕ) (log : List Effect) (p : Process) (a : Awaited)
      → turned (suc n) at_dlq log p (after_dlq k a p) ≡ log ++ after a dlq_closed (database_part p)
  unfolding after_dlq after
  dlq_done n log p done = database_done n log p k.database
  dlq_done n log p fails = ended (suc n) at_dlq log p [] 1 p
  dlq_done n log p hangs = ended (suc n) at_dlq log p [] 1 p

  task_queue_done :
      (n : ℕ) (log : List Effect) (p : Process) (a : Awaited)
      → turned (suc (suc n)) at_task_queue log p (after_task_queue a p)
        ≡ log ++ after a task_queue_closed (dlq_part p)
  unfolding after_task_queue after stays settled put_at on_events on_event on_running resumed
      take_turn
  task_queue_done n log p done =
      dlq_done n (log ++ task_queue_closed ∷ []) p k.dlq
      ∙ append_assoc log (task_queue_closed ∷ []) (dlq_part p)
  task_queue_done n log p fails = ended (suc (suc n)) at_task_queue log p [] 1 p
  task_queue_done n log p hangs = ended (suc (suc n)) at_task_queue log p [] 1 p

  worker_done :
      (n : ℕ) (w : ℕ) (log : List Effect) (p : Process) (a : Awaited)
      → turned (suc (suc (suc n))) (at_worker w) log p (after_worker a w p)
        ≡ log ++ after a (worker_closed w) (queues_part p)
  unfolding after_worker after stays settled put_at on_events on_event on_running resumed take_turn
  worker_done n w log p done =
      task_queue_done n (log ++ worker_closed w ∷ []) (record p { worker = none }) k.task_queue
      ∙ append_assoc log (worker_closed w ∷ []) (queues_part p)
  worker_done n w log p fails = ended (suc (suc (suc n))) (at_worker w) log p [] 1 p
  worker_done n w log p hangs = ended (suc (suc (suc n))) (at_worker w) log p [] 1 p

  -- After the HTTP server was closed, with a worker and without one.
  closed_done :
      (p : Process) (w : Option ℕ)
      → done_by (on_events (again 4 k) (alone (to_worker w) (http_closed ∷ []) p))
        ≡ http_closed ∷ stop_worker k.worker w (queues_part p)
  unfolding to_worker stop_worker settled put_at on_events on_event on_running resumed take_turn
  closed_done p none = task_queue_done 1 (http_closed ∷ []) p k.task_queue
  closed_done p (some w) = worker_done 0 w (http_closed ∷ []) p k.worker

  http_done :
      (p : Process) (a : Awaited)
      → turned 4 at_http [] p (after_http a p)
        ≡ closed_http a (stop_worker k.worker p.worker (queues_part p))
  unfolding after_http closed_http stays settled put_at
  http_done p done = closed_done p p.worker
  http_done p fails = closed_done p p.worker
  http_done p hangs = ended 4 at_http [] p [] 1 p

-- After one signal, once its sequence went on at its five awaits: the process did what
-- `graceful_shutdown` says, its exit included.
pub one_signal :
    (k : Closing) (p : Process)
    → done_by (on_events (signal ∷ again 5 k) (before_signals p)) ≡ graceful_shutdown k p
unfolding on_events on_event on_running resumed take_turn graceful_shutdown
one_signal k p = http_done k p k.http
