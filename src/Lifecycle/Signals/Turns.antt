-- ===== src/Lifecycle/Signals/Turns.antt =====
-- What one turn of a shutdown leaves, whatever the others have done.
use mathlib.Core.List.{Memᴰ}
use mathlib.Core.List.Memᴰ
use task_queue_system.Prelude.{
  ℕ, suc, ◌≡◌, ◌⊎◌, inl, inr, refl, sym, subst, arith, [], ◌∷◌, ◌++◌, List, Option, none, some,
  Bool-cases, All, All-map, arith,
}
use task_queue_system.Lifecycle.{
  Effect, Process, Closing, Awaited, done, fails, hangs, http_closed, task_queue_closed, dlq_closed,
  database_closed, worker_closed, redis_quit, redis_disconnected,
}
use task_queue_system.Lifecycle.Shutdown.{worker_order}
use task_queue_system.Lifecycle.Signals.{
  Stage, at_http, at_task_queue, at_dlq, at_worker, at_quit, NextStage, goes_on, ends, Turn, stays,
  to_worker, after_http, after_worker, after_task_queue, to_redis, to_database, after_dlq,
  after_quit, take_turn,
}

abbrev pub AreIn : List Effect → List Effect → Type 0
AreIn log parts = All (λ e. Memᴰ e log) parts

AreIn-append : (log more parts : List Effect) → AreIn log parts → AreIn (log ++ more) parts
AreIn-append log more parts h = All-map parts (λ e m. Memᴰ.append_left more m) h

-- The worker that there was at the first signal is the first argument.
abbrev worker_part : Option ℕ → List Effect
worker_part w = worker_order w (http_closed ∷ [])

abbrev queues_part : Option ℕ → List Effect
queues_part w = dlq_closed ∷ task_queue_closed ∷ worker_part w

-- All parts that a shutdown closes, but for the Redis client.
abbrev pub parts : Option ℕ → List Effect
parts w = database_closed ∷ queues_part w

module _ (w : Option ℕ) where
  -- What was closed before a sequence comes to a stage.
  abbrev pub Reached : List Effect → Stage → Type 0
  Reached log at_http = Unit {0}
  Reached log (at_worker v) = (w ≡ some v) × AreIn log (http_closed ∷ [])
  Reached log at_task_queue = AreIn log (worker_part w)
  Reached log at_dlq = AreIn log (task_queue_closed ∷ worker_part w)
  Reached log (at_quit r) = AreIn log (parts w)

  abbrev pub ReachedNext : List Effect → NextStage → Type 0
  ReachedNext log (goes_on stage) = Reached log stage
  ReachedNext log (ends code) = code ≡ 0 → AreIn log (parts w)

  -- The worker is there, or it was closed.
  abbrev pub HasWorker : List Effect → Option ℕ → Type 0
  HasWorker log v = (v ≡ w) ⊎ ((v ≡ none) × AreIn log (worker_order w []))

  pub Reached-append :
      (log more : List Effect) (stage : Stage) → Reached log stage → Reached (log ++ more) stage
  Reached-append log more at_http h = tt
  Reached-append log more (at_worker v) h = (h.0, AreIn-append log more (http_closed ∷ []) h.1)
  Reached-append log more at_task_queue h = AreIn-append log more (worker_part w) h
  Reached-append log more at_dlq h = AreIn-append log more (task_queue_closed ∷ worker_part w) h
  Reached-append log more (at_quit r) h = AreIn-append log more (parts w) h

  HasWorker-append :
      (log more : List Effect) (v : Option ℕ) → HasWorker log v → HasWorker (log ++ more) v
  HasWorker-append log more v (inl same) = inl same
  HasWorker-append log more v (inr h) = inr (h.0, AreIn-append log more (worker_order w []) h.1)

  abbrev pub TurnFits : List Effect → Turn → Type 0
  TurnFits log t =
      HasWorker (log ++ t.effects) t.process.worker × ReachedNext (log ++ t.effects) t.next

  last_in : (log : List Effect) (e : Effect) (more : List Effect) → Memᴰ e (log ++ e ∷ more)
  last_in log e more = Memᴰ.append_right log (Memᴰ.head refl)

  exit_one : {n : ℕ} {log : List Effect} → suc n ≡ 0 → AreIn log (parts w)
  exit_one e = absurd (omega (arith, e))

  with_http :
      (log : List Effect) (v : Option ℕ)
      → AreIn log (http_closed ∷ [])
      → AreIn log (worker_order v [])
      → AreIn log (worker_part v)
  with_http log none h k = h
  with_http log (some x) h k = (k.0, h)

  to_worker-Reached :
      (log : List Effect) (v : Option ℕ)
      → AreIn log (http_closed ∷ [])
      → HasWorker log v
      → Reached log (to_worker v)
  unfolding to_worker
  to_worker-Reached log none h (inl same) = subst (λ x. AreIn log (worker_part x)) same h
  to_worker-Reached log (some v) h (inl same) = (sym same, h)
  to_worker-Reached log none h (inr gone) = with_http log w h gone.1
  to_worker-Reached log (some v) h (inr gone) = cc

  module _ (log : List Effect) (p : Process) (has : HasWorker log p.worker) where
    kept : (more : List Effect) → HasWorker (log ++ more) p.worker
    kept more = HasWorker-append log more p.worker has

    after_http-TurnFits : (a : Awaited) → TurnFits log (after_http a p)
    unfolding after_http stays
    after_http-TurnFits hangs = (kept [], exit_one)
    after_http-TurnFits done = (
      kept (http_closed ∷ []),
      to_worker-Reached (log ++ http_closed ∷ []) p.worker (last_in log http_closed [], tt)
          (kept (http_closed ∷ [])),
    )
    after_http-TurnFits fails = (
      kept (http_closed ∷ []),
      to_worker-Reached (log ++ http_closed ∷ []) p.worker (last_in log http_closed [], tt)
          (kept (http_closed ∷ [])),
    )

    after_worker-TurnFits :
        (a : Awaited) (v : ℕ)
        → w ≡ some v
        → AreIn log (http_closed ∷ [])
        → TurnFits log (after_worker a v p)
    unfolding after_worker stays
    after_worker-TurnFits done v was h =
        let here = last_in log (worker_closed v) [] in
        (
          inr (refl, rw was (here, tt)),
          rw was (here, AreIn-append log (worker_closed v ∷ []) (http_closed ∷ []) h),
        )
    after_worker-TurnFits fails v was h = (kept [], exit_one)
    after_worker-TurnFits hangs v was h = (kept [], exit_one)

    after_task_queue-TurnFits :
        (a : Awaited) → AreIn log (worker_part w) → TurnFits log (after_task_queue a p)
    unfolding after_task_queue stays
    after_task_queue-TurnFits done h = (
      kept (task_queue_closed ∷ []),
      (
        last_in log task_queue_closed [],
        AreIn-append log (task_queue_closed ∷ []) (worker_part w) h,
      ),
    )
    after_task_queue-TurnFits fails h = (kept [], exit_one)
    after_task_queue-TurnFits hangs h = (kept [], exit_one)

    to_redis-TurnFits :
        (k : Closing) (more : List Effect) (r : Option ℕ)
        → AreIn (log ++ more) (parts w)
        → TurnFits log (to_redis k more r p)
    unfolding to_redis stays
    to_redis-TurnFits k more none h = (kept more, λ e. h)
    to_redis-TurnFits k more (some r) h = elim (Bool-cases k.client_ended) [
      | inl over ↦ rw over (kept more, λ e. h)
      | inr alive ↦ rw alive (kept more, h)
    ]

    to_database-TurnFits :
        (k : Closing) (a : Awaited)
        → AreIn log (task_queue_closed ∷ worker_part w)
        → TurnFits log (to_database k a p)
    unfolding to_database stays
    to_database-TurnFits k done h =
        let more = dlq_closed ∷ database_closed ∷ [] in
        to_redis-TurnFits k more p.redis (
          Memᴰ.append_right log (Memᴰ.tail (Memᴰ.head refl)),
          (
            last_in log dlq_closed (database_closed ∷ []),
            AreIn-append log more (task_queue_closed ∷ worker_part w) h,
          ),
        )
    to_database-TurnFits k fails h = (kept (dlq_closed ∷ []), exit_one)
    to_database-TurnFits k hangs h = (kept (dlq_closed ∷ []), exit_one)

    after_dlq-TurnFits :
        (k : Closing) (a : Awaited)
        → AreIn log (task_queue_closed ∷ worker_part w)
        → TurnFits log (after_dlq k a p)
    unfolding after_dlq stays
    after_dlq-TurnFits k done h = to_database-TurnFits k k.database h
    after_dlq-TurnFits k fails h = (kept [], exit_one)
    after_dlq-TurnFits k hangs h = (kept [], exit_one)

    after_quit-TurnFits :
        (a : Awaited) (r : ℕ) → AreIn log (parts w) → TurnFits log (after_quit a r p)
    unfolding after_quit stays
    after_quit-TurnFits done r h =
        (kept (redis_quit r ∷ []), λ e. AreIn-append log (redis_quit r ∷ []) (parts w) h)
    after_quit-TurnFits fails r h = (
      kept (redis_disconnected r ∷ []),
      λ e. AreIn-append log (redis_disconnected r ∷ []) (parts w) h,
    )
    after_quit-TurnFits hangs r h = (kept [], exit_one)

    pub take_turn-TurnFits :
        (k : Closing) (stage : Stage) → Reached log stage → TurnFits log (take_turn k stage p)
    unfolding take_turn
    take_turn-TurnFits k at_http h = after_http-TurnFits k.http
    take_turn-TurnFits k (at_worker v) h = after_worker-TurnFits k.worker v h.0 h.1
    take_turn-TurnFits k at_task_queue h = after_task_queue-TurnFits k.task_queue h
    take_turn-TurnFits k at_dlq h = after_dlq-TurnFits k k.dlq h
    take_turn-TurnFits k (at_quit r) h = after_quit-TurnFits k.quit r h
