-- ===== src/Lifecycle/Signals.antt =====
-- More than one signal: each runs src/index.ts's gracefulShutdown, split at its awaits, so that the
-- sequences interleave over the one worker and the one Redis client of the process. A call that hangs
-- is the timer of its sequence.
pub mod Turns
pub mod Closed
pub mod Single
mod Tests
use task_queue_system.Prelude.{
  ℕ, zero, suc, ◌≡◌, refl, [], ◌∷◌, ◌++◌, List, Option, none, some, if◌then◌else◌, get_elem?,
}
use task_queue_system.Lifecycle.{
  Effect, Process, Closing, Awaited, done, fails, hangs, exits, http_closed, task_queue_closed,
  dlq_closed, database_closed, worker_closed, redis_quit, redis_disconnected, graceful_shutdown,
  after, stop_worker, close_redis, quit_redis, closed_http,
}

-- The call that a sequence waits for.
pub data Stage : Type 0 where
  at_http at_task_queue at_dlq : Stage
  at_worker at_quit : ℕ → Stage

pub data NextStage : Type 0 where
  goes_on : Stage → NextStage
  ends : (code : ℕ) → NextStage

-- What one sequence does until its next await, and what it leaves of the process.
pub record Turn : Type 0 where
  pub effects : List Effect
  pub next : NextStage
  pub process : Process

stays : List Effect → NextStage → Process → Turn
stays effects next p = record { effects = effects; next = next; process = p }

-- `stopTaskWorker` awaits only if there is a worker.
pub to_worker : Option ℕ → Stage
to_worker none = at_task_queue
to_worker (some w) = at_worker w

pub after_http : Awaited → Process → Turn
unfolding stays to_worker
after_http hangs p = stays [] (ends 1) p
after_http done p = stays (http_closed ∷ []) (goes_on (to_worker p.worker)) p
after_http fails p = stays (http_closed ∷ []) (goes_on (to_worker p.worker)) p

pub after_worker : Awaited → ℕ → Process → Turn
unfolding stays
after_worker done w p =
    stays (worker_closed w ∷ []) (goes_on at_task_queue) (record p { worker = none })
after_worker fails w p = stays [] (ends 1) p
after_worker hangs w p = stays [] (ends 1) p

pub after_task_queue : Awaited → Process → Turn
unfolding stays
after_task_queue done p = stays (task_queue_closed ∷ []) (goes_on at_dlq) p
after_task_queue fails p = stays [] (ends 1) p
after_task_queue hangs p = stays [] (ends 1) p

-- `closeRedisConnection` forgets the client before it awaits its `quit`.
to_redis : Closing → List Effect → Option ℕ → Process → Turn
unfolding stays
to_redis k effects none p = stays effects (ends 0) p
to_redis k effects (some r) p =
    stays effects (if k.client_ended then ends 0 else goes_on (at_quit r))
      (record p { redis = none })

-- The database is closed without an await.
to_database : Closing → Awaited → Process → Turn
unfolding stays to_redis
to_database k done p = to_redis k (dlq_closed ∷ database_closed ∷ []) p.redis p
to_database k fails p = stays (dlq_closed ∷ []) (ends 1) p
to_database k hangs p = stays (dlq_closed ∷ []) (ends 1) p

after_dlq : Closing → Awaited → Process → Turn
unfolding stays to_database
after_dlq k done p = to_database k k.database p
after_dlq k fails p = stays [] (ends 1) p
after_dlq k hangs p = stays [] (ends 1) p

after_quit : Awaited → ℕ → Process → Turn
unfolding stays
after_quit done r p = stays (redis_quit r ∷ []) (ends 0) p
after_quit fails r p = stays (redis_disconnected r ∷ []) (ends 0) p
after_quit hangs r p = stays [] (ends 1) p

-- The sequence goes on when the call that it waits for has come to what `Closing` says.
pub take_turn : Closing → Stage → Process → Turn
unfolding after_http after_worker after_task_queue after_dlq after_quit
take_turn k at_http p = after_http k.http p
take_turn k (at_worker w) p = after_worker k.worker w p
take_turn k at_task_queue p = after_task_queue k.task_queue p
take_turn k at_dlq p = after_dlq k k.dlq p
take_turn k (at_quit r) p = after_quit k.quit r p

-- The sequences under way, the closings so far, and the exit code once the process is over.
pub record Shutdowns : Type 0 where
  pub process : Process
  pub sequences : List Stage
  pub closed : List Effect
  pub code : Option ℕ

pub data ShutdownEvent : Type 0 where
  signal : ShutdownEvent
  resumes : (sequence : ℕ) → Closing → ShutdownEvent

put_at : ℕ → Stage → List Stage → List Stage
put_at i stage [] = []
put_at zero stage (x ∷ xs) = stage ∷ xs
put_at (suc i) stage (x ∷ xs) = x ∷ put_at i stage xs

settled : ℕ → Shutdowns → Turn → NextStage → Shutdowns
unfolding put_at
settled i s t (ends code) = record s {
  process = t.process;
  closed = s.closed ++ t.effects;
  code = some code;
}
settled i s t (goes_on stage) = record s {
  process = t.process;
  closed = s.closed ++ t.effects;
  sequences = put_at i stage s.sequences;
}

resumed : ℕ → Closing → Shutdowns → Option Stage → Shutdowns
unfolding settled take_turn
resumed i k s none = s
resumed i k s (some stage) = let t = take_turn k stage s.process in settled i s t t.next

-- Nothing happens once the process is over.
on_running : ShutdownEvent → Shutdowns → Option ℕ → Shutdowns
unfolding resumed
on_running e s (some code) = s
on_running signal s none = record s { sequences = s.sequences ++ at_http ∷ [] }
on_running (resumes i k) s none = resumed i k s (get_elem? s.sequences i)

pub on_event : ShutdownEvent → Shutdowns → Shutdowns
unfolding on_running
on_event e s = on_running e s s.code

unfoldable pub on_events : List ShutdownEvent → Shutdowns → Shutdowns
unfolding on_event
on_events [] s = s
on_events (e ∷ es) s = on_events es (on_event e s)

abbrev pub before_signals : Process → Shutdowns
before_signals p = record { process = p; sequences = []; closed = []; code = none }
