-- ===== src/Lifecycle/Signals/Tests.antt =====
-- Two signals at a concrete process, and the theorem about them.
use task_queue_system.Prelude.{[], ◌∷◌, ◌≡◌, refl, List, some, false}
use task_queue_system.Lifecycle.{
  Process, Closing, done, http_closed, worker_closed, task_queue_closed, dlq_closed,
  database_closed,
}
use task_queue_system.Lifecycle.Signals.{
  ShutdownEvent, signal, resumes, on_events, on_event, on_running, resumed, settled, take_turn,
  stays, put_at, before_signals, to_worker, after_http, after_worker, after_task_queue, to_redis,
  to_database, after_dlq,
}
use task_queue_system.Lifecycle.Signals.Turns.{AreIn, parts}
use task_queue_system.Lifecycle.Signals.Closed.{clean_exit_closed}

abbrev serving : Process
serving = record { worker = some 0; workers_made = 1; redis = some 0; redis_made = 1 }

abbrev all_done : Closing
all_done = record {
  http = done;
  worker = done;
  task_queue = done;
  dlq = done;
  database = done;
  quit = done;
  client_ended = false;
}

-- Both shutdowns wait for the worker; the first comes to the client's `quit`, and the second exits.
abbrev two_signals : List ShutdownEvent
two_signals =
    signal
    ∷ signal
    ∷ resumes 0 all_done
    ∷ resumes 1 all_done
    ∷ resumes 0 all_done
    ∷ resumes 1 all_done
    ∷ resumes 0 all_done
    ∷ resumes 0 all_done
    ∷ resumes 1 all_done
    ∷ resumes 1 all_done
    ∷ []

-- The process exits with 0, and the client's `quit`, which the first shutdown waits for, has not ended.
quit_cut_off :
    ((on_events two_signals (before_signals serving)).code ≡ some 0)
    × ((on_events two_signals (before_signals serving)).closed
        ≡ http_closed
          ∷ http_closed
          ∷ worker_closed 0
          ∷ worker_closed 0
          ∷ task_queue_closed
          ∷ dlq_closed
          ∷ database_closed
          ∷ task_queue_closed
          ∷ dlq_closed
          ∷ database_closed
          ∷ [])
unfolding on_events on_event on_running resumed settled take_turn stays put_at to_worker after_http
    after_worker after_task_queue to_redis to_database after_dlq
quit_cut_off = (refl, refl)

clean_exit_closed_example :
    AreIn (on_events two_signals (before_signals serving)).closed (parts (some 0))
unfolding on_events
clean_exit_closed_example = clean_exit_closed serving two_signals quit_cut_off.0
