-- ===== src/Lifecycle/Signals/Closed.antt =====
-- What a clean exit means, however many signals arrive.
use task_queue_system.Prelude.{
  ℕ, zero, suc, ◌≡◌, inl, refl, sym, subst, [], ◌∷◌, ◌++◌, List, Option, none, some, get_elem?, All,
  All-map, All-append, All-get_elem?,
}
use task_queue_system.Lifecycle.{Process, Closing}
use task_queue_system.Lifecycle.Signals.Turns.{
  AreIn, parts, Reached, ReachedNext, HasWorker, Reached-append, take_turn-TurnFits,
}
use task_queue_system.Lifecycle.Signals.{
  Stage, at_http, NextStage, goes_on, ends, Turn, take_turn, Shutdowns, ShutdownEvent, signal,
  resumes, put_at, settled, resumed, on_running, on_event, on_events, before_signals,
}

module _ (w : Option ℕ) where
  -- While the process runs.
  record IsRunning (s : Shutdowns) : Type 0 where
    has : HasWorker w s.closed s.process.worker
    reached : All (Reached w s.closed) s.sequences

  -- What holds after any events.
  abbrev Holds : Shutdowns → Option ℕ → Type 0
  Holds s none = IsRunning s
  Holds s (some code) = code ≡ 0 → AreIn s.closed (parts w)

  All-put_at :
      (P : Stage → Type 0) (i : ℕ) (stage : Stage) (xs : List Stage)
      → P stage
      → All P xs
      → All P (put_at i stage xs)
  unfolding put_at
  All-put_at P i stage [] h hs = tt
  All-put_at P zero stage (x ∷ xs) h hs = (h, hs.1)
  All-put_at P (suc i) stage (x ∷ xs) h hs = (hs.0, All-put_at P i stage xs h hs.1)

  settled-Holds :
      (i : ℕ) (s : Shutdowns) (t : Turn) (next : NextStage)
      → s.code ≡ none
      → IsRunning s
      → HasWorker w (s.closed ++ t.effects) t.process.worker
      → ReachedNext w (s.closed ++ t.effects) next
      → Holds (settled i s t next) (settled i s t next).code
  unfolding settled
  settled-Holds i s t (ends code) running h has next = next
  settled-Holds i s t (goes_on stage) running h has next = rw running (record {
    has = has;
    reached =
        All-put_at (Reached w (s.closed ++ t.effects)) i stage s.sequences next
          (All-map s.sequences (λ x. Reached-append w s.closed t.effects x) h.reached);
  })

  resumed-Holds :
      (i : ℕ) (k : Closing) (s : Shutdowns) (o : Option Stage)
      → s.code ≡ none
      → IsRunning s
      → get_elem? s.sequences i ≡ o
      → Holds (resumed i k s o) (resumed i k s o).code
  unfolding resumed
  resumed-Holds i k s none running h e = subst (Holds s) (sym running) h
  resumed-Holds i k s (some stage) running h e =
      let reached = All-get_elem? (Reached w s.closed) s.sequences i h.reached e in
      let t = take_turn k stage s.process in
      let fits = take_turn-TurnFits w s.closed s.process h.has k stage reached in
      settled-Holds i s t t.next running h fits.0 fits.1

  on_running-Holds :
      (e : ShutdownEvent) (s : Shutdowns) (o : Option ℕ)
      → s.code ≡ o
      → Holds s o
      → Holds (on_running e s o) (on_running e s o).code
  unfolding on_running
  on_running-Holds e s (some code) over h = subst (Holds s) (sym over) h
  on_running-Holds signal s none running h = rw running (record {
    has = h.has;
    reached = All-append (Reached w s.closed) s.sequences (at_http ∷ []) h.reached (tt, tt);
  })
  on_running-Holds (resumes i k) s none running h =
      resumed-Holds i k s (get_elem? s.sequences i) running h refl

  on_event-Holds :
      (e : ShutdownEvent) (s : Shutdowns)
      → Holds s s.code
      → Holds (on_event e s) (on_event e s).code
  unfolding on_event
  on_event-Holds e s h = on_running-Holds e s s.code refl h

  on_events-Holds :
      (es : List ShutdownEvent) (s : Shutdowns)
      → Holds s s.code
      → Holds (on_events es s) (on_events es s).code
  unfolding on_events
  on_events-Holds [] s h = h
  on_events-Holds (e ∷ es) s h = on_events-Holds es (on_event e s) (on_event-Holds e s h)

-- However many signals arrive, however their shutdowns interleave and whatever the calls come to: if
-- the process exits with 0, then the HTTP server, the worker that there was at the first signal, both
-- queues and the database were closed. The Redis client may still be closing then, for another signal.
pub clean_exit_closed :
    (p : Process) (es : List ShutdownEvent)
    → (on_events es (before_signals p)).code ≡ some 0
    → AreIn (on_events es (before_signals p)).closed (parts p.worker)
clean_exit_closed p es e =
    subst (Holds p.worker (on_events es (before_signals p))) e
      (on_events-Holds p.worker es (before_signals p) (record { has = inl refl; reached = tt }))
      refl
