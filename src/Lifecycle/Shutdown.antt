-- ===== src/Lifecycle/Shutdown.antt =====
-- A shutdown ends, and its exit code tells whether everything was closed.
use task_queue_system.Prelude.{
  ℕ, ◌≡◌, refl, [], ◌∷◌, ◌++◌, List, Option, none, some, Bool, true, false, ◌&&◌, ◌||◌,
  if◌then◌else◌, ap,
}
use task_queue_system.Lifecycle.{
  Effect, Process, Closing, Awaited, done, fails, hangs, exits, http_closed, task_queue_closed,
  dlq_closed, database_closed, worker_closed, redis_quit, redis_disconnected, graceful_shutdown,
  after, stop_worker, close_redis, quit_redis, closed_http,
}

-- The effects are closings and then one exit; the closings are the first of `order`, and all of them
-- if the exit is clean.
pub record IsOrderly (effects order : List Effect) (clean : Bool) : Type 0 where
  pub closed : List Effect
  pub left : List Effect
  pub ends : effects ≡ closed ++ exits (if clean then 0 else 1) ∷ []
  pub in_order : closed ++ left ≡ order
  pub complete : clean ≡ true → left ≡ []

abbrev pub is_done : Awaited → Bool
is_done done = true
is_done fails = false
is_done hangs = false

abbrev pub is_ended : Awaited → Bool
is_ended done = true
is_ended fails = true
is_ended hangs = false

-- What there is to close, in the order of the code.
abbrev pub worker_order : Option ℕ → List Effect → List Effect
worker_order none rest = rest
worker_order (some w) rest = worker_closed w ∷ rest

abbrev pub redis_order : Closing → Option ℕ → List Effect
redis_order k none = []
redis_order k (some r) =
    if k.client_ended
    then []
    else (elim k.quit [ done ↦ redis_quit r | _ ↦ redis_disconnected r ]) ∷ []

abbrev pub order : Closing → Process → List Effect
order k p =
    http_closed
    ∷ worker_order p.worker
        (task_queue_closed ∷ dlq_closed ∷ database_closed ∷ redis_order k p.redis)

-- Every call that is made ends, and none throws but those whose exception the code drops.
abbrev pub is_clean : Closing → Process → Bool
is_clean k p =
    is_ended k.http
    && ((elim p.worker [ none ↦ true | some _ ↦ is_done k.worker ])
        && (is_done k.task_queue
            && (is_done k.dlq
                && (is_done k.database && (elim p.redis [
                  | none ↦ true
                  | some _ ↦ k.client_ended || is_ended k.quit
                ])))))

one_more :
    (e : Effect) {es os : List Effect} {clean : Bool}
    → IsOrderly es os clean
    → IsOrderly (e ∷ es) (e ∷ os) clean
one_more e h = record {
  closed = e ∷ h.closed;
  left = h.left;
  ends = ap (λ es. e ∷ es) h.ends;
  in_order = ap (λ es. e ∷ es) h.in_order;
  complete = h.complete;
}

-- The process ends here.
cut_off : (os : List Effect) → IsOrderly (exits 1 ∷ []) os false
cut_off os = record { closed = []; left = os; ends = refl; in_order = refl; complete = λ e. cc }

after-IsOrderly :
    (a : Awaited) (e : Effect) {es os : List Effect} {clean : Bool}
    → IsOrderly es os clean
    → IsOrderly (after a e es) (e ∷ os) (is_done a && clean)
unfolding after
after-IsOrderly done e h = one_more e h
after-IsOrderly fails e {os = os} h = cut_off (e ∷ os)
after-IsOrderly hangs e {os = os} h = cut_off (e ∷ os)

worker-IsOrderly :
    (a : Awaited) (w : Option ℕ) {es os : List Effect} {clean : Bool}
    → IsOrderly es os clean
    → IsOrderly
        (stop_worker a w es)
        (worker_order w os)
        ((elim w [ none ↦ true | some _ ↦ is_done a ]) && clean)
unfolding stop_worker
worker-IsOrderly a none h = h
worker-IsOrderly a (some w) h = after-IsOrderly a (worker_closed w) h

http-IsOrderly :
    (a : Awaited) {es os : List Effect} {clean : Bool}
    → IsOrderly es os clean
    → IsOrderly (closed_http a es) (http_closed ∷ os) (is_ended a && clean)
unfolding closed_http
http-IsOrderly done h = one_more http_closed h
http-IsOrderly fails h = one_more http_closed h
http-IsOrderly hangs {os = os} h = cut_off (http_closed ∷ os)

last_exit : IsOrderly (exits 0 ∷ []) [] true
last_exit = record { closed = []; left = []; ends = refl; in_order = refl; complete = λ e. refl }

redis-IsOrderly :
    (k : Closing) (r : Option ℕ)
    → IsOrderly
        (close_redis k r (exits 0 ∷ []))
        (redis_order k r)
        (elim r [ none ↦ true | some _ ↦ k.client_ended || is_ended k.quit ])
unfolding close_redis
redis-IsOrderly k none = last_exit
redis-IsOrderly k (some r) = by_state k.client_ended k.quit
  where
    by_state :
        (over : Bool) (a : Awaited)
        → IsOrderly
            (if over then exits 0 ∷ [] else quit_redis a r (exits 0 ∷ []))
            (if over then [] else (elim a [ done ↦ redis_quit r | _ ↦ redis_disconnected r ]) ∷ [])
            (over || is_ended a)
    by_state true a = last_exit
    by_state false done = unfold quit_redis in one_more (redis_quit r) last_exit
    by_state false fails = unfold quit_redis in one_more (redis_disconnected r) last_exit
    by_state false hangs = unfold quit_redis in cut_off (redis_disconnected r ∷ [])

-- Whatever the calls of a shutdown come to, also if one throws or never ends: the process closes the
-- HTTP server, the worker, the two queues, the database and the Redis client in this order up to
-- some point, and then exits, once. It exits with 0 exactly if every call ends and none throws but
-- `server.close` and the client's `quit`, and then everything is closed; and else with 1.
pub shutdown_ends :
    (k : Closing) (p : Process) → IsOrderly (graceful_shutdown k p) (order k p) (is_clean k p)
unfolding graceful_shutdown
shutdown_ends k p = http-IsOrderly k.http (
    worker-IsOrderly k.worker p.worker (
      after-IsOrderly k.task_queue task_queue_closed (
        after-IsOrderly k.dlq dlq_closed
          (after-IsOrderly k.database database_closed (redis-IsOrderly k p.redis)))))
