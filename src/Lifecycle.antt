-- ===== src/Lifecycle.antt =====
-- index.ts, with the parts that it starts and stops: the queues of queue/queue.ts and queue/dlq.ts, the
-- worker of workers/task.worker.ts, the shared connection of config/redis.connection.ts, and the check
-- of REDIS_URL of config/environment.ts. What the process does is a list of effects, in order. One
-- signal arrives here; Signals has more of them.
pub mod Start
pub mod Shutdown
pub mod Signals
mod Tests
use task_queue_system.Prelude.{
  ℕ, suc, [], ◌∷◌, ◌++◌, Text, txt, List, Option, none, some, Bool, true, false, not, ◌||◌,
  if◌then◌else◌, text_eq, is_empty, starts_with, drop,
}
use task_queue_system.Config.{Config}
use task_queue_system.Failure.{Failure, Result, ok, throws, plain}
use task_queue_system.Redis.{
  Url, UrlParser, Options, get_redis_options, get_producer_redis_options, get_normalized_redis_url,
}

-- `.replace(/^https:\/\//, 'rediss://').replace(/^http:\/\//, 'redis://')`
with_redis_scheme : Text → Text
with_redis_scheme url =
    if starts_with url (txt "https://")
    then txt "rediss://" ++ drop 8 url
    else if starts_with url (txt "http://")
    then txt "redis://" ++ drop 7 url
    else url

check_url : Option Url → Result (Unit {0})
check_url none = throws (
    plain (
      txt
        "REDIS_URL is set but is not a parseable URL. Expected form: rediss://<user>:<password>@<host>:<port>. The value has been withheld from this message."))
check_url (some url) =
    if not (text_eq url.protocol (txt "redis:") || text_eq url.protocol (txt "rediss:"))
    then throws (
        plain (
          txt "REDIS_URL has unsupported protocol \""
          ++ (url.protocol ++ txt "\". Expected redis: or rediss:.")))
    else if is_empty url.hostname
    then throws (
        plain
          (txt "REDIS_URL is missing a hostname. The value has been withheld from this message."))
    else ok tt

-- An empty URL falls back to the host, the port and the password.
unfoldable pub validate_redis_url : UrlParser → Text → Result (Unit {0})
unfolding check_url with_redis_scheme
validate_redis_url u [] = ok tt
validate_redis_url u (c ∷ raw_url) = check_url (u.parse (with_redis_scheme (c ∷ raw_url)))

unfoldable pub assert_redis_config_valid : UrlParser → Config → Result (Unit {0})
assert_redis_config_valid u c = validate_redis_url u c.redis_url

-- What is opened and closed. A number tells one worker, or one client, from the next; a connection
-- has its options, and the shared client the URL, which is empty if there is none.
pub data Effect : Type 0 where
  task_queue_opened dlq_opened : Options → Effect
  listens : (port : ℕ) → Effect
  worker_made : ℕ → Options → Effect
  redis_made : ℕ → (norm_url : Text) → Options → Effect
  database_opened : Effect
  http_closed task_queue_closed dlq_closed database_closed : Effect
  worker_closed redis_quit redis_disconnected : ℕ → Effect
  exits : ℕ → Effect

-- `taskWorkerInstance` and `redisClientInstance`, and how many of each were made.
pub record Process : Type 0 where
  pub worker : Option ℕ
  pub workers_made : ℕ
  pub redis : Option ℕ
  pub redis_made : ℕ

abbrev pub fresh : Process
fresh = record { worker = none; workers_made = 0; redis = none; redis_made = 0 }

module _ (u : UrlParser) (c : Config) where
  make_worker : Result Options → Option ℕ → Process → Result (List Effect) × Process
  make_worker r (some w) p = (ok [], p)
  make_worker (throws e) none p = (throws e, p)
  make_worker (ok o) none p = (
    ok (worker_made p.workers_made o ∷ []),
    record p { worker = some p.workers_made; workers_made = suc p.workers_made },
  )

  unfoldable pub initialize_task_worker : Process → Result (List Effect) × Process
  unfolding make_worker
  initialize_task_worker p = make_worker (get_redis_options u c) p.worker p

  make_redis : Result Options → Option ℕ → Process → Result (List Effect) × Process
  make_redis r (some n) p = (ok [], p)
  make_redis (throws e) none p = (throws e, p)
  make_redis (ok o) none p = (
    ok (redis_made p.redis_made (get_normalized_redis_url c.redis_url) o ∷ []),
    record p { redis = some p.redis_made; redis_made = suc p.redis_made },
  )

  -- The client of the health check.
  unfoldable pub get_redis_connection : Process → Result (List Effect) × Process
  unfolding make_redis
  get_redis_connection p = make_redis (get_redis_options u c) p.redis p

  -- An exception that nothing catches ends the process.
  or_exit : Result (List Effect) → List Effect
  or_exit (ok effects) = effects
  or_exit (throws e) = exits 1 ∷ []

  -- The callback of `listen` makes the worker. If the port cannot be listened on, the server's `error`
  -- event has no handler, which ends the process.
  listen : Option Failure → Process → List Effect × Process
  unfolding or_exit
  listen (some e) p = (exits 1 ∷ [], p)
  listen none p = let (made, p') = initialize_task_worker p in (listens c.port ∷ or_exit made, p')

  checked : Option Failure → Result (Unit {0}) → Process → List Effect × Process
  unfolding listen
  checked fault (throws e) p = (exits 1 ∷ [], p)
  checked fault (ok _) p = listen fault p

  -- The module itself, once what it imports is there.
  main : Option Failure → Process → List Effect × Process
  unfolding checked
  main fault p = checked fault (assert_redis_config_valid u c) p

  -- A module that makes a queue as it is imported: an exception ends the process.
  open_queue :
      (Options → Effect) → Result Options → List Effect × Process → Process → List Effect × Process
  open_queue opened (throws e) next p = (exits 1 ∷ [], p)
  open_queue opened (ok o) (effects, p') p = (opened o ∷ effects, p')

  -- storage/idempotency.db.ts, which opens the database as it is imported.
  open_store : Option Failure → List Effect × Process → Process → List Effect × Process
  open_store (some e) next p = (exits 1 ∷ [], p)
  open_store none (effects, p') p = (database_opened ∷ effects, p')

  -- The start: the imports come before everything that the module does. The faults are what the
  -- constructor of the database throws and why the port cannot be listened on, if so.
  unfoldable pub start :
      (database_fault listen_fault : Option Failure) → Process → List Effect × Process
  unfolding main open_queue open_store
  start database_fault listen_fault p =
      let database = open_store database_fault (main listen_fault p) p in
      let dlq = open_queue dlq_opened (get_producer_redis_options u c) database p in
      open_queue task_queue_opened (get_producer_redis_options u c) dlq p

-- What an awaited call comes to: it is done, it throws, or it never ends.
pub data Awaited : Type 0 where
  done fails hangs : Awaited

-- What the calls of a shutdown come to. `client_ended` is `client.status === 'end'`.
pub record Closing : Type 0 where
  pub http : Awaited
  pub worker : Awaited
  pub task_queue : Awaited
  pub dlq : Awaited
  pub database : Awaited
  pub quit : Awaited
  pub client_ended : Bool

-- The rest runs if the call is done; an exception ends the process, and so does the timer after ten
-- seconds, with the same code.
after : Awaited → Effect → List Effect → List Effect
after done e rest = e ∷ rest
after fails e rest = exits 1 ∷ []
after hangs e rest = exits 1 ∷ []

-- `stopTaskWorker`
stop_worker : Awaited → Option ℕ → List Effect → List Effect
unfolding after
stop_worker a none rest = rest
stop_worker a (some w) rest = after a (worker_closed w) rest

-- A failed `quit` is caught, and the client is disconnected.
quit_redis : Awaited → ℕ → List Effect → List Effect
quit_redis done r rest = redis_quit r ∷ rest
quit_redis fails r rest = redis_disconnected r ∷ rest
quit_redis hangs r rest = exits 1 ∷ []

-- `closeRedisConnection`
close_redis : Closing → Option ℕ → List Effect → List Effect
unfolding quit_redis
close_redis k none rest = rest
close_redis k (some r) rest = if k.client_ended then rest else quit_redis k.quit r rest

-- The callback of `server.close` waits for the requests under way; its error is not looked at.
closed_http : Awaited → List Effect → List Effect
closed_http hangs rest = exits 1 ∷ []
closed_http done rest = http_closed ∷ rest
closed_http fails rest = http_closed ∷ rest

unfoldable pub graceful_shutdown : Closing → Process → List Effect
unfolding stop_worker close_redis after closed_http
graceful_shutdown k p = closed_http k.http (
    stop_worker k.worker p.worker (
      after k.task_queue task_queue_closed (
        after k.dlq dlq_closed
          (after k.database database_closed (close_redis k p.redis (exits 0 ∷ []))))))
