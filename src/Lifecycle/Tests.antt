-- ===== src/Lifecycle/Tests.antt =====
-- A start and a shutdown at concrete inputs.
use task_queue_system.Prelude.Numeric.{to_natural}
use task_queue_system.Prelude.{
  List, length, contains, ◌≡◌, refl, [], ◌∷◌, some, none, Bool, true, false, trim, txt, text_eq,
  starts_with,
}
use task_queue_system.Samples.{sample_config}
use task_queue_system.Redis.{
  UrlParser, Options, get_redis_options, get_producer_redis_options, get_normalized_redis_url,
  fail_fast,
}
use task_queue_system.Lifecycle.{
  Effect, Process, Closing, done, fails, fresh, start, listens, database_opened, worker_made,
  task_queue_opened, dlq_opened, initialize_task_worker, validate_redis_url,
  assert_redis_config_valid, graceful_shutdown, exits, http_closed, worker_closed,
  task_queue_closed,
}
use task_queue_system.Config.{Config}
use task_queue_system.Lifecycle.Start.{IsStart, start_ends}
use task_queue_system.Lifecycle.Shutdown.{IsOrderly, order, is_clean, shutdown_ends}

abbrev no_urls : UrlParser
no_urls = record { parse = λ url. none; decode = λ t. some t }

abbrev options : Bool → Options
options offline = record {
  host = txt "localhost";
  port = some 6379;
  username = none;
  password = none;
  tls = false;
  enable_offline_queue = offline;
}

started :
    (start no_urls sample_config none none fresh).0
    ≡ task_queue_opened (options false)
      ∷ dlq_opened (options false)
      ∷ database_opened
      ∷ listens 3000
      ∷ worker_made 0 (options true)
      ∷ []
unfolding start assert_redis_config_valid validate_redis_url initialize_task_worker
    get_redis_options get_producer_redis_options get_normalized_redis_url trim
started = refl

abbrev running : Process
running = record { worker = some 0; workers_made = 1; redis = some 0; redis_made = 1 }

-- The dead letter queue cannot be closed.
abbrev closing : Closing
closing = record {
  http = done;
  worker = done;
  task_queue = done;
  dlq = fails;
  database = done;
  quit = done;
  client_ended = false;
}

shut_down :
    graceful_shutdown closing running
    ≡ http_closed ∷ worker_closed 0 ∷ task_queue_closed ∷ exits 1 ∷ []
unfolding graceful_shutdown
shut_down = refl

shutdown_ends_example :
    IsOrderly (graceful_shutdown closing running) (order closing running) (is_clean closing running)
shutdown_ends_example = shutdown_ends closing running

-- `new URL('redis://')` has no host.
abbrev hostless : UrlParser
hostless = record {
  parse = λ url.
      some (record {
        protocol = txt "redis:";
        hostname = [];
        port = [];
        username = [];
        password = [];
      });
  decode = λ t. some t;
}

abbrev hostless_config : Config
hostless_config = record sample_config { redis_url = txt "redis://" }

abbrev effects : List Effect
effects = (start hostless hostless_config none none fresh).0

-- Both queues and the database are opened before the URL is refused.
opens_before_check : length effects ≡ 4
unfolding start assert_redis_config_valid validate_redis_url get_redis_options
    get_producer_redis_options get_normalized_redis_url trim fail_fast text_eq starts_with contains
    to_natural
opens_before_check = refl

start_ends_example :
    IsStart hostless hostless_config none none (start hostless hostless_config none none fresh)
start_ends_example = start_ends hostless hostless_config none none
