-- ===== src/Lifecycle/Start.antt =====
-- A start either comes to a listening server with its worker, or exits.
use task_queue_system.Prelude.{◌≡◌, refl, [], ◌∷◌, ◌++◌, List, Option, none, some}
use task_queue_system.Config.{Config}
use task_queue_system.Failure.{Failure, Result, ok, throws}
use task_queue_system.Redis.{
  UrlParser, Options, get_redis_options, get_producer_redis_options, fail_fast,
}
use task_queue_system.Lifecycle.{
  Effect, Process, fresh, task_queue_opened, dlq_opened, listens, worker_made, exits, start,
  make_worker, initialize_task_worker, or_exit, listen, checked, main, open_queue, open_store,
  database_opened, assert_redis_config_valid, false,
}

-- The options of a producer: its commands fail while Redis is out of reach.
abbrev pub failing_fast : Options → Options
failing_fast o = record o { enable_offline_queue = false }

-- The process exits with 1 after it opened these.
abbrev pub IsExit : List Effect → List Effect × Process → Type 0
IsExit opened o = (o.0 ≡ opened ++ exits 1 ∷ []) × (o.1.worker ≡ none)

abbrev pub opened_queues : Options → List Effect
opened_queues o = task_queue_opened (failing_fast o) ∷ dlq_opened (failing_fast o) ∷ []

abbrev pub opened_all : Options → List Effect
opened_all o = opened_queues o ++ database_opened ∷ []

module _ (u : UrlParser) (c : Config) (database_fault listen_fault : Option Failure) where
  -- The five ends of a start, each with its condition.
  pub data IsStart (o : List Effect × Process) : Type 0 where
    unmade : (e : Failure) → get_redis_options u c ≡ throws e → IsExit [] o → IsStart o
    no_database :
        (options : Options) (e : Failure)
        → get_redis_options u c ≡ ok options
        → database_fault ≡ some e
        → IsExit (opened_queues options) o
        → IsStart o
    refused :
        (options : Options) (e : Failure)
        → get_redis_options u c ≡ ok options
        → database_fault ≡ none
        → assert_redis_config_valid u c ≡ throws e
        → IsExit (opened_all options) o
        → IsStart o
    unheard :
        (options : Options) (e : Failure)
        → get_redis_options u c ≡ ok options
        → database_fault ≡ none
        → assert_redis_config_valid u c ≡ ok tt
        → listen_fault ≡ some e
        → IsExit (opened_all options) o
        → IsStart o
    serves :
        (options : Options)
        → get_redis_options u c ≡ ok options
        → database_fault ≡ none
        → assert_redis_config_valid u c ≡ ok tt
        → listen_fault ≡ none
        → o.0 ≡ opened_all options ++ listens c.port ∷ worker_made 0 options ∷ []
        → o.1.worker ≡ some 0
        → IsStart o

module _ (u : UrlParser) (c : Config) where
  by_listen :
      (listen_fault : Option Failure) (o : Options)
      → get_redis_options u c ≡ ok o
      → assert_redis_config_valid u c ≡ ok tt
      → IsStart u c none listen_fault (start u c none listen_fault fresh)
  unfolding start main checked listen initialize_task_worker get_producer_redis_options fail_fast
      open_queue open_store make_worker or_exit
  by_listen none o made valid =
      serves o made refl valid refl (rw (made, valid, made) refl) (rw (made, valid, made) refl)
  by_listen (some e) o made valid =
      unheard o e made refl valid refl (rw (made, valid) refl, rw (made, valid) refl)

  by_check :
      (listen_fault : Option Failure) (o : Options) (valid : Result (Unit {0}))
      → get_redis_options u c ≡ ok o
      → assert_redis_config_valid u c ≡ valid
      → IsStart u c none listen_fault (start u c none listen_fault fresh)
  unfolding start main checked get_producer_redis_options fail_fast open_queue open_store
  by_check listen_fault o (ok passed) made valid = by_listen listen_fault o made valid
  by_check listen_fault o (throws e) made invalid =
      refused o e made refl invalid (rw (made, invalid) refl, rw (made, invalid) refl)

  by_database :
      (database_fault listen_fault : Option Failure) (o : Options)
      → get_redis_options u c ≡ ok o
      → IsStart u c database_fault listen_fault (start u c database_fault listen_fault fresh)
  unfolding start get_producer_redis_options fail_fast open_queue open_store
  by_database (some e) listen_fault o made = no_database o e made refl (rw made refl, rw made refl)
  by_database none listen_fault o made =
      by_check listen_fault o (assert_redis_config_valid u c) made refl

  by_options :
      (database_fault listen_fault : Option Failure) (r : Result Options)
      → get_redis_options u c ≡ r
      → IsStart u c database_fault listen_fault (start u c database_fault listen_fault fresh)
  unfolding start get_producer_redis_options fail_fast open_queue
  by_options database_fault listen_fault (ok o) made =
      by_database database_fault listen_fault o made
  by_options database_fault listen_fault (throws e) none_made =
      unmade e none_made (rw none_made refl, rw none_made refl)

-- A start ends in one of five ways. No options can be made of the configuration, and the process exits
-- with 1 and has opened nothing. Or the database cannot be opened, and it exits with 1 after both queues
-- were opened. Or REDIS_URL does not pass its check, or the port cannot be listened on, and it exits
-- with 1 after the queues and the database were opened. In these four no worker is made. Or both queues
-- are opened with connections that fail fast, then the database, the server listens, and then one worker
-- is made, whose connection keeps its offline queue; this way neither making the worker throws nor the
-- process exits.
pub start_ends :
    (u : UrlParser) (c : Config) (database_fault listen_fault : Option Failure)
    → IsStart u c database_fault listen_fault (start u c database_fault listen_fault fresh)
start_ends u c database_fault listen_fault =
    by_options u c database_fault listen_fault (get_redis_options u c) refl
