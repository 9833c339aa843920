-- ===== src/Server/Tests.antt =====
-- A refused request, and the theorem on the tracing of responses at concrete inputs.
use task_queue_system.Prelude.{
  ◌≡◌, refl, [], ◌∷◌, Text, txt, some, none, text_eq, starts_with, drop, if◌then◌else◌,
}
use task_queue_system.Prelude.Dict.{lookup}
use task_queue_system.Json.{text, object}
use task_queue_system.Failure.{ok, throws, plain, library_error, library_library, Failure}
use task_queue_system.Http.{Request}
use task_queue_system.Samples.{sample_config, sample_queue, sample_limiter, queue_names}
use task_queue_system.Schema.Accepts.{sample_zod}
use task_queue_system.Context.{correlation_header}
use task_queue_system.RateLimit.Trace.{IsStandard}
use task_queue_system.Dashboard.System.{init}
use task_queue_system.Health.{ready}
use task_queue_system.Queue.{Queue}
use task_queue_system.Producer.Retold.{retell}
use task_queue_system.Server.Retold.{moved, replied}
use task_queue_system.Server.{Routing, Surroundings, State, serve}
use task_queue_system.Server.Admission.{Touches, only_submissions_touch}
use task_queue_system.Server.Sealed.{
  Faults, with_faults, failure_texts_hidden, no_fault, both_fail, both_throw,
}
use task_queue_system.Server.Traced.{reply_headers, id_of, responses_are_traced}

-- Patterns without parameters; what is mounted sees the rest of the path.
abbrev routing : Routing
routing = record {
  fits = text_eq;
  below = λ mount path. if starts_with path mount then some (drop 13 path) else none;
}

abbrev surroundings : Surroundings
surroundings = record {
  now = 5;
  at = txt "2026-01-01T00:00:00.000Z";
  uuid = txt "3b1f";
  helmet = (txt "x-frame-options", txt "SAMEORIGIN") ∷ [];
  body_fault = none;
  redis = ready;
  sqlite_fault = none;
  content_type = txt "text/plain";
  registry = ok (txt "# HELP");
  decode = λ t. t;
  sha256 = λ t. t;
}

-- A client that names its own correlation ID, past the global limit.
abbrev order : Request
order = record {
  method = txt "POST";
  path = txt "/api/jobs/email";
  ip = some (txt "10.0.0.1");
  headers = (txt "x-correlation-id", txt "trace 7") ∷ [];
  query = [];
  body = object ((txt "to", text (txt "a@b.io")) ∷ []);
}

abbrev busy : State sample_config sample_queue sample_limiter sample_zod routing
busy = record {
  intake = record { depth_cache = none; board = (init queue_names).board; queue = 999 };
  of_all = 200;
  of_clients = 0;
  of_dashboard = 0;
}

sample_limiter-IsStandard : IsStandard sample_limiter
unfolding lookup
sample_limiter-IsStandard = record { others = λ o key now s. refl }

responses_are_traced_example :
    lookup correlation_header (
      reply_headers
        (serve sample_config sample_queue sample_limiter sample_zod routing surroundings order
          busy).0)
    ≡ some (id_of surroundings order)
responses_are_traced_example =
    responses_are_traced sample_config sample_queue sample_limiter sample_zod routing surroundings
      order busy sample_limiter-IsStandard

only_submissions_touch_example :
    Touches sample_config sample_queue sample_limiter sample_zod routing surroundings order busy
      (serve sample_config sample_queue sample_limiter sample_zod routing surroundings order busy)
only_submissions_touch_example =
    only_submissions_touch sample_config sample_queue sample_limiter sample_zod routing surroundings
      order busy

-- SQLite and the metrics client fail, with two texts each.
abbrev told : Text → Text → Faults
told sqlite registry = record {
  body_fault = none;
  sqlite_fault = some (library_error (txt "SqliteError") sqlite);
  registry = throws (plain registry);
}

-- Redis cannot be reached, so an order comes to 503, whatever the error says.
abbrev unreachable_queue : Queue
unreachable_queue = record sample_queue {
  get_job_counts = λ n. (throws (plain (txt "connect redis://u:p@h.io")), n);
  get_state_counts = λ n. (throws (plain (txt "connect redis://u:p@h.io")), n);
}

abbrev tell : Failure → Failure
tell e = library_error (txt "MaxRetriesPerRequestError") (txt "Reached the max retries")

abbrev idle : State sample_config unreachable_queue sample_limiter sample_zod routing
idle = record {
  intake = record { depth_cache = none; board = (init queue_names).board; queue = 3 };
  of_all = 0;
  of_clients = 0;
  of_dashboard = 0;
}

failure_texts_hidden_example :
    serve sample_config
      (retell tell unreachable_queue)
      sample_limiter
      sample_zod
      routing
      (with_faults surroundings (told (txt "locked") (txt "timeout")))
      order
      (moved sample_config unreachable_queue tell sample_limiter sample_zod routing idle)
    ≡ replied sample_config unreachable_queue tell sample_limiter sample_zod routing (
        serve sample_config unreachable_queue sample_limiter sample_zod routing
          (with_faults surroundings (told (txt "disk I/O error") (txt "connect redis://u:p@h.io")))
          order
          idle)
failure_texts_hidden_example =
    failure_texts_hidden sample_config unreachable_queue tell sample_limiter sample_zod routing
      surroundings (told (txt "disk I/O error") (txt "connect redis://u:p@h.io"))
      (told (txt "locked") (txt "timeout")) order idle
      (record {
        body_fault = no_fault;
        sqlite_fault = both_fail _ _ (library_library _ _ _ _);
        registry = both_throw _ _;
      })
