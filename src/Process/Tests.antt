-- ===== src/Process/Tests.antt =====
-- A history of the process, and the theorems about it at concrete inputs.
use task_queue_system.Prelude.{[], ◌∷◌, ℕ, Text, txt, List, some, none, text_eq, if◌then◌else◌}
use task_queue_system.Json.{null, natural, object}
use task_queue_system.Failure.{Result, ok, throws, plain}
use task_queue_system.Http.{Request, str, Response}
use task_queue_system.Samples.{sample_config, sample_queue, sample_limiter, queue_names, job_of}
use task_queue_system.Schema.{JobExecutionResult, webhook_delivery}
use task_queue_system.Schema.Accepts.{sample_zod}
use task_queue_system.Queue.{Job}
use task_queue_system.Processors.{JsonText, replied}
use task_queue_system.Dashboard.System.{init}
use task_queue_system.Health.{ready}
use task_queue_system.Server.{Routing, Surroundings}
use task_queue_system.Worker.Life.{Attempt, attempt}
use task_queue_system.Process.{Program, Event, requests, answers, attempts, advance_all, attempt}

abbrev routing : Routing
routing = record {
  fits = text_eq;
  below = λ mount path.
      if text_eq path (txt "/admin/queues/api/queues") then some (txt "/api/queues") else none;
}

abbrev at : ℕ → Surroundings
at now = record {
  now = now;
  at = txt "2026-01-01T00:00:00.000Z";
  uuid = txt "3b1f";
  helmet = [];
  body_fault = none;
  redis = ready;
  sqlite_fault = none;
  content_type = txt "text/plain";
  registry = ok (txt "# HELP");
  decode = λ t. t;
  sha256 = λ t. t;
}

abbrev page : (path n : Text) → Request
page path n = record {
  method = txt "GET";
  path = path;
  ip = none;
  headers = [];
  query = (txt "page", str n) ∷ [];
  body = null;
}

abbrev polled : Text → Request
polled n = page (txt "/admin/queues/api/queues") n

-- Two polls of two views, and the answers to them.
abbrev history : List Event
history =
    answers 100003 0 200 (natural 8)
    ∷ answers 100002 1 200 (natural 7)
    ∷ requests (at 100001) (polled (txt "2"))
    ∷ requests (at 100000) (polled (txt "1"))
    ∷ []

abbrev json : JsonText
json = record { stringify = λ _. txt "{}"; parse = λ _. ok (object []) }

abbrev no_member : Text → Job → Result JobExecutionResult
no_member name job = throws (plain name)

abbrev P : Type 0
P = Program sample_config sample_queue sample_queue sample_limiter sample_zod routing json no_member

abbrev start : P
start = record {
  server = record {
    intake = record { depth_cache = none; board = (init queue_names).board; queue = 7 };
    of_all = 0;
    of_clients = 0;
    of_dashboard = 0;
  };
  rows = [];
  dead = 0;
  sent = [];
  in_flight = [];
  delivered = [];
}

abbrev reached : List Event → P
reached xs =
    advance_all sample_config sample_queue sample_queue sample_limiter sample_zod routing json
      no_member xs start

abbrev hit : Response
hit = record {
  status = 200;
  headers = (txt "X-Dashboard-Snapshot", txt "HIT") ∷ (txt "Cache-Control", txt "no-store") ∷ [];
  body = some (natural 7);
}

abbrev order : Job
order = job_of webhook_delivery (txt "webhook_order-1") (object [])

abbrev tried : Attempt
tried = record {
  readings = record {
    message_at = 7;
    random = txt "x";
    elapsed = 12;
    delivered_at = txt "10:00";
    recorded_at = txt "10:00";
    processed_at = txt "10:00";
    fetched = replied 503;
    read_fault = none;
    reread_fault = none;
    write_fault = none;
  };
  moment = record {
    failed_at = txt "10:00";
    now = 7;
    recorded_at = txt "10:00";
    record_fault = none;
  };
}

abbrev attempted : P
attempted = reached (attempts order 0 tried ∷ history)

abbrev stale : Response
stale = record hit {
  headers = (txt "X-Dashboard-Snapshot", txt "STALE") ∷ (txt "Cache-Control", txt "no-store") ∷ [];
}
