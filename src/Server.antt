-- ===== src/Server.antt =====
-- `buildApp` of app.ts: every handler in its order, for one request. helmet, the body parser, Express's
-- matching of paths, the rate limiters' counting and Bull Board's router are libraries, and so
-- arguments. The handlers of a request run as one step.
pub mod Traced
pub mod Admission
pub mod Retold
pub mod Sealed
pub mod Boards
mod Tests
use task_queue_system.Prelude.{
  ℕ, [], ◌∷◌, Text, txt, List, Option, none, some, Bool, true, false, ◌&&◌, ◌||◌, if◌then◌else◌,
  text_eq,
}
use task_queue_system.Prelude.Dict.{Dict}
use task_queue_system.Config.{Config}
use task_queue_system.Json.{Json}
use task_queue_system.Http.{Request, Headers, Response, Outcome, proceed, respond}
use task_queue_system.Failure.{Failure, Result}
use task_queue_system.Context.{correlation_middleware}
use task_queue_system.Cors.{cors_middleware}
use task_queue_system.Schema.Zod.{Zod}
use task_queue_system.Queue.{Queue}
use task_queue_system.RateLimit.{
  Limiter, limited, global_job_limiter, per_ip_job_limiter, global_key,
}
use task_queue_system.Producer.{Intake}
use task_queue_system.App.{email_route, webhook_route, webhook_sink, not_found, error_handler}
use task_queue_system.Health.{RedisProbe, health, metrics, metrics_guard, service_index}
use task_queue_system.Dashboard.Cache.{Board, Pending, Handled, passed, served, rebuilds}
use task_queue_system.Dashboard.Guard.{dashboard_route}

-- Express: whether a path fits a route's pattern, and the path below a mount point.
pub record Routing : Type 0 where
  pub fits : (pattern path : Text) → Bool
  pub below : (mount path : Text) → Option Text

-- What the handlers of one request read of their surroundings. `helmet` is the set of headers that
-- helmet gives, and `body_fault` what the body parser passes to the error handler, if it does.
pub record Surroundings : Type 0 where
  pub now : ℕ
  pub at : Text
  pub uuid : Text
  pub helmet : Headers
  pub body_fault : Option Failure
  pub redis : RedisProbe
  pub sqlite_fault : Option Failure
  pub content_type : Text
  pub registry : Result Text
  pub decode : Text → Text
  pub sha256 : Text → Text

-- A response, or a request that is on its way to Bull Board's router with the headers set so far.
pub data Reply : Type 0 where
  answered : Response → Reply
  forwarded : Request → Headers → Option Pending → Reply

module _ (c : Config) (q : Queue) (l : Limiter) (z : Zod) (routing : Routing) where
  -- The producer's state, with the board, and the limiters' stores.
  pub record State : Type 0 where
    pub intake : Intake c q
    pub of_all : l.State
    pub of_clients : l.State
    pub of_dashboard : l.State

  pub is_get : Request → Bool
  is_get req = text_eq req.method (txt "GET") || text_eq req.method (txt "HEAD")

  is_post : Request → Bool
  is_post req = text_eq req.method (txt "POST")

  unfoldable pub with_board : State → Board → State
  with_board s b = record s { intake = record s.intake { board = b } }

  -- A job route behind the limiter of a client.
  after_client :
      (Request → Headers → Intake c q → Response × Intake c q) → State → Outcome → Reply × State
  after_client route s (respond r) = (answered r, s)
  after_client route s (proceed req headers) =
      let (r, intake) = route req headers s.intake in (answered r, record s { intake = intake })

  after_global :
      ℕ → (Request → Headers → Intake c q → Response × Intake c q) → State → Outcome → Reply × State
  unfolding after_client
  after_global now route s (respond r) = (answered r, s)
  after_global now route s (proceed req headers) =
      let (o, clients) =
        limited l (per_ip_job_limiter c) (l.ip_key req.ip) now req headers s.of_clients in
      after_client route (record s { of_clients = clients }) o

  -- A job route behind both limiters, the global one first.
  unfoldable pub job_intake :
      ℕ
      → (Request → Headers → Intake c q → Response × Intake c q)
      → Request
      → Headers
      → State
      → Reply × State
  unfolding after_global
  job_intake now route req headers s =
      let (o, all) = limited l (global_job_limiter c) global_key now req headers s.of_all in
      after_global now route (record s { of_all = all }) o

  handled_reply : Handled → Reply
  handled_reply (passed req headers) = forwarded req headers none
  handled_reply (served r) = answered r
  handled_reply (rebuilds req headers p) = forwarded req headers (some p)

  dashboard : ℕ → Request → Headers → State → Reply × State
  unfolding handled_reply with_board
  dashboard now req headers s =
      let (handled, dashboards) =
        dashboard_route c l now req headers s.of_dashboard s.intake.board in
      (handled_reply handled, with_board (record s { of_dashboard = dashboards.0 }) dashboards.1)

  after_metrics_guard : Surroundings → State → Outcome → Reply × State
  after_metrics_guard e s (respond r) = (answered r, s)
  after_metrics_guard e s (proceed req headers) =
      let (r, (board, queue)) =
        metrics q e.content_type e.registry headers (s.intake.board, s.intake.queue) in
      (answered r, record s { intake = record s.intake { board = board; queue = queue } })

  -- The routes after the mounted dashboard.
  later_routes : Surroundings → Option Text → Request → Headers → State → Reply × State
  unfolding is_get is_post after_metrics_guard
  later_routes e id req headers s =
      if is_get req && routing.fits (txt "/health") req.path
      then (answered (health e.redis e.sqlite_fault e.at headers), s)
      else if is_get req && routing.fits (txt "/metrics") req.path
      then after_metrics_guard e s (metrics_guard e.decode e.sha256 c req headers)
      else if is_post req && routing.fits (txt "/api/jobs/email") req.path
      then job_intake e.now (email_route c q z e.now id) req headers s
      else if is_post req && routing.fits (txt "/api/jobs/webhook") req.path
      then job_intake e.now (webhook_route c q z e.now id) req headers s
      else if is_post req && routing.fits (txt "/internal/webhook-sink") req.path
      then (answered (webhook_sink e.at req headers), s)
      else (answered (not_found req headers), s)

  -- The dashboard's handlers see the path below the mount point.
  mounted : Surroundings → Option Text → Request → Headers → State → Option Text → Reply × State
  unfolding later_routes dashboard
  mounted e id req headers s (some path) = dashboard e.now (record req { path = path }) headers s
  mounted e id req headers s none = later_routes e id req headers s

  routes : Surroundings → Option Text → Request → Headers → State → Reply × State
  unfolding mounted is_get
  routes e id req headers s =
      if is_get req && routing.fits (txt "/") req.path
      then (answered (service_index headers), s)
      else mounted e id req headers s (routing.below (txt "/admin/queues") req.path)

  after_body :
      Surroundings → Option Text → Option Failure → Request → Headers → State → Reply × State
  unfolding routes
  after_body e id none req headers s = routes e id req headers s
  after_body e id (some fault) req headers s = (answered (error_handler fault headers), s)

  after_cors : Surroundings → Option Text → State → Outcome → Reply × State
  unfolding after_body
  after_cors e id s (respond r) = (answered r, s)
  after_cors e id s (proceed req headers) = after_body e id e.body_fault req headers s

  after_context : Surroundings → State → Outcome × Option Text → Reply × State
  unfolding after_cors
  after_context e s (respond r, id) = (answered r, s)
  after_context e s (proceed req headers, id) = after_cors e id s (cors_middleware c req headers)

  unfoldable pub serve : Surroundings → Request → State → Reply × State
  unfolding after_context
  serve e req s = after_context e s (correlation_middleware e.uuid req e.helmet)
