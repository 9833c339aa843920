-- ===== src/Dashboard/Guard.antt =====
-- middleware/dashboard.guard.ts, and the chain that app.ts mounts at /admin/queues: the guard, the
-- blocked route, the rate limiter, the snapshot cache, and Bull Board's router. A request's path is
-- the one below the mount point.
mod Tests
pub mod Reach
pub mod Boards
pub mod Trace
use task_queue_system.Prelude.{ℕ, Text, txt, Bool, true, false, some, ◌||◌, if◌then◌else◌, text_eq}
use task_queue_system.Prelude.Dict.{insert}
use task_queue_system.RateLimit.{Limiter, limited, dashboard_limiter}
use task_queue_system.Config.{Config}
use task_queue_system.Http.{Request, Headers, Response, Outcome, proceed, respond, error_body}
use task_queue_system.Dashboard.Cache.{
  Board, Handled, passed, served, rebuilds, dashboard_snapshot_cache,
}

unfoldable pub dashboard_read_only_guard : Request → Headers → Outcome
dashboard_read_only_guard req headers =
    if text_eq req.method (txt "GET") || text_eq req.method (txt "HEAD")
    then proceed req headers
    else respond (record {
      status = 405;
      headers = insert (txt "Allow") (txt "GET, HEAD") headers;
      body = some (
          error_body (
            txt
              "The queue dashboard is read-only. Queue state cannot be modified through this interface."));
    })

unfoldable pub block_redis_stats_route : Request → Headers → Outcome
block_redis_stats_route req headers =
    if text_eq req.path (txt "/api/redis/stats")
    then respond
        (record { status = 404; headers = headers; body = some (error_body (txt "Not found.")) })
    else proceed req headers

pub and_then : Outcome → (Request → Headers → Outcome) → Outcome
and_then (proceed req headers) f = f req headers
and_then (respond r) f = respond r

module _ (c : Config) (l : Limiter) (now : ℕ) where
  then_cache : l.State → Board → Outcome → Handled × (l.State × Board)
  then_cache ls b (proceed req headers) =
      let (handled, b') = dashboard_snapshot_cache c now req headers b in (handled, (ls, b'))
  then_cache ls b (respond r) = (served r, (ls, b))

  -- The limiter is hit by what the guards let through.
  after_guards : l.State → Board → Outcome → Handled × (l.State × Board)
  unfolding then_cache
  after_guards ls b (respond r) = (served r, (ls, b))
  after_guards ls b (proceed req headers) =
      let (o, ls') = limited l (dashboard_limiter c) (l.ip_key req.ip) now req headers ls in
      then_cache ls' b o

  -- The chain up to Bull Board's router, which a `passed` or a `rebuilds` request reaches.
  unfoldable pub dashboard_route : Request → Headers → l.State → Board → Handled × (l.State × Board)
  unfolding after_guards and_then
  dashboard_route req headers ls b =
      after_guards ls b (and_then (dashboard_read_only_guard req headers) block_redis_stats_route)
