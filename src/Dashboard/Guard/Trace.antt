-- ===== src/Dashboard/Guard/Trace.antt =====
-- The chain before the dashboard's router leaves the correlation ID of a response alone.
use task_queue_system.Prelude.{ℕ, ◌≡◌, refl, inl, inr, txt, ◌||◌, Bool-cases, text_eq, ◌∙◌}
use task_queue_system.Config.{Config}
use task_queue_system.Http.{Request, Headers, Outcome, proceed, respond}
use task_queue_system.RateLimit.{Limiter, dashboard_limiter, limited}
use task_queue_system.RateLimit.Trace.{IsStandard, limited-kept}
use task_queue_system.Context.Trace.{trace_of, outcome_headers, trace_of-insert}
use task_queue_system.Dashboard.Cache.{Board}
use task_queue_system.Dashboard.Cache.Trace.{handled_headers, dashboard_snapshot_cache-kept}
use task_queue_system.Dashboard.Guard.{
  dashboard_route, dashboard_read_only_guard, block_redis_stats_route, and_then, then_cache,
  after_guards,
}

guard-kept :
    (req : Request) (headers : Headers)
    → trace_of (outcome_headers (dashboard_read_only_guard req headers)) ≡ trace_of headers
unfolding dashboard_read_only_guard
guard-kept req headers =
    elim (Bool-cases (text_eq req.method (txt "GET") || text_eq req.method (txt "HEAD"))) [
      | inl read ↦ rw read refl
      | inr other ↦ rw other (unfold text_eq in trace_of-insert _ _ _ refl)
    ]

block-kept :
    (req : Request) (headers : Headers)
    → trace_of (outcome_headers (block_redis_stats_route req headers)) ≡ trace_of headers
unfolding block_redis_stats_route
block-kept req headers = elim (Bool-cases (text_eq req.path (txt "/api/redis/stats"))) [
  | inl stats ↦ rw stats refl
  | inr other ↦ rw other refl
]

and_then-block :
    (o : Outcome)
    → trace_of (outcome_headers (and_then o block_redis_stats_route)) ≡ trace_of (outcome_headers o)
unfolding and_then
and_then-block (respond r) = refl
and_then-block (proceed req headers) = block-kept req headers

module _ (c : Config) (l : Limiter) (now : ℕ) (law : IsStandard l) where
  then_cache-kept :
      (ls : l.State) (b : Board) (o : Outcome)
      → trace_of (handled_headers (then_cache c l now ls b o).0) ≡ trace_of (outcome_headers o)
  unfolding then_cache
  then_cache-kept ls b (respond r) = refl
  then_cache-kept ls b (proceed req headers) = dashboard_snapshot_cache-kept c now req headers b

  after_guards-kept :
      (ls : l.State) (b : Board) (o : Outcome)
      → trace_of (handled_headers (after_guards c l now ls b o).0) ≡ trace_of (outcome_headers o)
  unfolding after_guards
  after_guards-kept ls b (respond r) = refl
  after_guards-kept ls b (proceed req headers) =
      let (o, ls') = limited l (dashboard_limiter c) (l.ip_key req.ip) now req headers ls in
      then_cache-kept ls' b o
      ∙ limited-kept l (dashboard_limiter c) (l.ip_key req.ip) now req headers ls law

  pub dashboard_route-kept :
      (req : Request) (headers : Headers) (ls : l.State) (b : Board)
      → trace_of (handled_headers (dashboard_route c l now req headers ls b).0) ≡ trace_of headers
  unfolding dashboard_route
  dashboard_route-kept req headers ls b =
      after_guards-kept ls b
        (and_then (dashboard_read_only_guard req headers) block_redis_stats_route)
      ∙ (and_then-block (dashboard_read_only_guard req headers) ∙ guard-kept req headers)
