-- ===== src/Dashboard/Guard/Reach.antt =====
-- Which requests reach Bull Board's router past the cache and its budget.
use task_queue_system.Prelude.{
  ℕ, ◌≡◌, refl, inl, inr, Text, txt, Bool, true, false, ◌&&◌, ◌||◌, not, Bool-cases, arith, text_eq,
  text_eq_iff, String,
}
use task_queue_system.RateLimit.{Limiter, limited, verdict, dashboard_limiter}
use task_queue_system.Prelude.Dict.{Dict}
use task_queue_system.Config.{Config}
use task_queue_system.Http.{Request, Headers}
use task_queue_system.Dashboard.Cache.{Board}
use task_queue_system.Dashboard.Cache.Passes.{is_passed, passed_lem}
use task_queue_system.Dashboard.Guard.{
  dashboard_route, dashboard_read_only_guard, block_redis_stats_route, then_cache, after_guards,
  and_then,
}

abbrev is_method : String → Request → Bool
is_method name req = text_eq req.method (txt name)

abbrev is_path : String → Request → Bool
is_path name req = text_eq req.path (txt name)

-- The requests that Bull Board's router answers without a unit of the refresh budget, as they came.
abbrev pub is_unbudgeted : Request → Bool
is_unbudgeted req =
    (is_method "HEAD" req || (is_method "GET" req && not (is_path "/api/queues" req)))
    && not (is_path "/api/redis/stats" req)

get_is_not_head : (t : Text) → text_eq t (txt "GET") ≡ true → text_eq t (txt "HEAD") ≡ false
unfolding text_eq
get_is_not_head t e = rw ((text_eq_iff t (txt "GET")).0 e) refl

verdict-passed :
    (c : Config) (l : Limiter) (now : ℕ) (req : Request) (headers : Headers) (ls : l.State)
    (b : Board) (v : Bool × Dict Text)
    → (is_method "GET" req || is_method "HEAD" req) ≡ true
    → is_passed (then_cache c l now ls b (verdict (dashboard_limiter c) req headers v)).0 ≡ (
        v.0
        && ((is_method "HEAD" req || (is_method "GET" req && not (is_path "/api/queues" req)))
            && true))
unfolding then_cache verdict
verdict-passed c l now req headers ls b (false, extra) read = unfold is_passed in refl
verdict-passed c l now req headers ls b (true, extra) read =
    rw (passed_lem c now req _ b) (ground (arith, read, get_is_not_head req.method))

-- A request goes through the chain to Bull Board's router past the snapshot cache and its refresh
-- budget exactly if the rate limiter lets it through, its path is not /api/redis/stats, and it is
-- either a GET of another path than /api/queues or a HEAD of any path, that of /api/queues included.
-- So no method but GET and HEAD reaches the router that way.
pub unbudgeted_exactly :
    (c : Config) (l : Limiter) (now : ℕ) (req : Request) (headers : Headers) (ls : l.State)
    (b : Board)
    → is_passed (dashboard_route c l now req headers ls b).0
      ≡ ((l.hit (dashboard_limiter c) (l.ip_key req.ip) now ls).0.0 && is_unbudgeted req)
unfolding dashboard_route dashboard_read_only_guard block_redis_stats_route is_passed after_guards
    limited and_then
unbudgeted_exactly c l now req headers ls b =
    elim (Bool-cases (is_method "GET" req || is_method "HEAD" req)) [
      | inr other ↦ rw other (ground (arith, other))
      | inl read ↦ rw read (elim (Bool-cases (is_path "/api/redis/stats" req)) [
        | inl stats ↦ rw stats (ground (arith, stats))
        | inr apart ↦ rw apart (
            verdict-passed c l now req headers _ b
              (l.hit (dashboard_limiter c) (l.ip_key req.ip) now ls).0 read)
      ])
    ]
