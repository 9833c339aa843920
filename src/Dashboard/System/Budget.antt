-- ===== src/Dashboard/System/Budget.antt =====
-- The global refresh budget: how often all callers together can send a poll on to Redis.
use task_queue_system.Prelude.{
  ℕ, ◌+◌, ◌*◌, ◌≤◌, ◌<◌, [], ◌∷◌, List, Option, none, some, arith, All, get_elem?,
}
use task_queue_system.Config.{Config}
use task_queue_system.Json.{Json}
use task_queue_system.Dashboard.Cache.{
  Board, Pending, dashboard_snapshot_cache, store_snapshot, invalidate_dashboard_snapshot,
}
use task_queue_system.Dashboard.Cache.Spends.{polls_sent, Spends, dashboard_snapshot_cache-Spends}
use task_queue_system.Dashboard.System.{System, Event, polls, responds, mutates, step, finish, run}

-- The polls among the events come at times from `from` up to, not including, `until`.
abbrev pub IsBetween : ℕ → ℕ → Event → Type 0
IsBetween from until (polls now _ _) = (from ≤ now) × (now < until)
IsBetween from until _ = Unit

-- The GETs of the polled route that an event sends on to Bull Board's router, and a run.
pub sent_at : Config → System → Event → ℕ
unfolding polls_sent
sent_at c s (polls now req headers) =
    polls_sent req (dashboard_snapshot_cache c now req headers s.board).0
sent_at c s _ = 0

unfoldable pub sent_on : Config → System → List Event → ℕ
unfolding sent_at
sent_on c s [] = 0
sent_on c s (e ∷ es) = sent_at c s e + sent_on c (step c s e) es

module _ (c : Config) (from : ℕ) where
  store-Spends :
      (now status : ℕ) (p : Pending) (body : Json) (b : Board)
      → b.used ≤ c.dashboard_max_refreshes_per_window
      → Spends c from 0 b (store_snapshot c now p status body b)
  unfolding store_snapshot
  store-Spends now status p body b u = ground arith

  finish-Spends :
      (now i status : ℕ) (body : Json) (found : Option Pending) (s : System)
      → s.board.used ≤ c.dashboard_max_refreshes_per_window
      → Spends c from 0 s.board (finish c now i status body found s).board
  unfolding finish
  finish-Spends now i status body none s u = omega arith
  finish-Spends now i status body (some p) s u = store-Spends now status p body s.board u

  step-Spends :
      (s : System) (e : Event)
      → IsBetween from (from + c.dashboard_refresh_window_ms) e
      → s.board.used ≤ c.dashboard_max_refreshes_per_window
      → Spends c from (sent_at c s e) s.board (step c s e).board
  unfolding step sent_at invalidate_dashboard_snapshot
  step-Spends s (polls now req headers) h u =
      dashboard_snapshot_cache-Spends c from now req headers s.board h.0 h.1 u
  step-Spends s (responds now i status body) h u =
      finish-Spends now i status body (get_elem? s.in_flight i) s u
  step-Spends s mutates h u = omega arith

  run-Spends :
      (s : System) (es : List Event)
      → All (IsBetween from (from + c.dashboard_refresh_window_ms)) es
      → s.board.used ≤ c.dashboard_max_refreshes_per_window
      → Spends c from (sent_on c s es) s.board (run c s es).board
  unfolding run sent_on
  run-Spends s [] h u = omega arith
  run-Spends s (e ∷ es) h u =
      let first = step-Spends s e h.0 u in
      let rest = run-Spends (step c s e) es h.1 first.within in omega arith

-- From a state that has not used more units than the ceiling: however many callers poll, with whatever
-- queries and whatever happens to the queues in between, of the GET requests of the polled route within
-- one span of the refresh window's length at most twice the ceiling go on to Bull Board's router, and so
-- to Redis, whatever is reported of them. Other requests, HEAD requests of that route among them, are
-- not counted.
pub refreshes_bounded :
    (c : Config) (s : System) (es : List Event) (from : ℕ)
    → s.board.used ≤ c.dashboard_max_refreshes_per_window
    → All (IsBetween from (from + c.dashboard_refresh_window_ms)) es
    → sent_on c s es ≤ 2 * c.dashboard_max_refreshes_per_window
refreshes_bounded c s es from u h = ground (arith, run-Spends c from s es h u)

-- From a state that has not used more units than the ceiling: polls within the current refresh window
-- send no more requests on than the units that the window has left.
window_refreshes_bounded :
    (c : Config) (s : System) (es : List Event)
    → s.board.used ≤ c.dashboard_max_refreshes_per_window
    → All (IsBetween s.board.window_start (s.board.window_start + c.dashboard_refresh_window_ms)) es
    → sent_on c s es + s.board.used ≤ c.dashboard_max_refreshes_per_window
window_refreshes_bounded c s es u h = ground (arith, run-Spends c s.board.window_start s es h u)
