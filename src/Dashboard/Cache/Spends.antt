-- ===== src/Dashboard/Cache/Spends.antt =====
-- What one poll takes from the global refresh budget.
use task_queue_system.Prelude.{
  ℕ, ◌+◌, ◌-◌, ◌≤◌, ◌<◌, Option, none, some, arith, leb, if◌then◌else◌, inl, inr, Bool-cases,
  text_eq, ◌&&◌, Bool, txt,
}
use task_queue_system.Prelude.Dict.{lookup}
use task_queue_system.Config.{Config}
use task_queue_system.Http.{Request, Headers}
use task_queue_system.Dashboard.Query.{CanonicalQuery, canonicalize_query, build_snapshot_key}
use task_queue_system.Dashboard.Cache.{
  Board, SnapshotEntry, is_fresh, answer, on_miss, over_budget, rebuild, claim_refresh_budget,
  dashboard_snapshot_cache, is_cacheable_data_route, Handled, passed, served, rebuilds,
}

-- How many requests go on to Bull Board's router, whatever is reported of them.
abbrev pub sent_by : Handled → ℕ
sent_by (passed _ _) = 1
sent_by (served _) = 0
sent_by (rebuilds _ _ _) = 1

-- A GET of the polled route.
pub is_poll : Request → Bool
is_poll req = text_eq req.method (txt "GET") && is_cacheable_data_route req.path

-- The polls among the requests that go on.
unfoldable pub polls_sent : Request → Handled → ℕ
unfolding is_poll
polls_sent req handled = if is_poll req then sent_by handled else 0

-- The units that remain for polls at times before `from + window`: one more window's worth if the
-- current window began before `from`.
abbrev pub left : Config → ℕ → Board → ℕ
left c from b =
    c.dashboard_max_refreshes_per_window
    - b.used
    + (if leb from b.window_start then 0 else c.dashboard_max_refreshes_per_window)

-- A step that sends `n` polls on pays for them.
pub record Spends (c : Config) (from n : ℕ) (b b' : Board) : Type 0 where
  pub cost : n + left c from b' ≤ left c from b
  pub within : b'.used ≤ c.dashboard_max_refreshes_per_window

module _ (c : Config) (from now : ℕ) (req : Request) (headers : Headers) (b : Board)
    (after : from ≤ now) (before : now < from + c.dashboard_refresh_window_ms)
    (within : b.used ≤ c.dashboard_max_refreshes_per_window) where
  abbrev Pays : Handled × Board → Type 0
  Pays o = Spends c from (sent_by o.0) b o.1

  on_miss-Spends :
      (view : CanonicalQuery) (cached : Option SnapshotEntry)
      → Pays (on_miss c now req headers view cached b)
  unfolding on_miss over_budget rebuild claim_refresh_budget
  on_miss-Spends view none = ground arith
  on_miss-Spends view (some e) = ground arith

  answer-Spends :
      (view : CanonicalQuery) (cached : Option SnapshotEntry)
      → Pays (answer c now req headers view cached b)
  unfolding answer
  answer-Spends view none = on_miss-Spends view none
  answer-Spends view (some e) = elim (Bool-cases (is_fresh now b.current_generation (some e))) [
    | inl fresh ↦ rw fresh (omega arith)
    | inr old ↦ rw old (on_miss-Spends view (some e))
  ]

  pub dashboard_snapshot_cache-Spends :
      Spends c from
        (polls_sent req (dashboard_snapshot_cache c now req headers b).0)
        b
        (dashboard_snapshot_cache c now req headers b).1
  unfolding dashboard_snapshot_cache is_poll polls_sent
  dashboard_snapshot_cache-Spends =
      let view = canonicalize_query req.query b.registered_queue_names in
      let key = build_snapshot_key view in
      elim (Bool-cases (text_eq req.method (txt "GET"))) [
        | inr other ↦ rw other (omega arith)
        | inl get ↦ elim (Bool-cases (is_cacheable_data_route req.path)) [
          | inr other ↦ rw (get, other) (omega arith)
          | inl route ↦ rw (get, route) (answer-Spends view (lookup key b.snapshots))
        ]
      ]
