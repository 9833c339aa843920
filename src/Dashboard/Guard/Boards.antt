-- ===== src/Dashboard/Guard/Boards.antt =====
-- What the dashboard's chain of handlers does to the board, and what it sends on.
use task_queue_system.Prelude.{ℕ, ◌≡◌, refl, Text, List, arith}
use task_queue_system.Config.{Config}
use task_queue_system.Http.{Request, Headers, Outcome, proceed, respond}
use task_queue_system.RateLimit.{Limiter}
use task_queue_system.Dashboard.Query.Canonical.{canonicalize_query-IsCanonical}
use task_queue_system.Dashboard.Cache.{
  Board, Handled, passed, served, rebuilds, dashboard_snapshot_cache,
}
use task_queue_system.Dashboard.Cache.Entries.{dashboard_snapshot_cache-Keeps, rebuilds_lem}
use task_queue_system.Dashboard.System.Later.{Later, Later-refl, Keeps-Later}
use task_queue_system.Dashboard.System.Snapshots.{IsFlight}
use task_queue_system.Dashboard.Guard.{dashboard_route, after_guards, then_cache}

module _ (c : Config) (names : List Text) where
  abbrev pub IsFlown : Board → Handled → Type 0
  IsFlown b (passed req headers) = Unit {0}
  IsFlown b (served r) = Unit {0}
  IsFlown b (rebuilds req headers p) = IsFlight c names b.current_generation p

  abbrev pub Fits : Board → Handled → Board → Type 0
  Fits b handled b' = Later b b' × IsFlown b' handled

  module _ (b : Board) (named : b.registered_queue_names ≡ names) where
    cache-IsFlown :
        (now : ℕ) (req : Request) (headers : Headers) (handled : Handled)
        → (dashboard_snapshot_cache c now req headers b).0 ≡ handled
        → IsFlown (dashboard_snapshot_cache c now req headers b).1 handled
    cache-IsFlown now req headers (passed r h) e = tt
    cache-IsFlown now req headers (served r) e = tt
    cache-IsFlown now req headers (rebuilds r h p) e =
        let (view, key, age, _) = rebuilds_lem c now req headers b e in
        record {
          view = rw (view, named) (canonicalize_query-IsCanonical req.query names);
          key = rw (key, view) refl;
          age = omega (arith, age, (dashboard_snapshot_cache-Keeps c now req headers b).generation);
        }

    module _ (l : Limiter) (now : ℕ) where
      abbrev Cached : Handled × (l.State × Board) → Type 0
      Cached o = Fits b o.0 o.1.1

      then_cache-Fits : (ls : l.State) (o : Outcome) → Cached (then_cache c l now ls b o)
      unfolding then_cache
      then_cache-Fits ls (respond r) = (Later-refl b, tt)
      then_cache-Fits ls (proceed req headers) = (
        Keeps-Later b _ (dashboard_snapshot_cache-Keeps c now req headers b),
        cache-IsFlown now req headers _ refl,
      )

      after_guards-Fits : (ls : l.State) (o : Outcome) → Cached (after_guards c l now ls b o)
      unfolding after_guards
      after_guards-Fits ls (respond r) = (Later-refl b, tt)
      after_guards-Fits ls (proceed req headers) = then_cache-Fits _ _

      pub dashboard_route-Fits :
          (req : Request) (headers : Headers) (ls : l.State)
          → Cached (dashboard_route c l now req headers ls b)
      unfolding dashboard_route
      dashboard_route-Fits req headers ls = after_guards-Fits ls _
