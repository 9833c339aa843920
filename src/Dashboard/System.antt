-- ===== src/Dashboard/System.antt =====
-- The snapshot cache in its process: polls, the responses that the dashboard's handler gives to the
-- requests under way, and mutations of a queue, in any order. `delivered` keeps what was sent to
-- `res.json`, for the statements only.
pub mod Budget
pub mod Snapshots
pub mod Freshness
pub mod Later
mod Tests
use task_queue_system.Prelude.{
  ℕ, zero, suc, ◌+◌, [], ◌∷◌, Text, List, Option, none, some, get_elem?,
}
use task_queue_system.Config.{Config}
use task_queue_system.Json.{Json}
use task_queue_system.Http.{Request, Headers}
use task_queue_system.Dashboard.Cache.{
  Board, Pending, Handled, passed, served, rebuilds, dashboard_snapshot_cache, store_snapshot,
  invalidate_dashboard_snapshot,
}

pub record Delivery : Type 0 where
  pub pending : Pending
  pub at : ℕ
  pub status : ℕ
  pub body : Json

pub record System : Type 0 where
  pub board : Board
  pub in_flight : List Pending
  pub delivered : List Delivery

-- `responds now i status body`: the handler of the i-th request under way calls `res.json`.
pub data Event : Type 0 where
  polls : ℕ → Request → Headers → Event
  responds : ℕ → ℕ → ℕ → Json → Event
  mutates : Event

remove_at {ℓ} : {A : Type ℓ} → ℕ → List A → List A
remove_at i [] = []
remove_at zero (x ∷ xs) = xs
remove_at (suc i) (x ∷ xs) = x ∷ remove_at i xs

start_request : Pending → List Pending → List Pending
start_request p ps = p ∷ ps

track : Handled → List Pending → List Pending
track (passed _ _) ps = ps
track (served _) ps = ps
track (rebuilds _ _ p) ps = p ∷ ps

finish : Config → ℕ → ℕ → ℕ → Json → Option Pending → System → System
finish c now i status body none s = s
finish c now i status body (some p) s = record {
  board = store_snapshot c now p status body s.board;
  in_flight = remove_at i s.in_flight;
  delivered = record { pending = p; at = now; status = status; body = body } ∷ s.delivered;
}

unfoldable pub step : Config → System → Event → System
unfolding track finish remove_at
step c s (polls now req headers) =
    let (handled, board) = dashboard_snapshot_cache c now req headers s.board in
    record s { board = board; in_flight = track handled s.in_flight }
step c s (responds now i status body) = finish c now i status body (get_elem? s.in_flight i) s
step c s mutates = record s { board = invalidate_dashboard_snapshot s.board }

pub run : Config → System → List Event → System
run c s [] = s
run c s (e ∷ es) = run c (step c s e) es

abbrev pub init : List Text → System
init names = record {
  board = record {
    snapshots = [];
    current_generation = 0;
    window_start = 0;
    used = 0;
    registered_queue_names = names;
    reports = [];
  };
  in_flight = [];
  delivered = [];
}
