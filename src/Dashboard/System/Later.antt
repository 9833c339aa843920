-- ===== src/Dashboard/System/Later.antt =====
-- What any part of the process but Bull Board's handler does to the board: the snapshots stay, and the
-- generation never goes back.
use task_queue_system.Prelude.{◌≤◌, ◌≡◌, refl, ◌∙◌, arith, All, All-map, List, Text, suc}
use task_queue_system.Config.{Config}
use task_queue_system.Dashboard.Cache.{Board, Pending, invalidate_dashboard_snapshot}
use task_queue_system.Dashboard.Cache.Entries.{Keeps}
use task_queue_system.Dashboard.System.{System}
use task_queue_system.Dashboard.System.Snapshots.{Inv, IsFlight, IsBacked-mono}

pub record Later (b b' : Board) : Type 0 where
  pub snapshots : b'.snapshots ≡ b.snapshots
  pub names : b'.registered_queue_names ≡ b.registered_queue_names
  pub generation : b.current_generation ≤ b'.current_generation

-- The board is later, by one generation at least.
abbrev pub IsRenewed : Board → Board → Type 0
IsRenewed b b' = Later b b' × (suc b.current_generation ≤ b'.current_generation)

pub Later-refl : (b : Board) → Later b b
Later-refl b = record { snapshots = refl; names = refl; generation = omega arith }

pub Later-trans : (a b d : Board) → Later a b → Later b d → Later a d
Later-trans a b d x y = record {
  snapshots = y.snapshots ∙ x.snapshots;
  names = y.names ∙ x.names;
  generation = omega (arith, x.generation, y.generation);
}

pub invalidate_dashboard_snapshot-Later : (b : Board) → Later b (invalidate_dashboard_snapshot b)
unfolding invalidate_dashboard_snapshot
invalidate_dashboard_snapshot-Later b = record {
  snapshots = refl;
  names = refl;
  generation = omega arith;
}

pub Keeps-Later : (b b' : Board) → Keeps b b' → Later b b'
Keeps-Later b b' k = record {
  snapshots = k.snapshots;
  names = k.names;
  generation = omega (arith, k.generation);
}

-- The invariant of the snapshot cache stays, with requests that were sent on meanwhile.
pub Inv-Later :
    (c : Config) (names : List Text) (s : System) (b : Board) (in_flight : List Pending)
    → Inv c names s
    → Later s.board b
    → All (IsFlight c names b.current_generation) in_flight
    → Inv c names (record { board = b; in_flight = in_flight; delivered = s.delivered })
Inv-Later c names s b in_flight inv later flights = record {
  named = later.names ∙ inv.named;
  small = rw later.snapshots inv.small;
  flights = flights;
  backed = rw later.snapshots (
      All-map s.board.snapshots
        (λ e.
          IsBacked-mono c names s.board.current_generation b.current_generation s.delivered e.0 e.1
            later.generation)
        inv.backed);
}
