-- ===== src/Dashboard/Cache/Passes.antt =====
-- Which requests the snapshot cache lets go on as they came.
use task_queue_system.Prelude.{
  ℕ, ◌≡◌, refl, inl, inr, txt, Option, none, some, Bool, true, false, ◌||◌, not, Bool-cases,
  text_eq,
}
use task_queue_system.Config.{Config}
use task_queue_system.Http.{Request, Headers}
use task_queue_system.Dashboard.Query.{CanonicalQuery}
use task_queue_system.Dashboard.Cache.{
  Board, SnapshotEntry, Handled, passed, served, rebuilds, dashboard_snapshot_cache, answer,
  on_miss, after_claim, over_budget, rebuild, claim_refresh_budget, is_fresh,
  is_cacheable_data_route, from_memory,
}

unfoldable pub is_passed : Handled → Bool
is_passed (passed _ _) = true
is_passed (served _) = false
is_passed (rebuilds _ _ _) = false

module _ (c : Config) (now : ℕ) (req : Request) (headers : Headers) (b : Board) where
  after_claim-passed :
      (view : CanonicalQuery) (cached : Option SnapshotEntry) (claim : Bool × Board)
      → is_passed (after_claim c req headers view cached claim).0 ≡ false
  unfolding is_passed after_claim over_budget rebuild from_memory
  after_claim-passed view none (false, b) = refl
  after_claim-passed view (some e) (false, b) = refl
  after_claim-passed view cached (true, b) = refl

  answer-passed :
      (view : CanonicalQuery) (cached : Option SnapshotEntry)
      → is_passed (answer c now req headers view cached b).0 ≡ false
  unfolding answer on_miss is_passed from_memory
  answer-passed view none = after_claim-passed view none (claim_refresh_budget c now b)
  answer-passed view (some e) = elim (Bool-cases (is_fresh now b.current_generation (some e))) [
    | inl fresh ↦ rw fresh refl
    | inr old ↦ rw old (after_claim-passed view (some e) (claim_refresh_budget c now b))
  ]

  pub passed_lem :
      is_passed (dashboard_snapshot_cache c now req headers b).0
      ≡ (not (text_eq req.method (txt "GET")) || not (text_eq req.path (txt "/api/queues")))
  unfolding dashboard_snapshot_cache is_cacheable_data_route is_passed
  passed_lem =
      elim (Bool-cases
        (not (text_eq req.method (txt "GET")) || not (text_eq req.path (txt "/api/queues")))) [
          | inl other ↦ rw other refl
          | inr poll ↦ rw poll (answer-passed _ _)
        ]
