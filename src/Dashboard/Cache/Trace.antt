-- ===== src/Dashboard/Cache/Trace.antt =====
-- The snapshot cache leaves the correlation ID of a response alone.
use task_queue_system.Prelude.{
  ℕ, ◌≡◌, refl, inl, inr, txt, Option, none, some, Bool, true, false, ◌||◌, not, Bool-cases,
  text_eq, ◌∙◌,
}
use task_queue_system.Prelude.Dict.{lookup}
use task_queue_system.Config.{Config}
use task_queue_system.Http.{Request, Headers}
use task_queue_system.Context.Trace.{trace_of, trace_of-insert}
use task_queue_system.Dashboard.Query.{CanonicalQuery, canonicalize_query, build_snapshot_key}
use task_queue_system.Dashboard.Cache.{
  Board, SnapshotEntry, Handled, passed, served, rebuilds, dashboard_snapshot_cache, answer,
  on_miss, after_claim, over_budget, rebuild, claim_refresh_budget, is_fresh,
  is_cacheable_data_route, from_memory, shed_response, snapshot_headers, String,
}

abbrev pub handled_headers : Handled → Headers
handled_headers (passed req headers) = headers
handled_headers (served r) = r.headers
handled_headers (rebuilds req headers p) = headers

snapshot_headers-kept :
    (source : String) (headers : Headers)
    → trace_of (snapshot_headers source headers) ≡ trace_of headers
unfolding snapshot_headers text_eq
snapshot_headers-kept source headers = trace_of-insert _ _ _ refl ∙ trace_of-insert _ _ _ refl

module _ (c : Config) (now : ℕ) (req : Request) (headers : Headers) (b : Board) where
  shed-kept : trace_of (shed_response c headers).headers ≡ trace_of headers
  unfolding shed_response text_eq
  shed-kept = trace_of-insert _ _ _ refl ∙ snapshot_headers-kept "SHED" headers

  after_claim-kept :
      (view : CanonicalQuery) (cached : Option SnapshotEntry) (claim : Bool × Board)
      → trace_of (handled_headers (after_claim c req headers view cached claim).0)
        ≡ trace_of headers
  unfolding after_claim over_budget rebuild from_memory
  after_claim-kept view none (false, b) = shed-kept
  after_claim-kept view (some e) (false, b) = snapshot_headers-kept "STALE" headers
  after_claim-kept view cached (true, b) = snapshot_headers-kept "MISS" headers

  answer-kept :
      (view : CanonicalQuery) (cached : Option SnapshotEntry)
      → trace_of (handled_headers (answer c now req headers view cached b).0) ≡ trace_of headers
  unfolding answer on_miss from_memory
  answer-kept view none = after_claim-kept view none (claim_refresh_budget c now b)
  answer-kept view (some e) = elim (Bool-cases (is_fresh now b.current_generation (some e))) [
    | inl fresh ↦ rw fresh (snapshot_headers-kept "HIT" headers)
    | inr old ↦ rw old (after_claim-kept view (some e) (claim_refresh_budget c now b))
  ]

  pub dashboard_snapshot_cache-kept :
      trace_of (handled_headers (dashboard_snapshot_cache c now req headers b).0) ≡ trace_of headers
  unfolding dashboard_snapshot_cache
  dashboard_snapshot_cache-kept =
      let view = canonicalize_query req.query b.registered_queue_names in
      elim (Bool-cases
        (not (text_eq req.method (txt "GET")) || not (is_cacheable_data_route req.path))) [
          | inl other ↦ rw other refl
          | inr poll ↦ rw poll (answer-kept view (lookup (build_snapshot_key view) b.snapshots))
        ]
