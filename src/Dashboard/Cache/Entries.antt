-- ===== src/Dashboard/Cache/Entries.antt =====
-- The branches of the middleware, as a case rule for the proofs about it.
use task_queue_system.Prelude.{
  ℕ, String, ◌<◌, ◌≡◌, ◌≢◌, refl, sym, ◌⊎◌, inl, inr, txt, Option, none, some, Bool, true, false,
  Bool-cases, arith, ◌∙◌, text_eq, not, ◌||◌,
}
use task_queue_system.Prelude.Dict.{lookup, lookup-insert, lookup-insert_self}
use task_queue_system.Config.{Config}
use task_queue_system.Json.{Json}
use task_queue_system.Http.{Request, Headers, Response}
use task_queue_system.Dashboard.Query.{CanonicalQuery, canonicalize_query, build_snapshot_key}
use task_queue_system.Dashboard.Cache.{
  Board, SnapshotEntry, Pending, Handled, passed, served, rebuilds, is_fresh, answer, on_miss,
  after_claim, rebuild, claim_refresh_budget, with_view, from_memory, shed_response,
  snapshot_headers, dashboard_snapshot_cache, is_cacheable_data_route,
}

-- What a call leaves alone.
pub record Keeps (b b' : Board) : Type 0 where
  pub snapshots : b'.snapshots ≡ b.snapshots
  pub generation : b'.current_generation ≡ b.current_generation
  pub names : b'.registered_queue_names ≡ b.registered_queue_names

data Answers (c : Config) (now : ℕ) (req : Request) (headers : Headers) (view : CanonicalQuery)
    (cached : Option SnapshotEntry) (b : Board) (handled : Handled) : Type 0 where
  hit :
      (e : SnapshotEntry)
      → cached ≡ some e
      → now < e.expires_at
      → e.generation ≡ b.current_generation
      → handled ≡ from_memory "HIT" headers e.body
      → Answers c now req headers view cached b handled
  stale :
      (e : SnapshotEntry)
      → cached ≡ some e
      → (claim_refresh_budget c now b).0 ≡ false
      → handled ≡ from_memory "STALE" headers e.body
      → Answers c now req headers view cached b handled
  shed :
      cached ≡ none
      → (claim_refresh_budget c now b).0 ≡ false
      → handled ≡ served (shed_response c headers)
      → Answers c now req headers view cached b handled
  sent :
      (claim_refresh_budget c now b).0 ≡ true
      → handled
        ≡ rebuilds (with_view req view) (snapshot_headers "MISS" headers) (record {
          view = view;
          cache_key = build_snapshot_key view;
          generation_at_dispatch = b.current_generation;
        })
      → Answers c now req headers view cached b handled

served_inj : {r r' : Response} → served r ≡ served r' → r ≡ r'
served_inj e = cc

not_hit :
    (headers : Headers)
    → lookup (txt "X-Dashboard-Snapshot") (snapshot_headers "STALE" headers) ≢ some (txt "HIT")
unfolding snapshot_headers text_eq
not_hit headers e =
    let label : lookup (txt "X-Dashboard-Snapshot") (snapshot_headers "STALE" headers)
        ≡ some (txt "STALE") =
      rw (lookup-insert, lookup-insert_self) refl in
    cc

from_memory_lem :
    (source : String) (headers : Headers) (body : Json)
    → from_memory source headers body
      ≡ served
          (record { status = 200; headers = snapshot_headers source headers; body = some body })
unfolding from_memory
from_memory_lem source headers body = refl

module _ (c : Config) (now : ℕ) (req : Request) (headers : Headers) (b : Board) where
  claim-Keeps : Keeps b (claim_refresh_budget c now b).1
  unfolding claim_refresh_budget
  claim-Keeps = ground arith

  after_claim-Answers :
      (view : CanonicalQuery) (cached : Option SnapshotEntry) (claimed : Bool × Board)
      → claim_refresh_budget c now b ≡ claimed
      → Answers c now req headers view cached b (after_claim c req headers view cached claimed).0
        × Keeps b (after_claim c req headers view cached claimed).1
  unfolding after_claim
  after_claim-Answers view none (false, b') e =
      (shed refl (rw e refl) refl, ground (arith, rw e at claim-Keeps))
  after_claim-Answers view (some x) (false, b') e =
      (stale x refl (rw e refl) refl, ground (arith, rw e at claim-Keeps))
  after_claim-Answers view cached (true, b') e =
      let kept : Keeps b b' = rw e at claim-Keeps in
      (sent (rw e refl) (unfold rebuild in rw kept.generation refl), ground (arith, kept))

  on_miss-Answers :
      (view : CanonicalQuery) (cached : Option SnapshotEntry)
      → Answers c now req headers view cached b (on_miss c now req headers view cached b).0
        × Keeps b (on_miss c now req headers view cached b).1
  unfolding on_miss
  on_miss-Answers view cached = after_claim-Answers view cached (claim_refresh_budget c now b) refl

  answer-Answers :
      (view : CanonicalQuery) (cached : Option SnapshotEntry)
      → Answers c now req headers view cached b (answer c now req headers view cached b).0
        × Keeps b (answer c now req headers view cached b).1
  unfolding answer
  answer-Answers view none = on_miss-Answers view none
  answer-Answers view (some e) = elim (Bool-cases (is_fresh now b.current_generation (some e))) [
    | inl fresh ↦
        rw fresh (hit e refl (ground (arith, fresh)) (ground (arith, fresh)) refl, ground arith)
    | inr old ↦ rw old (on_miss-Answers view (some e))
  ]

  abbrev view_of : CanonicalQuery
  view_of = canonicalize_query req.query b.registered_queue_names

  abbrev cached_for : Option SnapshotEntry
  cached_for = lookup (build_snapshot_key view_of) b.snapshots

  -- Either the request goes on as it came, or the branches of `answer` apply.
  dashboard_cases :
      let r = dashboard_snapshot_cache c now req headers b in
      (r ≡ (passed req headers, b))
      ⊎ (Answers c now req headers view_of cached_for b r.0 × Keeps b r.1)
  unfolding dashboard_snapshot_cache
  dashboard_cases =
      elim (Bool-cases
        (not (text_eq req.method (txt "GET")) || not (is_cacheable_data_route req.path))) [
          | inl other ↦ inl (rw other refl)
          | inr poll ↦ inr (rw poll (answer-Answers view_of cached_for))
        ]

  -- A call changes no snapshot, no generation and no list of names.
  pub dashboard_snapshot_cache-Keeps : Keeps b (dashboard_snapshot_cache c now req headers b).1
  dashboard_snapshot_cache-Keeps = elim dashboard_cases [
    | inl e ↦ rw e (ground arith)
    | inr h ↦ h.1
  ]

  -- A request that is sent on carries its canonical query, and the closure of `res.json` the view,
  -- its key and the current generation.
  pub rebuilds_lem :
      {r : Request} {h : Headers} {p : Pending}
      → (dashboard_snapshot_cache c now req headers b).0 ≡ rebuilds r h p
      → (p.view ≡ view_of)
        × (p.cache_key ≡ build_snapshot_key view_of)
        × (p.generation_at_dispatch ≡ b.current_generation)
        × (r ≡ with_view req view_of)
  rebuilds_lem e = elim dashboard_cases [
    | inl same ↦ cc
    | inr (hit x _ _ _ f, _) ↦ unfold from_memory in cc
    | inr (stale x _ _ f, _) ↦ unfold from_memory in cc
    | inr (shed _ _ f, _) ↦ cc
    | inr (sent _ f, _) ↦ ground (arith, e, f)
  ]

  -- A response from memory of status 200 is the snapshot stored under the request's key; one that
  -- says HIT is unexpired and of the current generation.
  pub served_lem :
      {r : Response}
      → (dashboard_snapshot_cache c now req headers b).0 ≡ served r
      → r.status ≡ 200
      → (e : SnapshotEntry) × (cached_for ≡ some e)
        × (r.body ≡ some e.body)
        × (lookup (txt "X-Dashboard-Snapshot") r.headers ≡ some (txt "HIT")
            → (now < e.expires_at) × (e.generation ≡ b.current_generation))
  served_lem e ok = elim dashboard_cases [
    | inl same ↦ cc
    | inr (hit x found fresh current f, _) ↦
        (x, found, unfold from_memory in ground (arith, e, f), λ _. (fresh, current))
    | inr (stale x found _ f, _) ↦
        let same = served_inj (sym e ∙ f ∙ from_memory_lem "STALE" headers x.body) in
        (x, found, ground (arith, same), λ says. absurd (not_hit headers (rw same at says)))
    | inr (shed _ _ f, _) ↦ absurd (unfold shed_response in ground (arith, e, f))
    | inr (sent _ f, _) ↦ cc
  ]
