-- ===== src/Dashboard/System/Freshness.antt =====
-- What a poll answered from memory shows, after any history of the process.
use mathlib.Core.List.{Memᴰ}
use task_queue_system.Prelude.{
  ℕ, ◌+◌, ◌≤◌, ◌<◌, ◌≡◌, ◌≢◌, refl, sym, ◌∙◌, [], ◌∷◌, Text, txt, List, some, arith, All, ap,
}
use task_queue_system.Prelude.Dict.{lookup, lookup-All}
use task_queue_system.Config.{Config}
use task_queue_system.Http.{Request, Headers, Response}
use task_queue_system.Dashboard.Query.{canonicalize_query, build_snapshot_key}
use task_queue_system.Dashboard.Query.Canonical.{canonicalize_query-IsCanonical}
use task_queue_system.Dashboard.Query.Key.{IsPlain, build_snapshot_key_inj}
use task_queue_system.Dashboard.Cache.{
  Board, served, dashboard_snapshot_cache, dashboard_snapshot_cache_size,
  invalidate_dashboard_snapshot,
}
use task_queue_system.Dashboard.Cache.Entries.{served_lem}
use task_queue_system.Dashboard.System.{System, Delivery, Event, mutates, step, run, init}
use task_queue_system.Dashboard.System.Snapshots.{Inv, IsBacked, step-Inv}

module _ (c : Config) (names : List Text) where
  run-Inv :
      (s : System) (es : List Event)
      → 1 ≤ c.dashboard_max_cache_entries
      → Inv c names s
      → Inv c names (run c s es)
  unfolding run
  run-Inv s [] h inv = inv
  run-Inv s (e ∷ es) h inv = run-Inv (step c s e) es h (step-Inv c names s inv e h)

  pub init-Inv : Inv c names (init names)
  init-Inv = record { named = refl; small = omega arith; flights = tt; backed = tt }

  reached-Inv :
      (es : List Event) → 1 ≤ c.dashboard_max_cache_entries → Inv c names (run c (init names) es)
  reached-Inv es h = run-Inv (init names) es h init-Inv

-- The cache never holds more than DASHBOARD_MAX_CACHE_ENTRIES snapshots, if that is at least 1.
pub cache_size_bounded :
    (c : Config) (names : List Text) (es : List Event)
    → 1 ≤ c.dashboard_max_cache_entries
    → dashboard_snapshot_cache_size (run c (init names) es).board ≤ c.dashboard_max_cache_entries
unfolding dashboard_snapshot_cache_size
cache_size_bounded c names es h = (reached-Inv c names es h).small

-- The delivery that a body from memory goes back to.
pub record IsShown (c : Config) (now : ℕ) (req : Request) (names : List Text) (s : System)
    (r : Response) (d : Delivery) : Type 0 where
  pub listed : Memᴰ d s.delivered
  pub success : d.status ≡ 200
  pub view : d.pending.view ≡ canonicalize_query req.query names
  pub body : r.body ≡ some d.body
  pub current :
      lookup (txt "X-Dashboard-Snapshot") r.headers ≡ some (txt "HIT")
      → (d.pending.generation_at_dispatch ≡ s.board.current_generation)
        × (now < d.at + c.dashboard_snapshot_ttl_ms)

-- A poll that is answered from memory with status 200, in a state in which the invariant holds.
pub shown :
    (c : Config) (names : List Text) (s : System) (now : ℕ) (req : Request) (headers : Headers)
    {r : Response}
    → Inv c names s
    → All IsPlain names
    → (dashboard_snapshot_cache c now req headers s.board).0 ≡ served r
    → r.status ≡ 200
    → (d : Delivery) × IsShown c now req names s r d
shown c names s now req headers {r} inv plain e ok =
    let (x, found, body, fresh) = served_lem c now req headers s.board e ok in
    let k : IsBacked c names s.board.current_generation s.delivered _ x =
      lookup-All (IsBacked c names s.board.current_generation s.delivered) _ s.board.snapshots
        inv.backed found in
    (
      k.source,
      record {
        listed = k.listed;
        success = k.success;
        view =
            build_snapshot_key_inj names _ _ plain k.flight.view
              (canonicalize_query-IsCanonical req.query names)
              (sym k.flight.key
                ∙ k.key_eq
                ∙ ap (λ n. build_snapshot_key (canonicalize_query req.query n)) inv.named);
        body = body ∙ ap some k.body;
        current = λ says.
            let f = fresh says in (omega (arith, k.dispatched, f.1), omega (arith, k.expiry, f.0));
      },
    )

-- After any history, for queue names without `&`: a poll that is answered from memory with status
-- 200 gets a body that the dashboard's handler delivered, with status 200, for the view that the
-- poll's own query names. If the answer says HIT, that delivery's request was sent on under the
-- current generation, and was delivered less than the time to live ago.
pub served_view :
    (c : Config) (names : List Text) (es : List Event) (now : ℕ) (req : Request) (headers : Headers)
    {r : Response}
    → 1 ≤ c.dashboard_max_cache_entries
    → All IsPlain names
    → (dashboard_snapshot_cache c now req headers (run c (init names) es).board).0 ≡ served r
    → r.status ≡ 200
    → (d : Delivery) × IsShown c now req names (run c (init names) es) r d
served_view c names es now req headers h plain e ok =
    shown c names (run c (init names) es) now req headers (reached-Inv c names es h) plain e ok

-- A board later than that of a state in which the invariant holds, by a generation at least, answers
-- no poll as a HIT.
pub no_hit :
    (c : Config) (names : List Text) (s : System) (b : Board) (now : ℕ) (req : Request)
    (headers : Headers) {r : Response}
    → Inv c names s
    → b.snapshots ≡ s.board.snapshots
    → s.board.current_generation < b.current_generation
    → (dashboard_snapshot_cache c now req headers b).0 ≡ served r
    → r.status ≡ 200
    → lookup (txt "X-Dashboard-Snapshot") r.headers ≢ some (txt "HIT")
no_hit c names s b now req headers inv same newer e ok says =
    let (x, found, body, fresh) = served_lem c now req headers b e ok in
    let k : IsBacked c names s.board.current_generation s.delivered _ x =
      lookup-All (IsBacked c names s.board.current_generation s.delivered) _ b.snapshots
        (rw same inv.backed) found in
    omega (arith, k.dispatched, k.flight.age, (fresh says).1, newer)

-- Right after a mutation of a queue no poll is answered as a HIT: the next one is sent on to Redis,
-- or is refused or answered as STALE for want of budget.
pub no_hit_after_mutation :
    (c : Config) (names : List Text) (es : List Event) (now : ℕ) (req : Request) (headers : Headers)
    {r : Response}
    → 1 ≤ c.dashboard_max_cache_entries
    → (dashboard_snapshot_cache c now req headers (step c (run c (init names) es) mutates).board).0
      ≡ served r
    → r.status ≡ 200
    → lookup (txt "X-Dashboard-Snapshot") r.headers ≢ some (txt "HIT")
unfolding step invalidate_dashboard_snapshot
no_hit_after_mutation c names es now req headers h e ok =
    no_hit c names (run c (init names) es) (step c (run c (init names) es) mutates).board now req
      headers (reached-Inv c names es h) refl (omega arith) e ok
