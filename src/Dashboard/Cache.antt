-- ===== src/Dashboard/Cache.antt =====
-- middleware/dashboard.cache.ts: the module's variables as a record, the middleware, and the
-- replaced `res.json` that stores a snapshot. A reading of `Date.now()` is an argument.
pub mod Spends
pub mod Entries
pub mod Passes
pub mod Trace
use task_queue_system.Prelude.{
  ℕ, suc, ◌+◌, ◌/◌, String, [], ◌∷◌, Text, txt, List, Option, none, some, Bool, true, false, ◌&&◌,
  ltb, leb, ◌==◌, if◌then◌else◌, text_eq, decimal, length, not, ◌||◌,
}
use task_queue_system.Prelude.Dict.{Dict, lookup, insert}
use task_queue_system.Config.{Config}
use task_queue_system.Json.{Json}
use task_queue_system.Http.{Request, Headers, Response, error_body}
use task_queue_system.Metrics.{Report, Source, dashboard_snapshot_total}
use task_queue_system.Dashboard.Query.{CanonicalQuery, canonicalize_query, build_snapshot_key}
use task_queue_system.Dashboard.Query.Canonical.{as_query}

pub record SnapshotEntry : Type 0 where
  pub body : Json
  pub expires_at : ℕ
  pub generation : ℕ

-- `snapshotCache`, `currentGeneration`, `refreshBudget` and `registeredQueueNames`, with the reports
-- made to the metrics client, the latest first.
pub record Board : Type 0 where
  pub snapshots : Dict SnapshotEntry
  pub current_generation : ℕ
  pub window_start : ℕ
  pub used : ℕ
  pub registered_queue_names : List Text
  pub reports : List Report

unfoldable pub is_cacheable_data_route : Text → Bool
is_cacheable_data_route path = text_eq path (txt "/api/queues")

unfoldable pub invalidate_dashboard_snapshot : Board → Board
invalidate_dashboard_snapshot b = record b { current_generation = suc b.current_generation }

-- `now - windowStart >= window`, for a clock that may also run backwards.
unfoldable pub roll_window : Config → ℕ → Board → Board
roll_window c now b =
    if leb (b.window_start + c.dashboard_refresh_window_ms) now
    then record b { window_start = now; used = 0 }
    else b

take_unit : Config → Board → Bool × Board
take_unit c b =
    if leb c.dashboard_max_refreshes_per_window b.used
    then (false, b)
    else (true, record b { used = suc b.used })

unfoldable pub claim_refresh_budget : Config → ℕ → Board → Bool × Board
unfolding take_unit roll_window
claim_refresh_budget c now b = take_unit c (roll_window c now b)

unfoldable pub reset_dashboard_snapshot_cache : Board → Board
reset_dashboard_snapshot_cache b = record b {
  snapshots = [];
  current_generation = 0;
  window_start = 0;
  used = 0;
}

unfoldable pub dashboard_snapshot_cache_size : Board → ℕ
dashboard_snapshot_cache_size b = length b.snapshots

unfoldable pub set_dashboard_queue_names : List Text → Board → Board
set_dashboard_queue_names names b = record b { registered_queue_names = names }

abbrev pub report : Source → Board → Board
report s b = record b { reports = dashboard_snapshot_total s ∷ b.reports }

abbrev pub set_header : String → Text → Headers → Headers
set_header name value headers = insert (txt name) value headers

-- What the replaced `res.json` closes over.
pub record Pending : Type 0 where
  pub view : CanonicalQuery
  pub cache_key : Text
  pub generation_at_dispatch : ℕ

-- `next()` as it was called; an answer from memory; or `next()` on the way to Redis, with the
-- rewritten request and the replaced `res.json`.
pub data Handled : Type 0 where
  passed : Request → Headers → Handled
  served : Response → Handled
  rebuilds : Request → Headers → Pending → Handled

unfoldable pub is_fresh : ℕ → ℕ → Option SnapshotEntry → Bool
is_fresh now generation none = false
is_fresh now generation (some e) = ltb now e.expires_at && e.generation == generation

snapshot_headers : String → Headers → Headers
snapshot_headers source headers =
    set_header "Cache-Control" (txt "no-store")
      (set_header "X-Dashboard-Snapshot" (txt source) headers)

from_memory : String → Headers → Json → Handled
unfolding snapshot_headers
from_memory source headers body =
    served (record { status = 200; headers = snapshot_headers source headers; body = some body })

shed_response : Config → Headers → Response
unfolding snapshot_headers
shed_response c headers = record {
  status = 503;
  headers =
      set_header "Retry-After" (decimal ((c.dashboard_refresh_window_ms + 999) / 1000))
        (snapshot_headers "SHED" headers);
  body = some (error_body (txt "Dashboard is busy. Please retry shortly."));
}

-- The request with `req.query` replaced by the canonical query.
abbrev pub with_view : Request → CanonicalQuery → Request
with_view req view = record req { query = as_query view }

-- Past the ceiling: the old snapshot of this view, or a refusal.
over_budget : Config → Headers → Option SnapshotEntry → Board → Handled × Board
unfolding from_memory shed_response
over_budget c headers none b = (served (shed_response c headers), report Source.shed b)
over_budget c headers (some e) b = (from_memory "STALE" headers e.body, report Source.stale b)

rebuild : Request → Headers → CanonicalQuery → Board → Handled × Board
unfolding snapshot_headers
rebuild req headers view b = (
  rebuilds (with_view req view) (snapshot_headers "MISS" headers) (record {
    view = view;
    cache_key = build_snapshot_key view;
    generation_at_dispatch = b.current_generation;
  }),
  report Source.redis b,
)

after_claim :
    Config
    → Request
    → Headers
    → CanonicalQuery
    → Option SnapshotEntry
    → Bool × Board
    → Handled × Board
unfolding over_budget rebuild
after_claim c req headers view cached (false, b) = over_budget c headers cached b
after_claim c req headers view cached (true, b) = rebuild req headers view b

on_miss :
    Config → ℕ → Request → Headers → CanonicalQuery → Option SnapshotEntry → Board → Handled × Board
unfolding after_claim claim_refresh_budget
on_miss c now req headers view cached b =
    after_claim c req headers view cached (claim_refresh_budget c now b)

-- The look-up, and the answer from a fresh snapshot.
answer :
    Config → ℕ → Request → Headers → CanonicalQuery → Option SnapshotEntry → Board → Handled × Board
unfolding from_memory on_miss is_fresh
answer c now req headers view none b = on_miss c now req headers view none b
answer c now req headers view (some e) b =
    if is_fresh now b.current_generation (some e)
    then (from_memory "HIT" headers e.body, report Source.cache b)
    else on_miss c now req headers view (some e) b

unfoldable pub dashboard_snapshot_cache : Config → ℕ → Request → Headers → Board → Handled × Board
unfolding answer is_cacheable_data_route
dashboard_snapshot_cache c now req headers b =
    let view = canonicalize_query req.query b.registered_queue_names in
    if not (text_eq req.method (txt "GET")) || not (is_cacheable_data_route req.path)
    then (passed req headers, b)
    else answer c now req headers view (lookup (build_snapshot_key view) b.snapshots) b

make_room : Config → Board → Dict SnapshotEntry
make_room c b = if leb c.dashboard_max_cache_entries (length b.snapshots) then [] else b.snapshots

-- The replaced `res.json`, at the time when it is called: it keeps a payload of status 200.
unfoldable pub store_snapshot : Config → ℕ → Pending → ℕ → Json → Board → Board
unfolding make_room
store_snapshot c now p status body b =
    if status == 200
    then record b {
      snapshots =
          insert p.cache_key
            (record {
              body = body;
              expires_at = now + c.dashboard_snapshot_ttl_ms;
              generation = p.generation_at_dispatch;
            })
            (make_room c b);
    }
    else b
