-- ===== src/Dashboard/System/Tests.antt =====
-- Runs of the cache in its process, and the theorems about it at concrete inputs.
use task_queue_system.Prelude.{
  ◌≤◌, ◌≡◌, refl, [], ◌∷◌, Text, txt, List, some, none, text_eq, includes, decimal, arith, length,
}
use task_queue_system.Prelude.Dict.{lookup, insert}
use task_queue_system.Prelude.Numeric.{to_natural}
use task_queue_system.Json.{null, natural}
use task_queue_system.Http.{Request, Query, str, Response}
use task_queue_system.Metrics.{count}
use task_queue_system.Samples.{sample_config, queue_names}
use task_queue_system.Dashboard.Query.{canonicalize_query, build_snapshot_key}
use task_queue_system.Dashboard.Query.Canonical.{as_query}
use task_queue_system.Dashboard.Cache.{
  served, dashboard_snapshot_cache, store_snapshot, invalidate_dashboard_snapshot,
  dashboard_snapshot_cache_size,
}
use task_queue_system.Dashboard.Cache.Spends.{polls_sent}
use task_queue_system.Dashboard.System.{System, Event, polls, responds, mutates, step, run, init}
use task_queue_system.Dashboard.System.Budget.{sent_on, refreshes_bounded}
use task_queue_system.Dashboard.System.Freshness.{cache_size_bounded}

poll : Query → Request
poll q = record {
  method = txt "GET";
  path = txt "/api/queues";
  ip = none;
  headers = [];
  query = q;
  body = null;
}

abbrev page : Text → Request
unfolding poll
page n = poll ((txt "page", str n) ∷ [])

-- Three polls of three views: the third is over the budget of two.
abbrev history : List Event
history =
    polls 100000 (page (txt "1")) []
    ∷ polls 100001 (page (txt "2")) []
    ∷ responds 100002 1 200 (natural 7)
    ∷ responds 100003 0 200 (natural 8)
    ∷ polls 100004 (page (txt "3")) []
    ∷ []

abbrev after : System
after = run sample_config (init queue_names) history

ran :
    (sent_on sample_config (init queue_names) history ≡ 2)
    × (dashboard_snapshot_cache_size after.board ≡ 2)
    × (length after.delivered ≡ 2)
unfolding run step sent_on polls_sent dashboard_snapshot_cache store_snapshot canonicalize_query
    build_snapshot_key text_eq lookup insert includes decimal to_natural count
    dashboard_snapshot_cache_size poll as_query
ran = (refl, refl, refl)

refreshes_bounded_example : sent_on sample_config (init queue_names) history ≤ 4
refreshes_bounded_example =
    refreshes_bounded sample_config (init queue_names) history 100000 (omega arith) (omega arith)

-- The same from a window that begins with the first poll.
abbrev opened : System
opened = record (init queue_names) {
  board = record (init queue_names).board { window_start = 100000; used = 1 };
}

cache_size_bounded_example : dashboard_snapshot_cache_size after.board ≤ 2
cache_size_bounded_example = cache_size_bounded sample_config queue_names history (omega arith)

abbrev hit : Response
hit = record {
  status = 200;
  headers = (txt "X-Dashboard-Snapshot", txt "HIT") ∷ (txt "Cache-Control", txt "no-store") ∷ [];
  body = some (natural 7);
}

-- `?page=1` and a page that is out of range are one view.
hit_runs :
    (dashboard_snapshot_cache sample_config 100005 (page (txt "0")) [] after.board).0 ≡ served hit
unfolding run step dashboard_snapshot_cache store_snapshot canonicalize_query build_snapshot_key
    text_eq lookup insert includes decimal to_natural count dashboard_snapshot_cache_size poll
    as_query
hit_runs = refl

abbrev changed : System
changed = step sample_config after mutates

abbrev stale : Response
stale = record hit {
  headers = (txt "X-Dashboard-Snapshot", txt "STALE") ∷ (txt "Cache-Control", txt "no-store") ∷ [];
}

stale_runs :
    (dashboard_snapshot_cache sample_config 100005 (page (txt "0")) [] changed.board).0
    ≡ served stale
unfolding run step dashboard_snapshot_cache store_snapshot canonicalize_query build_snapshot_key
    text_eq lookup insert includes decimal to_natural count dashboard_snapshot_cache_size poll
    as_query invalidate_dashboard_snapshot
stale_runs = refl
