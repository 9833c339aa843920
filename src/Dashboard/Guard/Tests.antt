-- ===== src/Dashboard/Guard/Tests.antt =====
-- A HEAD request for the polled data, and the theorem about it at concrete inputs.
use task_queue_system.Prelude.{◌≡◌, refl, [], ◌∷◌, txt, true, none, text_eq}
use task_queue_system.RateLimit.{limited, verdict, dashboard_limiter}
use task_queue_system.Json.{null}
use task_queue_system.Http.{Request, str}
use task_queue_system.Samples.{sample_limiter, sample_config, queue_names}
use task_queue_system.Dashboard.Cache.{passed, dashboard_snapshot_cache}
use task_queue_system.Dashboard.Cache.Passes.{is_passed}
use task_queue_system.Dashboard.System.{init}
use task_queue_system.Dashboard.Guard.{
  dashboard_route, dashboard_read_only_guard, block_redis_stats_route,
}
use task_queue_system.Dashboard.Guard.Reach.{unbudgeted_exactly}

abbrev head : Request
head = record {
  method = txt "HEAD";
  path = txt "/api/queues";
  ip = none;
  headers = [];
  query = (txt "jobsPerPage", str (txt "100000")) ∷ [];
  body = null;
}

head_goes_on :
    dashboard_route sample_config sample_limiter 5 head [] 0 (init queue_names).board
    ≡ (passed head [], (1, (init queue_names).board))
unfolding limited verdict dashboard_limiter dashboard_route dashboard_read_only_guard
    block_redis_stats_route dashboard_snapshot_cache text_eq
head_goes_on = refl

unbudgeted_exactly_example :
    is_passed (dashboard_route sample_config sample_limiter 5 head [] 0 (init queue_names).board).0
    ≡ true
unfolding text_eq dashboard_limiter
unbudgeted_exactly_example =
    unbudgeted_exactly sample_config sample_limiter 5 head [] 0 (init queue_names).board
