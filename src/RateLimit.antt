-- ===== src/RateLimit.antt =====
-- middleware/rate.limit.ts: the three limiters, as options and handlers of express-rate-limit. The
-- library's counting is a parameter.
pub mod Trace
use task_queue_system.Prelude.{
  ℕ, [], ◌∷◌, Text, txt, List, Option, some, Bool, true, false, if◌then◌else◌,
}
use task_queue_system.Prelude.Dict.{Dict, insert}
use task_queue_system.Config.{Config}
use task_queue_system.Http.{Request, Headers, Response, Outcome, proceed, respond, error_body}

-- `rateLimit({ … })`: what the program chooses. Without the standard headers no header is set.
pub record LimiterOptions : Type 0 where
  pub window_ms : ℕ
  pub limit : ℕ
  pub standard_headers : Bool

-- The library with its in-memory stores: a hit of a key at a time, which is let through or not, and
-- the standard headers that it sets; `ip_key` is the default key of a client's address.
pub record Limiter : Type 1 where
  pub State : Type 0
  pub hit : LimiterOptions → (key : Text) → (now : ℕ) → State → (Bool × Dict Text) × State
  pub ip_key : Option Text → Text

unfoldable pub per_ip_job_limiter : Config → LimiterOptions
per_ip_job_limiter c = record {
  window_ms = c.http_rate_limit_window_ms;
  limit = c.http_rate_limit_max_per_ip;
  standard_headers = true;
}

unfoldable pub dashboard_limiter : Config → LimiterOptions
dashboard_limiter c = record {
  window_ms = c.http_rate_limit_window_ms;
  limit = c.dashboard_rate_limit_max_per_ip;
  standard_headers = true;
}

unfoldable pub global_job_limiter : Config → LimiterOptions
global_job_limiter c = record {
  window_ms = c.http_rate_limit_window_ms;
  limit = c.http_rate_limit_max_global;
  standard_headers = false;
}

-- `keyGenerator` of the global limiter.
abbrev pub global_key : Text
global_key = txt "global"

set_all : Dict Text → Headers → Headers
set_all [] headers = headers
set_all ((name, value) ∷ extra) headers = set_all extra (insert name value headers)

limit_headers : Bool → Dict Text → Headers → Headers
unfolding set_all
limit_headers true extra headers = set_all extra headers
limit_headers false extra headers = headers

unfoldable pub verdict : LimiterOptions → Request → Headers → Bool × Dict Text → Outcome
unfolding limit_headers
verdict o req headers (true, extra) = proceed req (limit_headers o.standard_headers extra headers)
verdict o req headers (false, extra) = respond (record {
  status = 429;
  headers = limit_headers o.standard_headers extra headers;
  body = some (error_body (txt "Too many requests. Please slow down."));
})

-- One limiter as a middleware.
unfoldable pub limited :
    (l : Limiter)
    → LimiterOptions
    → (key : Text) → (now : ℕ) → Request
    → Headers
    → l.State
    → Outcome × l.State
unfolding verdict
limited l o key now req headers s = let (v, s') = l.hit o key now s in (verdict o req headers v, s')
