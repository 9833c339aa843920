-- ===== src/Health/Trace.antt =====
-- The metrics route and its guard leave the correlation ID of a response alone.
use task_queue_system.Prelude.{◌≡◌, refl, inl, inr, Text, Bool-cases, text_eq}
use task_queue_system.Config.{Config}
use task_queue_system.Http.{Request, Headers}
use task_queue_system.Failure.{Result, ok, throws}
use task_queue_system.Context.Trace.{trace_of, outcome_headers, trace_of-insert}
use task_queue_system.AdminAuth.Trace.{require_admin_auth-kept}
use task_queue_system.Dashboard.Cache.{Board}
use task_queue_system.Queue.{StateCounts}
use task_queue_system.Health.{after_counts, metrics_guard, metrics_text, metrics_error}

pub after_counts-kept :
    (counts : Result StateCounts) (content_type : Text) (registry : Result Text) (headers : Headers)
    (b : Board)
    → trace_of (after_counts counts content_type registry headers b).0.headers ≡ trace_of headers
unfolding after_counts metrics_text metrics_error text_eq
after_counts-kept (throws e) content_type registry headers b = refl
after_counts-kept (ok n) content_type (throws e) headers b = trace_of-insert _ _ _ refl
after_counts-kept (ok n) content_type (ok t) headers b = trace_of-insert _ _ _ refl

pub metrics_guard-kept :
    (decode sha256 : Text → Text) (c : Config) (req : Request) (headers : Headers)
    → trace_of (outcome_headers (metrics_guard decode sha256 c req headers)) ≡ trace_of headers
unfolding metrics_guard
metrics_guard-kept decode sha256 c req headers = elim (Bool-cases c.is_explicit_development) [
  | inl development ↦ simp development refl
  | inr deployed ↦ simp deployed (require_admin_auth-kept decode sha256 c req headers)
]
