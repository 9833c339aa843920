-- ===== src/RateLimit/Trace.antt =====
-- The limiters leave the correlation ID of a response alone, if the library's headers do.
use task_queue_system.Prelude.{
  ℕ, ◌≡◌, refl, inl, inr, [], ◌∷◌, Text, Option, none, some, Bool, true, false, Bool-cases, text_eq,
  ◌∙◌,
}
use task_queue_system.Prelude.Dict.{Dict, lookup, insert}
use task_queue_system.Http.{Request, Headers}
use task_queue_system.Context.{correlation_header}
use task_queue_system.Context.Trace.{trace_of, outcome_headers, trace_of-insert}
use task_queue_system.RateLimit.{Limiter, LimiterOptions, limited, verdict, limit_headers, set_all}

-- What express-rate-limit documents of its standard headers: X-Correlation-Id is none of them.
pub record IsStandard (l : Limiter) : Type 0 where
  pub others :
      (o : LimiterOptions) (key : Text) (now : ℕ) (s : l.State)
      → lookup correlation_header (l.hit o key now s).0.1 ≡ none

set_all-kept :
    (extra : Dict Text) (headers : Headers)
    → lookup correlation_header extra ≡ none
    → trace_of (set_all extra headers) ≡ trace_of headers
unfolding set_all lookup
set_all-kept [] headers h = refl
set_all-kept ((name, value) ∷ extra) headers h =
    elim (Bool-cases (text_eq name correlation_header)) [
      | inl same ↦ absurd (some_none (rw same at h))
      | inr other ↦
          set_all-kept extra (insert name value headers) (rw other at h)
          ∙ trace_of-insert name value headers other
    ]
  where
    some_none : Path (Option Text) (some value) none → ⊥
    some_none p = cc

limit_headers-kept :
    (b : Bool) (extra : Dict Text) (headers : Headers)
    → lookup correlation_header extra ≡ none
    → trace_of (limit_headers b extra headers) ≡ trace_of headers
unfolding limit_headers
limit_headers-kept true extra headers h = set_all-kept extra headers h
limit_headers-kept false extra headers h = refl

verdict-kept :
    (o : LimiterOptions) (req : Request) (headers : Headers) (v : Bool × Dict Text)
    → lookup correlation_header v.1 ≡ none
    → trace_of (outcome_headers (verdict o req headers v)) ≡ trace_of headers
unfolding verdict
verdict-kept o req headers (true, extra) h = limit_headers-kept o.standard_headers extra headers h
verdict-kept o req headers (false, extra) h = limit_headers-kept o.standard_headers extra headers h

pub limited-kept :
    (l : Limiter) (o : LimiterOptions) (key : Text) (now : ℕ) (req : Request) (headers : Headers)
    (s : l.State)
    → IsStandard l
    → trace_of (outcome_headers (limited l o key now req headers s).0) ≡ trace_of headers
unfolding limited
limited-kept l o key now req headers s law =
    verdict-kept o req headers (l.hit o key now s).0 (law.others o key now s)
