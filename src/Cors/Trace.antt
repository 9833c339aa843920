-- ===== src/Cors/Trace.antt =====
-- CORS leaves the correlation ID of a response alone.
use task_queue_system.Prelude.{
  ◌≡◌, refl, inl, inr, [], ◌∷◌, Text, Option, none, some, Bool-cases, text_eq, includes, ◌∙◌,
}
use task_queue_system.Prelude.Dict.{lookup}
use task_queue_system.Config.{Config}
use task_queue_system.Http.{Request, Headers}
use task_queue_system.Context.Trace.{trace_of, outcome_headers, trace_of-insert}
use task_queue_system.Cors.{
  negotiated, granted, no_content, is_preflight, without_origin, with_origin, for_origin,
  cors_middleware, strip_slash,
}

trace_of-negotiated : (headers : Headers) → trace_of (negotiated headers) ≡ trace_of headers
unfolding negotiated text_eq
trace_of-negotiated headers = trace_of-insert _ _ _ refl ∙ trace_of-insert _ _ _ refl

trace_of-granted :
    (origin : Text) (headers : Headers) → trace_of (granted origin headers) ≡ trace_of headers
unfolding granted text_eq
trace_of-granted origin headers =
    trace_of-insert _ _ _ refl
    ∙ (trace_of-negotiated _ ∙ (trace_of-insert _ _ _ refl ∙ trace_of-insert _ _ _ refl))

module _ (c : Config) (req : Request) (headers : Headers) where
  without_origin-kept : trace_of (outcome_headers (without_origin req headers)) ≡ trace_of headers
  unfolding without_origin no_content
  without_origin-kept = elim (Bool-cases (is_preflight req)) [
    | inl preflight ↦ rw preflight (trace_of-negotiated headers)
    | inr other ↦ rw other refl
  ]

  with_origin-kept :
      (origin : Text)
      → trace_of (outcome_headers (with_origin c origin req headers)) ≡ trace_of headers
  unfolding with_origin no_content
  with_origin-kept origin =
      elim (Bool-cases (includes c.cors_allowed_origins (strip_slash origin))) [
        | inl listed ↦ elim (Bool-cases (is_preflight req)) [
          | inl preflight ↦ rw (listed, preflight) (trace_of-granted (strip_slash origin) headers)
          | inr other ↦ rw (listed, other) (trace_of-granted (strip_slash origin) headers)
        ]
        | inr strange ↦ elim (Bool-cases (is_preflight req)) [
          | inl preflight ↦ rw (strange, preflight) refl
          | inr other ↦ rw (strange, other) refl
        ]
      ]

  for_origin-kept :
      (o : Option Text) → trace_of (outcome_headers (for_origin c o req headers)) ≡ trace_of headers
  unfolding for_origin
  for_origin-kept none = without_origin-kept
  for_origin-kept (some []) = without_origin-kept
  for_origin-kept (some (x ∷ t)) = with_origin-kept (x ∷ t)

  pub cors_middleware-kept :
      trace_of (outcome_headers (cors_middleware c req headers)) ≡ trace_of headers
  unfolding cors_middleware
  cors_middleware-kept = for_origin-kept (lookup _ req.headers)
