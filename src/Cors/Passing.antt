-- ===== src/Cors/Passing.antt =====
-- CORS passes the request on as it is.
use task_queue_system.Prelude.{
  ◌≡◌, refl, inl, inr, [], ◌∷◌, Text, txt, Option, none, some, Bool-cases, includes,
}
use task_queue_system.Prelude.Dict.{lookup}
use task_queue_system.Config.{Config}
use task_queue_system.Http.{Request, Headers, Outcome, proceed, respond}
use task_queue_system.Cors.{
  cors_middleware, for_origin, with_origin, without_origin, is_preflight, no_content, strip_slash,
}

-- The request of an outcome, if the chain goes on, is the given one.
abbrev pub HasRequest : Request → Outcome → Type 0
HasRequest req (proceed req' headers) = req' ≡ req
HasRequest req (respond r) = Unit

module _ (c : Config) (req : Request) (headers : Headers) where
  without_origin-HasRequest : HasRequest req (without_origin req headers)
  unfolding without_origin no_content
  without_origin-HasRequest = elim (Bool-cases (is_preflight req)) [
    | inl preflight ↦ rw preflight tt
    | inr other ↦ rw other refl
  ]

  with_origin-HasRequest : (origin : Text) → HasRequest req (with_origin c origin req headers)
  unfolding with_origin no_content
  with_origin-HasRequest origin =
      elim (Bool-cases (includes c.cors_allowed_origins (strip_slash origin))) [
        | inl listed ↦ elim (Bool-cases (is_preflight req)) [
          | inl preflight ↦ rw (listed, preflight) tt
          | inr other ↦ rw (listed, other) refl
        ]
        | inr strange ↦ elim (Bool-cases (is_preflight req)) [
          | inl preflight ↦ rw (strange, preflight) tt
          | inr other ↦ rw (strange, other) refl
        ]
      ]

  for_origin-HasRequest : (o : Option Text) → HasRequest req (for_origin c o req headers)
  unfolding for_origin
  for_origin-HasRequest none = without_origin-HasRequest
  for_origin-HasRequest (some []) = without_origin-HasRequest
  for_origin-HasRequest (some (x ∷ t)) = with_origin-HasRequest (x ∷ t)

  pub cors_middleware-HasRequest : HasRequest req (cors_middleware c req headers)
  unfolding cors_middleware
  cors_middleware-HasRequest = for_origin-HasRequest (lookup (txt "origin") req.headers)
