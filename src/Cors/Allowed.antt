-- ===== src/Cors/Allowed.antt =====
-- Which origins a browser is told to let in.
use task_queue_system.Prelude.{
  ◌≡◌, ◌≢◌, refl, inl, inr, [], ◌∷◌, Text, txt, List, Option, none, some, Bool, true, false,
  Bool-cases, if◌then◌else◌, text_eq, includes, All, All-filter, filter, map, trim, All-map,
}
use task_queue_system.Prelude.Dict.{lookup, lookup-insert, lookup-insert_self}
use task_queue_system.Config.{Config}
use task_queue_system.Http.{Request, Headers, Outcome, proceed, respond}
use task_queue_system.Cors.{
  strip_slash, split_commas, is_origin, parse_origin_list, negotiated, granted, no_content,
  is_preflight, without_origin, with_origin, cors_middleware, for_origin,
}

-- The headers that are set when the middleware is through.
abbrev pub headers_of : Outcome → Headers
headers_of (proceed req headers) = headers
headers_of (respond r) = r.headers

abbrev pub allow_origin : Text
allow_origin = txt "Access-Control-Allow-Origin"

-- The origin to let in, for an Origin header.
abbrev pub admitted : List Text → Option Text → Option Text
admitted allowed none = none
admitted allowed (some []) = none
admitted allowed (some (x ∷ t)) =
    if includes allowed (strip_slash (x ∷ t)) then some (strip_slash (x ∷ t)) else none

module _ (c : Config) (req : Request) (headers : Headers)
    (clean : lookup allow_origin headers ≡ none) where
  negotiated_clean : (h : Headers) → lookup allow_origin (negotiated h) ≡ lookup allow_origin h
  unfolding negotiated text_eq
  negotiated_clean h = rw (lookup-insert, lookup-insert) refl

  granted_origin : (origin : Text) → lookup allow_origin (granted origin headers) ≡ some origin
  unfolding granted text_eq
  granted_origin origin =
      rw (lookup-insert, negotiated_clean, lookup-insert, lookup-insert_self) refl

  without_lem : lookup allow_origin (headers_of (without_origin req headers)) ≡ none
  unfolding without_origin no_content
  without_lem = elim (Bool-cases (is_preflight req)) [
    | inl preflight ↦ rw (preflight, negotiated_clean headers) clean
    | inr other ↦ rw other clean
  ]

  with_lem :
      (origin : Text)
      → lookup allow_origin (headers_of (with_origin c origin req headers)) ≡ (
          if includes c.cors_allowed_origins (strip_slash origin)
          then some (strip_slash origin)
          else none)
  unfolding with_origin no_content
  with_lem origin = elim (Bool-cases (includes c.cors_allowed_origins (strip_slash origin))) [
    | inl listed ↦ elim (Bool-cases (is_preflight req)) [
      | inl preflight ↦ rw (listed, preflight) (granted_origin (strip_slash origin))
      | inr other ↦ rw (listed, other) (granted_origin (strip_slash origin))
    ]
    | inr strange ↦ elim (Bool-cases (is_preflight req)) [
      | inl preflight ↦ rw (strange, preflight) clean
      | inr other ↦ rw (strange, other) clean
    ]
  ]

  for_origin_lem :
      (o : Option Text)
      → lookup allow_origin (headers_of (for_origin c o req headers))
        ≡ admitted c.cors_allowed_origins o
  unfolding for_origin
  for_origin_lem none = without_lem
  for_origin_lem (some []) = without_lem
  for_origin_lem (some (x ∷ t)) = with_lem (x ∷ t)

-- For a response without Access-Control-Allow-Origin so far: the middleware sets it exactly if the
-- request has an Origin that, less one slash at its end, is on the allowlist, and sets it to that.
pub allow_origin_exactly :
    (c : Config) (req : Request) (headers : Headers)
    → lookup allow_origin headers ≡ none
    → lookup allow_origin (headers_of (cors_middleware c req headers))
      ≡ admitted c.cors_allowed_origins (lookup (txt "origin") req.headers)
unfolding cors_middleware
allow_origin_exactly c req headers clean =
    for_origin_lem c req headers clean (lookup (txt "origin") req.headers)

-- Not empty, and not the wildcard.
abbrev pub IsExplicit : Text → Type 0
IsExplicit t = (t ≢ []) × (t ≢ txt "*")

is_origin-IsExplicit : (t : Text) → is_origin t ≡ true → IsExplicit t
unfolding is_origin text_eq
is_origin-IsExplicit t h = (λ e. false_true (rw e at h), λ e. false_true (rw e at h))
  where
    false_true : Path Bool false true → ⊥
    false_true p = cc

-- No entry of a parsed allowlist is empty or the wildcard.
pub parse_origin_list-IsExplicit : (raw : Text) → All IsExplicit (parse_origin_list raw)
unfolding parse_origin_list
parse_origin_list-IsExplicit raw =
    let origins = map (λ origin. strip_slash (trim origin)) (split_commas raw) in
    All-map (filter is_origin origins) is_origin-IsExplicit
      (All-filter (λ t. is_origin t ≡ true) is_origin origins (λ t h. h))
