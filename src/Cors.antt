-- ===== src/Cors.antt =====
-- middleware/cors.ts, and `parseOriginList` of config/environment.ts, which makes its allowlist.
pub mod Allowed
pub mod Trace
pub mod Passing
mod Tests
use task_queue_system.Prelude.{
  ℕ, [], ◌∷◌, Text, txt, List, Option, none, some, Bool, true, false, ◌&&◌, not, ◌==◌,
  if◌then◌else◌, text_eq, includes, is_empty, filter, map, trim,
}
use task_queue_system.Prelude.Dict.{lookup, insert}
use task_queue_system.Config.{Config}
use task_queue_system.Http.{Request, Headers, Response, Outcome, proceed, respond, error_body}

-- `.replace(/\/$/, '')`: one slash at the end is dropped.
unfoldable pub strip_slash : Text → Text
strip_slash [] = []
strip_slash (c ∷ []) = if c == b'/' then [] else c ∷ []
strip_slash (c ∷ d ∷ s) = c ∷ strip_slash (d ∷ s)

add_to_first : ℕ → List Text → List Text
add_to_first c [] = (c ∷ []) ∷ []
add_to_first c (t ∷ ts) = (c ∷ t) ∷ ts

-- `.split(',')`
unfoldable pub split_commas : Text → List Text
unfolding add_to_first
split_commas [] = [] ∷ []
split_commas (c ∷ s) =
    let parts = split_commas s in if c == b',' then [] ∷ parts else add_to_first c parts

pub is_origin : Text → Bool
is_origin t = not (is_empty t) && not (text_eq t (txt "*"))

unfoldable pub parse_origin_list : Text → List Text
unfolding is_origin
parse_origin_list raw =
    filter is_origin (map (λ origin. strip_slash (trim origin)) (split_commas raw))

abbrev allowed_methods : Text
allowed_methods = txt "GET, POST, OPTIONS"

abbrev allowed_headers : Text
allowed_headers = txt "Content-Type, Authorization, X-Requested-With"

negotiated : Headers → Headers
negotiated headers =
    insert (txt "Access-Control-Allow-Headers") allowed_headers
      (insert (txt "Access-Control-Allow-Methods") allowed_methods headers)

granted : Text → Headers → Headers
unfolding negotiated
granted origin headers = insert (txt "Access-Control-Max-Age") (txt "600") (
    negotiated (
      insert (txt "Vary") (txt "Origin")
        (insert (txt "Access-Control-Allow-Origin") origin headers)))

no_content : Headers → Outcome
no_content headers = respond (record { status = 204; headers = headers; body = none })

is_preflight : Request → Bool
is_preflight req = text_eq req.method (txt "OPTIONS")

-- A request of no browser.
without_origin : Request → Headers → Outcome
unfolding no_content is_preflight negotiated
without_origin req headers =
    if is_preflight req then no_content (negotiated headers) else proceed req headers

with_origin : Config → Text → Request → Headers → Outcome
unfolding no_content is_preflight granted
with_origin c origin req headers =
    if includes c.cors_allowed_origins (strip_slash origin)
    then (if is_preflight req
        then no_content (granted (strip_slash origin) headers)
        else proceed req (granted (strip_slash origin) headers))
    else if is_preflight req
    then respond (record {
      status = 403;
      headers = headers;
      body = some (error_body (txt "Origin not allowed."));
    })
    else proceed req headers

-- An empty Origin header is falsy.
for_origin : Config → Option Text → Request → Headers → Outcome
unfolding without_origin with_origin
for_origin c none req headers = without_origin req headers
for_origin c (some []) req headers = without_origin req headers
for_origin c (some (x ∷ t)) req headers = with_origin c (x ∷ t) req headers

unfoldable pub cors_middleware : Config → Request → Headers → Outcome
unfolding for_origin
cors_middleware c req headers = for_origin c (lookup (txt "origin") req.headers) req headers
