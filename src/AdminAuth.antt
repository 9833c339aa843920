-- ===== src/AdminAuth.antt =====
-- middleware/admin.auth.ts. The base64 decoder and SHA-256 are parameters; `timingSafeEqual` on two
-- digests of one length is their equality.
pub mod Access
pub mod Trace
mod Tests
use task_queue_system.Prelude.{
  ℕ, ◌+◌, [], ◌∷◌, Text, txt, Option, none, some, Bool, true, false, ◌&&◌, leb, ◌==◌, if◌then◌else◌,
  text_eq, starts_with, drop, map, trim,
}
use task_queue_system.Prelude.Dict.{lookup, insert}
use task_queue_system.Config.{Config}
use task_queue_system.Http.{Request, Headers, Response, Outcome, proceed, respond, error_body}

-- `toLowerCase()` on the letters that the test for `basic ` can meet.
lower : ℕ → ℕ
lower c = if leb b'A' c && leb c b'Z' then c + 32 else c

unfoldable pub is_basic : Text → Bool
unfolding lower
is_basic header = starts_with (map lower header) (txt "basic ")

pub record Credentials : Type 0 where
  pub user : Text
  pub pass : Text

add_to_user : ℕ → Option Credentials → Option Credentials
add_to_user c none = none
add_to_user c (some k) = some (record k { user = c ∷ k.user })

-- The text before the first `:` and the text after it.
unfoldable pub split_at_colon : Text → Option Credentials
unfolding add_to_user
split_at_colon [] = none
split_at_colon (c ∷ s) =
    let rest = split_at_colon s in
    if c == b':' then some (record { user = []; pass = s }) else add_to_user c rest

module _ (decode : Text → Text) (sha256 : Text → Text) where
  unfoldable pub secure_compare : Text → Text → Bool
  secure_compare provided expected = text_eq (sha256 provided) (sha256 expected)

  -- An empty header is falsy.
  unfoldable pub parse_basic_auth : Option Text → Option Credentials
  parse_basic_auth none = none
  parse_basic_auth (some []) = none
  parse_basic_auth (some (c ∷ s)) =
      if is_basic (c ∷ s) then split_at_colon (decode (trim (drop 6 (c ∷ s)))) else none

  unauthorized : Headers → Text → Outcome
  unauthorized headers message = respond (record {
    status = 401;
    headers =
        insert (txt "WWW-Authenticate") (txt "Basic realm=\"Restricted\", charset=\"UTF-8\"")
          headers;
    body = some (error_body message);
  })

  check_credentials : Config → Request → Headers → Option Credentials → Outcome
  unfolding unauthorized
  check_credentials c req headers none = unauthorized headers (txt "Authentication required.")
  check_credentials c req headers (some k) =
      if secure_compare k.user c.bullboard_user && secure_compare k.pass c.bullboard_password
      then proceed req headers
      else unauthorized headers (txt "Invalid credentials.")

  unfoldable pub require_admin_auth : Config → Request → Headers → Outcome
  unfolding check_credentials
  require_admin_auth c req headers =
      if c.admin_auth_configured
      then check_credentials c req headers
          (parse_basic_auth (lookup (txt "authorization") req.headers))
      else respond (record {
        status = 503;
        headers = headers;
        body = some (error_body (txt "Admin interface is not configured on this deployment."));
      })
