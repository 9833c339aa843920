-- ===== src/AdminAuth/Access.antt =====
-- Who gets past the guard of the admin surface.
use task_queue_system.Prelude.{
  ◌≡◌, refl, inl, inr, Text, txt, Option, none, some, Bool, true, false, ◌&&◌, Bool-cases, text_eq,
}
use task_queue_system.Prelude.Dict.{lookup}
use task_queue_system.Config.{Config}
use task_queue_system.Http.{Request, Headers, Outcome, proceed, respond}
use task_queue_system.AdminAuth.{
  Credentials, parse_basic_auth, secure_compare, check_credentials, require_admin_auth,
}

abbrev pub lets_in : Outcome → Bool
lets_in (proceed req headers) = true
lets_in (respond r) = false

-- The credentials, if any, have the digests of the configured user and password.
abbrev pub match_config : (Text → Text) → (Text → Text) → Config → Option Credentials → Bool
match_config decode sha256 c none = false
match_config decode sha256 c (some k) =
    text_eq (sha256 k.user) (sha256 c.bullboard_user)
    && text_eq (sha256 k.pass) (sha256 c.bullboard_password)

module _ (decode sha256 : Text → Text) (c : Config) (req : Request) (headers : Headers) where
  check_credentials_lem :
      (k : Option Credentials)
      → lets_in (check_credentials decode sha256 c req headers k) ≡ match_config decode sha256 c k
  unfolding check_credentials secure_compare
  check_credentials_lem none = refl
  check_credentials_lem (some k) = elim (Bool-cases (match_config decode sha256 c (some k))) [
    | inl same ↦ rw same refl
    | inr other ↦ rw other refl
  ]

-- A request is let in exactly if the deployment has a user and a password configured and the
-- request's Basic credentials have the digests of both; without a configuration every request is
-- refused.
pub admin_exactly :
    (decode sha256 : Text → Text) (c : Config) (req : Request) (headers : Headers)
    → lets_in (require_admin_auth decode sha256 c req headers) ≡ (
        c.admin_auth_configured
        && match_config decode sha256 c
            (parse_basic_auth decode sha256 (lookup (txt "authorization") req.headers)))
unfolding require_admin_auth
admin_exactly decode sha256 c req headers = elim (Bool-cases c.admin_auth_configured) [
  | inl configured ↦ rw configured (
      check_credentials_lem decode sha256 c req headers
        (parse_basic_auth decode sha256 (lookup (txt "authorization") req.headers)))
  | inr open_door ↦ rw open_door refl
]
