-- ===== src/AdminAuth/Trace.antt =====
-- The guard of the admin surface leaves the correlation ID of a response alone.
use task_queue_system.Prelude.{
  ◌≡◌, refl, inl, inr, Text, txt, Option, none, some, Bool-cases, ◌&&◌, text_eq,
}
use task_queue_system.Config.{Config}
use task_queue_system.Http.{Request, Headers}
use task_queue_system.Context.Trace.{trace_of, outcome_headers, trace_of-insert}
use task_queue_system.AdminAuth.{
  Credentials, check_credentials, secure_compare, require_admin_auth, unauthorized,
}

module _ (decode sha256 : Text → Text) (c : Config) (req : Request) (headers : Headers) where
  unauthorized-kept :
      (message : Text)
      → trace_of (outcome_headers (unauthorized decode sha256 headers message)) ≡ trace_of headers
  unfolding unauthorized text_eq
  unauthorized-kept message = trace_of-insert _ _ _ refl

  check_credentials-kept :
      (k : Option Credentials)
      → trace_of (outcome_headers (check_credentials decode sha256 c req headers k))
        ≡ trace_of headers
  unfolding check_credentials
  check_credentials-kept none = unauthorized-kept (txt "Authentication required.")
  check_credentials-kept (some k) =
      elim (Bool-cases (
        secure_compare decode sha256 k.user c.bullboard_user
        && secure_compare decode sha256 k.pass c.bullboard_password)) [
          | inl same ↦ rw same refl
          | inr other ↦ rw other (unauthorized-kept (txt "Invalid credentials."))
        ]

  pub require_admin_auth-kept :
      trace_of (outcome_headers (require_admin_auth decode sha256 c req headers)) ≡ trace_of headers
  unfolding require_admin_auth
  require_admin_auth-kept = elim (Bool-cases c.admin_auth_configured) [
    | inl configured ↦ simp configured (check_credentials-kept _)
    | inr none_yet ↦ simp none_yet refl
  ]
