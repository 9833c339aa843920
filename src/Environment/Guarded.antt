-- ===== src/Environment/Guarded.antt =====
-- The metrics are open only where the environment says so.
use task_queue_system.Prelude.{
  ◌≡◌, ◌≢◌, refl, inl, inr, Text, txt, Option, none, some, Bool, false, Bool-cases, ◌&&◌, not,
  text_eq, text_eq_iff, is_empty, sym, ap,
}
use task_queue_system.Prelude.Dict.{Dict, lookup}
use task_queue_system.Config.{Config}
use task_queue_system.Http.{Request, Headers}
use task_queue_system.Failure.{ok}
use task_queue_system.AdminAuth.{require_admin_auth, parse_basic_auth}
use task_queue_system.AdminAuth.Access.{lets_in, match_config, admin_exactly}
use task_queue_system.Health.{metrics_guard}
use task_queue_system.Environment.{Coercion, load, config_of, is_explicit}
use task_queue_system.Environment.Range.{loaded}

-- An environment where NODE_ENV is not set to `development` is not one of development.
pub is_explicit_only : (o : Option Text) → o ≢ some (txt "development") → is_explicit o ≡ false
unfolding is_explicit
is_explicit_only none h = refl
is_explicit_only (some t) h = elim (Bool-cases (text_eq t (txt "development"))) [
  | inl same ↦ absurd (h (ap some ((text_eq_iff t (txt "development")).0 same)))
  | inr other ↦ other
]

-- Both credentials are set.
abbrev pub has_credentials : Config → Bool
has_credentials c = not (is_empty c.bullboard_user) && not (is_empty c.bullboard_password)

-- In a configuration that was loaded from an environment where NODE_ENV is not set to `development`,
-- also if it is not set at all: a request passes to the metrics exactly if both credentials are
-- configured and the request's Basic credentials match them.
pub metrics_protected :
    (z : Coercion) (env : Dict Text) (c : Config) (decode sha256 : Text → Text) (req : Request)
    (headers : Headers)
    → load z env ≡ ok c
    → lookup (txt "NODE_ENV") env ≢ some (txt "development")
    → lets_in (metrics_guard decode sha256 c req headers) ≡ (
        has_credentials c
        && match_config decode sha256 c
            (parse_basic_auth decode sha256 (lookup (txt "authorization") req.headers)))
unfolding config_of metrics_guard require_admin_auth
metrics_protected z env c decode sha256 req headers e not_set =
    let (base, p, is) = loaded z env c e in
    let closed : c.is_explicit_development ≡ false =
      rw is (is_explicit_only (lookup (txt "NODE_ENV") env) not_set) in
    let configured : c.admin_auth_configured ≡ has_credentials c = rw is refl in
    rw (closed, sym configured) (admin_exactly decode sha256 c req headers)
