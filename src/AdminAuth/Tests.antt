-- ===== src/AdminAuth/Tests.antt =====
-- The guard at a concrete request.
use task_queue_system.Prelude.{◌≡◌, [], ◌∷◌, txt, none, true, text_eq, starts_with, trim, Text}
use task_queue_system.Prelude.Dict.{lookup}
use task_queue_system.Json.{null}
use task_queue_system.Http.{Request}
use task_queue_system.Samples.{sample_config}
use task_queue_system.AdminAuth.{require_admin_auth, parse_basic_auth, is_basic, split_at_colon}
use task_queue_system.AdminAuth.Access.{lets_in, admin_exactly}

abbrev admin : Request
admin = record {
  method = txt "GET";
  path = txt "/metrics";
  ip = none;
  headers = (txt "authorization", txt "BASIC admin:s3cret") ∷ [];
  query = [];
  body = null;
}

abbrev plain_text : Text → Text
plain_text t = t

admin_exactly_example :
    lets_in (require_admin_auth plain_text plain_text sample_config admin []) ≡ true
unfolding lookup text_eq parse_basic_auth is_basic split_at_colon starts_with trim
admin_exactly_example = admin_exactly plain_text plain_text sample_config admin []
