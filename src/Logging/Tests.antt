-- ===== src/Logging/Tests.antt =====
-- Redactions of concrete messages, and the theorem about them at a concrete input.
use task_queue_system.Prelude.{[], ◌++◌, ◌≡◌, refl, txt, is_space}
use task_queue_system.Logging.Hidden.{url_of, rediss, credentials_hidden}
use task_queue_system.Logging.{redact_secrets, to_lower, starts_alike}

redactions :
    (redact_secrets (txt "Invalid URL: Rediss://default:pw@h.io:6379 (token=ab&x=1)")
      ≡ txt "Invalid URL: Rediss://[REDACTED]@h.io:6379 (token=[REDACTED]&x=1)")
    × (redact_secrets (txt "my_token=ab http://a.io/x@y") ≡ txt "my_token=ab http://a.io/x@y")
unfolding redact_secrets is_space to_lower starts_alike
redactions = (refl, refl)

-- A password with an at sign that is not encoded is cut at the first one.
at_sign_leaks : redact_secrets (txt "redis://u:p@ss@h.io") ≡ txt "redis://[REDACTED]@ss@h.io"
unfolding redact_secrets is_space to_lower starts_alike
at_sign_leaks = refl

credentials_hidden_example :
    redact_secrets (txt "Invalid URL: " ++ url_of rediss [] (txt "pw") (txt "h.io:6379"))
    ≡ redact_secrets (txt "Invalid URL: " ++ url_of rediss (txt "u") [] (txt "h.io:6379"))
unfolding is_space
credentials_hidden_example =
    credentials_hidden (txt "Invalid URL: ") (txt "h.io:6379") rediss [] (txt "pw") (txt "u") [] tt
      ((refl, refl), ((refl, refl), tt)) ((refl, (refl, (refl, refl))), tt) tt
