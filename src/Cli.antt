-- ===== src/Cli.antt =====
-- cli.ts: what a choice of the menu sends to the service, and how it goes on. What is printed is left
-- out, and a failed request is only printed. The clock's reading is an argument.
pub mod Accepted
mod Tests
use task_queue_system.Prelude.{
  ℕ, zero, suc, [], ◌∷◌, ◌++◌, Text, txt, List, Option, none, some, if◌then◌else◌, text_eq, trim,
  decimal,
}
use task_queue_system.Json.{Json, text, object}
use task_queue_system.Failure.{Failure, Result, ok, throws}
use task_queue_system.Processors.{JsonText}

-- A request of the client.
pub data Call : Type 0 where
  post : (path : Text) → (body : Json) → Call
  get : (path : Text) → Call

-- What comes after it: the menu once ENTER is pressed, or after a second, or the end.
pub data Next : Type 0 where
  menu_on_enter menu_after_second exits : Next

abbrev pub email_path : Text
email_path = txt "/api/jobs/email"

abbrev pub webhook_path : Text
webhook_path = txt "/api/jobs/webhook"

-- The job of the first choice.
welcome : ℕ → Json
welcome timestamp = object (
    (txt "to", text (txt "alex@company.com"))
    ∷ (txt "subject", text (txt "Interactive CLI Welcome"))
    ∷ (txt "body", text (txt "Testing email dispatch from interactive CLI."))
    ∷ (txt "idempotencyKey", text (txt "cli_email_" ++ decimal timestamp))
    ∷ [])

-- The two jobs of the second choice, with one key.
test_run : ℕ → (body : Text) → Json
test_run timestamp body = object (
    (txt "to", text (txt "alex@company.com"))
    ∷ (txt "subject", text (txt "Idempotency Test Email"))
    ∷ (txt "body", text body)
    ∷ (txt "idempotencyKey", text (txt "auto_idemp_" ++ decimal timestamp))
    ∷ [])

-- The job of the third choice.
failing_delivery : ℕ → Json
failing_delivery timestamp = object (
    (txt "destination", text (txt "DEMO_UNAVAILABLE"))
    ∷ (txt "event", text (txt "cli.retry_showcase"))
    ∷ (txt "idempotencyKey", text (txt "cli_webhook_" ++ decimal timestamp))
    ∷ [])

unfoldable pub handle_choice : (timestamp : ℕ) → (choice : Text) → List Call × Next
unfolding welcome test_run failing_delivery
handle_choice timestamp choice =
    let c = trim choice in
    if text_eq c (txt "1")
    then (post email_path (welcome timestamp) ∷ [], menu_on_enter)
    else if text_eq c (txt "2")
    then (
      post email_path (test_run timestamp (txt "First execution run."))
          ∷ post email_path (test_run timestamp (txt "Duplicate execution run."))
          ∷ [],
      menu_on_enter,
    )
    else if text_eq c (txt "3")
    then (post webhook_path (failing_delivery timestamp) ∷ [], menu_on_enter)
    else if text_eq c (txt "4")
    then (get (txt "/health") ∷ [], menu_on_enter)
    else if text_eq c (txt "5")
    then (get (txt "/metrics") ∷ [], menu_on_enter)
    else if text_eq c (txt "6")
    then ([], exits)
    else ([], menu_after_second)

-- The requests of a session: each choice as it is typed, with the clock's reading, up to the exit.
and_next : List Call × Next → List Call → List Call
and_next (calls, exits) later = calls
and_next (calls, menu_on_enter) later = calls ++ later
and_next (calls, menu_after_second) later = calls ++ later

pub session : List (ℕ × Text) → List Call
unfolding and_next
session [] = []
session ((timestamp, choice) ∷ rest) = and_next (handle_choice timestamp choice) (session rest)

-- What `postPromise` resolves to; the body is its text if that is no JSON.
pub record Resolved : Type 0 where
  pub status_code : ℕ
  pub data_ : Json

-- `res.statusCode || 200`
status_or_ok : Option ℕ → ℕ
status_or_ok none = 200
status_or_ok (some zero) = 200
status_or_ok (some (suc n)) = suc n

parsed_or_text : Text → Result Json → Json
parsed_or_text body (throws e) = text body
parsed_or_text body (ok j) = j

unfoldable pub post_result : JsonText → (status_code : Option ℕ) → (body : Text) → Resolved
unfolding status_or_ok parsed_or_text
post_result jt status_code body = record {
  status_code = status_or_ok status_code;
  data_ = parsed_or_text body (jt.parse body);
}
