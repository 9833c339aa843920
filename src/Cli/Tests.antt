-- ===== src/Cli/Tests.antt =====
-- A choice at the menu, and the theorem about it at a concrete input.
use task_queue_system.Prelude.{
  List, ℕ, Text, length, ◌≡◌, refl, [], ◌∷◌, txt, none, All, arith, trim, text_eq,
}
use task_queue_system.Json.{text}
use task_queue_system.Failure.{throws, plain}
use task_queue_system.Processors.{JsonText}
use task_queue_system.Schema.Accepts.{sample_zod, sample_zod-IsZod, has_at}
use task_queue_system.Cli.{get, menu_on_enter, handle_choice, post_result, session}
use task_queue_system.Cli.Accepted.{IsAccepted, session-IsAccepted}

health_choice : handle_choice 1700000000000 (txt " 4 ") ≡ (get (txt "/health") ∷ [], menu_on_enter)
unfolding handle_choice trim text_eq
health_choice = refl

-- An answer that is no JSON, without a status.
abbrev no_json : JsonText
no_json = record { stringify = λ j. []; parse = λ t. throws (plain []) }

plain_answer :
    post_result no_json none (txt "Too many")
    ≡ record { status_code = 200; data_ = text (txt "Too many") }
unfolding post_result
plain_answer = refl

-- Nothing is sent after the exit.
abbrev typed : List (ℕ × Text)
typed = (1700000000000, txt "2") ∷ (1700000001000, txt "6") ∷ (1700000002000, txt "1") ∷ []

two_calls : length (session typed) ≡ 2
unfolding session handle_choice trim text_eq
two_calls = refl

session-IsAccepted_example : All (IsAccepted sample_zod) (session typed)
unfolding has_at
session-IsAccepted_example =
    session-IsAccepted sample_zod typed sample_zod-IsZod refl
      (omega arith, (omega arith, (omega arith, tt)))
