-- ===== src/Cli/Accepted.antt =====
-- The jobs that the client submits are ones that the service takes.
use task_queue_system.Prelude.{
  ℕ, ◌≤◌, ◌≡◌, ◌⊎◌, refl, inl, inr, [], ◌∷◌, ◌++◌, Text, txt, some, true, Bool-cases, arith, All,
  length, length-append, length-decimal, decimal, text_eq, trim, includes, All-append,
}
use task_queue_system.Prelude.Dict.{Dict, lookup}
use task_queue_system.Json.{Json, text, object}
use task_queue_system.Schema.{email_job_data_schema, webhook_job_data_schema, at_least, at_most}
use task_queue_system.Schema.Zod.{
  Zod, IsZod, valid, accepts, outputs, only_known, meets, field_output, add_output,
}
use task_queue_system.Cli.{
  and_next, session, Next, exits, menu_on_enter, menu_after_second, Call, post, get, email_path,
  webhook_path, handle_choice, welcome, test_run, failing_delivery, some, List,
}

-- A job that its route's schema accepts, or a page of the service.
abbrev pub IsAccepted : Zod → Call → Type 0
IsAccepted z (post path body) =
    ((path ≡ email_path) × (d : Dict Json) × (z.parse email_job_data_schema body ≡ valid d))
    ⊎ ((path ≡ webhook_path) × (d : Dict Json) × (z.parse webhook_job_data_schema body ≡ valid d))
IsAccepted z (get path) = (path ≡ txt "/health") ⊎ (path ≡ txt "/metrics")

abbrev mail : (subject body key : Text) → Dict Json
mail subject body key =
    (txt "to", text (txt "alex@company.com"))
    ∷ (txt "subject", text subject)
    ∷ (txt "body", text body)
    ∷ (txt "idempotencyKey", text key)
    ∷ []

module _ (z : Zod) (timestamp : ℕ) (law : IsZod z)
    (address : z.is_email (txt "alex@company.com") ≡ true)
    (now : timestamp ≤ 8640000000000000) where
  key_fits :
      (prefix : Text)
      → 1 ≤ length prefix
      → length prefix ≤ 20
      → meets z.is_email (at_least 1 ∷ at_most 255 ∷ []) (prefix ++ decimal timestamp) ≡ true
  unfolding meets
  key_fits prefix l m =
      let short : length (decimal timestamp) ≤ 16 =
        length-decimal timestamp 15 (omega (arith, now)) in
      ground (arith, l, m, short, length-append prefix (decimal timestamp))

  email_fits :
      (subject body prefix : Text)
      → meets z.is_email (at_least 1 ∷ at_most 500 ∷ []) subject ≡ true
      → meets z.is_email (at_most 100000 ∷ []) body ≡ true
      → 1 ≤ length prefix
      → length prefix ≤ 20
      → accepts z.is_email email_job_data_schema
          (object (mail subject body (prefix ++ decimal timestamp)))
        ≡ some (mail subject body (prefix ++ decimal timestamp))
  unfolding accepts only_known outputs field_output add_output lookup text_eq includes
  email_fits subject body prefix s b l m = rw (address, s, b, key_fits prefix l m) refl

  webhook_fits :
      accepts z.is_email webhook_job_data_schema (failing_delivery timestamp)
      ≡ some (
          (txt "destination", text (txt "DEMO_UNAVAILABLE"))
          ∷ (txt "event", text (txt "cli.retry_showcase"))
          ∷ (txt "payload", object [])
          ∷ (txt "idempotencyKey", text (txt "cli_webhook_" ++ decimal timestamp))
          ∷ [])
  unfolding failing_delivery accepts only_known outputs field_output add_output lookup text_eq
      includes
  webhook_fits = rw (key_fits (txt "cli_webhook_") (omega arith) (omega arith)) refl

  mail-IsAccepted :
      (subject body prefix : Text)
      → meets z.is_email (at_least 1 ∷ at_most 500 ∷ []) subject ≡ true
      → meets z.is_email (at_most 100000 ∷ []) body ≡ true
      → 1 ≤ length prefix
      → length prefix ≤ 20
      → IsAccepted z (post email_path (object (mail subject body (prefix ++ decimal timestamp))))
  mail-IsAccepted subject body prefix s b l m =
      inl
        (refl, _, (law.parses email_job_data_schema _ _).1 (email_fits subject body prefix s b l m))

  chosen : (choice : Text) → All (IsAccepted z) (handle_choice timestamp choice).0
  unfolding handle_choice welcome test_run meets
  chosen choice =
      let c = trim choice in
      elim (Bool-cases (text_eq c (txt "1"))) [
        | inl a ↦ rw a (
          mail-IsAccepted (txt "Interactive CLI Welcome")
              (txt "Testing email dispatch from interactive CLI.") (txt "cli_email_") refl refl
              (omega arith) (omega arith),
          tt,
        )
        | inr a ↦ elim (Bool-cases (text_eq c (txt "2"))) [
          | inl b ↦
              rw (a, b)
                (
                  mail-IsAccepted (txt "Idempotency Test Email") (txt "First execution run.")
                      (txt "auto_idemp_") refl refl (omega arith) (omega arith),
                  (
                    mail-IsAccepted (txt "Idempotency Test Email") (txt "Duplicate execution run.")
                        (txt "auto_idemp_") refl refl (omega arith) (omega arith),
                    tt,
                  ),
                )
          | inr b ↦ elim (Bool-cases (text_eq c (txt "3"))) [
            | inl d ↦
                rw (a, b, d)
                  (inr (refl, _, (law.parses webhook_job_data_schema _ _).1 webhook_fits), tt)
            | inr d ↦ elim (Bool-cases (text_eq c (txt "4"))) [
              | inl e ↦ rw (a, b, d, e) (inl refl, tt)
              | inr e ↦ elim (Bool-cases (text_eq c (txt "5"))) [
                | inl f ↦ rw (a, b, d, e, f) (inr refl, tt)
                | inr f ↦ elim (Bool-cases (text_eq c (txt "6"))) [
                  | inl g ↦ rw (a, b, d, e, f, g) tt
                  | inr g ↦ rw (a, b, d, e, f, g) tt
                ]
              ]
            ]
          ]
        ]
      ]

and_next-IsAccepted :
    (z : Zod) (o : List Call × Next) (later : List Call)
    → All (IsAccepted z) o.0
    → All (IsAccepted z) later
    → All (IsAccepted z) (and_next o later)
unfolding and_next
and_next-IsAccepted z (calls, exits) later h k = h
and_next-IsAccepted z (calls, menu_on_enter) later h k = All-append (IsAccepted z) calls later h k
and_next-IsAccepted z (calls, menu_after_second) later h k =
    All-append (IsAccepted z) calls later h k

-- If zod takes the address alex@company.com for one: in a session, whatever is typed at the menu, at
-- times that a clock can read, each job that the client sends goes to a job route whose schema accepts
-- it, and every other request is for the health check or the metrics.
pub session-IsAccepted :
    (z : Zod) (typed : List (ℕ × Text))
    → IsZod z
    → z.is_email (txt "alex@company.com") ≡ true
    → All (λ x. x.0 ≤ 8640000000000000) typed
    → All (IsAccepted z) (session typed)
unfolding session
session-IsAccepted z [] law address now = tt
session-IsAccepted z ((timestamp, choice) ∷ rest) law address (now, more) =
    and_next-IsAccepted z (handle_choice timestamp choice) (session rest)
      (chosen z timestamp law address now choice) (session-IsAccepted z rest law address more)
