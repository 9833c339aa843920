-- ===== src/Schema.antt =====
-- types/job.types.ts: the job names, the zod schemas and the records. A schema is a value here; what
-- zod makes of it is a parameter, with zod's documented meaning of the combinators that the source
-- uses as its law.
pub mod Zod
pub mod Accepts
pub mod Fixed
use task_queue_system.Prelude.{ℕ, [], ◌∷◌, ◌++◌, Text, txt, List, Option, Bool}
use task_queue_system.Prelude.Dict.{Dict}
use task_queue_system.Json.{Json}

-- JOB_NAMES
abbrev pub email_notification : Text
email_notification = txt "EMAIL_NOTIFICATION"

abbrev pub webhook_delivery : Text
webhook_delivery = txt "WEBHOOK_DELIVERY"

-- The checks of a `z.string()`; lengths count UTF-16 code units.
pub data Check : Type 0 where
  email : Check
  at_least at_most : ℕ → Check

-- The types that the fields have: `z.string()` with checks, that with `.optional()`, `z.enum`, and
-- `z.record(z.unknown()).optional().default({})`.
pub data FieldType : Type 0 where
  string optional_string : List Check → FieldType
  enumeration : List Text → FieldType
  record_or_empty : FieldType

-- A `.strict()` object: its fields in order.
abbrev pub Schema : Type 0
Schema = List (Text × FieldType)

abbrev pub webhook_destinations : List Text
webhook_destinations = txt "DEMO_AVAILABLE" ∷ txt "DEMO_UNAVAILABLE" ∷ []

abbrev pub idempotency_key : FieldType
idempotency_key = string (at_least 1 ∷ at_most 255 ∷ [])

abbrev pub email_job_data_schema : Schema
email_job_data_schema =
    (txt "to", string (email ∷ []))
    ∷ (txt "subject", string (at_least 1 ∷ at_most 500 ∷ []))
    ∷ (txt "body", string (at_most 100000 ∷ []))
    ∷ (txt "idempotencyKey", idempotency_key)
    ∷ []

abbrev pub webhook_job_data_schema : Schema
webhook_job_data_schema =
    (txt "destination", enumeration webhook_destinations)
    ∷ (txt "event", string (at_least 1 ∷ at_most 200 ∷ []))
    ∷ (txt "payload", record_or_empty)
    ∷ (txt "idempotencyKey", idempotency_key)
    ∷ []

abbrev pub correlation_id_schema : FieldType
correlation_id_schema = optional_string (at_least 1 ∷ at_most 64 ∷ [])

-- `.extend({ correlationId })` keeps the object strict.
abbrev pub email_job_record_schema : Schema
email_job_record_schema = email_job_data_schema ++ (txt "correlationId", correlation_id_schema) ∷ []

abbrev pub webhook_job_record_schema : Schema
webhook_job_record_schema =
    webhook_job_data_schema ++ (txt "correlationId", correlation_id_schema) ∷ []

-- JobExecutionResult
pub record JobExecutionResult : Type 0 where
  pub success : Bool
  pub job_name : Text
  pub idempotency_key : Text
  pub processed_at : Text
  pub duration_ms : ℕ
  pub data_ : Json
  pub is_duplicate : Bool
