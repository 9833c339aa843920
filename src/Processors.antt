-- ===== src/Processors.antt =====
-- processors/: the two job processors and the registry. The clock's readings, the random text, the
-- answer of `fetch`, faults of SQLite and JSON's texts are arguments; a store has the rows of the
-- idempotency table and the HTTP requests sent so far, the latest first.
pub mod Outcome
pub mod Runs
pub mod Replay
pub mod Overlap
mod Tests
use task_queue_system.Prelude.{
  ℕ, ◌+◌, ◌∷◌, ◌++◌, [], Text, txt, List, Option, none, some, Bool, true, false, leb, ltb, ◌&&◌,
  if◌then◌else◌, text_eq, decimal, includes,
}
use task_queue_system.Prelude.Dict.{Dict, lookup}
use task_queue_system.Config.{Config}
use task_queue_system.Json.{Json, null, text, object, natural}
use task_queue_system.Failure.{Failure, Result, ok, throws, zod_error, plain, ◌>>=◌}
use task_queue_system.Schema.{
  email_notification, webhook_delivery, email_job_record_schema, webhook_job_record_schema,
  JobExecutionResult,
}
use task_queue_system.Schema.Zod.{Zod, Parsed, valid, invalid}
use task_queue_system.Storage.{Row, get_record, has_been_processed, record_success}
use task_queue_system.Queue.{Job}
use task_queue_system.Producer.{text_at}

-- `JSON.stringify` and `JSON.parse`.
pub record JsonText : Type 0 where
  pub stringify : Json → Text
  pub parse : Text → Result Json

-- What `fetch` comes to: a status, or an error with its message if it is an `Error`.
pub data Fetched : Type 0 where
  replied : ℕ → Fetched
  failed : Option Text → Fetched

-- What one run reads of its surroundings. `elapsed` is the second reading of the clock less the
-- first; each `…_fault` is what the call of SQLite throws, if it does.
pub record Readings : Type 0 where
  pub message_at : ℕ
  pub random : Text
  pub elapsed : ℕ
  pub delivered_at : Text
  pub recorded_at : Text
  pub processed_at : Text
  pub fetched : Fetched
  pub read_fault : Option Failure
  pub reread_fault : Option Failure
  pub write_fault : Option Failure

pub record Outgoing : Type 0 where
  pub url : Text
  pub key : Text
  pub body : Text

pub record Store : Type 0 where
  pub rows : List Row
  pub sent : List Outgoing

guarded {ℓ} : {A : Type ℓ} → Option Failure → A → Result A
guarded none a = ok a
guarded (some e) a = throws e

-- `existing?.created_at || now`
created_or : Text → Option Row → Text
created_or now none = now
created_or now (some r) = elim r.created_at [ [] ↦ now | c ∷ s ↦ c ∷ s ]

-- `existing?.result_json || '{}'`
unfoldable pub stored_json : Option Row → Text
stored_json none = txt "{}"
stored_json (some r) = elim r.result_json [ [] ↦ txt "{}" | c ∷ s ↦ c ∷ s ]

abbrev field_of : Text → Dict Json → Json
field_of name d = elim (lookup name d) [ some j ↦ j | none ↦ null ]

is_surrogate : ℕ → ℕ → Bool
is_surrogate least u = leb least u && ltb u (least + 1024)

unit_bytes : ℕ → ℕ
unit_bytes u = if ltb u 128 then 1 else if ltb u 2048 then 2 else 3

-- `Buffer.byteLength(s, 'utf-8')`: a surrogate pair is 4 bytes, a lone surrogate the 3 of U+FFFD.
unfoldable pub byte_length : Text → ℕ
unfolding is_surrogate unit_bytes
byte_length [] = 0
byte_length (u ∷ []) = unit_bytes u
byte_length (u ∷ v ∷ s) =
    let pair = byte_length s in
    let rest = byte_length (v ∷ s) in
    if is_surrogate 55296 u && is_surrogate 56320 v then 4 + pair else unit_bytes u + rest

-- `response.ok`
unfoldable pub is_success : ℕ → Bool
is_success status = leb 200 status && ltb status 300

base_url : Config → Text
base_url c = txt "http://127.0.0.1:" ++ decimal c.port

unfoldable pub resolve_webhook_destination : Config → Text → Text
unfolding base_url
resolve_webhook_destination c destination =
    if text_eq destination (txt "DEMO_AVAILABLE")
    then base_url c ++ txt "/internal/webhook-sink"
    else base_url c ++ txt "/internal/webhook-sink/unavailable"

module _ (jt : JsonText) (r : Readings) where
  replayed : (job_name key : Text) → Option Row → Json → JobExecutionResult
  unfolding created_or
  replayed job_name key existing data_ = record {
    success = true;
    job_name = job_name;
    idempotency_key = key;
    processed_at = created_or r.processed_at existing;
    duration_ms = 0;
    data_ = data_;
    is_duplicate = true;
  }

  -- The answer to a duplicate, from the stored record.
  pub replay : (job_name key : Text) → List Row → Result JobExecutionResult
  unfolding replayed stored_json guarded
  replay job_name key rows = guarded r.reread_fault (get_record job_name key rows) >>= λ existing.
      jt.parse (stored_json existing) >>= λ data_. ok (replayed job_name key existing data_)

  fresh_result : (job_name key : Text) → Json → JobExecutionResult
  fresh_result job_name key data_ = record {
    success = true;
    job_name = job_name;
    idempotency_key = key;
    processed_at = r.processed_at;
    duration_ms = r.elapsed;
    data_ = data_;
    is_duplicate = false;
  }

  after_write :
      (job_name key : Text) → Json → Store → Option Failure → Result JobExecutionResult × Store
  unfolding fresh_result
  after_write job_name key data_ s (some e) = (throws e, s)
  after_write job_name key data_ s none = (
    ok (fresh_result job_name key data_),
    record s { rows = record_success key job_name (jt.stringify data_) r.recorded_at s.rows },
  )

  email_data : Dict Json → Json
  email_data d = object (
      (txt "messageId", text (txt "msg_" ++ (decimal r.message_at ++ (txt "_" ++ r.random))))
      ∷ (txt "deliveredTo", text (text_at (txt "to") d))
      ∷ (txt "subject", text (text_at (txt "subject") d))
      ∷ (txt "bytesSent", natural (byte_length (text_at (txt "body") d)))
      ∷ [])

  email_checked : Dict Json → Store → Result Bool → Result JobExecutionResult × Store
  unfolding replay after_write email_data
  email_checked d s (throws e) = (throws e, s)
  email_checked d s (ok true) =
      (replay email_notification (text_at (txt "idempotencyKey") d) s.rows, s)
  email_checked d s (ok false) =
      after_write email_notification (text_at (txt "idempotencyKey") d) (email_data d) s
        r.write_fault

  webhook_data : Dict Json → ℕ → Json
  webhook_data d status = object (
      (txt "destination", text (text_at (txt "destination") d))
      ∷ (txt "event", text (text_at (txt "event") d))
      ∷ (txt "httpStatus", natural status)
      ∷ (txt "deliveredAt", text r.delivered_at)
      ∷ [])

  delivery_error : Text → Option Text → Failure
  delivery_error destination reason = plain (
      txt "Webhook delivery to "
      ++ (destination
          ++ (txt " failed at transport level: "
              ++ elim reason [ none ↦ txt "Unknown transport error" | some m ↦ m ])))

  rejection_error : Text → ℕ → Failure
  rejection_error destination status = plain (
      txt "Webhook delivery to "
      ++ (destination ++ (txt " was rejected with HTTP " ++ decimal status)))

  after_fetch : Dict Json → Store → Fetched → Result JobExecutionResult × Store
  unfolding after_write webhook_data delivery_error rejection_error
  after_fetch d s (failed reason) =
      (throws (delivery_error (text_at (txt "destination") d) reason), s)
  after_fetch d s (replied status) =
      if is_success status
      then after_write webhook_delivery (text_at (txt "idempotencyKey") d) (webhook_data d status) s
          r.write_fault
      else (throws (rejection_error (text_at (txt "destination") d) status), s)

  -- The POST: its address, its X-Idempotency-Key and its body.
  request_of : Config → Dict Json → Outgoing
  request_of c d = record {
    url = resolve_webhook_destination c (text_at (txt "destination") d);
    key = text_at (txt "idempotencyKey") d;
    body = jt.stringify (
        object (
          (txt "event", text (text_at (txt "event") d))
          ∷ (txt "payload", field_of (txt "payload") d)
          ∷ []));
  }

  send : Outgoing → Store → Store
  send o s = record s { sent = o ∷ s.sent }

  webhook_checked : Config → Dict Json → Store → Result Bool → Result JobExecutionResult × Store
  unfolding replay after_fetch request_of send
  webhook_checked c d s (throws e) = (throws e, s)
  webhook_checked c d s (ok true) =
      (replay webhook_delivery (text_at (txt "idempotencyKey") d) s.rows, s)
  webhook_checked c d s (ok false) = after_fetch d (send (request_of c d) s) r.fetched

  email_parsed : Parsed → Store → Result JobExecutionResult × Store
  unfolding email_checked guarded
  email_parsed (invalid issues message) s = (throws (zod_error issues message), s)
  email_parsed (valid d) s = email_checked d s (
      guarded r.read_fault
        (has_been_processed email_notification (text_at (txt "idempotencyKey") d) s.rows))

  webhook_parsed : Config → Parsed → Store → Result JobExecutionResult × Store
  unfolding webhook_checked guarded
  webhook_parsed c (invalid issues message) s = (throws (zod_error issues message), s)
  webhook_parsed c (valid d) s = webhook_checked c d s (
      guarded r.read_fault
        (has_been_processed webhook_delivery (text_at (txt "idempotencyKey") d) s.rows))

  unfoldable pub process_email_job : Zod → Job → Store → Result JobExecutionResult × Store
  unfolding email_parsed
  process_email_job z job s = email_parsed (z.parse email_job_record_schema job.payload) s

  unfoldable pub process_webhook_job :
      Zod → Config → Job → Store → Result JobExecutionResult × Store
  unfolding webhook_parsed
  process_webhook_job z c job s = webhook_parsed c (z.parse webhook_job_record_schema job.payload) s
