-- ===== src/Storage/Tests.antt =====
-- Runs of the statements, and the theorems about them at concrete inputs.
use task_queue_system.Prelude.{◌≡◌, ◌≢◌, [], ◌∷◌, Text, txt, List, some, false, text_eq}
use task_queue_system.Storage.{
  Row, completed, failed, by_key, by_job_and_key, get_record, has_been_processed, record_success,
  record_failure, init,
}
use task_queue_system.Storage.Records.{
  has_been_processed-record_success, has_been_processed-record_failure,
}
use task_queue_system.Storage.Ledger.{
  Call, success, failure, apply_all, meaning_all, ledger_of, is_done, store_refines_ledger,
}
use task_queue_system.Storage.Migration.{init_keeps_legacy_rows}

abbrev email : Text
email = txt "EMAIL_NOTIFICATION"

abbrev webhook : Text
webhook = txt "WEBHOOK_DELIVERY"

abbrev order_row : Row
order_row = record {
  key = txt "order-1";
  job_name = email;
  status = completed;
  result_json = txt "{}";
  created_at = txt "2026-01-01";
}

abbrev refund_row : Row
refund_row = record order_row { key = txt "refund-1"; job_name = webhook; status = failed }

-- The same key under the other job name is not processed.
has_been_processed-record_success_example :
    has_been_processed webhook
      (txt "order-1")
      (record_success (txt "order-1") email (txt "{}") (txt "now") [])
    ≡ false
unfolding has_been_processed get_record text_eq
has_been_processed-record_success_example =
    has_been_processed-record_success email (txt "order-1") webhook (txt "order-1") (txt "{}")
      (txt "now") []

has_been_processed-record_failure_example :
    has_been_processed email
      (txt "order-1")
      (record_failure (txt "order-1") email (txt "{}") (txt "now") (order_row ∷ []))
    ≡ false
unfolding text_eq
has_been_processed-record_failure_example =
    has_been_processed-record_failure email (txt "order-1") email (txt "order-1") (txt "{}")
      (txt "now") (order_row ∷ [])

refund_key_differs : refund_row.key ≢ order_row.key
refund_key_differs = λ e. cc

init_keeps_legacy_rows_example :
    init (some (record { primary_key = by_key; rows = order_row ∷ refund_row ∷ [] }))
    ≡ record { primary_key = by_job_and_key; rows = order_row ∷ refund_row ∷ [] }
init_keeps_legacy_rows_example =
    init_keeps_legacy_rows (order_row ∷ refund_row ∷ []) ((refund_key_differs, tt), (tt, tt))

-- A success, a failure of the same pair, and a success of the other job.
abbrev calls : List Call
calls =
    success (txt "order-1") email (txt "{}") (txt "now")
    ∷ failure (txt "order-1") email (txt "{}") (txt "then")
    ∷ success (txt "order-1") webhook (txt "{}") (txt "then")
    ∷ []

store_refines_ledger_example :
    (ledger_of (apply_all calls (refund_row ∷ []))
      ≡ meaning_all calls (ledger_of (refund_row ∷ [])))
    × ((job_name key : Text)
        → has_been_processed job_name key (apply_all calls (refund_row ∷ []))
          ≡ is_done (meaning_all calls (ledger_of (refund_row ∷ [])) job_name key))
store_refines_ledger_example = store_refines_ledger calls (refund_row ∷ [])
