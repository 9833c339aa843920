-- ===== src/Storage/Sessions/Tests.antt =====
-- Three starts of a process, and the theorem about them at a concrete input.
use task_queue_system.Prelude.{text_eq, ◌≡◌, refl, [], ◌∷◌, txt, List, none, some, true, false}
use task_queue_system.Failure.{plain}
use task_queue_system.Storage.{
  init, has_been_processed, record_success, record_failure, upsert, get_record, is_at,
}
use task_queue_system.Storage.Ledger.{Call, success, failure, apply, apply_all}
use task_queue_system.Storage.Sessions.{construct, Disk, Opening, sessions, sessions-rows}

abbrev works : Opening
works = record { mkdir_fault = none; open_fault = none }

abbrev fails : Opening
fails = record { mkdir_fault = none; open_fault = some (plain (txt "disk I/O error")) }

abbrev starts : List (Opening × List Call)
starts =
    (works, success (txt "order-1") (txt "WEBHOOK_DELIVERY") (txt "{}") (txt "10:00") ∷ [])
    ∷ (fails, failure (txt "order-1") (txt "WEBHOOK_DELIVERY") (txt "{}") (txt "11:00") ∷ [])
    ∷ (works, failure (txt "order-2") (txt "WEBHOOK_DELIVERY") (txt "{}") (txt "12:00") ∷ [])
    ∷ []

abbrev empty : Disk
empty = record { has_directory = false; table = none }

sessions-rows_example :
    (init (sessions starts empty).1.table).rows
    ≡ apply_all (sessions starts empty).0 (init none).rows
sessions-rows_example = sessions-rows starts empty

still_processed :
    has_been_processed
      (txt "WEBHOOK_DELIVERY")
      (txt "order-1")
      (init (sessions starts empty).1.table).rows
    ≡ true
unfolding sessions has_been_processed init construct apply apply_all record_success record_failure
    upsert get_record is_at text_eq
still_processed = refl
