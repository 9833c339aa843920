-- ===== src/Storage/Completed.antt =====
-- Completed records: what a look-up finds after a success is recorded, and what it still finds.
use task_queue_system.Prelude.{
  ◌≡◌, refl, inl, inr, Text, List, Option, none, some, true, false, ◌&&◌, arith, Bool-cases,
  text_eq, text_eq_iff, text_eq_refl,
}
use task_queue_system.Storage.{
  Row, Status, is_completed, completed, failed, is_at, get_record, has_been_processed,
  record_success,
}
use task_queue_system.Storage.Records.{get_record-upsert, put}

-- The record of a success, as a look-up finds it.
pub record IsRecorded (stored now : Text) (row : Row) : Type 0 where
  pub status : row.status ≡ completed
  pub result_json : row.result_json ≡ stored
  pub created_at : row.created_at ≡ now

pub get_record-record_success :
    (job_name key result_json now : Text) (rows : List Row)
    → (row : Row) × (get_record job_name key (record_success key job_name result_json now rows)
        ≡ some row)
      × IsRecorded result_json now row
unfolding record_success is_at
get_record-record_success job_name key result_json now rows =
    rw (get_record-upsert job_name key, text_eq_refl job_name, text_eq_refl key)
      (recorded (get_record job_name key rows))
  where
    recorded :
        (o : Option Row)
        → (row : Row) × (some (
              put
                (record {
                  key = key;
                  job_name = job_name;
                  status = completed;
                  result_json = result_json;
                  created_at = now;
                })
                o)
            ≡ some row)
          × IsRecorded result_json now row
    recorded none = (_, refl, record { status = refl; result_json = refl; created_at = refl })
    recorded (some r) = (_, refl, record { status = refl; result_json = refl; created_at = refl })

completed_some :
    (o : Option Row)
    → is_completed o ≡ true
    → (row : Row) × (o ≡ some row) × (row.status ≡ completed)
completed_some none h = absurd (cc)
completed_some (some row) h = (row, refl, by_status row.status refl)
  where
    by_status : (t : Status) → row.status ≡ t → row.status ≡ completed
    by_status completed e = e
    by_status failed e = absurd (ground (arith, e, h))

is_completed_of :
    (o : Option Row) (row : Row) → o ≡ some row → row.status ≡ completed → is_completed o ≡ true
is_completed_of o row e k = rw (e, k) refl

-- A pair that is processed has a completed row.
pub processed_row :
    (job_name key : Text) (rows : List Row)
    → has_been_processed job_name key rows ≡ true
    → (row : Row) × (get_record job_name key rows ≡ some row) × (row.status ≡ completed)
unfolding has_been_processed
processed_row job_name key rows h = completed_some (get_record job_name key rows) h

pub record_success_keeps :
    (job_name key job_name' key' result_json now : Text) (rows : List Row) (row : Row)
    → has_been_processed job_name' key' rows ≡ false
    → get_record job_name key rows ≡ some row
    → row.status ≡ completed
    → get_record job_name key (record_success key' job_name' result_json now rows) ≡ some row
unfolding has_been_processed record_success is_at
record_success_keeps job_name key job_name' key' result_json now rows row h e k =
    rw (get_record-upsert job_name key)
      (elim (Bool-cases (text_eq job_name' job_name && text_eq key' key)) [
        | inl same ↦ absurd (
            grind (
              arith,
              text_eq_iff job_name' job_name,
              text_eq_iff key' key,
              is_completed_of _ row e k,
            ))
        | inr other ↦ rw other e
      ])
