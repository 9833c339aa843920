-- ===== src/Storage/Records.antt =====
-- The laws of the idempotency records.
use task_queue_system.Prelude.{
  ◌≡◌, All, refl, inl, inr, [], ◌∷◌, Text, List, Option, none, some, Bool, true, false, ◌&&◌, arith,
  Bool-cases, if◌then◌else◌, text_eq, text_eq_iff,
}
use task_queue_system.Storage.{
  Row, is_at, get_record, has_been_processed, upsert, record_success, record_failure,
}

abbrev pub put : Row → Option Row → Row
put new none = new
put new (some r) = record r {
  status = new.status;
  result_json = new.result_json;
  created_at = new.created_at;
}

module _ (job_name key : Text) (new : Row) where
  -- The row that a look-up finds after the statement.
  pub get_record-upsert :
      (rows : List Row)
      → get_record job_name key (upsert new rows) ≡ (
          if is_at job_name key new
          then some (put new (get_record new.job_name new.key rows))
          else get_record job_name key rows)
  unfolding get_record upsert is_at
  get_record-upsert [] = refl
  get_record-upsert (r ∷ rows) = ground (
    arith,
    text_eq_iff r.job_name job_name,
    text_eq_iff r.key key,
    text_eq_iff r.job_name new.job_name,
    text_eq_iff r.key new.key,
    text_eq_iff new.job_name job_name,
    text_eq_iff new.key key,
    get_record-upsert rows,
  )

text_eq_sym : (s t : Text) → text_eq s t ≡ text_eq t s
text_eq_sym s t = ground (arith, text_eq_iff s t, text_eq_iff t s)

abbrev is_same : Text → Text → Text → Text → Bool
is_same job_name key job_name' key' = text_eq job_name job_name' && text_eq key key'

-- After a success is recorded, exactly its own (job name, key) pair has become processed: any other
-- pair, and so the same key under another job name, is as it was.
pub has_been_processed-record_success :
    (job_name key job_name' key' result_json now : Text) (rows : List Row)
    → has_been_processed job_name' key' (record_success key job_name result_json now rows) ≡ (
        if is_same job_name key job_name' key'
        then true
        else has_been_processed job_name' key' rows)
unfolding has_been_processed record_success is_at
has_been_processed-record_success job_name key job_name' key' result_json now rows =
    rw (get_record-upsert job_name' key')
      (ground (arith, text_eq_sym job_name job_name', text_eq_sym key key'))

-- After a terminal failure is recorded, its own (job name, key) pair counts as not processed, even
-- if it was COMPLETED before, and any other pair is as it was.
pub has_been_processed-record_failure :
    (job_name key job_name' key' error_json now : Text) (rows : List Row)
    → has_been_processed job_name' key' (record_failure key job_name error_json now rows) ≡ (
        if is_same job_name key job_name' key'
        then false
        else has_been_processed job_name' key' rows)
unfolding has_been_processed record_failure is_at
has_been_processed-record_failure job_name key job_name' key' error_json now rows =
    rw (get_record-upsert job_name' key')
      (ground (arith, text_eq_sym job_name job_name', text_eq_sym key key'))

-- No two rows have the same job name and key: what the primary key demands.
abbrev pub IsUnique : List Row → Type 0
IsUnique [] = Unit
IsUnique (r ∷ rows) = All (λ s. is_at r.job_name r.key s ≡ false) rows × IsUnique rows

upsert-All :
    (job_name key : Text) (new : Row) (rows : List Row)
    → All (λ s. is_at job_name key s ≡ false) rows
    → is_at job_name key new ≡ false
    → All (λ s. is_at job_name key s ≡ false) (upsert new rows)
unfolding upsert
upsert-All job_name key new [] h n = (n, tt)
upsert-All job_name key new (r ∷ rows) h n = elim (Bool-cases (is_at new.job_name new.key r)) [
  | inl same ↦ rw same (unfold is_at in h.0, h.1)
  | inr other ↦ rw other (h.0, upsert-All job_name key new rows h.1 n)
]

is_at_sym :
    (new r : Row) → is_at new.job_name new.key r ≡ false → is_at r.job_name r.key new ≡ false
unfolding is_at
is_at_sym new r e = rw (text_eq_sym new.job_name r.job_name, text_eq_sym new.key r.key) e

-- If no two rows share their job name and key, then neither do any two after a row is upserted.
pub upsert-IsUnique : (new : Row) (rows : List Row) → IsUnique rows → IsUnique (upsert new rows)
unfolding upsert
upsert-IsUnique new [] u = (tt, tt)
upsert-IsUnique new (r ∷ rows) u = elim (Bool-cases (is_at new.job_name new.key r)) [
  | inl same ↦ rw same (u.0, u.1)
  | inr other ↦ rw other (
    upsert-All r.job_name r.key new rows u.0 (is_at_sym new r other),
    upsert-IsUnique new rows u.1,
  )
]
