-- ===== src/Storage/Ledger.antt =====
-- The store as its clients see it: for each job name and key at most one outcome. The rows, their
-- order and the way a row is found or replaced are forgotten.
use mathlib.Core.Path.{fun_ext}
use task_queue_system.Prelude.{
  ◌≡◌, refl, [], ◌∷◌, Text, List, Option, none, some, Bool, true, false, ◌&&◌, inl, inr, Bool-cases,
  if◌then◌else◌, text_eq, ◌∙◌, ap,
}
use task_queue_system.Storage.{
  Row, Status, completed, failed, is_at, get_record, has_been_processed, record_success,
  record_failure, clear_all, upsert, is_completed,
}
use task_queue_system.Storage.Records.{get_record-upsert, put}

-- The calls that change the store.
pub data Call : Type 0 where
  success failure : (key job_name result_json now : Text) → Call
  clear : Call

unfoldable pub apply : Call → List Row → List Row
apply (success key job_name result_json now) rows = record_success key job_name result_json now rows
apply (failure key job_name error_json now) rows = record_failure key job_name error_json now rows
apply clear rows = clear_all rows

unfoldable pub apply_all : List Call → List Row → List Row
apply_all [] rows = rows
apply_all (x ∷ xs) rows = apply_all xs (apply x rows)

pub record Outcome : Type 0 where
  pub status : Status
  pub result_json : Text
  pub created_at : Text

-- The abstract state: what is known of a job name and a key.
abbrev pub Ledger : Type 0
Ledger = Text → Text → Option Outcome

-- The ledger changed at one pair.
abbrev pub note : Text → Text → Outcome → Ledger → Ledger
note job_name key o ledger j k = if text_eq job_name j && text_eq key k then some o else ledger j k

abbrev pub meaning : Call → Ledger → Ledger
meaning (success key job_name result_json now) =
    note job_name key (record { status = completed; result_json = result_json; created_at = now })
meaning (failure key job_name error_json now) =
    note job_name key (record { status = failed; result_json = error_json; created_at = now })
meaning clear = λ ledger j k. none

pub meaning_all : List Call → Ledger → Ledger
meaning_all [] ledger = ledger
meaning_all (x ∷ xs) ledger = meaning_all xs (meaning x ledger)

abbrev outcome_of : Option Row → Option Outcome
outcome_of none = none
outcome_of (some r) =
    some (record { status = r.status; result_json = r.result_json; created_at = r.created_at })

-- What the look-ups tell.
abbrev pub ledger_of : List Row → Ledger
ledger_of rows job_name key = outcome_of (get_record job_name key rows)

outcome_of-put :
    (new : Row) (old : Option Row)
    → outcome_of (some (put new old))
      ≡ some (record {
        status = new.status;
        result_json = new.result_json;
        created_at = new.created_at;
      })
outcome_of-put new none = refl
outcome_of-put new (some r) = refl

ledger_of-upsert :
    (new : Row) (rows : List Row)
    → ledger_of (upsert new rows)
      ≡ note new.job_name new.key
          (record {
            status = new.status;
            result_json = new.result_json;
            created_at = new.created_at;
          })
          (ledger_of rows)
unfolding is_at
ledger_of-upsert new rows = fun_ext λ j. fun_ext λ k.
    rw (get_record-upsert j k new rows)
      (elim (Bool-cases (text_eq new.job_name j && text_eq new.key k)) [
        | inl same ↦ rw same (outcome_of-put new (get_record new.job_name new.key rows))
        | inr other ↦ rw other refl
      ])

ledger_of-apply :
    (x : Call) (rows : List Row) → ledger_of (apply x rows) ≡ meaning x (ledger_of rows)
unfolding apply record_success record_failure clear_all get_record
ledger_of-apply (success key job_name result_json now) rows = ledger_of-upsert _ rows
ledger_of-apply (failure key job_name error_json now) rows = ledger_of-upsert _ rows
ledger_of-apply clear rows = refl

ledger_of-apply_all :
    (xs : List Call) (rows : List Row)
    → ledger_of (apply_all xs rows) ≡ meaning_all xs (ledger_of rows)
unfolding apply_all meaning_all
ledger_of-apply_all [] rows = refl
ledger_of-apply_all (x ∷ xs) rows =
    ledger_of-apply_all xs (apply x rows) ∙ ap (meaning_all xs) (ledger_of-apply x rows)

abbrev pub is_done : Option Outcome → Bool
is_done none = false
is_done (some o) = elim o.status [ completed ↦ true | failed ↦ false ]

has_been_processed-ledger :
    (job_name key : Text) (rows : List Row)
    → has_been_processed job_name key rows ≡ is_done (ledger_of rows job_name key)
unfolding has_been_processed
has_been_processed-ledger job_name key rows = by_row (get_record job_name key rows)
  where
    by_row : (o : Option Row) → is_completed o ≡ is_done (outcome_of o)
    by_row none = refl
    by_row (some r) = refl

-- The store refines its ledger: after any sequence of recorded successes, recorded failures and
-- clearings, every look-up tells what the ledger has after the same calls, and a pair counts as
-- processed exactly if the ledger's outcome of it is COMPLETED.
pub store_refines_ledger :
    (xs : List Call) (rows : List Row)
    → (ledger_of (apply_all xs rows) ≡ meaning_all xs (ledger_of rows))
      × ((job_name key : Text)
          → has_been_processed job_name key (apply_all xs rows)
            ≡ is_done (meaning_all xs (ledger_of rows) job_name key))
store_refines_ledger xs rows =
    let same = ledger_of-apply_all xs rows in
    (
      same,
      λ job_name key.
          has_been_processed-ledger job_name key (apply_all xs rows)
          ∙ ap (λ (l : Ledger). is_done (l job_name key)) same,
    )
