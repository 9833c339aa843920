-- ===== src/Storage.antt =====
-- storage/idempotency.db.ts: the table of idempotency records and the statements that the class
-- runs on it, with SQLite's meaning of a primary key, `INSERT OR IGNORE` and `ON CONFLICT … DO UPDATE`.
pub mod Records
pub mod Migration
pub mod Completed
pub mod Ledger
pub mod Sessions
mod Tests
use task_queue_system.Prelude.{
  [], ◌∷◌, ◌++◌, Text, txt, List, Option, none, some, Bool, true, false, ◌&&◌, if◌then◌else◌,
  text_eq,
}

pub data Status : Type 0 where
  completed failed : Status

-- `IdempotencyRecord`.
pub record Row : Type 0 where
  pub key : Text
  pub job_name : Text
  pub status : Status
  pub result_json : Text
  pub created_at : Text

-- The primary key that the table was created with: `key` in the legacy schema.
pub data PrimaryKey : Type 0 where
  by_key by_job_and_key : PrimaryKey

pub record Table : Type 0 where
  pub primary_key : PrimaryKey
  pub rows : List Row

-- `WHERE job_name = ? AND key = ?`
unfoldable pub is_at : Text → Text → Row → Bool
is_at job_name key r = text_eq r.job_name job_name && text_eq r.key key

unfoldable pub get_record : Text → Text → List Row → Option Row
get_record job_name key [] = none
get_record job_name key (r ∷ rows) =
    if is_at job_name key r then some r else get_record job_name key rows

abbrev pub is_completed : Option Row → Bool
is_completed none = false
is_completed (some r) = elim r.status [ completed ↦ true | failed ↦ false ]

unfoldable pub has_been_processed : Text → Text → List Row → Bool
unfolding get_record
has_been_processed job_name key rows = is_completed (get_record job_name key rows)

-- `INSERT … ON CONFLICT(job_name, key) DO UPDATE SET status, result_json, created_at`
unfoldable pub upsert : Row → List Row → List Row
upsert new [] = new ∷ []
upsert new (r ∷ rows) =
    if is_at new.job_name new.key r
    then record r {
      status = new.status;
      result_json = new.result_json;
      created_at = new.created_at;
    }
      ∷ rows
    else r ∷ upsert new rows

-- The result and the time come as `JSON.stringify(result)` and `new Date().toISOString()`.
unfoldable pub record_success : (key job_name result_json now : Text) → List Row → List Row
record_success key job_name result_json now rows =
    upsert
      (record {
        key = key;
        job_name = job_name;
        status = completed;
        result_json = result_json;
        created_at = now;
      })
      rows

-- `error_json` is `JSON.stringify({ error })`.
unfoldable pub record_failure : (key job_name error_json now : Text) → List Row → List Row
record_failure key job_name error_json now rows =
    upsert
      (record {
        key = key;
        job_name = job_name;
        status = failed;
        result_json = error_json;
        created_at = now;
      })
      rows

unfoldable pub clear_all : List Row → List Row
clear_all rows = []

-- `INSERT OR IGNORE`: a row whose job name and key are there already is left out.
insert_or_ignore : List Row → Row → List Row
insert_or_ignore rows r = elim (get_record r.job_name r.key rows) [
  | none ↦ rows ++ r ∷ []
  | some _ ↦ rows
]

-- `INSERT OR IGNORE … SELECT … FROM`
copy_into : List Row → List Row → List Row
copy_into rows [] = rows
copy_into rows (r ∷ rest) = copy_into (insert_or_ignore rows r) rest

unfoldable pub migrate_if_legacy_schema : Option Table → Option Table
unfolding insert_or_ignore copy_into
migrate_if_legacy_schema none = none
migrate_if_legacy_schema (some t) = elim t.primary_key [
  | by_job_and_key ↦ some t
  | by_key ↦ some (record { primary_key = by_job_and_key; rows = copy_into [] t.rows })
]

create_if_missing : Option Table → Table
create_if_missing none = record { primary_key = by_job_and_key; rows = [] }
create_if_missing (some t) = t

-- The database as the constructor leaves it.
unfoldable pub init : Option Table → Table
unfolding create_if_missing migrate_if_legacy_schema
init existing = create_if_missing (migrate_if_legacy_schema existing)
