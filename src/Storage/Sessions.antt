-- ===== src/Storage/Sessions.antt =====
-- The constructor with its file, and processes that open the database one after another: each makes
-- its calls and ends. better-sqlite3 refuses a file whose directory is not there; other faults of the
-- file system and of SQLite are arguments.
mod Tests
use task_queue_system.Prelude.{
  ◌≡◌, refl, [], ◌∷◌, ◌++◌, txt, List, Option, none, some, Bool, true, false, if◌then◌else◌,
  Bool-cases, inl, inr, ap, subst, sym, ◌∙◌, ap, ◌∙◌, sym,
}
use task_queue_system.Failure.{Failure, Result, ok, throws, plain}
use task_queue_system.Storage.{Row, Table, by_key, by_job_and_key, init}
use task_queue_system.Storage.Migration.{init_idem}
use task_queue_system.Storage.Ledger.{Call, apply, apply_all}

-- Whether the directory of SQLITE_DB_PATH is there, and the table in the file, if it has one.
pub record Disk : Type 0 where
  pub has_directory : Bool
  pub table : Option Table

-- What `fs.mkdirSync` and `new Database` throw, if they do.
pub record Opening : Type 0 where
  pub mkdir_fault : Option Failure
  pub open_fault : Option Failure

-- `new Database(dbPath)` and `init`.
open_database : Option Failure → Disk → Result Table × Disk
open_database (some e) d = (throws e, d)
open_database none d = elim d.has_directory [
  | false ↦ (throws (plain (txt "Cannot open database because the directory does not exist")), d)
  | true ↦ (ok (init d.table), record d { table = some (init d.table) })
]

make_directory : Option Failure → Disk → Result Disk
make_directory (some e) d = throws e
make_directory none d = ok (record d { has_directory = true })

open_in : Option Failure → Disk → Result Disk → Result Table × Disk
unfolding open_database
open_in fault d (throws e) = (throws e, d)
open_in fault d (ok d') = open_database fault d'

-- `constructor`
unfoldable pub construct : Opening → Disk → Result Table × Disk
unfolding open_in make_directory
construct o d =
    open_in o.open_fault d (if d.has_directory then ok d else make_directory o.mkdir_fault d)

-- The calls that a process makes, if it gets to open the database, and what is in the file then.
after_open : List Call → Result Table × Disk → List Call × Disk
after_open calls (throws e, d) = ([], d)
after_open calls (ok t, d) =
    (calls, record d { table = some (record t { rows = apply_all calls t.rows }) })

pub session : Opening × List Call → Disk → List Call × Disk
unfolding after_open
session (o, calls) d = after_open calls (construct o d)

-- The processes in their order, with the calls that were made.
pub sessions : List (Opening × List Call) → Disk → List Call × Disk
unfolding session
sessions [] d = ([], d)
sessions (x ∷ xs) d =
    let (made, d') = session x d in let (more, d'') = sessions xs d' in (made ++ more, d'')

abbrev rows_of : Disk → List Row
rows_of d = (init d.table).rows

init-rows :
    (existing : Option Table) (rows : List Row)
    → (init (some (record (init existing) { rows = rows }))).rows ≡ rows
unfolding init
init-rows none rows = refl
init-rows (some t) rows =
    elim t.primary_key
      as (λ k.
        (init (some (record (init (some (record t { primary_key = k }))) { rows = rows }))).rows
        ≡ rows) [ by_key ↦ refl | by_job_and_key ↦ refl ]

apply_all-append :
    (xs ys : List Call) (rows : List Row)
    → apply_all (xs ++ ys) rows ≡ apply_all ys (apply_all xs rows)
unfolding apply_all
apply_all-append [] ys rows = refl
apply_all-append (x ∷ xs) ys rows = apply_all-append xs ys (apply x rows)

-- What an opening comes to: nothing but a directory changes, or the file has the table that is open.
abbrev IsOpening : Disk → Result Table × Disk → Type 0
IsOpening d (throws e, d') = d'.table ≡ d.table
IsOpening d (ok t, d') = t ≡ init d.table

open_database-IsOpening :
    (fault : Option Failure) (before d : Disk)
    → d.table ≡ before.table
    → IsOpening before (open_database fault d)
unfolding open_database
open_database-IsOpening (some e) before d same = same
open_database-IsOpening none before d same =
    elim d.has_directory
      as (λ b. IsOpening before (open_database none (record d { has_directory = b }))) [
        | false ↦ same
        | true ↦ ap init same
      ]

made-IsOpening :
    (fault mkdir_fault : Option Failure) (d : Disk)
    → IsOpening d (open_in fault d (make_directory mkdir_fault d))
unfolding open_in make_directory
made-IsOpening fault (some e) d = refl
made-IsOpening fault none d =
    open_database-IsOpening fault d (record d { has_directory = true }) refl

construct-IsOpening : (o : Opening) (d : Disk) → IsOpening d (construct o d)
unfolding construct open_in
construct-IsOpening o d = elim (Bool-cases d.has_directory) [
  | inl there ↦ simp there (open_database-IsOpening o.open_fault d d refl)
  | inr missing ↦ simp missing (made-IsOpening o.open_fault o.mkdir_fault d)
]

after_open-rows :
    (calls : List Call) (d : Disk) (o : Result Table × Disk)
    → IsOpening d o
    → rows_of (after_open calls o).1 ≡ apply_all (after_open calls o).0 (rows_of d)
unfolding after_open apply_all
after_open-rows calls d (throws e, d') same = ap (λ t. (init t).rows) same
after_open-rows calls d (ok t, d') same =
    subst
      (λ u.
        (init (some (record u { rows = apply_all calls u.rows }))).rows
        ≡ apply_all calls (init d.table).rows)
      (sym same) (init-rows d.table (apply_all calls (init d.table).rows))

-- However often the process is started again, and whichever of the starts fail: what a process finds
-- in the database is what the calls of all the processes before it, made one after another, leave of
-- the rows that the first one found, those of a legacy table among them.
pub sessions-rows :
    (xs : List (Opening × List Call)) (d : Disk)
    → (init (sessions xs d).1.table).rows ≡ apply_all (sessions xs d).0 (init d.table).rows
unfolding sessions session apply_all
sessions-rows [] d = refl
sessions-rows ((o, calls) ∷ xs) d =
    let first = after_open-rows calls d (construct o d) (construct-IsOpening o d) in
    let (made, d') = session (o, calls) d in
    sessions-rows xs d'
    ∙ ap (apply_all (sessions xs d').0) first
    ∙ sym (apply_all-append made (sessions xs d').0 (init d.table).rows)
