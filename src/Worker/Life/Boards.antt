-- ===== src/Worker/Life/Boards.antt =====
-- What an attempt does to the dashboard's board.
use task_queue_system.Prelude.{
  ℕ, refl, inl, inr, Text, txt, Option, none, some, leb, Bool-cases, arith,
}
use task_queue_system.Config.{Config}
use task_queue_system.Failure.{Failure, Result, ok, throws}
use task_queue_system.Schema.{JobExecutionResult}
use task_queue_system.Schema.Zod.{Zod}
use task_queue_system.Queue.{Queue, Job}
use task_queue_system.Processors.{JsonText, Store}
use task_queue_system.Dashboard.Cache.{Board, invalidate_dashboard_snapshot}
use task_queue_system.Dashboard.System.Later.{IsRenewed}
use task_queue_system.Worker.{
  Floor, Moment, on_completed, on_failed, add_report, note_failure, record_terminal, send_to_dlq,
  after_dlq_add, max_attempts, failed_key, or_else,
}
use task_queue_system.Worker.Life.{Attempt, Plant, with_store, handled, attempt}

module _ (q : Queue) where
  after_dlq_add-IsRenewed :
      (b : Board) (f : Floor q) (r : Result Job × q.State)
      → IsRenewed b f.board
      → IsRenewed b (after_dlq_add q f r).board
  unfolding after_dlq_add invalidate_dashboard_snapshot
  after_dlq_add-IsRenewed b f (throws e, dlq) h = h
  after_dlq_add-IsRenewed b f (ok entry, dlq) (later, more) = (
    record {
      snapshots = later.snapshots;
      names = later.names;
      generation = omega (arith, later.generation);
    },
    omega (arith, more),
  )

  module _ (jt : JsonText) where
    record_terminal-IsRenewed :
        (b : Board) (job : Job) (e : Failure) (m : Moment) (key : Option Text)
        (fault : Option Failure) (f : Floor q)
        → IsRenewed b f.board
        → IsRenewed b (record_terminal q jt job e m key fault f).board
    unfolding record_terminal
    record_terminal-IsRenewed b job e m none fault f h = h
    record_terminal-IsRenewed b job e m (some key) (some err) f h = h
    record_terminal-IsRenewed b job e m (some key) none f h = h

    note_failure-IsRenewed :
        (job_name : Text) (e : Failure) (f : Floor q)
        → IsRenewed f.board (note_failure q jt job_name e f).board
    unfolding note_failure add_report invalidate_dashboard_snapshot
    note_failure-IsRenewed job_name e f =
        (record { snapshots = refl; names = refl; generation = omega arith }, omega arith)

    on_failed-IsRenewed :
        (job : Job) (e : Failure) (m : Moment) (f : Floor q)
        → IsRenewed f.board (on_failed q jt (some job) e m f).board
    unfolding on_failed send_to_dlq
    on_failed-IsRenewed job e m f =
        let noted = note_failure-IsRenewed _ e f in
        elim (Bool-cases (leb (max_attempts job) job.attempts_made)) [
          | inl full ↦ rw full (
              after_dlq_add-IsRenewed f.board
                (record_terminal q jt job e m (failed_key job.payload) m.record_fault
                  (note_failure q jt (or_else job.name (txt "unknown")) e f))
                _ (record_terminal-IsRenewed f.board job e m _ m.record_fault _ noted))
          | inr room ↦ rw room noted
        ]

    on_completed-IsRenewed :
        (job : Job) (res : JobExecutionResult) (b : Board) → IsRenewed b (on_completed job res b)
    unfolding on_completed add_report invalidate_dashboard_snapshot
    on_completed-IsRenewed job res b =
        (record { snapshots = refl; names = refl; generation = omega arith }, omega arith)

    handled-IsRenewed :
        (job : Job) (n : ℕ) (a : Attempt) (p : Plant q) (o : Result JobExecutionResult × Store)
        → IsRenewed p.floor.board (handled q jt job n a p o).1.floor.board
    unfolding handled
    handled-IsRenewed job n a p (ok res, s) = on_completed-IsRenewed _ res p.floor.board
    handled-IsRenewed job n a p (throws e, s) =
        on_failed-IsRenewed _ e a.moment (with_store q s p).floor

    pub attempt-IsRenewed :
        (z : Zod) (c : Config) (call : Text → Job → Result JobExecutionResult) (job : Job) (n : ℕ)
        (a : Attempt) (p : Plant q)
        → IsRenewed p.floor.board (attempt q jt z c call job n a p).1.floor.board
    unfolding attempt
    attempt-IsRenewed z c call job n a p = handled-IsRenewed job n a p _
