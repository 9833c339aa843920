-- ===== src/Producer/Boards.antt =====
-- What a submission does to the dashboard's board.
use task_queue_system.Prelude.{ℕ, Text, Option, subst, txt, arith}
use task_queue_system.Config.{Config}
use task_queue_system.Json.{Json}
use task_queue_system.Failure.{Result, ok, throws}
use task_queue_system.Schema.Zod.{Zod, Parsed, valid, invalid}
use task_queue_system.Queue.{Queue, Job}
use task_queue_system.Dashboard.Cache.{Board, invalidate_dashboard_snapshot}
use task_queue_system.Dashboard.System.Later.{
  IsRenewed, Later, Later-refl, invalidate_dashboard_snapshot-Later,
}
use task_queue_system.Producer.{
  Intake, finish_add, add_job, enqueue, dispatch, assert_queue_has_capacity, dispatch_email_job,
  dispatch_webhook_job,
}
use task_queue_system.Producer.Submission.{JobKind, email_kind, webhook_kind, submit}
use task_queue_system.Producer.Outcomes.{board_of_check}

module _ (c : Config) (q : Queue) where
  finish_add-Later :
      (s : Intake c q) (r : Result Job × q.State) → Later s.board (finish_add c q s r).1.board
  unfolding finish_add
  finish_add-Later s (throws e, queue) = Later-refl s.board
  finish_add-Later s (ok job, queue) = invalidate_dashboard_snapshot-Later s.board

  add_job-Later :
      (job_name job_id : Text) (payload : Json) (o : Result (Unit {0}) × Intake c q)
      → Later o.1.board (add_job c q job_name job_id payload o).1.board
  unfolding add_job
  add_job-Later job_name job_id payload (throws e, s) = Later-refl s.board
  add_job-Later job_name job_id payload (ok _, s) = finish_add-Later s _

  dispatch-Later :
      (z : Zod) (now : ℕ) (id : Option Text) (job_name id_prefix : Text) (parsed : Parsed)
      (s : Intake c q)
      → Later s.board (dispatch c q z now id job_name id_prefix parsed s).1.board
  unfolding dispatch enqueue
  dispatch-Later z now id job_name id_prefix (invalid issues message) s = Later-refl s.board
  dispatch-Later z now id job_name id_prefix (valid d) s =
      subst (λ b. Later b (dispatch c q z now id job_name id_prefix (valid d) s).1.board)
        (board_of_check c q now s)
        (add_job-Later job_name _ _ (assert_queue_has_capacity c q now s))

  pub dispatch_email_job-Later :
      (z : Zod) (now : ℕ) (id : Option Text) (input : Json) (s : Intake c q)
      → Later s.board (dispatch_email_job c q z now id input s).1.board
  unfolding dispatch_email_job
  dispatch_email_job-Later z now id input s = dispatch-Later z now id _ (txt "email_") _ s

  pub dispatch_webhook_job-Later :
      (z : Zod) (now : ℕ) (id : Option Text) (input : Json) (s : Intake c q)
      → Later s.board (dispatch_webhook_job c q z now id input s).1.board
  unfolding dispatch_webhook_job
  dispatch_webhook_job-Later z now id input s = dispatch-Later z now id _ (txt "webhook_") _ s

  -- A submission that returns a job makes the board later.
  abbrev pub Renews : Board → Result Job × Intake c q → Type 0
  Renews b (throws e, s) = Unit {0}
  Renews b (ok job, s) = IsRenewed b s.board

  finish_add-Renews :
      (s : Intake c q) (r : Result Job × q.State) → Renews s.board (finish_add c q s r)
  unfolding finish_add
  finish_add-Renews s (throws e, queue) = tt
  finish_add-Renews s (ok job, queue) = (
    invalidate_dashboard_snapshot-Later s.board,
    unfold invalidate_dashboard_snapshot in omega arith,
  )

  add_job-Renews :
      (job_name job_id : Text) (payload : Json) (o : Result (Unit {0}) × Intake c q)
      → Renews o.1.board (add_job c q job_name job_id payload o)
  unfolding add_job
  add_job-Renews job_name job_id payload (throws e, s) = tt
  add_job-Renews job_name job_id payload (ok _, s) = finish_add-Renews s _

  dispatch-Renews :
      (z : Zod) (now : ℕ) (id : Option Text) (job_name id_prefix : Text) (parsed : Parsed)
      (s : Intake c q)
      → Renews s.board (dispatch c q z now id job_name id_prefix parsed s)
  unfolding dispatch enqueue
  dispatch-Renews z now id job_name id_prefix (invalid issues message) s = tt
  dispatch-Renews z now id job_name id_prefix (valid d) s =
      subst (λ b. Renews b (dispatch c q z now id job_name id_prefix (valid d) s))
        (board_of_check c q now s)
        (add_job-Renews job_name _ _ (assert_queue_has_capacity c q now s))

  pub submit-Renews :
      (z : Zod) (kind : JobKind) (now : ℕ) (id : Option Text) (input : Json) (s : Intake c q)
      → Renews s.board (submit c q z kind now id input s)
  unfolding submit dispatch_email_job dispatch_webhook_job
  submit-Renews z email_kind now id input s = dispatch-Renews z now id _ (txt "email_") _ s
  submit-Renews z webhook_kind now id input s = dispatch-Renews z now id _ (txt "webhook_") _ s
