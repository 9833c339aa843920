-- ===== src/App/Boards.antt =====
-- What the job routes do to the dashboard's board.
use task_queue_system.Prelude.{ℕ, Text, Option}
use task_queue_system.Config.{Config}
use task_queue_system.Json.{Json}
use task_queue_system.Failure.{Result, ok, throws}
use task_queue_system.Http.{Request, Headers}
use task_queue_system.Schema.Zod.{Zod}
use task_queue_system.Queue.{Queue, Job}
use task_queue_system.Dashboard.Cache.{Board}
use task_queue_system.Dashboard.System.Later.{Later}
use task_queue_system.Producer.{Intake}
use task_queue_system.Producer.Boards.{dispatch_email_job-Later, dispatch_webhook_job-Later}
use task_queue_system.App.{answer_dispatch, email_route, webhook_route}

module _ (c : Config) (q : Queue) where
  answer_dispatch-Later :
      (b : Board) (headers : Headers) (accepted : Job → Json) (o : Result Job × Intake c q)
      → Later b o.1.board
      → Later b (answer_dispatch c q headers accepted o).1.board
  unfolding answer_dispatch
  answer_dispatch-Later b headers accepted (throws e, s) h = h
  answer_dispatch-Later b headers accepted (ok job, s) h = h

  pub email_route-Later :
      (z : Zod) (now : ℕ) (id : Option Text) (req : Request) (headers : Headers) (s : Intake c q)
      → Later s.board (email_route c q z now id req headers s).1.board
  unfolding email_route
  email_route-Later z now id req headers s =
      answer_dispatch-Later s.board headers _ _ (dispatch_email_job-Later c q z now id req.body s)

  pub webhook_route-Later :
      (z : Zod) (now : ℕ) (id : Option Text) (req : Request) (headers : Headers) (s : Intake c q)
      → Later s.board (webhook_route c q z now id req headers s).1.board
  unfolding webhook_route
  webhook_route-Later z now id req headers s =
      answer_dispatch-Later s.board headers _ _ (dispatch_webhook_job-Later c q z now id req.body s)
