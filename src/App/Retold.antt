-- ===== src/App/Retold.antt =====
-- What the job routes answer if the queue's calls throw other errors.
use task_queue_system.Prelude.{ℕ, ◌≡◌, refl, Text, Option}
use task_queue_system.Config.{Config}
use task_queue_system.Json.{Json}
use task_queue_system.Failure.{
  Failure, Result, IsSameKind, same_issues, over_depth, unreachable, same_status, plain_plain,
  plain_library, library_plain, library_library, IsAlike, one_value, one_kind,
}
use task_queue_system.Http.{Request, Headers, Response}
use task_queue_system.Schema.Zod.{Zod}
use task_queue_system.Queue.{Queue, Job}
use task_queue_system.Producer.{Intake}
use task_queue_system.Producer.Retold.{
  retell, retold, dispatch_email_job-IsRetold, dispatch_webhook_job-IsRetold,
}
use task_queue_system.App.{error_handler, answer_dispatch, email_route, webhook_route}

pub error_handler_same :
    {e e' : Failure} (headers : Headers)
    → IsSameKind e e'
    → error_handler e headers ≡ error_handler e' headers
unfolding error_handler
error_handler_same headers (same_issues issues m m') = refl
error_handler_same headers (over_depth d l d' l') = refl
error_handler_same headers (unreachable c c') = refl
error_handler_same headers (same_status s t m m') = refl
error_handler_same headers (plain_plain m m') = refl
error_handler_same headers (plain_library m n' m') = refl
error_handler_same headers (library_plain n m m') = refl
error_handler_same headers (library_library n m n' m') = refl

module _ (c : Config) (q : Queue) (f : Failure → Failure) where
  -- The same response, and the same state of the other queue.
  abbrev pub carried : Response × Intake c q → Response × Intake c (retell f q)
  carried o = (o.0, retold c q f o.1)

  answer_dispatch-retold :
      (headers : Headers) (accepted : Job → Json) {r r' : Result Job} (s : Intake c q)
      {s' : Intake c (retell f q)}
      → IsAlike r r'
      → s' ≡ retold c q f s
      → answer_dispatch c (retell f q) headers accepted (r', s')
        ≡ carried (answer_dispatch c q headers accepted (r, s))
  unfolding answer_dispatch
  answer_dispatch-retold headers accepted s (one_value job) same = rw same refl
  answer_dispatch-retold headers accepted s (one_kind e e' h) same =
      rw (same, error_handler_same headers h) refl

  pub email_route-retold :
      (z : Zod) (now : ℕ) (id : Option Text) (req : Request) (headers : Headers) (s : Intake c q)
      → email_route c (retell f q) z now id req headers (retold c q f s)
        ≡ carried (email_route c q z now id req headers s)
  unfolding email_route
  email_route-retold z now id req headers s =
      let (alike, same) = dispatch_email_job-IsRetold c q f z now id req.body s in
      answer_dispatch-retold headers _ _ alike same

  pub webhook_route-retold :
      (z : Zod) (now : ℕ) (id : Option Text) (req : Request) (headers : Headers) (s : Intake c q)
      → webhook_route c (retell f q) z now id req headers (retold c q f s)
        ≡ carried (webhook_route c q z now id req headers s)
  unfolding webhook_route
  webhook_route-retold z now id req headers s =
      let (alike, same) = dispatch_webhook_job-IsRetold c q f z now id req.body s in
      answer_dispatch-retold headers _ _ alike same
