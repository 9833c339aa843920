-- ===== src/App/Answers.antt =====
-- What a client of the job routes is told, and what is true then.
use task_queue_system.Prelude.{ℕ, ◌≡◌, ◌<◌, ◌≤◌, refl, Text, txt, Option, List}
use task_queue_system.Prelude.Dict.{Dict}
use task_queue_system.Config.{Config}
use task_queue_system.Json.{Json}
use task_queue_system.Http.{Request, Headers}
use task_queue_system.Failure.{
  Failure, Result, ok, throws, zod_error, queue_depth_exceeded, queue_unavailable, plain,
  library_error, http_error,
}
use task_queue_system.Schema.{
  email_notification, webhook_delivery, email_job_data_schema, webhook_job_data_schema,
}
use task_queue_system.Schema.Zod.{Zod, Parsed, valid, invalid, Issue}
use task_queue_system.Queue.{Queue, ReturnsJob, Job}
use task_queue_system.Dashboard.Cache.{invalidate_dashboard_snapshot}
use task_queue_system.Producer.{Intake, get_pending_queue_depth}
use task_queue_system.Producer.Outcomes.{
  Ends, IsUnreachable, added_of, email_submission, webhook_submission,
}
use task_queue_system.App.{error_handler, email_route, webhook_route, answer_dispatch}

-- The four answers of a job route, with what each of them tells of the input and the queue.
pub data IsAnswer (c : Config) (q : Queue) (now : ℕ) (parsed : Parsed)
    (added : Dict Json → Result Job) (s s' : Intake c q) (status : ℕ) : Type 0 where
  accepted :
      (d : Dict Json) (depth : ℕ)
      → status ≡ 202
      → parsed ≡ valid d
      → (get_pending_queue_depth c q now s).0 ≡ ok depth
      → depth < c.max_queue_depth
      → s'.board ≡ invalidate_dashboard_snapshot s.board
      → IsAnswer c q now parsed added s s' status
  refused :
      (issues : List Issue) (message : Text)
      → status ≡ 400
      → parsed ≡ invalid issues message
      → s'.board ≡ s.board
      → IsAnswer c q now parsed added s s' status
  full :
      (d : ℕ)
      → status ≡ 429
      → (get_pending_queue_depth c q now s).0 ≡ ok d
      → c.max_queue_depth ≤ d
      → s'.board ≡ s.board
      → IsAnswer c q now parsed added s s' status
  unreachable :
      (d : Dict Json) (e : Failure)
      → status ≡ 503
      → parsed ≡ valid d
      → IsUnreachable c (get_pending_queue_depth c q now s).0 (added d) e
      → s'.board ≡ s.board
      → IsAnswer c q now parsed added s s' status

module _ (c : Config) (q : Queue) (z : Zod) (now : ℕ) (correlation_id : Option Text)
    (job_name id_prefix : Text) where
  answer_dispatch-IsAnswer :
      (headers : Headers) (body : Job → Json) (parsed : Parsed) (s : Intake c q)
      (o : Result Job × Intake c q)
      → Ends c q z now correlation_id job_name id_prefix parsed s o
      → IsAnswer c q now parsed
          (added_of c q now correlation_id job_name id_prefix s)
          s
          (answer_dispatch c q headers body o).1
          (answer_dispatch c q headers body o).0.status
  unfolding answer_dispatch error_handler
  answer_dispatch-IsAnswer headers body parsed s (ok job, s')
        (d, p, stored, (depth, read, room), b) =
      accepted d depth refl p read room b
  answer_dispatch-IsAnswer headers body parsed s (throws (zod_error issues message), s') (p, b) =
      refused issues message refl p b
  answer_dispatch-IsAnswer headers body parsed s (throws (queue_depth_exceeded depth limit), s')
        ((read, same, over), b) =
      full depth refl read (rw same at over) b
  answer_dispatch-IsAnswer headers body parsed s (throws (queue_unavailable cause), s')
        ((d, e, p, of_call, threw), b) =
      unreachable d e refl p threw b
  answer_dispatch-IsAnswer headers body parsed s (throws (plain message), s') (impossible, b) =
      absurd impossible
  answer_dispatch-IsAnswer headers body parsed s (throws (library_error name message), s')
        (impossible, b) =
      absurd impossible
  answer_dispatch-IsAnswer headers body parsed s (throws (http_error code type message), s')
        (impossible, b) =
      absurd impossible

-- POST /api/jobs/email, for a queue whose `add` returns the job that it was given: a client is
-- answered with 202 for a valid body below the ceiling, and then every snapshot of the dashboard is
-- stale; with 400 for a body that the schema refuses; with 429 if the depth that was read is at or
-- over the ceiling; or with 503 for a valid body if the read of the depth threw or, with room, the
-- queue's `add` threw; and without a 202 the board is as it was.
pub email_route-IsAnswer :
    (c : Config) (q : Queue) (z : Zod) (now : ℕ) (correlation_id : Option Text) (req : Request)
    (headers : Headers) (s : Intake c q)
    → ReturnsJob q
    → IsAnswer c q now
        (z.parse email_job_data_schema req.body)
        (added_of c q now correlation_id email_notification (txt "email_") s)
        s
        (email_route c q z now correlation_id req headers s).1
        (email_route c q z now correlation_id req headers s).0.status
unfolding email_route
email_route-IsAnswer c q z now correlation_id req headers s returns =
    answer_dispatch-IsAnswer c q z now correlation_id email_notification (txt "email_") headers _ _
      s _ (email_submission c q z now correlation_id req.body s returns)

-- POST /api/jobs/webhook answers with one of 202, 400, 429 and 503, under the same conditions for
-- the webhook job's schema, for a queue whose `add` returns the job that it was given.
pub webhook_route-IsAnswer :
    (c : Config) (q : Queue) (z : Zod) (now : ℕ) (correlation_id : Option Text) (req : Request)
    (headers : Headers) (s : Intake c q)
    → ReturnsJob q
    → IsAnswer c q now
        (z.parse webhook_job_data_schema req.body)
        (added_of c q now correlation_id webhook_delivery (txt "webhook_") s)
        s
        (webhook_route c q z now correlation_id req headers s).1
        (webhook_route c q z now correlation_id req headers s).0.status
unfolding webhook_route
webhook_route-IsAnswer c q z now correlation_id req headers s returns =
    answer_dispatch-IsAnswer c q z now correlation_id webhook_delivery (txt "webhook_") headers _ _
      s _ (webhook_submission c q z now correlation_id req.body s returns)
