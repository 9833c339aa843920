-- ===== src/App.antt =====
-- app.ts: the job routes, the webhook sink, the fallback and the error handler. The rate limiters
-- before the job routes and the body parser are libraries; a failure of theirs is an argument of the
-- error handler. `headers` are those that the handlers before have set.
pub mod Answers
pub mod Boards
pub mod Retold
pub mod Trace
mod Tests
use task_queue_system.Prelude.{
  ℕ, [], ◌∷◌, ◌++◌, Text, txt, List, Option, none, some, Bool, ◌&&◌, ◌||◌, ◌==◌, if◌then◌else◌,
  text_eq, get_or,
}
use task_queue_system.Config.{Config}
use task_queue_system.Json.{
  Json, Items, text, boolean, array, object, payload_field, optional_field, optional_text,
}
use task_queue_system.Http.{Request, Headers, Response, error_body}
use task_queue_system.Failure.{
  Failure, Result, ok, throws, zod_error, queue_depth_exceeded, queue_unavailable, plain,
  library_error, http_error,
}
use task_queue_system.Schema.Zod.{Zod, Issue}
use task_queue_system.Queue.{Queue, Job}
use task_queue_system.Producer.{Intake, dispatch_email_job, dispatch_webhook_job}

abbrev with_status : ℕ → Headers → Json → Response
with_status status headers body = record { status = status; headers = headers; body = some body }

issue_details : List Issue → Items
issue_details [] = Items.nil
issue_details (i ∷ is) =
    Items.cons
      (object (
        (txt "path", text i.path)
        ∷ (txt "code", text i.code)
        ∷ (txt "message", text i.message)
        ∷ []))
      (issue_details is)

-- What is left of an error with a status from the libraries before the routes.
http_error_response : ℕ → Text → Headers → Response
http_error_response status type headers =
    if status == 400 && text_eq type (txt "entity.parse.failed")
    then with_status 400 headers (error_body (txt "Malformed JSON body."))
    else if status == 413
    then with_status 413 headers (error_body (txt "Request body too large."))
    else with_status 500 headers (error_body (txt "Internal server error."))

-- The centralized error handler.
unfoldable pub error_handler : Failure → Headers → Response
unfolding issue_details http_error_response
error_handler (zod_error issues message) headers = with_status 400 headers (
    object (
      (txt "error", text (txt "Invalid payload schema"))
      ∷ (txt "details", array (issue_details issues))
      ∷ []))
error_handler (queue_depth_exceeded depth limit) headers =
    with_status 429 headers (error_body (txt "Queue is at capacity. Please retry shortly."))
error_handler (queue_unavailable cause) headers =
    with_status 503 headers (error_body (txt "Queue backend is temporarily unavailable."))
error_handler (http_error status type message) headers = http_error_response status type headers
error_handler (plain message) headers =
    with_status 500 headers (error_body (txt "Internal server error."))
error_handler (library_error name message) headers =
    with_status 500 headers (error_body (txt "Internal server error."))

email_accepted : Option Text → Job → Json
email_accepted correlation_id job = object (
    (txt "message", text (txt "Email job dispatched successfully"))
    ∷ (optional_field (txt "jobId") (optional_text job.id)
        ++ (optional_field (txt "idempotencyKey") (payload_field (txt "idempotencyKey") job.payload)
            ++ (optional_field (txt "correlationId") (optional_text correlation_id)
                ++ (txt "status", text (txt "QUEUED")) ∷ []))))

webhook_accepted : Option Text → Job → Json
webhook_accepted correlation_id job = object (
    (txt "message", text (txt "Webhook delivery job dispatched successfully"))
    ∷ (optional_field (txt "jobId") (optional_text job.id)
        ++ (optional_field (txt "idempotencyKey") (payload_field (txt "idempotencyKey") job.payload)
            ++ (optional_field (txt "destination") (payload_field (txt "destination") job.payload)
                ++ (optional_field (txt "correlationId") (optional_text correlation_id)
                    ++ (txt "status", text (txt "QUEUED")) ∷ [])))))

module _ (c : Config) (q : Queue) where
  answer_dispatch : Headers → (Job → Json) → Result Job × Intake c q → Response × Intake c q
  answer_dispatch headers accepted (throws e, s) = (error_handler e headers, s)
  answer_dispatch headers accepted (ok job, s) = (with_status 202 headers (accepted job), s)

  module _ (z : Zod) (now : ℕ) (correlation_id : Option Text) where
    -- POST /api/jobs/email, behind the limiters.
    unfoldable pub email_route : Request → Headers → Intake c q → Response × Intake c q
    unfolding answer_dispatch email_accepted
    email_route req headers s =
        answer_dispatch headers (email_accepted correlation_id)
          (dispatch_email_job c q z now correlation_id req.body s)

    -- POST /api/jobs/webhook, behind the limiters.
    unfoldable pub webhook_route : Request → Headers → Intake c q → Response × Intake c q
    unfolding answer_dispatch webhook_accepted
    webhook_route req headers s =
        answer_dispatch headers (webhook_accepted correlation_id)
          (dispatch_webhook_job c q z now correlation_id req.body s)

-- POST /internal/webhook-sink; `at` is the time.
unfoldable pub webhook_sink : Text → Request → Headers → Response
webhook_sink at req headers =
    let caller = get_or req.ip [] in
    if text_eq caller (txt "127.0.0.1")
      || text_eq caller (txt "::1")
      || text_eq caller (txt "::ffff:127.0.0.1")
    then with_status 200 headers
        (object ((txt "received", boolean Bool.true) ∷ (txt "at", text at) ∷ []))
    else with_status 403 headers (error_body (txt "This endpoint is reachable from loopback only."))

-- The handler after every route.
unfoldable pub not_found : Request → Headers → Response
not_found req headers =
    with_status 404 headers (error_body (txt "Cannot " ++ (req.method ++ (txt " " ++ req.path))))
