-- ===== src/App/Trace.antt =====
-- The routes set no header: a response has those that were set before.
use task_queue_system.Prelude.{
  ℕ, ◌≡◌, refl, inl, inr, Text, txt, Option, Bool-cases, ◌&&◌, ◌||◌, ◌==◌, text_eq, get_or, [],
}
use task_queue_system.Config.{Config}
use task_queue_system.Json.{Json}
use task_queue_system.Http.{Request, Headers}
use task_queue_system.Failure.{
  Failure, Result, ok, throws, zod_error, queue_depth_exceeded, queue_unavailable, plain,
  library_error, http_error,
}
use task_queue_system.Schema.Zod.{Zod}
use task_queue_system.Queue.{Queue, Job}
use task_queue_system.Producer.{Intake, dispatch_email_job, dispatch_webhook_job}
use task_queue_system.App.{
  error_handler, http_error_response, answer_dispatch, email_route, webhook_route, webhook_sink,
}

http_error-headers :
    (status : ℕ) (type : Text) (headers : Headers)
    → (http_error_response status type headers).headers ≡ headers
unfolding http_error_response
http_error-headers status type headers =
    elim (Bool-cases (status == 400 && text_eq type (txt "entity.parse.failed"))) [
      | inl malformed ↦ rw malformed refl
      | inr other ↦ elim (Bool-cases (status == 413)) [
        | inl large ↦ rw (other, large) refl
        | inr internal ↦ rw (other, internal) refl
      ]
    ]

pub error_handler-headers :
    (e : Failure) (headers : Headers) → (error_handler e headers).headers ≡ headers
unfolding error_handler
error_handler-headers (zod_error issues message) headers = refl
error_handler-headers (queue_depth_exceeded depth limit) headers = refl
error_handler-headers (queue_unavailable cause) headers = refl
error_handler-headers (plain message) headers = refl
error_handler-headers (library_error name message) headers = refl
error_handler-headers (http_error status type message) headers =
    http_error-headers status type headers

module _ (c : Config) (q : Queue) where
  answer_dispatch-headers :
      (headers : Headers) (accepted : Job → Json) (o : Result Job × Intake c q)
      → (answer_dispatch c q headers accepted o).0.headers ≡ headers
  unfolding answer_dispatch
  answer_dispatch-headers headers accepted (throws e, s) = error_handler-headers e headers
  answer_dispatch-headers headers accepted (ok job, s) = refl

  pub email_route-headers :
      (z : Zod) (now : ℕ) (id : Option Text) (req : Request) (headers : Headers) (s : Intake c q)
      → (email_route c q z now id req headers s).0.headers ≡ headers
  unfolding email_route
  email_route-headers z now id req headers s =
      answer_dispatch-headers headers _ (dispatch_email_job c q z now id req.body s)

  pub webhook_route-headers :
      (z : Zod) (now : ℕ) (id : Option Text) (req : Request) (headers : Headers) (s : Intake c q)
      → (webhook_route c q z now id req headers s).0.headers ≡ headers
  unfolding webhook_route
  webhook_route-headers z now id req headers s =
      answer_dispatch-headers headers _ (dispatch_webhook_job c q z now id req.body s)

pub webhook_sink-headers :
    (at : Text) (req : Request) (headers : Headers)
    → (webhook_sink at req headers).headers ≡ headers
unfolding webhook_sink
webhook_sink-headers at req headers =
    elim (Bool-cases (
      text_eq (get_or req.ip []) (txt "127.0.0.1")
      || text_eq (get_or req.ip []) (txt "::1")
      || text_eq (get_or req.ip []) (txt "::ffff:127.0.0.1"))) [
        | inl loopback ↦ rw loopback refl
        | inr outside ↦ rw outside refl
      ]
