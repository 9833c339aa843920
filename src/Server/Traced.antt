-- ===== src/Server/Traced.antt =====
-- Every response of the service carries the correlation ID that its handlers ran under.
use task_queue_system.Prelude.{
  ℕ, ◌≡◌, refl, inl, inr, Text, txt, Option, none, some, Bool-cases, ◌&&◌, ◌∙◌, ap, get_or,
}
use task_queue_system.Prelude.Dict.{lookup, lookup-insert_self}
use task_queue_system.Config.{Config}
use task_queue_system.Http.{Request, Headers, Response, Outcome, proceed, respond}
use task_queue_system.Failure.{Failure}
use task_queue_system.Context.{correlation_header, correlation_middleware, normalise_correlation_id}
use task_queue_system.Context.Trace.{trace_of, outcome_headers}
use task_queue_system.Cors.{cors_middleware}
use task_queue_system.Cors.Trace.{cors_middleware-kept}
use task_queue_system.Schema.Zod.{Zod}
use task_queue_system.Queue.{Queue}
use task_queue_system.RateLimit.{
  Limiter, limited, global_job_limiter, per_ip_job_limiter, global_key,
}
use task_queue_system.RateLimit.Trace.{IsStandard, limited-kept}
use task_queue_system.Producer.{Intake}
use task_queue_system.App.{email_route, webhook_route, not_found}
use task_queue_system.App.Trace.{
  error_handler-headers, email_route-headers, webhook_route-headers, webhook_sink-headers,
}
use task_queue_system.Health.{health, metrics, metrics_guard, service_index}
use task_queue_system.Health.Trace.{after_counts-kept, metrics_guard-kept}
use task_queue_system.Dashboard.Cache.{Handled, passed, served, rebuilds}
use task_queue_system.Dashboard.Cache.Trace.{handled_headers}
use task_queue_system.Dashboard.Guard.{dashboard_route}
use task_queue_system.Dashboard.Guard.Trace.{dashboard_route-kept}
use task_queue_system.Server.{
  Routing, Surroundings, Reply, answered, forwarded, State, is_get, is_post, after_client,
  after_global, job_intake, handled_reply, dashboard, after_metrics_guard, later_routes, mounted,
  routes, after_body, after_cors, after_context, serve,
}

abbrev pub reply_headers : Reply → Headers
reply_headers (answered r) = r.headers
reply_headers (forwarded req headers p) = headers

module _ (c : Config) (q : Queue) (l : Limiter) (z : Zod) (routing : Routing)
    (law : IsStandard l) where
  abbrev Route : Type 0
  Route = Request → Headers → Intake c q → Response × Intake c q

  abbrev IsPlain : Route → Type 0
  IsPlain route =
      (req : Request) (headers : Headers) (s : Intake c q)
      → (route req headers s).0.headers ≡ headers

  after_client-kept :
      (route : Route) (s : State c q l z routing) (o : Outcome)
      → IsPlain route
      → trace_of (reply_headers (after_client c q l z routing route s o).0)
        ≡ trace_of (outcome_headers o)
  unfolding after_client
  after_client-kept route s (respond r) plain = refl
  after_client-kept route s (proceed req headers) plain = ap trace_of (plain req headers s.intake)

  after_global-kept :
      (now : ℕ) (route : Route) (s : State c q l z routing) (o : Outcome)
      → IsPlain route
      → trace_of (reply_headers (after_global c q l z routing now route s o).0)
        ≡ trace_of (outcome_headers o)
  unfolding after_global
  after_global-kept now route s (respond r) plain = refl
  after_global-kept now route s (proceed req headers) plain =
      let (o, clients) =
        limited l (per_ip_job_limiter c) (l.ip_key req.ip) now req headers s.of_clients in
      after_client-kept route (record s { of_clients = clients }) o plain
      ∙ limited-kept l (per_ip_job_limiter c) (l.ip_key req.ip) now req headers s.of_clients law

  job_intake-kept :
      (now : ℕ) (route : Route) (req : Request) (headers : Headers) (s : State c q l z routing)
      → IsPlain route
      → trace_of (reply_headers (job_intake c q l z routing now route req headers s).0)
        ≡ trace_of headers
  unfolding job_intake
  job_intake-kept now route req headers s plain =
      let (o, all) = limited l (global_job_limiter c) global_key now req headers s.of_all in
      after_global-kept now route (record s { of_all = all }) o plain
      ∙ limited-kept l (global_job_limiter c) global_key now req headers s.of_all law

  handled_reply-headers :
      (h : Handled) → reply_headers (handled_reply c q l z routing h) ≡ handled_headers h
  unfolding handled_reply
  handled_reply-headers (passed req headers) = refl
  handled_reply-headers (served r) = refl
  handled_reply-headers (rebuilds req headers p) = refl

  dashboard-kept :
      (now : ℕ) (req : Request) (headers : Headers) (s : State c q l z routing)
      → trace_of (reply_headers (dashboard c q l z routing now req headers s).0) ≡ trace_of headers
  unfolding dashboard
  dashboard-kept now req headers s =
      ap trace_of (
        handled_reply-headers (dashboard_route c l now req headers s.of_dashboard s.intake.board).0)
      ∙ dashboard_route-kept c l now law req headers s.of_dashboard s.intake.board

  after_metrics_guard-kept :
      (e : Surroundings) (s : State c q l z routing) (o : Outcome)
      → trace_of (reply_headers (after_metrics_guard c q l z routing e s o).0)
        ≡ trace_of (outcome_headers o)
  unfolding after_metrics_guard metrics
  after_metrics_guard-kept e s (respond r) = refl
  after_metrics_guard-kept e s (proceed req headers) =
      after_counts-kept _ e.content_type e.registry headers s.intake.board

  module _ (e : Surroundings) (id : Option Text) (req : Request) (headers : Headers)
      (s : State c q l z routing) where
    abbrev Kept : Reply × State c q l z routing → Type 0
    Kept o = trace_of (reply_headers o.0) ≡ trace_of headers

    later_routes-Kept : Kept (later_routes c q l z routing e id req headers s)
    unfolding later_routes
    later_routes-Kept =
        let get = is_get c q l z routing req in
        let post = is_post c q l z routing req in
        elim (Bool-cases (get && routing.fits (txt "/health") req.path)) [
          | inl a ↦ rw a (unfold health in refl)
          | inr a ↦ elim (Bool-cases (get && routing.fits (txt "/metrics") req.path)) [
            | inl b ↦
                rw (a, b)
                  (after_metrics_guard-kept e s (metrics_guard e.decode e.sha256 c req headers)
                    ∙ metrics_guard-kept e.decode e.sha256 c req headers)
            | inr b ↦ elim (Bool-cases (post && routing.fits (txt "/api/jobs/email") req.path)) [
              | inl d ↦
                  rw (a, b, d)
                    (job_intake-kept e.now (email_route c q z e.now id) req headers s
                      (email_route-headers c q z e.now id))
              | inr d ↦
                  elim (Bool-cases (post && routing.fits (txt "/api/jobs/webhook") req.path)) [
                    | inl f ↦
                        rw (a, b, d, f)
                          (job_intake-kept e.now (webhook_route c q z e.now id) req headers s
                            (webhook_route-headers c q z e.now id))
                    | inr f ↦
                        elim (Bool-cases
                          (post && routing.fits (txt "/internal/webhook-sink") req.path)) [
                            | inl g ↦
                                rw (a, b, d, f, g)
                                  (ap trace_of (webhook_sink-headers e.at req headers))
                            | inr g ↦ rw (a, b, d, f, g) (unfold not_found in refl)
                          ]
                  ]
            ]
          ]
        ]

    mounted-Kept : (below : Option Text) → Kept (mounted c q l z routing e id req headers s below)
    unfolding mounted
    mounted-Kept (some path) = dashboard-kept e.now (record req { path = path }) headers s
    mounted-Kept none = later_routes-Kept

    routes-Kept : Kept (routes c q l z routing e id req headers s)
    unfolding routes
    routes-Kept =
        elim (Bool-cases (is_get c q l z routing req && routing.fits (txt "/") req.path)) [
          | inl index ↦ rw index (unfold service_index in refl)
          | inr other ↦ rw other (mounted-Kept (routing.below (txt "/admin/queues") req.path))
        ]

    after_body-Kept :
        (fault : Option Failure) → Kept (after_body c q l z routing e id fault req headers s)
    unfolding after_body
    after_body-Kept none = routes-Kept
    after_body-Kept (some fault) = ap trace_of (error_handler-headers fault headers)

  after_cors-kept :
      (e : Surroundings) (id : Option Text) (s : State c q l z routing) (o : Outcome)
      → trace_of (reply_headers (after_cors c q l z routing e id s o).0)
        ≡ trace_of (outcome_headers o)
  unfolding after_cors
  after_cors-kept e id s (respond r) = refl
  after_cors-kept e id s (proceed req headers) = after_body-Kept e id req headers s e.body_fault

-- The ID of a request: the caller's own in its normal form, or else a new one.
abbrev pub id_of : Surroundings → Request → Text
id_of e req = get_or (normalise_correlation_id (lookup correlation_header req.headers)) e.uuid

-- If the rate limiters' standard headers do not include X-Correlation-Id: every response of the
-- service, whatever the request and whichever handler answers it, errors and refusals included, has
-- in X-Correlation-Id the caller's ID in its normal form, or a new ID if the caller gave none that
-- is left; and so has a request that goes on to the dashboard's router.
pub responses_are_traced :
    (c : Config) (q : Queue) (l : Limiter) (z : Zod) (routing : Routing) (e : Surroundings)
    (req : Request) (s : State c q l z routing)
    → IsStandard l
    → lookup correlation_header (reply_headers (serve c q l z routing e req s).0)
      ≡ some (id_of e req)
unfolding serve after_context correlation_middleware
responses_are_traced c q l z routing e req s law =
    after_cors-kept c q l z routing law e _ s (cors_middleware c req _)
    ∙ (cors_middleware-kept c req _ ∙ lookup-insert_self correlation_header (id_of e req) e.helmet)
