-- ===== src/Server/Admission.antt =====
-- Which requests reach the task queue.
use task_queue_system.Prelude.{
  ℕ, ◌≡◌, ◌⊎◌, refl, inl, inr, Text, txt, Option, none, some, true, Bool-cases, ◌&&◌, text_eq,
  arith, sym,
}
use task_queue_system.Config.{Config}
use task_queue_system.Http.{Request, Headers, Response, Outcome, proceed, respond}
use task_queue_system.Failure.{Failure}
use task_queue_system.Schema.Zod.{Zod}
use task_queue_system.Queue.{Queue}
use task_queue_system.RateLimit.{
  Limiter, limited, verdict, global_job_limiter, per_ip_job_limiter, global_key,
}
use task_queue_system.Producer.{Intake}
use task_queue_system.App.{email_route, webhook_route}
use task_queue_system.Cors.{cors_middleware}
use task_queue_system.Cors.Passing.{HasRequest, cors_middleware-HasRequest}
use task_queue_system.AdminAuth.Access.{lets_in}
use task_queue_system.Context.{correlation_middleware}
use task_queue_system.Health.{metrics, metrics_guard}
use task_queue_system.Server.{
  Routing, Surroundings, Reply, State, is_get, is_post, after_client, after_global, job_intake,
  with_board, dashboard, after_metrics_guard, later_routes, mounted, routes, after_body, after_cors,
  after_context, serve,
}

module _ (c : Config) (q : Queue) (l : Limiter) (z : Zod) (routing : Routing) where
  abbrev S : Type 0
  S = State c q l z routing

  -- The task queue is as it was.
  abbrev pub Untouched : S → Reply × S → Type 0
  Untouched s o = o.1.intake.queue ≡ s.intake.queue

  -- What both limiters of the job routes say of the request.
  pub record IsLetIn (now : ℕ) (ip : Option Text) (s : S) : Type 0 where
    pub by_all : (l.hit (global_job_limiter c) global_key now s.of_all).0.0 ≡ true
    pub by_client : (l.hit (per_ip_job_limiter c) (l.ip_key ip) now s.of_clients).0.0 ≡ true

  module _ (now : ℕ) (route : Request → Headers → Intake c q → Response × Intake c q)
      (req : Request) (headers : Headers) where
    job_intake-IsLetIn :
        (s : S)
        → Untouched s (job_intake c q l z routing now route req headers s) ⊎ IsLetIn now req.ip s
    unfolding job_intake after_global after_client limited verdict
    job_intake-IsLetIn s =
        elim (Bool-cases (l.hit (global_job_limiter c) global_key now s.of_all).0.0) [
          | inr over ↦ inl (rw over refl)
          | inl room ↦
              elim (Bool-cases
                (l.hit (per_ip_job_limiter c) (l.ip_key req.ip) now s.of_clients).0.0) [
                  | inr over ↦ inl (rw (room, over) refl)
                  | inl room' ↦ inr (record { by_all = room; by_client = room' })
                ]
        ]

  -- A submission: a POST to a job route, with a body that the parser takes, below both limits.
  pub record IsSubmission (e : Surroundings) (req : Request) (s : S) : Type 0 where
    pub method : text_eq req.method (txt "POST") ≡ true
    pub route :
        (routing.fits (txt "/api/jobs/email") req.path ≡ true)
        ⊎ (routing.fits (txt "/api/jobs/webhook") req.path ≡ true)
    pub parsed : e.body_fault ≡ none
    pub let_in : IsLetIn e.now req.ip s

  -- A read of the metrics: a GET of /metrics that its guard lets through and whose body is parsed. The
  -- queue is asked for its counts, and for nothing else.
  pub record IsReading (e : Surroundings) (req : Request) (s : S) (o : Reply × S) : Type 0 where
    pub method : is_get c q l z routing req ≡ true
    pub route : routing.fits (txt "/metrics") req.path ≡ true
    pub parsed : e.body_fault ≡ none
    pub passed :
        (headers : Headers) × (lets_in (metrics_guard e.decode e.sha256 c req headers) ≡ true)
    pub counted : o.1.intake.queue ≡ (q.get_state_counts s.intake.queue).1

  -- What a request comes to, as far as the queue goes.
  abbrev pub Touches : Surroundings → Request → S → Reply × S → Type 0
  Touches e req s o = Untouched s o ⊎ (IsSubmission e req s ⊎ IsReading e req s o)

  metrics_guarded :
      (e : Surroundings) (s : S) (o : Outcome)
      → Untouched s (after_metrics_guard c q l z routing e s o)
        ⊎ ((lets_in o ≡ true)
            × ((after_metrics_guard c q l z routing e s o).1.intake.queue
                ≡ (q.get_state_counts s.intake.queue).1))
  unfolding after_metrics_guard metrics
  metrics_guarded e s (respond r) = inl refl
  metrics_guarded e s (proceed req headers) = inr (refl, refl)

  module _ (e : Surroundings) (id : Option Text) (req : Request) (headers : Headers) (s : S)
      (parsed : e.body_fault ≡ none) where
    submits :
        {U R : Type 0} (path : Text)
        → (routing.fits (txt "/api/jobs/email") req.path ≡ true)
          ⊎ (routing.fits (txt "/api/jobs/webhook") req.path ≡ true)
        → (is_post c q l z routing req && routing.fits path req.path) ≡ true
        → U ⊎ IsLetIn e.now req.ip s
        → U ⊎ (IsSubmission e req s ⊎ R)
    unfolding is_post
    submits path route post (inl same) = inl same
    submits path route post (inr let_in) = inr (
        inl (record {
          method = ground (arith, post);
          route = route;
          parsed = parsed;
          let_in = let_in;
        }))

    reads :
        (is_get c q l z routing req && routing.fits (txt "/metrics") req.path) ≡ true
        → Touches e req s (
            after_metrics_guard c q l z routing e s (metrics_guard e.decode e.sha256 c req headers))
    reads get =
        let guard = metrics_guard e.decode e.sha256 c req headers in
        elim (metrics_guarded e s guard) [
          | inl same ↦ inl same
          | inr (let_in, counted) ↦ inr (
              inr (record {
                method = ground (arith, get);
                route = ground (arith, get);
                parsed = parsed;
                passed = (headers, let_in);
                counted = counted;
              }))
        ]

    later_routes-IsSubmission : Touches e req s (later_routes c q l z routing e id req headers s)
    unfolding later_routes
    later_routes-IsSubmission =
        let get = is_get c q l z routing req in
        let post = is_post c q l z routing req in
        elim (Bool-cases (get && routing.fits (txt "/health") req.path)) [
          | inl a ↦ rw a (inl refl)
          | inr a ↦ elim (Bool-cases (get && routing.fits (txt "/metrics") req.path)) [
            | inl b ↦ rw (a, b) (reads b)
            | inr b ↦ elim (Bool-cases (post && routing.fits (txt "/api/jobs/email") req.path)) [
              | inl d ↦
                  rw (a, b, d)
                    (submits (txt "/api/jobs/email") (inl (ground (arith, d))) d
                      (job_intake-IsLetIn e.now (email_route c q z e.now id) req headers s))
              | inr d ↦
                  elim (Bool-cases (post && routing.fits (txt "/api/jobs/webhook") req.path)) [
                    | inl f ↦
                        rw (a, b, d, f)
                          (submits (txt "/api/jobs/webhook") (inr (ground (arith, f))) f
                            (job_intake-IsLetIn e.now (webhook_route c q z e.now id) req headers s))
                    | inr f ↦
                        elim (Bool-cases
                          (post && routing.fits (txt "/internal/webhook-sink") req.path)) [
                            | inl g ↦ rw (a, b, d, f, g) (inl refl)
                            | inr g ↦ rw (a, b, d, f, g) (inl refl)
                          ]
                  ]
            ]
          ]
        ]

    mounted-IsSubmission :
        (below : Option Text) → Touches e req s (mounted c q l z routing e id req headers s below)
    unfolding mounted dashboard with_board
    mounted-IsSubmission (some path) = inl refl
    mounted-IsSubmission none = later_routes-IsSubmission

    routes-IsSubmission : Touches e req s (routes c q l z routing e id req headers s)
    unfolding routes
    routes-IsSubmission =
        elim (Bool-cases (is_get c q l z routing req && routing.fits (txt "/") req.path)) [
          | inl index ↦ rw index (inl refl)
          | inr other ↦
              rw other (mounted-IsSubmission (routing.below (txt "/admin/queues") req.path))
        ]

  after_body-IsSubmission :
      (e : Surroundings) (id : Option Text) (fault : Option Failure) (req : Request)
      (headers : Headers) (s : S)
      → e.body_fault ≡ fault
      → Touches e req s (after_body c q l z routing e id fault req headers s)
  unfolding after_body
  after_body-IsSubmission e id none req headers s parsed =
      routes-IsSubmission e id req headers s parsed
  after_body-IsSubmission e id (some fault) req headers s parsed = inl refl

  after_cors-IsSubmission :
      (e : Surroundings) (id : Option Text) (req : Request) (s : S) (o : Outcome)
      → HasRequest req o
      → Touches e req s (after_cors c q l z routing e id s o)
  unfolding after_cors
  after_cors-IsSubmission e id req s (respond r) same = inl refl
  after_cors-IsSubmission e id req s (proceed req' headers) same =
      rw (sym same) (after_body-IsSubmission e id e.body_fault req' headers s refl)

-- Whatever comes in, the handlers of a request leave the task queue as it was, but for two: a
-- submission, which is a POST to one of the two job routes, whose body the parser takes, and that both
-- the limit on all clients and the limit on its client let in; and a GET of /metrics that the guard lets
-- through, which only asks the queue for its counts. What Bull Board's router does with a request that
-- is sent on to it comes after.
pub only_submissions_touch :
    (c : Config) (q : Queue) (l : Limiter) (z : Zod) (routing : Routing) (e : Surroundings)
    (req : Request) (s : State c q l z routing)
    → Touches c q l z routing e req s (serve c q l z routing e req s)
unfolding serve after_context correlation_middleware
only_submissions_touch c q l z routing e req s =
    after_cors-IsSubmission c q l z routing e _ req s (cors_middleware c req _)
      (cors_middleware-HasRequest c req _)
