-- ===== src/Server/Retold.antt =====
-- What the service answers if the queue's calls throw other errors.
use task_queue_system.Prelude.{
  ℕ, ◌≡◌, refl, inl, inr, ◌&&◌, Text, txt, Option, none, some, Bool-cases,
}
use task_queue_system.Config.{Config}
use task_queue_system.Failure.{Failure, Result, ok, throws}
use task_queue_system.Http.{Request, Headers, Response, Outcome, proceed, respond}
use task_queue_system.Schema.Zod.{Zod}
use task_queue_system.Queue.{Queue, StateCounts}
use task_queue_system.RateLimit.{Limiter}
use task_queue_system.Producer.{Intake}
use task_queue_system.Producer.Retold.{told, retell, retold}
use task_queue_system.App.{email_route, webhook_route}
use task_queue_system.App.Retold.{carried, email_route-retold, webhook_route-retold}
use task_queue_system.Dashboard.Cache.{Board, Handled, passed, served, rebuilds}
use task_queue_system.Dashboard.Guard.{dashboard_route}
use task_queue_system.Health.{after_counts, metrics, metrics_guard}
use task_queue_system.Server.{
  Routing, Surroundings, Reply, State, is_get, is_post, after_client, after_global, job_intake,
  with_board, handled_reply, dashboard, after_metrics_guard, later_routes, mounted, routes,
  after_body, after_cors, after_context, serve,
}

module _ (c : Config) (q : Queue) (f : Failure → Failure) (l : Limiter) (z : Zod)
    (routing : Routing) where
  abbrev S : Type 0
  S = State c q l z routing

  abbrev S' : Type 0
  S' = State c (retell f q) l z routing

  -- The same state, of the other queue.
  abbrev pub moved : S → S'
  moved s = record {
    intake = retold c q f s.intake;
    of_all = s.of_all;
    of_clients = s.of_clients;
    of_dashboard = s.of_dashboard;
  }

  -- The same reply, and the same state of the other queue.
  abbrev pub replied : Reply × S → Reply × S'
  replied o = (o.0, moved o.1)

  module _ (now : ℕ) (route : Request → Headers → Intake c q → Response × Intake c q)
      (route' : Request → Headers → Intake c (retell f q) → Response × Intake c (retell f q))
      (same : (req : Request) (headers : Headers) (i : Intake c q)
        → route' req headers (retold c q f i) ≡ carried c q f (route req headers i)) where
    after_client-retold :
        (s : S) (o : Outcome)
        → after_client c (retell f q) l z routing route' (moved s) o
          ≡ replied (after_client c q l z routing route s o)
    unfolding after_client
    after_client-retold s (respond r) = refl
    after_client-retold s (proceed req headers) = rw (same req headers s.intake) refl

    after_global-retold :
        (s : S) (o : Outcome)
        → after_global c (retell f q) l z routing now route' (moved s) o
          ≡ replied (after_global c q l z routing now route s o)
    unfolding after_global
    after_global-retold s (respond r) = refl
    after_global-retold s (proceed req headers) =
        after_client-retold (record s { of_clients = _ }) _

    job_intake-retold :
        (req : Request) (headers : Headers) (s : S)
        → job_intake c (retell f q) l z routing now route' req headers (moved s)
          ≡ replied (job_intake c q l z routing now route req headers s)
    unfolding job_intake
    job_intake-retold req headers s = after_global-retold (record s { of_all = _ }) _

  -- The state after the metrics route, whose body is one text for every error.
  after_counts-told :
      (counts : Result StateCounts) (content_type : Text) (registry : Result Text)
      (headers : Headers) (b : Board)
      → after_counts (told f counts) content_type registry headers b
        ≡ after_counts counts content_type registry headers b
  unfolding after_counts told
  after_counts-told (ok n) content_type registry headers b = refl
  after_counts-told (throws e) content_type registry headers b = refl

  metrics-retold :
      (e : Surroundings) (s : S) (o : Outcome)
      → after_metrics_guard c (retell f q) l z routing e (moved s) o
        ≡ replied (after_metrics_guard c q l z routing e s o)
  unfolding after_metrics_guard metrics
  metrics-retold e s (respond r) = refl
  metrics-retold e s (proceed req headers) =
      let counts = (q.get_state_counts s.intake.queue).0 in
      rw (after_counts-told counts e.content_type e.registry headers s.intake.board) refl

  handled_reply-retold :
      (handled : Handled)
      → handled_reply c (retell f q) l z routing handled ≡ handled_reply c q l z routing handled
  unfolding handled_reply
  handled_reply-retold (passed req headers) = refl
  handled_reply-retold (served r) = refl
  handled_reply-retold (rebuilds req headers p) = refl

  dashboard-retold :
      (now : ℕ) (req : Request) (headers : Headers) (s : S)
      → dashboard c (retell f q) l z routing now req headers (moved s)
        ≡ replied (dashboard c q l z routing now req headers s)
  unfolding dashboard with_board
  dashboard-retold now req headers s =
      let handled = (dashboard_route c l now req headers s.of_dashboard s.intake.board).0 in
      rw (handled_reply-retold handled) refl

  module _ (e : Surroundings) (id : Option Text) (req : Request) (headers : Headers) (s : S) where
    later_routes-retold :
        later_routes c (retell f q) l z routing e id req headers (moved s)
        ≡ replied (later_routes c q l z routing e id req headers s)
    unfolding later_routes is_get is_post
    later_routes-retold =
        let get = is_get c q l z routing req in
        let post = is_post c q l z routing req in
        elim (Bool-cases (get && routing.fits (txt "/health") req.path)) [
          | inl a ↦ rw a refl
          | inr a ↦ elim (Bool-cases (get && routing.fits (txt "/metrics") req.path)) [
            | inl b ↦ rw (a, b) (metrics-retold e s (metrics_guard e.decode e.sha256 c req headers))
            | inr b ↦ elim (Bool-cases (post && routing.fits (txt "/api/jobs/email") req.path)) [
              | inl d ↦
                  rw (a, b, d)
                    (job_intake-retold e.now (email_route c q z e.now id)
                      (email_route c (retell f q) z e.now id) (email_route-retold c q f z e.now id)
                      req headers s)
              | inr d ↦
                  elim (Bool-cases (post && routing.fits (txt "/api/jobs/webhook") req.path)) [
                    | inl g ↦
                        rw (a, b, d, g)
                          (job_intake-retold e.now (webhook_route c q z e.now id)
                            (webhook_route c (retell f q) z e.now id)
                            (webhook_route-retold c q f z e.now id) req headers s)
                    | inr g ↦
                        elim (Bool-cases
                          (post && routing.fits (txt "/internal/webhook-sink") req.path)) [
                            | inl h ↦ rw (a, b, d, g, h) refl
                            | inr h ↦ rw (a, b, d, g, h) refl
                          ]
                  ]
            ]
          ]
        ]

    mounted-retold :
        (below : Option Text)
        → mounted c (retell f q) l z routing e id req headers (moved s) below
          ≡ replied (mounted c q l z routing e id req headers s below)
    unfolding mounted
    mounted-retold (some path) = dashboard-retold e.now (record req { path = path }) headers s
    mounted-retold none = later_routes-retold

    routes-retold :
        routes c (retell f q) l z routing e id req headers (moved s)
        ≡ replied (routes c q l z routing e id req headers s)
    unfolding routes is_get
    routes-retold =
        elim (Bool-cases (is_get c q l z routing req && routing.fits (txt "/") req.path)) [
          | inl index ↦ rw index refl
          | inr other ↦ rw other (mounted-retold (routing.below (txt "/admin/queues") req.path))
        ]

  after_body-retold :
      (e : Surroundings) (id : Option Text) (fault : Option Failure) (req : Request)
      (headers : Headers) (s : S)
      → after_body c (retell f q) l z routing e id fault req headers (moved s)
        ≡ replied (after_body c q l z routing e id fault req headers s)
  unfolding after_body
  after_body-retold e id none req headers s = routes-retold e id req headers s
  after_body-retold e id (some fault) req headers s = refl

  after_cors-retold :
      (e : Surroundings) (id : Option Text) (s : S) (o : Outcome)
      → after_cors c (retell f q) l z routing e id (moved s) o
        ≡ replied (after_cors c q l z routing e id s o)
  unfolding after_cors
  after_cors-retold e id s (respond r) = refl
  after_cors-retold e id s (proceed req headers) = after_body-retold e id e.body_fault req headers s

  after_context-retold :
      (e : Surroundings) (s : S) (o : Outcome × Option Text)
      → after_context c (retell f q) l z routing e (moved s) o
        ≡ replied (after_context c q l z routing e s o)
  unfolding after_context
  after_context-retold e s (respond r, id) = refl
  after_context-retold e s (proceed req headers, id) = after_cors-retold e id s _

  -- Whatever the queue's calls throw, the service gives the same reply and comes to the same state.
  pub serve-retold :
      (e : Surroundings) (req : Request) (s : S)
      → serve c (retell f q) l z routing e req (moved s) ≡ replied (serve c q l z routing e req s)
  unfolding serve
  serve-retold e req s = after_context-retold e s _
