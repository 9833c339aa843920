-- ===== src/Server/Boards.antt =====
-- What one request does to the dashboard's board, whichever handlers it goes through.
use task_queue_system.Prelude.{
  ℕ, ◌≡◌, refl, inl, inr, ◌&&◌, Text, txt, List, Option, none, some, Bool-cases, arith,
}
use task_queue_system.Config.{Config}
use task_queue_system.Failure.{Failure, Result, ok, throws}
use task_queue_system.Http.{Request, Headers, Response, Outcome, proceed, respond}
use task_queue_system.Schema.Zod.{Zod}
use task_queue_system.Queue.{Queue, StateCounts}
use task_queue_system.RateLimit.{Limiter}
use task_queue_system.Health.{after_counts, metrics, metrics_guard}
use task_queue_system.Dashboard.Cache.{Board, Handled, passed, served, rebuilds}
use task_queue_system.Dashboard.System.Later.{Later, Later-refl}
use task_queue_system.Dashboard.System.Snapshots.{IsFlight}
use task_queue_system.Dashboard.Guard.{dashboard_route}
use task_queue_system.Producer.{Intake}
use task_queue_system.App.{email_route, webhook_route}
use task_queue_system.App.Boards.{email_route-Later, webhook_route-Later}
use task_queue_system.Dashboard.Guard.Boards.{dashboard_route-Fits, IsFlown}
use task_queue_system.Server.{
  Routing, Surroundings, Reply, answered, forwarded, State, is_get, is_post, after_client,
  after_global, job_intake, with_board, handled_reply, dashboard, after_metrics_guard, later_routes,
  mounted, routes, after_body, after_cors, after_context, serve,
}

module _ (c : Config) (q : Queue) (l : Limiter) (z : Zod) (routing : Routing)
    (names : List Text) where
  abbrev S : Type 0
  S = State c q l z routing

  -- A request that is sent on knows its view, and the generation it was sent on under.
  abbrev pub IsSent : Board → Reply → Type 0
  IsSent b (answered r) = Unit {0}
  IsSent b (forwarded req headers none) = Unit {0}
  IsSent b (forwarded req headers (some p)) = IsFlight c names b.current_generation p

  abbrev pub Serves : S → Reply × S → Type 0
  Serves s o = Later s.intake.board o.1.intake.board × IsSent o.1.intake.board o.0

  module _ (now : ℕ) (route : Request → Headers → Intake c q → Response × Intake c q)
      (later : (req : Request) (headers : Headers) (i : Intake c q)
        → Later i.board (route req headers i).1.board) where
    after_client-Serves : (s : S) (o : Outcome) → Serves s (after_client c q l z routing route s o)
    unfolding after_client
    after_client-Serves s (respond r) = (Later-refl s.intake.board, tt)
    after_client-Serves s (proceed req headers) = (later req headers s.intake, tt)

    after_global-Serves :
        (s : S) (o : Outcome) → Serves s (after_global c q l z routing now route s o)
    unfolding after_global
    after_global-Serves s (respond r) = (Later-refl s.intake.board, tt)
    after_global-Serves s (proceed req headers) =
        after_client-Serves (record s { of_clients = _ }) _

    job_intake-Serves :
        (req : Request) (headers : Headers) (s : S)
        → Serves s (job_intake c q l z routing now route req headers s)
    unfolding job_intake
    job_intake-Serves req headers s = after_global-Serves (record s { of_all = _ }) _

  metrics-Later :
      (counts : Result StateCounts) (content_type : Text) (registry : Result Text)
      (headers : Headers) (b : Board)
      → Later b (after_counts counts content_type registry headers b).1
  unfolding after_counts
  metrics-Later (throws e) content_type registry headers b = Later-refl b
  metrics-Later (ok n) content_type registry headers b = record {
    snapshots = refl;
    names = refl;
    generation = omega arith;
  }

  metrics-Serves :
      (e : Surroundings) (s : S) (o : Outcome)
      → Serves s (after_metrics_guard c q l z routing e s o)
  unfolding after_metrics_guard metrics
  metrics-Serves e s (respond r) = (Later-refl s.intake.board, tt)
  metrics-Serves e s (proceed req headers) =
      (metrics-Later _ e.content_type e.registry headers s.intake.board, tt)

  handled_reply-IsSent :
      (b : Board) (handled : Handled)
      → IsFlown c names b handled
      → IsSent b (handled_reply c q l z routing handled)
  unfolding handled_reply
  handled_reply-IsSent b (passed req headers) h = tt
  handled_reply-IsSent b (served r) h = tt
  handled_reply-IsSent b (rebuilds req headers p) h = h

  dashboard-Serves :
      (now : ℕ) (req : Request) (headers : Headers) (s : S)
      → s.intake.board.registered_queue_names ≡ names
      → Serves s (dashboard c q l z routing now req headers s)
  unfolding dashboard with_board
  dashboard-Serves now req headers s named =
      let (later, flown) =
        dashboard_route-Fits c names s.intake.board named l now req headers s.of_dashboard in
      (
        later,
        handled_reply-IsSent (dashboard_route c l now req headers s.of_dashboard s.intake.board).1.1
            _ flown,
      )

  module _ (e : Surroundings) (id : Option Text) (req : Request) (headers : Headers) (s : S)
      (named : s.intake.board.registered_queue_names ≡ names) where
    later_routes-Serves : Serves s (later_routes c q l z routing e id req headers s)
    unfolding later_routes
    later_routes-Serves =
        let get = is_get c q l z routing req in
        let post = is_post c q l z routing req in
        let same : Later s.intake.board s.intake.board × Unit {0} =
          (Later-refl s.intake.board, tt) in
        elim (Bool-cases (get && routing.fits (txt "/health") req.path)) [
          | inl a ↦ rw a same
          | inr a ↦ elim (Bool-cases (get && routing.fits (txt "/metrics") req.path)) [
            | inl b ↦ rw (a, b) (metrics-Serves e s (metrics_guard e.decode e.sha256 c req headers))
            | inr b ↦ elim (Bool-cases (post && routing.fits (txt "/api/jobs/email") req.path)) [
              | inl d ↦
                  rw (a, b, d)
                    (job_intake-Serves e.now (email_route c q z e.now id)
                      (email_route-Later c q z e.now id) req headers s)
              | inr d ↦
                  elim (Bool-cases (post && routing.fits (txt "/api/jobs/webhook") req.path)) [
                    | inl f ↦
                        rw (a, b, d, f)
                          (job_intake-Serves e.now (webhook_route c q z e.now id)
                            (webhook_route-Later c q z e.now id) req headers s)
                    | inr f ↦
                        elim (Bool-cases
                          (post && routing.fits (txt "/internal/webhook-sink") req.path)) [
                            | inl g ↦ rw (a, b, d, f, g) same
                            | inr g ↦ rw (a, b, d, f, g) same
                          ]
                  ]
            ]
          ]
        ]

    mounted-Serves :
        (below : Option Text) → Serves s (mounted c q l z routing e id req headers s below)
    unfolding mounted
    mounted-Serves (some path) = dashboard-Serves e.now (record req { path = path }) headers s named
    mounted-Serves none = later_routes-Serves

    routes-Serves : Serves s (routes c q l z routing e id req headers s)
    unfolding routes
    routes-Serves =
        elim (Bool-cases (is_get c q l z routing req && routing.fits (txt "/") req.path)) [
          | inl index ↦ rw index (Later-refl s.intake.board, tt)
          | inr other ↦ rw other (mounted-Serves (routing.below (txt "/admin/queues") req.path))
        ]

  module _ (e : Surroundings) (s : S) (named : s.intake.board.registered_queue_names ≡ names) where
    after_body-Serves :
        (id : Option Text) (fault : Option Failure) (req : Request) (headers : Headers)
        → Serves s (after_body c q l z routing e id fault req headers s)
    unfolding after_body
    after_body-Serves id none req headers = routes-Serves e id req headers s named
    after_body-Serves id (some fault) req headers = (Later-refl s.intake.board, tt)

    after_cors-Serves :
        (id : Option Text) (o : Outcome) → Serves s (after_cors c q l z routing e id s o)
    unfolding after_cors
    after_cors-Serves id (respond r) = (Later-refl s.intake.board, tt)
    after_cors-Serves id (proceed req headers) = after_body-Serves id e.body_fault req headers

    after_context-Serves :
        (o : Outcome × Option Text) → Serves s (after_context c q l z routing e s o)
    unfolding after_context
    after_context-Serves (respond r, id) = (Later-refl s.intake.board, tt)
    after_context-Serves (proceed req headers, id) = after_cors-Serves id _

    pub serve-Serves : (req : Request) → Serves s (serve c q l z routing e req s)
    unfolding serve
    serve-Serves req = after_context-Serves _
