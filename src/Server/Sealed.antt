-- ===== src/Server/Sealed.antt =====
-- What the service tells of its failures.
use task_queue_system.Prelude.{◌≡◌, refl, ◌∙◌, ap, sym, Text, txt, Option, none, some}
use task_queue_system.Config.{Config}
use task_queue_system.Failure.{Failure, Result, ok, throws, IsSameKind}
use task_queue_system.Http.{Request, Headers, Outcome, proceed, respond}
use task_queue_system.Schema.Zod.{Zod}
use task_queue_system.Queue.{Queue, StateCounts}
use task_queue_system.RateLimit.{Limiter}
use task_queue_system.App.Retold.{error_handler_same}
use task_queue_system.Dashboard.Cache.{Board}
use task_queue_system.Health.{RedisProbe, health, after_counts, metrics, metrics_guard}
use task_queue_system.Producer.Retold.{retell}
use task_queue_system.Server.Retold.{moved, replied, serve-retold}
use task_queue_system.Server.{
  Routing, Surroundings, State, after_metrics_guard, later_routes, mounted, routes, after_body,
  after_cors, after_context, serve,
}

-- What fails around a request: the body parser, SQLite, and the metrics client.
pub record Faults : Type 0 where
  pub body_fault : Option Failure
  pub sqlite_fault : Option Failure
  pub registry : Result Text

abbrev pub with_faults : Surroundings → Faults → Surroundings
with_faults e f = record e {
  body_fault = f.body_fault;
  sqlite_fault = f.sqlite_fault;
  registry = f.registry;
}

pub data IsSameFault : Option Failure → Option Failure → Type 0 where
  no_fault : IsSameFault none none
  both_fail : (e e' : Failure) → IsSameKind e e' → IsSameFault (some e) (some e')

-- The same value, or any two failures.
pub data IsSameResult {ℓ} {A : Type ℓ} : Result A → Result A → Type ℓ where
  same_value : (a : A) → IsSameResult (ok a) (ok a)
  both_throw : (e e' : Failure) → IsSameResult (throws e) (throws e')

pub record IsSame (f f' : Faults) : Type 0 where
  pub body_fault : IsSameFault f.body_fault f'.body_fault
  pub sqlite_fault : IsSameFault f.sqlite_fault f'.sqlite_fault
  pub registry : IsSameResult f.registry f'.registry

health_same :
    (redis : RedisProbe) (at : Text) (headers : Headers) {f f' : Option Failure}
    → IsSameFault f f'
    → health redis f at headers ≡ health redis f' at headers
unfolding health
health_same redis at headers no_fault = refl
health_same redis at headers (both_fail e e' h) = refl

after_counts_same :
    (counts : Result StateCounts) (content_type : Text) (headers : Headers) (b : Board)
    (e e' : Failure)
    → after_counts counts content_type (throws e) headers b
      ≡ after_counts counts content_type (throws e') headers b
unfolding after_counts
after_counts_same (ok n) content_type headers b e e' = refl
after_counts_same (throws f) content_type headers b e e' = refl

metrics_same :
    (content_type : Text) (headers : Headers) (q : Queue) (b : Board × q.State) {t t' : Result Text}
    → IsSameResult t t'
    → metrics q content_type t headers b ≡ metrics q content_type t' headers b
unfolding metrics
metrics_same content_type headers q b (same_value t) = refl
metrics_same content_type headers q (b, queue) (both_throw e e') =
    rw (after_counts_same (q.get_state_counts queue).0 content_type headers b e e') refl

module _ (c : Config) (q : Queue) (l : Limiter) (z : Zod) (routing : Routing) (e : Surroundings)
    (f f' : Faults) (same : IsSame f f') where
  abbrev S : Type 0
  S = State c q l z routing

  after_metrics_guard_same :
      (s : S) (o : Outcome)
      → after_metrics_guard c q l z routing (with_faults e f) s o
        ≡ after_metrics_guard c q l z routing (with_faults e f') s o
  unfolding after_metrics_guard
  after_metrics_guard_same s (respond r) = refl
  after_metrics_guard_same s (proceed req headers) =
      rw (metrics_same e.content_type headers q (s.intake.board, s.intake.queue) same.registry) refl

  later_routes_same :
      (id : Option Text) (req : Request) (headers : Headers) (s : S)
      → later_routes c q l z routing (with_faults e f) id req headers s
        ≡ later_routes c q l z routing (with_faults e f') id req headers s
  unfolding later_routes
  later_routes_same id req headers s =
      rw
        (
          health_same e.redis e.at headers same.sqlite_fault,
          after_metrics_guard_same s (metrics_guard e.decode e.sha256 c req headers),
        )
        refl

  mounted_same :
      (id : Option Text) (req : Request) (headers : Headers) (s : S) (below : Option Text)
      → mounted c q l z routing (with_faults e f) id req headers s below
        ≡ mounted c q l z routing (with_faults e f') id req headers s below
  unfolding mounted
  mounted_same id req headers s (some path) = refl
  mounted_same id req headers s none = later_routes_same id req headers s

  routes_same :
      (id : Option Text) (req : Request) (headers : Headers) (s : S)
      → routes c q l z routing (with_faults e f) id req headers s
        ≡ routes c q l z routing (with_faults e f') id req headers s
  unfolding routes
  routes_same id req headers s =
      rw (mounted_same id req headers s (routing.below (txt "/admin/queues") req.path)) refl

  after_body_same :
      (id : Option Text) (req : Request) (headers : Headers) (s : S) {a a' : Option Failure}
      → IsSameFault a a'
      → after_body c q l z routing (with_faults e f) id a req headers s
        ≡ after_body c q l z routing (with_faults e f') id a' req headers s
  unfolding after_body
  after_body_same id req headers s no_fault = routes_same id req headers s
  after_body_same id req headers s (both_fail a a' h) = rw (error_handler_same headers h) refl

  after_cors_same :
      (id : Option Text) (s : S) (o : Outcome)
      → after_cors c q l z routing (with_faults e f) id s o
        ≡ after_cors c q l z routing (with_faults e f') id s o
  unfolding after_cors
  after_cors_same id s (respond r) = refl
  after_cors_same id s (proceed req headers) = after_body_same id req headers s same.body_fault

  after_context_same :
      (s : S) (o : Outcome × Option Text)
      → after_context c q l z routing (with_faults e f) s o
        ≡ after_context c q l z routing (with_faults e f') s o
  unfolding after_context
  after_context_same s (respond r, id) = refl
  after_context_same s (proceed req headers, id) = after_cors_same id s _

-- With the same queue: only what fails around the request differs.
faults_hidden :
    (c : Config) (q : Queue) (l : Limiter) (z : Zod) (routing : Routing) (e : Surroundings)
    (f f' : Faults) (req : Request) (s : State c q l z routing)
    → IsSame f f'
    → serve c q l z routing (with_faults e f) req s ≡ serve c q l z routing (with_faults e f') req s
unfolding serve
faults_hidden c q l z routing e f f' req s same = after_context_same c q l z routing e f f' same s _

-- What the queue, the reads of its counts among its calls, the body parser, SQLite and the metrics
-- client throw is not told to a client: with a queue that does the same but throws other errors, whatever they are, and
-- with failures of the same kinds around it, whatever their texts, the service gives the same reply
-- to a request, whichever it is, and comes to the same state. What zod found in a body is told, and
-- so is whether something failed.
pub failure_texts_hidden :
    (c : Config) (q : Queue) (tell : Failure → Failure) (l : Limiter) (z : Zod) (routing : Routing)
    (e : Surroundings) (f f' : Faults) (req : Request) (s : State c q l z routing)
    → IsSame f f'
    → serve c (retell tell q) l z routing (with_faults e f') req (moved c q tell l z routing s)
      ≡ replied c q tell l z routing (serve c q l z routing (with_faults e f) req s)
failure_texts_hidden c q tell l z routing e f f' req s same =
    serve-retold c q tell l z routing (with_faults e f') req s
    ∙ ap (replied c q tell l z routing) (sym (faults_hidden c q l z routing e f f' req s same))
