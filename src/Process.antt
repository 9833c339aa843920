-- ===== src/Process.antt =====
-- The process that index.ts runs: the server of app.ts and the worker of workers/task.worker.ts, which
-- share the dashboard's board. Requests, answers of Bull Board's handler and attempts of jobs come in
-- any order.
pub mod Views
mod Tests
use task_queue_system.Prelude.{ℕ, [], ◌∷◌, Text, List, Option, none, some}
use task_queue_system.Config.{Config}
use task_queue_system.Json.{Json}
use task_queue_system.Http.{Request}
use task_queue_system.Failure.{Result}
use task_queue_system.Schema.{JobExecutionResult}
use task_queue_system.Schema.Zod.{Zod}
use task_queue_system.Storage.{Row}
use task_queue_system.Queue.{Queue, Job}
use task_queue_system.RateLimit.{Limiter}
use task_queue_system.Processors.{JsonText, Outgoing}
use task_queue_system.Dashboard.Cache.{Pending}
use task_queue_system.Dashboard.System.{System, Delivery, step}
use task_queue_system.Server.{
  Routing, Surroundings, Reply, answered, forwarded, State, with_board, serve,
}
use task_queue_system.Worker.Life.{Attempt, Plant, attempt}

-- `answers now i status body`: Bull Board's handler of the i-th request under way calls `res.json`.
-- `attempts job n a`: the worker makes the attempt of a job that comes after `n` others.
pub data Event : Type 0 where
  requests : Surroundings → Request → Event
  answers : (now i status : ℕ) → Json → Event
  attempts : Job → ℕ → Attempt → Event

module _ (c : Config) (q dlq : Queue) (l : Limiter) (z : Zod) (routing : Routing) (jt : JsonText)
    (call : Text → Job → Result JobExecutionResult) where
  pub record Program : Type 0 where
    pub server : State c q l z routing
    pub rows : List Row
    pub dead : dlq.State
    pub sent : List Outgoing
    pub in_flight : List Pending
    pub delivered : List Delivery

  -- The process as its snapshot cache sees it, and as its worker does.
  abbrev pub system_of : Program → System
  system_of p = record {
    board = p.server.intake.board;
    in_flight = p.in_flight;
    delivered = p.delivered;
  }

  abbrev pub plant_of : Program → Plant dlq
  plant_of p = record {
    floor = record { board = p.server.intake.board; rows = p.rows; dlq = p.dead };
    sent = p.sent;
  }

  pub start_reply : Reply → List Pending → List Pending
  start_reply (answered r) ps = ps
  start_reply (forwarded req headers none) ps = ps
  start_reply (forwarded req headers (some pending)) ps = pending ∷ ps

  pub advance : Event → Program → Program
  unfolding start_reply with_board
  advance (requests e req) p =
      let (reply, server) = serve c q l z routing e req p.server in
      record p { server = server; in_flight = start_reply reply p.in_flight }
  advance (answers now i status body) p =
      let s =
        step c (system_of p) (task_queue_system.Dashboard.System.responds now i status body) in
      record p {
        server = with_board c q l z routing p.server s.board;
        in_flight = s.in_flight;
        delivered = s.delivered;
      }
  advance (attempts job n a) p =
      let plant = (attempt dlq jt z c call job n a (plant_of p)).1 in
      record p {
        server = with_board c q l z routing p.server plant.floor.board;
        rows = plant.floor.rows;
        dead = plant.floor.dlq;
        sent = plant.sent;
      }

  -- The events, the latest first.
  pub advance_all : List Event → Program → Program
  unfolding advance
  advance_all [] p = p
  advance_all (x ∷ xs) p = advance x (advance_all xs p)
