-- ===== src/Producer.antt =====
-- queue/producer.ts: the way from a client's input to a job in the queue. `depthCache` is state of
-- the module, the board that of the dashboard's cache; a reading of `Date.now()` is an argument, and
-- so is the correlation ID of the current scope.
pub mod Outcomes
pub mod Boards
pub mod Retold
pub mod Submission
pub mod Stamp
mod Tests
use task_queue_system.Prelude.{
  ℕ, ◌+◌, [], ◌∷◌, ◌++◌, Text, txt, Option, none, some, ltb, leb, if◌then◌else◌, get_or,
}
use task_queue_system.Prelude.Dict.{Dict, lookup, insert}
use task_queue_system.Config.{Config}
use task_queue_system.Json.{Json, text, object}
use task_queue_system.Failure.{
  Failure, Result, ok, throws, zod_error, queue_depth_exceeded, queue_unavailable, message_of,
}
use task_queue_system.Dashboard.Cache.{Board, invalidate_dashboard_snapshot}
use task_queue_system.Schema.{
  Schema, email_notification, webhook_delivery, email_job_data_schema, webhook_job_data_schema,
}
use task_queue_system.Schema.Zod.{Zod, Parsed, valid, invalid}
use task_queue_system.Queue.{Queue, Job, Counts}

pub record DepthCacheEntry : Type 0 where
  pub depth : ℕ
  pub expires_at : ℕ

-- A text field of a validated record; the schema makes sure that it is there.
unfoldable pub text_at : Text → Dict Json → Text
text_at name d = elim (lookup name d) [ some (text t) ↦ t | _ ↦ [] ]

abbrev pub correlation_field : Text
correlation_field = txt "correlationId"

-- `correlationId ? { ...data, correlationId } : data`
unfoldable pub stamp : Option Text → Dict Json → Dict Json
stamp none data_ = data_
stamp (some []) data_ = data_
stamp (some (c ∷ s)) data_ = insert correlation_field (text (c ∷ s)) data_

pub total : Counts → ℕ
total counts = get_or counts.waiting 0 + get_or counts.active 0 + get_or counts.delayed 0

module _ (c : Config) (q : Queue) where
  pub record Intake : Type 0 where
    pub depth_cache : Option DepthCacheEntry
    pub board : Board
    pub queue : q.State

  read_depth : ℕ → Intake → Result Counts × q.State → Result ℕ × Intake
  unfolding total
  read_depth now s (throws e, queue) = (throws e, record s { queue = queue })
  read_depth now s (ok counts, queue) = (
    ok (total counts),
    record s {
      depth_cache =
          some (record { depth = total counts; expires_at = now + c.queue_depth_cache_ttl_ms });
      queue = queue;
    },
  )

  cached_depth : ℕ → Intake → Option DepthCacheEntry → Result ℕ × Intake
  unfolding read_depth
  cached_depth now s none = read_depth now s (q.get_job_counts s.queue)
  cached_depth now s (some e) =
      if ltb now e.expires_at then (ok e.depth, s) else read_depth now s (q.get_job_counts s.queue)

  unfoldable pub get_pending_queue_depth : ℕ → Intake → Result ℕ × Intake
  unfolding cached_depth
  get_pending_queue_depth now s = cached_depth now s s.depth_cache

  unfoldable pub reset_queue_depth_cache : Intake → Intake
  reset_queue_depth_cache s = record s { depth_cache = none }

  check_depth : Result ℕ → Result (Unit {0})
  check_depth (throws e) = throws (queue_unavailable (some (message_of e)))
  check_depth (ok depth) =
      if leb c.max_queue_depth depth
      then throws (queue_depth_exceeded depth c.max_queue_depth)
      else ok tt

  unfoldable pub assert_queue_has_capacity : ℕ → Intake → Result (Unit {0}) × Intake
  unfolding check_depth
  assert_queue_has_capacity now s =
      let (depth, s') = get_pending_queue_depth now s in (check_depth depth, s')

  finish_add : Intake → Result Job × q.State → Result Job × Intake
  finish_add s (throws e, queue) =
      (throws (queue_unavailable (some (message_of e))), record s { queue = queue })
  finish_add s (ok job, queue) =
      (ok job, record s { board = invalidate_dashboard_snapshot s.board; queue = queue })

  add_job : Text → Text → Json → Result (Unit {0}) × Intake → Result Job × Intake
  unfolding finish_add
  add_job job_name job_id payload (throws e, s) = (throws e, s)
  add_job job_name job_id payload (ok _, s) = finish_add s (q.add job_name job_id payload s.queue)

  -- The read of the depth and the `add`, with nothing between the two awaits.
  unfoldable pub enqueue :
      ℕ → Option Text → (job_name job_id : Text) → Dict Json → Intake → Result Job × Intake
  unfolding add_job
  enqueue now correlation_id job_name job_id data_ s =
      add_job job_name job_id (object (stamp correlation_id data_))
        (assert_queue_has_capacity now s)

  module _ (z : Zod) where
    dispatch : ℕ → Option Text → (job_name id_prefix : Text) → Parsed → Intake → Result Job × Intake
    dispatch now correlation_id job_name id_prefix (invalid issues message) s =
        (throws (zod_error issues message), s)
    dispatch now correlation_id job_name id_prefix (valid data_) s =
        enqueue now correlation_id job_name (id_prefix ++ text_at (txt "idempotencyKey") data_)
          data_ s

    unfoldable pub dispatch_email_job : ℕ → Option Text → Json → Intake → Result Job × Intake
    unfolding dispatch
    dispatch_email_job now correlation_id payload s =
        dispatch now correlation_id email_notification (txt "email_")
          (z.parse email_job_data_schema payload) s

    unfoldable pub dispatch_webhook_job : ℕ → Option Text → Json → Intake → Result Job × Intake
    unfolding dispatch
    dispatch_webhook_job now correlation_id payload s =
        dispatch now correlation_id webhook_delivery (txt "webhook_")
          (z.parse webhook_job_data_schema payload) s
