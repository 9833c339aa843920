-- ===== src/Producer/Outcomes.antt =====
-- What a submission comes to: accepted, or refused for one of four reasons.
use task_queue_system.Prelude.{
  ℕ, ◌≤◌, ◌≡◌, ◌⊎◌, refl, subst, inl, inr, ◌++◌, Text, txt, Option, none, some, ltb, leb,
  Bool-cases, arith, ◌<◌, ◌+◌, ap,
}
use task_queue_system.Prelude.Dict.{Dict}
use task_queue_system.Config.{Config}
use task_queue_system.Json.{Json, object}
use task_queue_system.Failure.{
  Failure, Result, ok, throws, message_of, zod_error, queue_depth_exceeded, queue_unavailable,
}
use task_queue_system.Dashboard.Cache.{invalidate_dashboard_snapshot}
use task_queue_system.Schema.Zod.{Zod, Parsed, valid, invalid}
use task_queue_system.Queue.{Queue, Job, Counts, ReturnsJob, default_attempts}
use task_queue_system.Producer.{
  Intake, DepthCacheEntry, read_depth, cached_depth, get_pending_queue_depth, check_depth,
  assert_queue_has_capacity, finish_add, add_job, enqueue, dispatch, stamp, text_at,
  dispatch_email_job, dispatch_webhook_job, email_notification, webhook_delivery,
  email_job_data_schema, webhook_job_data_schema,
}

-- What a call of the queue came to that made it unavailable: the read of its depth threw, or the depth
-- had room and `add` threw.
abbrev pub IsUnreachable : Config → Result ℕ → Result Job → Failure → Type 0
IsUnreachable c read added e =
    (read ≡ throws e)
    ⊎ ((depth : ℕ) × (read ≡ ok depth) × (depth < c.max_queue_depth) × (added ≡ throws e))

-- The errors that a submission may end in: a body that the schema refuses, a queue at or over the
-- ceiling, and a queue whose read or whose `add` threw, with its message. `added` is what `add` comes
-- to for validated data, after the read.
abbrev pub IsRefusal : Config → Parsed → Result ℕ → (Dict Json → Result Job) → Failure → Type 0
IsRefusal c parsed read added (zod_error issues message) = parsed ≡ invalid issues message
IsRefusal c parsed read added (queue_depth_exceeded depth limit) =
    (read ≡ ok depth) × (limit ≡ c.max_queue_depth) × (limit ≤ depth)
IsRefusal c parsed read added (queue_unavailable cause) =
    (d : Dict Json) × (e : Failure) × (parsed ≡ valid d)
    × (cause ≡ some (message_of e))
    × IsUnreachable c read (added d) e
IsRefusal c parsed read added _ = ⊥

-- The job that a submission of the validated data under a prefix is stored as, to be tried 3 times.
pub record IsStored (correlation_id : Option Text) (job_name id_prefix : Text) (d : Dict Json)
    (job : Job) : Type 0 where
  pub name : job.name ≡ job_name
  pub id : job.id ≡ some (id_prefix ++ text_at (txt "idempotencyKey") d)
  pub payload : job.payload ≡ object (stamp correlation_id d)
  pub attempts : job.attempts ≡ some default_attempts

module _ (c : Config) (q : Queue) where
  board_of_read :
      (now : ℕ) (s : Intake c q) (r : Result Counts × q.State)
      → ((read_depth c q now s r).1).board ≡ s.board
  unfolding read_depth
  board_of_read now s (throws e, queue) = refl
  board_of_read now s (ok counts, queue) = refl

  board_of_cached :
      (now : ℕ) (s : Intake c q) (o : Option DepthCacheEntry)
      → ((cached_depth c q now s o).1).board ≡ s.board
  unfolding cached_depth
  board_of_cached now s none = board_of_read now s (q.get_job_counts s.queue)
  board_of_cached now s (some e) = elim (Bool-cases (ltb now e.expires_at)) [
    | inl fresh ↦ rw fresh refl
    | inr old ↦ rw old (board_of_read now s (q.get_job_counts s.queue))
  ]

  pub board_of_check :
      (now : ℕ) (s : Intake c q) → ((assert_queue_has_capacity c q now s).1).board ≡ s.board
  unfolding assert_queue_has_capacity get_pending_queue_depth
  board_of_check now s = board_of_cached now s s.depth_cache

  -- What `add` comes to for validated data, in the queue as the read of its depth left it.
  abbrev pub added_of :
      ℕ → Option Text → (job_name id_prefix : Text) → Intake c q → Dict Json → Result Job
  added_of now correlation_id job_name id_prefix s d =
      (q.add job_name (id_prefix ++ text_at (txt "idempotencyKey") d)
        (object (stamp correlation_id d)) (get_pending_queue_depth c q now s).1.queue).0

  -- An error is a refusal and leaves the board as it was; a job is the queue's answer to the given
  -- name, ID and payload, was let in below the ceiling, and makes every snapshot stale.
  abbrev pub Ends :
      (z : Zod)
      → ℕ
      → Option Text
      → (job_name id_prefix : Text) → Parsed
      → Intake c q
      → Result Job × Intake c q
      → Type 0
  Ends z now correlation_id job_name id_prefix parsed s (throws e, s') =
      IsRefusal c parsed (get_pending_queue_depth c q now s).0
        (added_of now correlation_id job_name id_prefix s) e
      × (s'.board ≡ s.board)
  Ends z now correlation_id job_name id_prefix parsed s (ok job, s') =
      (d : Dict Json) × (parsed ≡ valid d)
      × IsStored correlation_id job_name id_prefix d job
      × ((depth : ℕ) × ((get_pending_queue_depth c q now s).0 ≡ ok depth)
          × (depth < c.max_queue_depth))
      × (s'.board ≡ invalidate_dashboard_snapshot s.board)

  module _ (returns : ReturnsJob q) (z : Zod) (now : ℕ) (correlation_id : Option Text)
      (job_name id_prefix : Text) (d : Dict Json) (s : Intake c q) where
    abbrev job_id : Text
    job_id = id_prefix ++ text_at (txt "idempotencyKey") d

    abbrev payload : Json
    payload = object (stamp correlation_id d)

    finish_add-Ends :
        (s' : Intake c q) (depth : ℕ) (r : Result Job × q.State)
        → s' ≡ (get_pending_queue_depth c q now s).1
        → q.add job_name job_id payload s'.queue ≡ r
        → s'.board ≡ s.board
        → (get_pending_queue_depth c q now s).0 ≡ ok depth
        → depth < c.max_queue_depth
        → Ends z now correlation_id job_name id_prefix (valid d) s (finish_add c q s' r)
    unfolding finish_add
    finish_add-Ends s' depth (throws e, queue) after added same read room = (
      (
        d,
        e,
        refl,
        refl,
        inr (
          depth,
          read,
          room,
          subst (λ x. (q.add job_name job_id payload x.queue).0 ≡ throws e) after (rw added refl),
        ),
      ),
      same,
    )
    finish_add-Ends s' depth (ok job, queue) after added same read room =
        let (name, id, body, attempts) =
          returns.added job_name job_id payload s'.queue job (rw added refl) in
        (
          d,
          refl,
          record { name = name; id = id; payload = body; attempts = attempts },
          (depth, read, room),
          ap invalidate_dashboard_snapshot same,
        )

    add_job-Ends :
        (s' : Intake c q) (depth : Result ℕ)
        → s' ≡ (get_pending_queue_depth c q now s).1
        → s'.board ≡ s.board
        → (get_pending_queue_depth c q now s).0 ≡ depth
        → Ends z now correlation_id job_name id_prefix
            (valid d)
            s
            (add_job c q job_name job_id payload (check_depth c q depth, s'))
    unfolding add_job check_depth
    add_job-Ends s' (throws e) after same read = ((d, e, refl, refl, inl read), same)
    add_job-Ends s' (ok depth) after same read = elim (Bool-cases (leb c.max_queue_depth depth)) [
      | inl full ↦ rw full ((read, refl, ground arith), same)
      | inr room ↦ rw room (
          finish_add-Ends s' depth (q.add job_name job_id payload s'.queue) after refl same read
            (ground arith))
    ]

  dispatch-Ends :
      (returns : ReturnsJob q) (z : Zod) (now : ℕ) (correlation_id : Option Text)
      (job_name id_prefix : Text) (parsed : Parsed) (s : Intake c q)
      → Ends z now correlation_id job_name id_prefix parsed s
          (dispatch c q z now correlation_id job_name id_prefix parsed s)
  unfolding dispatch enqueue assert_queue_has_capacity
  dispatch-Ends returns z now correlation_id job_name id_prefix (invalid issues message) s =
      (refl, refl)
  dispatch-Ends returns z now correlation_id job_name id_prefix (valid d) s =
      add_job-Ends returns z now correlation_id job_name id_prefix d s _
        (get_pending_queue_depth c q now s).0 refl
        (unfold get_pending_queue_depth in board_of_cached now s s.depth_cache) refl

-- A submission of an email job, for a queue whose `add` returns the job that it was given: if it
-- fails, then because the schema refuses the input, because the depth that was read is at or over
-- MAX_QUEUE_DEPTH, or because the read of the depth threw or, with room, the queue's `add` threw,
-- whose message the error has; and the board is as it was. If it returns
-- a job, the input was valid, the depth that was read is under the ceiling, the job has the email
-- job's name, the ID `email_` with the idempotency key and the stamped input, and every snapshot
-- of the dashboard is stale.
pub email_submission :
    (c : Config) (q : Queue) (z : Zod) (now : ℕ) (correlation_id : Option Text) (input : Json)
    (s : Intake c q)
    → ReturnsJob q
    → Ends c q z now correlation_id email_notification
        (txt "email_")
        (z.parse email_job_data_schema input)
        s
        (dispatch_email_job c q z now correlation_id input s)
unfolding dispatch_email_job
email_submission c q z now correlation_id input s returns =
    dispatch-Ends c q returns z now correlation_id email_notification (txt "email_")
      (z.parse email_job_data_schema input) s

-- A submission of a webhook job, for a queue whose `add` returns the job that it was given, fails only
-- because the webhook schema refuses the input, because the depth that was read is at or over the
-- ceiling, or because the read of the depth or the queue's `add` threw, and leaves the board as it
-- was; one that returns a job had a valid input and room, and the job has the webhook job's name, the
-- ID `webhook_` with the idempotency key and the stamped input, and every snapshot of the dashboard
-- is stale.
pub webhook_submission :
    (c : Config) (q : Queue) (z : Zod) (now : ℕ) (correlation_id : Option Text) (input : Json)
    (s : Intake c q)
    → ReturnsJob q
    → Ends c q z now correlation_id webhook_delivery
        (txt "webhook_")
        (z.parse webhook_job_data_schema input)
        s
        (dispatch_webhook_job c q z now correlation_id input s)
unfolding dispatch_webhook_job
webhook_submission c q z now correlation_id input s returns =
    dispatch-Ends c q returns z now correlation_id webhook_delivery (txt "webhook_")
      (z.parse webhook_job_data_schema input) s

module _ (c : Config) (q : Queue) where
  read_memo :
      (now now' : ℕ) (s : Intake c q) (depth : ℕ) (r : Result Counts × q.State)
      → (read_depth c q now s r).0 ≡ ok depth
      → now' < now + c.queue_depth_cache_ttl_ms
      → get_pending_queue_depth c q now' (read_depth c q now s r).1
        ≡ (ok depth, (read_depth c q now s r).1)
  unfolding read_depth get_pending_queue_depth cached_depth
  read_memo now now' s depth (throws e, queue) h t = absurd (grind arith)
  read_memo now now' s depth (ok counts, queue) h t = grind arith

  no_entry :
      (now : ℕ) (s : Intake c q)
      → s.depth_cache ≡ none
      → get_pending_queue_depth c q now s ≡ read_depth c q now s (q.get_job_counts s.queue)
  unfolding get_pending_queue_depth cached_depth
  no_entry now s h = rw h refl

-- Once a reading of the queue's depth with an empty cache has succeeded, any reading within the time to live gives the
-- same depth, without a call of the queue and with no change of state.
pub depth_is_memoised :
    (c : Config) (q : Queue) (now now' : ℕ) (s : Intake c q) (depth : ℕ)
    → s.depth_cache ≡ none
    → (get_pending_queue_depth c q now s).0 ≡ ok depth
    → now' < now + c.queue_depth_cache_ttl_ms
    → get_pending_queue_depth c q now' (get_pending_queue_depth c q now s).1
      ≡ (ok depth, (get_pending_queue_depth c q now s).1)
depth_is_memoised c q now now' s depth none_yet read within =
    rw (no_entry c q now s none_yet)
      (read_memo c q now now' s depth _ (rw (no_entry c q now s none_yet) at read) within)
