-- ===== src/Producer/Retold.antt =====
-- A queue whose calls throw other errors: what src/queue/producer.ts makes of it.
use task_queue_system.Prelude.{
  ℕ, ◌≡◌, refl, inl, inr, leb, txt, Text, Option, none, some, ltb, Bool-cases,
}
use task_queue_system.Json.{Json}
use task_queue_system.Config.{Config}
use task_queue_system.Failure.{
  Failure, Result, ok, throws, same_issues, over_depth, unreachable, IsAlike, one_value, one_kind,
}
use task_queue_system.Schema.Zod.{Zod, Parsed, valid, invalid}
use task_queue_system.Queue.{Queue, Job, Counts}
use task_queue_system.Producer.{
  check_depth, finish_add, add_job, enqueue, dispatch, dispatch_email_job, dispatch_webhook_job,
  assert_queue_has_capacity, DepthCacheEntry, Intake, read_depth, cached_depth,
  get_pending_queue_depth,
}

unfoldable pub told {ℓ} : {A : Type ℓ} → (Failure → Failure) → Result A → Result A
told f (ok a) = ok a
told f (throws e) = throws (f e)

-- The same queue, but each error is told as another one.
abbrev pub retell : (Failure → Failure) → Queue → Queue
retell f q = record {
  State = q.State;
  get_job_counts = λ s. (told f (q.get_job_counts s).0, (q.get_job_counts s).1);
  get_state_counts = λ s. (told f (q.get_state_counts s).0, (q.get_state_counts s).1);
  add = λ name job_id payload s.
      (told f (q.add name job_id payload s).0, (q.add name job_id payload s).1);
}

module _ (c : Config) (q : Queue) (f : Failure → Failure) where
  -- The same state, of the other queue.
  abbrev pub retold : Intake c q → Intake c (retell f q)
  retold s = record { depth_cache = s.depth_cache; board = s.board; queue = s.queue }

  read_depth-retold :
      (now : ℕ) (s : Intake c q) (r : Result Counts × q.State)
      → read_depth c (retell f q) now (retold s) (told f r.0, r.1)
        ≡ (told f (read_depth c q now s r).0, retold (read_depth c q now s r).1)
  unfolding read_depth told
  read_depth-retold now s (ok counts, queue) = refl
  read_depth-retold now s (throws e, queue) = refl

  cached_depth-retold :
      (now : ℕ) (s : Intake c q) (cached : Option DepthCacheEntry)
      → cached_depth c (retell f q) now (retold s) cached
        ≡ (told f (cached_depth c q now s cached).0, retold (cached_depth c q now s cached).1)
  unfolding cached_depth told
  cached_depth-retold now s none = read_depth-retold now s (q.get_job_counts s.queue)
  cached_depth-retold now s (some e) = elim (Bool-cases (ltb now e.expires_at)) [
    | inl fresh ↦ rw fresh refl
    | inr stale ↦ rw stale (read_depth-retold now s (q.get_job_counts s.queue))
  ]

  pub get_pending_queue_depth-retold :
      (now : ℕ) (s : Intake c q)
      → get_pending_queue_depth c (retell f q) now (retold s) ≡ (
        told f (get_pending_queue_depth c q now s).0,
        retold (get_pending_queue_depth c q now s).1,
      )
  unfolding get_pending_queue_depth
  get_pending_queue_depth-retold now s = cached_depth-retold now s s.depth_cache

  -- The same job or errors of one kind, and the same state.
  abbrev pub IsRetold : Result Job × Intake c q → Result Job × Intake c (retell f q) → Type 0
  IsRetold o o' = IsAlike o.0 o'.0 × (o'.1 ≡ retold o.1)

  finish_add-IsRetold :
      (s : Intake c q) (r : Result Job × q.State)
      → IsRetold (finish_add c q s r) (finish_add c (retell f q) (retold s) (told f r.0, r.1))
  unfolding finish_add told
  finish_add-IsRetold s (ok job, queue) = (one_value job, refl)
  finish_add-IsRetold s (throws e, queue) = (one_kind _ _ (unreachable _ _), refl)

  add_job-IsRetold :
      (job_name job_id : Text) (payload : Json) (s : Intake c q) (depth : Result ℕ)
      → IsRetold (add_job c q job_name job_id payload (check_depth c q depth, s)) (
          add_job c
            (retell f q)
            job_name
            job_id
            payload
            (check_depth c (retell f q) (told f depth), retold s))
  unfolding add_job check_depth told
  add_job-IsRetold job_name job_id payload s (throws e) = (one_kind _ _ (unreachable _ _), refl)
  add_job-IsRetold job_name job_id payload s (ok depth) =
      elim (Bool-cases (leb c.max_queue_depth depth)) [
        | inl full ↦ rw full (one_kind _ _ (over_depth _ _ _ _), refl)
        | inr room ↦ rw room (finish_add-IsRetold s (q.add job_name job_id payload s.queue))
      ]

  dispatch-IsRetold :
      (z : Zod) (now : ℕ) (id : Option Text) (job_name id_prefix : Text) (parsed : Parsed)
      (s : Intake c q)
      → IsRetold
          (dispatch c q z now id job_name id_prefix parsed s)
          (dispatch c (retell f q) z now id job_name id_prefix parsed (retold s))
  unfolding dispatch enqueue assert_queue_has_capacity
  dispatch-IsRetold z now id job_name id_prefix (invalid issues message) s =
      (one_kind _ _ (same_issues issues message message), refl)
  dispatch-IsRetold z now id job_name id_prefix (valid d) s =
      rw (get_pending_queue_depth-retold now s) (
        add_job-IsRetold job_name _ _ (get_pending_queue_depth c q now s).1
          (get_pending_queue_depth c q now s).0)

  pub dispatch_email_job-IsRetold :
      (z : Zod) (now : ℕ) (id : Option Text) (input : Json) (s : Intake c q)
      → IsRetold
          (dispatch_email_job c q z now id input s)
          (dispatch_email_job c (retell f q) z now id input (retold s))
  unfolding dispatch_email_job
  dispatch_email_job-IsRetold z now id input s = dispatch-IsRetold z now id _ (txt "email_") _ s

  pub dispatch_webhook_job-IsRetold :
      (z : Zod) (now : ℕ) (id : Option Text) (input : Json) (s : Intake c q)
      → IsRetold
          (dispatch_webhook_job c q z now id input s)
          (dispatch_webhook_job c (retell f q) z now id input (retold s))
  unfolding dispatch_webhook_job
  dispatch_webhook_job-IsRetold z now id input s = dispatch-IsRetold z now id _ (txt "webhook_") _ s
