-- ===== src/Processors/Replay.antt =====
-- Work that was done once is not done again.
use task_queue_system.Prelude.{
  ◌≡◌, ◌≢◌, refl, inl, inr, Text, List, none, some, true, false, ◌∷◌, [], subst,
}
use task_queue_system.Prelude.Dict.{Dict}
use task_queue_system.Config.{Config}
use task_queue_system.Json.{Json}
use task_queue_system.Failure.{ok}
use task_queue_system.Schema.{
  email_notification, webhook_delivery, email_job_record_schema, webhook_job_record_schema,
  JobExecutionResult,
}
use task_queue_system.Schema.Zod.{Zod, Parsed, valid}
use task_queue_system.Storage.{Row, completed, get_record, has_been_processed}
use task_queue_system.Storage.Completed.{get_record-record_success, IsRecorded}
use task_queue_system.Queue.{Job}
use task_queue_system.Processors.{
  JsonText, Readings, Store, guarded, replay, stored_json, replayed, email_checked, webhook_checked,
  email_parsed, webhook_parsed, process_email_job, process_webhook_job,
}
use task_queue_system.Processors.Runs.{Run, run_all, run_all_keeps}
use task_queue_system.Processors.Outcome.{
  EmailEnds, WebhookEnds, IsDone, key_of, process_email_job-EmailEnds,
  process_webhook_job-WebhookEnds,
}

-- JSON gives back the value that was written.
pub record IsRestored (jt : JsonText) (j : Json) : Type 0 where
  pub back : jt.parse (jt.stringify j) ≡ ok j
  pub some_text : jt.stringify j ≢ []

stored_json-some :
    (row : Row) (t : Text) → row.result_json ≡ t → t ≢ [] → stored_json (some row) ≡ t
unfolding stored_json
stored_json-some row [] e h = absurd (h refl)
stored_json-some row (c ∷ t) e h = rw e refl

-- The answer that a stored row gives to a duplicate.
pub record IsSameAnswer (res res' : JobExecutionResult) : Type 0 where
  pub is_duplicate : res'.is_duplicate ≡ true
  pub data_ : res'.data_ ≡ res.data_
  pub key : res'.idempotency_key ≡ res.idempotency_key

module _ (jt : JsonText) where
  replay_found :
      (r : Readings) (job_name key : Text) (rows : List Row) (row : Row) (j : Json)
      → get_record job_name key rows ≡ some row
      → r.reread_fault ≡ none
      → jt.parse (stored_json (some row)) ≡ ok j
      → replay jt r job_name key rows ≡ ok (replayed jt r job_name key (some row) j)
  unfolding replay guarded
  replay_found r job_name key rows row j found no_fault p = rw (no_fault, found, p) refl

  processed_found :
      (job_name key : Text) (rows : List Row) (row : Row)
      → get_record job_name key rows ≡ some row
      → row.status ≡ completed
      → has_been_processed job_name key rows ≡ true
  unfolding has_been_processed
  processed_found job_name key rows row found k = rw (found, k) refl

  restored :
      (j : Json) (row : Row) (now : Text)
      → IsRestored jt j
      → IsRecorded (jt.stringify j) now row
      → jt.parse (stored_json (some row)) ≡ ok j
  restored j row now h i = rw (stored_json-some row _ i.result_json h.some_text) h.back

  duplicate_webhook :
      (r : Readings) (z : Zod) (c : Config) (job : Job) (s : Store) (d : Dict Json) (row : Row)
      (j : Json)
      → z.parse webhook_job_record_schema job.payload ≡ valid d
      → r.read_fault ≡ none
      → r.reread_fault ≡ none
      → get_record webhook_delivery (key_of d) s.rows ≡ some row
      → row.status ≡ completed
      → jt.parse (stored_json (some row)) ≡ ok j
      → process_webhook_job jt r z c job s
        ≡ (ok (replayed jt r webhook_delivery (key_of d) (some row) j), s)
  unfolding process_webhook_job webhook_parsed webhook_checked guarded
  duplicate_webhook r z c job s d row j valid_d no_fault no_refault found k p =
      rw
        (
          valid_d,
          no_fault,
          processed_found webhook_delivery (key_of d) s.rows row found k,
          replay_found r webhook_delivery (key_of d) s.rows row j found no_refault p,
        )
        refl

  duplicate_email :
      (r : Readings) (z : Zod) (job : Job) (s : Store) (d : Dict Json) (row : Row) (j : Json)
      → z.parse email_job_record_schema job.payload ≡ valid d
      → r.read_fault ≡ none
      → r.reread_fault ≡ none
      → get_record email_notification (key_of d) s.rows ≡ some row
      → row.status ≡ completed
      → jt.parse (stored_json (some row)) ≡ ok j
      → process_email_job jt r z job s
        ≡ (ok (replayed jt r email_notification (key_of d) (some row) j), s)
  unfolding process_email_job email_parsed email_checked guarded
  duplicate_email r z job s d row j valid_d no_fault no_refault found k p =
      rw
        (
          valid_d,
          no_fault,
          processed_found email_notification (key_of d) s.rows row found k,
          replay_found r email_notification (key_of d) s.rows row j found no_refault p,
        )
        refl

module _ (jt : JsonText) (r : Readings) (c : Config) (res : JobExecutionResult)
    (did : res.is_duplicate ≡ false) where
  -- The pair of the answer is stored with its data.
  abbrev Stored : Text → List Row → Type 0
  Stored job_name rows =
      (row : Row) × (get_record job_name res.idempotency_key rows ≡ some row)
      × IsRecorded (jt.stringify res.data_) r.recorded_at row

  done-Stored :
      (job_name key : Text) (rows rows' : List Row)
      → IsDone jt job_name key r.recorded_at rows rows' res
      → Stored job_name rows'
  done-Stored job_name key rows rows' d =
      rw (d.stored, d.same_key)
        (get_record-record_success job_name key (jt.stringify res.data_) r.recorded_at rows)

  email-Stored :
      (parsed : Parsed) (s : Store) (s' : Store)
      → EmailEnds jt r parsed s (ok res, s')
      → Stored email_notification s'.rows
  email-Stored parsed s s' (d, p, inl (replay, same)) = absurd (true_ne_false replay.is_duplicate)
    where
      true_ne_false : res.is_duplicate ≡ true → ⊥
      true_ne_false e = cc
  email-Stored parsed s s' (d, p, inr (done, sent)) =
      done-Stored email_notification (key_of d) s.rows s'.rows done

  webhook-Stored :
      (parsed : Parsed) (s : Store) (s' : Store)
      → WebhookEnds jt r c parsed s (ok res, s')
      → Stored webhook_delivery s'.rows
  webhook-Stored parsed s s' (d, p, inl (replay, same)) = absurd (true_ne_false replay.is_duplicate)
    where
      true_ne_false : res.is_duplicate ≡ true → ⊥
      true_ne_false e = cc
  webhook-Stored parsed s s' (d, p, inr (done, sent)) =
      done-Stored webhook_delivery (key_of d) s.rows s'.rows done

pair_of {ℓ κ} : {A : Type ℓ} {B : Type κ} (o : A × B) (a : A) → o.0 ≡ a → o ≡ (a, o.1)
pair_of (a', b) a e = rw e refl

-- A webhook job has been delivered, by a run that did not answer a duplicate, and its data can be
-- read back from JSON. Whatever runs of either processor come in between, a run of a valid webhook
-- job with the same key, whose reads of the store succeed, answers with the data of the first, as a
-- duplicate, and leaves the store as it was: no second request is sent.
pub webhook_once :
    (jt : JsonText) (z : Zod) (c : Config) (r r' : Readings) (job job' : Job) (s : Store)
    (xs : List Run) (d : Dict Json) (res : JobExecutionResult)
    → (process_webhook_job jt r z c job s).0 ≡ ok res
    → res.is_duplicate ≡ false
    → IsRestored jt res.data_
    → z.parse webhook_job_record_schema job'.payload ≡ valid d
    → key_of d ≡ res.idempotency_key
    → r'.read_fault ≡ none
    → r'.reread_fault ≡ none
    → (res' : JobExecutionResult) × (process_webhook_job jt r' z c job'
          (run_all jt z c (process_webhook_job jt r z c job s).1 xs)
        ≡ (ok res', run_all jt z c (process_webhook_job jt r z c job s).1 xs))
      × IsSameAnswer res res'
webhook_once jt z c r r' job job' s xs d res first did restores valid_d same_key no_fault
      no_refault =
    let s1 = (process_webhook_job jt r z c job s).1 in
    let s2 = run_all jt z c s1 xs in
    let ends =
      subst (λ o. WebhookEnds jt r c (z.parse webhook_job_record_schema job.payload) s o)
        (pair_of (process_webhook_job jt r z c job s) (ok res) first)
        (process_webhook_job-WebhookEnds jt r z c job s) in
    let (row, found, recorded) = webhook-Stored jt r c res did _ s s1 ends in
    let kept =
      run_all_keeps jt z c webhook_delivery res.idempotency_key row recorded.status s1 xs found in
    (
      replayed jt r' webhook_delivery (key_of d) (some row) res.data_,
      duplicate_webhook jt r' z c job' s2 d row res.data_ valid_d no_fault no_refault
          (rw same_key kept) recorded.status
          (restored jt res.data_ row r.recorded_at restores recorded),
      unfold replayed in record { is_duplicate = refl; data_ = refl; key = same_key },
    )

-- An email job has been run, without answering a duplicate, and its data can be read back from JSON.
-- Whatever runs of either processor come in between, a run of a valid email job with the same key,
-- whose reads of the store succeed, answers with the data of the first, as a duplicate, and leaves
-- the store as it was.
pub email_once :
    (jt : JsonText) (z : Zod) (c : Config) (r r' : Readings) (job job' : Job) (s : Store)
    (xs : List Run) (d : Dict Json) (res : JobExecutionResult)
    → (process_email_job jt r z job s).0 ≡ ok res
    → res.is_duplicate ≡ false
    → IsRestored jt res.data_
    → z.parse email_job_record_schema job'.payload ≡ valid d
    → key_of d ≡ res.idempotency_key
    → r'.read_fault ≡ none
    → r'.reread_fault ≡ none
    → (res' : JobExecutionResult) × (process_email_job jt r' z job'
          (run_all jt z c (process_email_job jt r z job s).1 xs)
        ≡ (ok res', run_all jt z c (process_email_job jt r z job s).1 xs))
      × IsSameAnswer res res'
email_once jt z c r r' job job' s xs d res first did restores valid_d same_key no_fault no_refault =
    let s1 = (process_email_job jt r z job s).1 in
    let s2 = run_all jt z c s1 xs in
    let ends =
      subst (λ o. EmailEnds jt r (z.parse email_job_record_schema job.payload) s o)
        (pair_of (process_email_job jt r z job s) (ok res) first)
        (process_email_job-EmailEnds jt r z job s) in
    let (row, found, recorded) = email-Stored jt r c res did _ s s1 ends in
    let kept =
      run_all_keeps jt z c email_notification res.idempotency_key row recorded.status s1 xs found in
    (
      replayed jt r' email_notification (key_of d) (some row) res.data_,
      duplicate_email jt r' z job' s2 d row res.data_ valid_d no_fault no_refault (rw same_key kept)
          recorded.status (restored jt res.data_ row r.recorded_at restores recorded),
      unfold replayed in record { is_duplicate = refl; data_ = refl; key = same_key },
    )
