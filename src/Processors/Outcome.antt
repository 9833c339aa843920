-- ===== src/Processors/Outcome.antt =====
-- What a run of a processor comes to, on every path.
use task_queue_system.Prelude.{
  ◌≡◌, ◌⊎◌, refl, inl, inr, Text, txt, List, Option, none, some, Bool, true, false, Bool-cases, ◌∷◌,
  ℕ,
}
use task_queue_system.Prelude.Dict.{Dict}
use task_queue_system.Config.{Config}
use task_queue_system.Json.{Json}
use task_queue_system.Failure.{Failure, Result, ok, throws, ◌>>=◌}
use task_queue_system.Schema.{
  email_notification, webhook_delivery, email_job_record_schema, webhook_job_record_schema,
  JobExecutionResult,
}
use task_queue_system.Schema.Zod.{Zod, Parsed, valid, invalid}
use task_queue_system.Storage.{Row, completed, get_record, has_been_processed, record_success}
use task_queue_system.Storage.Completed.{processed_row}
use task_queue_system.Queue.{Job}
use task_queue_system.Producer.{text_at}
use task_queue_system.Processors.{
  JsonText, Fetched, replied, failed, Readings, Outgoing, Store, guarded, replay, stored_json,
  after_write, after_fetch, email_checked, webhook_checked, email_parsed, webhook_parsed,
  process_email_job, process_webhook_job, resolve_webhook_destination, is_success, replayed, send,
  email_data, request_of, webhook_data,
}

abbrev pub key_of : Dict Json → Text
key_of d = text_at (txt "idempotencyKey") d

-- The answer to a duplicate: the stored record has the job name and the key, is COMPLETED, and its
-- JSON is what the answer carries.
pub record IsReplay (jt : JsonText) (job_name key : Text) (rows : List Row)
    (res : JobExecutionResult) : Type 0 where
  pub row : Row
  pub found : get_record job_name key rows ≡ some row
  pub status : row.status ≡ completed
  pub same_data : jt.parse (stored_json (some row)) ≡ ok res.data_
  pub is_duplicate : res.is_duplicate ≡ true
  pub same_key : res.idempotency_key ≡ key

-- The answer of a run that did the work: the pair was not processed, and its result is stored.
pub record IsDone (jt : JsonText) (job_name key now : Text) (rows rows' : List Row)
    (res : JobExecutionResult) : Type 0 where
  pub fresh : has_been_processed job_name key rows ≡ false
  pub is_duplicate : res.is_duplicate ≡ false
  pub same_key : res.idempotency_key ≡ key
  pub stored : rows' ≡ record_success key job_name (jt.stringify res.data_) now rows

-- The one request of a delivery: to the destination's own address, with the job's key, and answered
-- with a success.
pub record IsDelivered (c : Config) (r : Readings) (d : Dict Json) (s s' : Store) : Type 0 where
  pub code : ℕ
  pub answered : r.fetched ≡ replied code
  pub success : is_success code ≡ true
  pub outgoing : Outgoing
  pub sent : s'.sent ≡ outgoing ∷ s.sent
  pub url : outgoing.url ≡ resolve_webhook_destination c (text_at (txt "destination") d)
  pub key : outgoing.key ≡ key_of d

-- An error leaves the store as it was.
abbrev pub EmailEnds :
    JsonText → Readings → Parsed → Store → Result JobExecutionResult × Store → Type 0
EmailEnds jt r parsed s (throws e, s') = s' ≡ s
EmailEnds jt r parsed s (ok res, s') =
    (d : Dict Json) × (parsed ≡ valid d)
    × ((IsReplay jt email_notification (key_of d) s.rows res × (s' ≡ s))
        ⊎ (IsDone jt email_notification (key_of d) r.recorded_at s.rows s'.rows res
            × (s'.sent ≡ s.sent)))

-- An error leaves the rows as they were, and at most one request was sent.
abbrev pub WebhookEnds :
    JsonText → Readings → Config → Parsed → Store → Result JobExecutionResult × Store → Type 0
WebhookEnds jt r c parsed s (throws e, s') =
    (s'.rows ≡ s.rows) × ((s'.sent ≡ s.sent) ⊎ ((o : Outgoing) × (s'.sent ≡ o ∷ s.sent)))
WebhookEnds jt r c parsed s (ok res, s') =
    (d : Dict Json) × (parsed ≡ valid d)
    × ((IsReplay jt webhook_delivery (key_of d) s.rows res × (s' ≡ s))
        ⊎ (IsDone jt webhook_delivery (key_of d) r.recorded_at s.rows s'.rows res
            × IsDelivered c r d s s'))

module _ (jt : JsonText) (r : Readings) where
  -- What the answer to a duplicate comes to.
  abbrev pub Replays : Text → Text → List Row → Result JobExecutionResult → Type 0
  Replays job_name key rows (throws e) = Unit {0}
  Replays job_name key rows (ok res) = IsReplay jt job_name key rows res

  after_parse :
      (job_name key : Text) (rows : List Row) (row : Row) (parsed : Result Json)
      → get_record job_name key rows ≡ some row
      → row.status ≡ completed
      → jt.parse (stored_json (some row)) ≡ parsed
      → Replays job_name key rows
          (parsed >>= λ data_. ok (replayed jt r job_name key (some row) data_))
  unfolding replayed
  after_parse job_name key rows row (throws e) found k p = tt
  after_parse job_name key rows row (ok data_) found k p = record {
    row = row;
    found = found;
    status = k;
    same_data = p;
    is_duplicate = refl;
    same_key = refl;
  }

  after_reread :
      (job_name key : Text) (rows : List Row) (row : Row) (fault : Option Failure)
      → get_record job_name key rows ≡ some row
      → row.status ≡ completed
      → Replays job_name key rows (
          guarded fault (some row) >>= λ existing. jt.parse (stored_json existing) >>= λ data_.
          ok (replayed jt r job_name key existing data_))
  unfolding guarded
  after_reread job_name key rows row (some e) found k = tt
  after_reread job_name key rows row none found k =
      after_parse job_name key rows row (jt.parse (stored_json (some row))) found k refl

  pub replay-Replays :
      (job_name key : Text) (rows : List Row)
      → has_been_processed job_name key rows ≡ true
      → Replays job_name key rows (replay jt r job_name key rows)
  unfolding replay
  replay-Replays job_name key rows h =
      let (row, found, k) = processed_row job_name key rows h in
      rw found (after_reread job_name key rows row r.reread_fault found k)

  -- A replay as an ending of either job.
  email_replay :
      (d : Dict Json) (s : Store) (res : Result JobExecutionResult)
      → Replays email_notification (key_of d) s.rows res
      → EmailEnds jt r (valid d) s (res, s)
  email_replay d s (throws e) h = refl
  email_replay d s (ok res) h = (d, refl, inl (h, refl))

  webhook_replay :
      (c : Config) (d : Dict Json) (s : Store) (res : Result JobExecutionResult)
      → Replays webhook_delivery (key_of d) s.rows res
      → WebhookEnds jt r c (valid d) s (res, s)
  webhook_replay c d s (throws e) h = (refl, inl refl)
  webhook_replay c d s (ok res) h = (d, refl, inl (h, refl))

  email_write :
      (d : Dict Json) (s : Store) (data_ : Json) (fault : Option Failure)
      → has_been_processed email_notification (key_of d) s.rows ≡ false
      → EmailEnds jt r (valid d) s (after_write jt r email_notification (key_of d) data_ s fault)
  unfolding after_write
  email_write d s data_ (some e) h = refl
  email_write d s data_ none h = (
    d,
    refl,
    inr (record { fresh = h; is_duplicate = refl; same_key = refl; stored = refl }, refl),
  )

  webhook_write :
      (c : Config) (d : Dict Json) (s : Store) (data_ : Json) (fault : Option Failure) (code : ℕ)
      → has_been_processed webhook_delivery (key_of d) s.rows ≡ false
      → r.fetched ≡ replied code
      → is_success code ≡ true
      → WebhookEnds jt r c (valid d) s (
          after_write jt r webhook_delivery
            (key_of d)
            data_
            (send jt r (request_of jt r c d) s)
            fault)
  unfolding after_write send request_of
  webhook_write c d s data_ (some e) code h a k = (refl, inr (_, refl))
  webhook_write c d s data_ none code h a k = (
    d,
    refl,
    inr (
      record { fresh = h; is_duplicate = refl; same_key = refl; stored = refl },
      record {
        code = code;
        answered = a;
        success = k;
        outgoing = request_of jt r c d;
        sent = refl;
        url = refl;
        key = refl;
      },
    ),
  )

  webhook_fetch :
      (c : Config) (d : Dict Json) (s : Store) (fetched : Fetched)
      → has_been_processed webhook_delivery (key_of d) s.rows ≡ false
      → r.fetched ≡ fetched
      → WebhookEnds jt r c
          (valid d)
          s
          (after_fetch jt r d (send jt r (request_of jt r c d) s) fetched)
  unfolding after_fetch
  webhook_fetch c d s (failed reason) h a = unfold send in (refl, inr (_, refl))
  webhook_fetch c d s (replied code) h a = elim (Bool-cases (is_success code)) [
    | inl k ↦ rw k (webhook_write c d s (webhook_data jt r d code) r.write_fault code h a k)
    | inr k ↦ rw k (unfold send in (refl, inr (_, refl)))
  ]

  email_check :
      (d : Dict Json) (s : Store) (b : Bool) (fault : Option Failure)
      → has_been_processed email_notification (key_of d) s.rows ≡ b
      → EmailEnds jt r (valid d) s (email_checked jt r d s (guarded fault b))
  unfolding email_checked guarded
  email_check d s b (some e) h = refl
  email_check d s true none h =
      email_replay d s _ (replay-Replays email_notification (key_of d) s.rows h)
  email_check d s false none h = email_write d s (email_data jt r d) r.write_fault h

  webhook_check :
      (c : Config) (d : Dict Json) (s : Store) (b : Bool) (fault : Option Failure)
      → has_been_processed webhook_delivery (key_of d) s.rows ≡ b
      → WebhookEnds jt r c (valid d) s (webhook_checked jt r c d s (guarded fault b))
  unfolding webhook_checked guarded
  webhook_check c d s b (some e) h = (refl, inl refl)
  webhook_check c d s true none h =
      webhook_replay c d s _ (replay-Replays webhook_delivery (key_of d) s.rows h)
  webhook_check c d s false none h = webhook_fetch c d s r.fetched h refl

  email_ends : (parsed : Parsed) (s : Store) → EmailEnds jt r parsed s (email_parsed jt r parsed s)
  unfolding email_parsed
  email_ends (invalid issues message) s = refl
  email_ends (valid d) s = email_check d s _ r.read_fault refl

  webhook_ends :
      (c : Config) (parsed : Parsed) (s : Store)
      → WebhookEnds jt r c parsed s (webhook_parsed jt r c parsed s)
  unfolding webhook_parsed
  webhook_ends c (invalid issues message) s = (refl, inl refl)
  webhook_ends c (valid d) s = webhook_check c d s _ r.read_fault refl

-- A run of the email processor that throws leaves the store as it was. One that returns has read a
-- valid payload; if its key has a COMPLETED email record, the answer carries that record's data and
-- the store is as it was, and else the answer's data is stored as the COMPLETED record of the key.
pub process_email_job-EmailEnds :
    (jt : JsonText) (r : Readings) (z : Zod) (job : Job) (s : Store)
    → EmailEnds jt r
        (z.parse email_job_record_schema job.payload)
        s
        (process_email_job jt r z job s)
unfolding process_email_job
process_email_job-EmailEnds jt r z job s =
    email_ends jt r (z.parse email_job_record_schema job.payload) s

-- A run of the webhook processor that throws leaves the rows as they were and has sent one request
-- at most. One that returns has read a valid payload; if its key has a COMPLETED webhook record, the
-- answer carries that record's data and no request is sent, and else exactly one request went to the
-- destination's address, was answered with a status from 200 to 299, and the answer's data is stored.
pub process_webhook_job-WebhookEnds :
    (jt : JsonText) (r : Readings) (z : Zod) (c : Config) (job : Job) (s : Store)
    → WebhookEnds jt r c
        (z.parse webhook_job_record_schema job.payload)
        s
        (process_webhook_job jt r z c job s)
unfolding process_webhook_job
process_webhook_job-WebhookEnds jt r z c job s =
    webhook_ends jt r c (z.parse webhook_job_record_schema job.payload) s
