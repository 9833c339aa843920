-- ===== src/Processors/Overlap/Ends.antt =====
-- What a run of the webhook processor comes to before its request and after it.
use task_queue_system.Prelude.{
  ℕ, ◌+◌, suc, zero, ◌≡◌, refl, inl, inr, [], ◌∷◌, Text, List, Option, none, some, Bool, true,
  false, Bool-cases, length, arith, text_eq, ◌&&◌, not, if◌then◌else◌, filter, subst,
}
use task_queue_system.Prelude.Dict.{Dict}
use task_queue_system.Config.{Config}
use task_queue_system.Json.{Json}
use task_queue_system.Failure.{Failure, Result, ok, throws}
use task_queue_system.Schema.{webhook_delivery, JobExecutionResult}
use task_queue_system.Schema.Zod.{Parsed, valid, invalid}
use task_queue_system.Storage.{has_been_processed, record_success}
use task_queue_system.Processors.{
  JsonText, Readings, Store, Fetched, replied, failed, after_write, after_fetch, fresh_result,
  guarded, is_success, send,
}
use task_queue_system.Processors.Outcome.{Replays, replay-Replays, key_of}
use task_queue_system.Processors.Overlap.{
  Begun, ended, awaits, begin_checked, begin_parsed, finish_webhook_job, Awaiting, take_at,
  keep_first,
}

-- A result of a delivery with the key, and not a replay.
abbrev pub is_delivery : Text → JobExecutionResult → Bool
is_delivery key res = text_eq res.idempotency_key key && not res.is_duplicate

abbrev pub awaits_key : Text → Awaiting → Bool
awaits_key key a = text_eq (key_of a.data_) key

abbrev pub deliveries : Text → List JobExecutionResult → ℕ
deliveries key results = length (filter (is_delivery key) results)

abbrev pub under_way : Text → List Awaiting → ℕ
under_way key awaiting = length (filter (awaits_key key) awaiting)

-- What there is in a list without its element `a`.
abbrev pub Taken : Text → List Awaiting → Awaiting → List Awaiting → Type 0
Taken key xs a ys =
    (length xs ≡ suc (length ys))
    × (under_way key xs ≡ (if awaits_key key a then 1 else 0) + under_way key ys)

take_later :
    (key : Text) (x : Awaiting) (xs ys : List Awaiting) (a : Awaiting)
    (o : Option (Awaiting × List Awaiting))
    → ((zs : List Awaiting) → o ≡ some (a, zs) → Taken key xs a zs)
    → keep_first x o ≡ some (a, ys)
    → Taken key (x ∷ xs) a ys
unfolding keep_first
take_later key x xs ys a none taken e = absurd (none_some e)
  where
    none_some : Path (Option (Awaiting × List Awaiting)) none (some (a, ys)) → ⊥
    none_some p = cc
take_later key x xs ys a (some (y, zs)) taken e = parts (some_inj e)
  where
    some_inj :
        Path (Option (Awaiting × List Awaiting)) (some (y, x ∷ zs)) (some (a, ys))
        → (y ≡ a) × (x ∷ zs ≡ ys)
    some_inj p = (cc, cc)

    parts : (y ≡ a) × (x ∷ zs ≡ ys) → Taken key (x ∷ xs) a ys
    parts (same, rest) =
        let (l, u) = taken zs (rw same refl) in
        subst (λ t. Taken key (x ∷ xs) a t) rest (ground (arith, l, u))

pub take_at-Taken :
    (key : Text) (n : ℕ) (xs ys : List Awaiting) (a : Awaiting)
    → take_at n xs ≡ some (a, ys)
    → Taken key xs a ys
unfolding take_at
take_at-Taken key n [] ys a e = absurd (none_some e)
  where
    none_some : Path (Option (Awaiting × List Awaiting)) none (some (a, ys)) → ⊥
    none_some p = cc
take_at-Taken key zero (x ∷ xs) ys a e = parts (some_inj e)
  where
    some_inj :
        Path (Option (Awaiting × List Awaiting)) (some (x, xs)) (some (a, ys)) → (x ≡ a) × (xs ≡ ys)
    some_inj p = (cc, cc)

    parts : (x ≡ a) × (xs ≡ ys) → Taken key (x ∷ xs) a ys
    parts (same, rest) =
        subst (λ t. Taken key (x ∷ xs) t ys) same
          (subst (λ t. Taken key (x ∷ xs) x t) rest (ground arith))
take_at-Taken key (suc n) (x ∷ xs) ys a e =
    take_later key x xs ys a (take_at n xs) (λ zs h. take_at-Taken key n xs zs a h) e

-- What a run comes to up to its request: no row is changed, and a request is sent only for a pair
-- that is not processed.
abbrev pub BeginEnds : Store → Begun × Store → Type 0
BeginEnds s (ended (throws e), s') = s'.rows ≡ s.rows
BeginEnds s (ended (ok res), s') = (s'.rows ≡ s.rows) × (res.is_duplicate ≡ true)
BeginEnds s (awaits d, s') =
    (s'.rows ≡ s.rows) × (has_been_processed webhook_delivery (key_of d) s.rows ≡ false)

-- From the answer on: an error, or the row of the delivery.
abbrev pub FinishEnds : Dict Json → Store → Result JobExecutionResult × Store → Type 0
FinishEnds d s (throws e, s') = s'.rows ≡ s.rows
FinishEnds d s (ok res, s') =
    (res.idempotency_key ≡ key_of d)
    × (stored : Text) × (now : Text) × (s'.rows
        ≡ record_success (key_of d) webhook_delivery stored now s.rows)

module _ (jt : JsonText) (r : Readings) (c : Config) where
  begin_replay :
      (d : Dict Json) (s : Store) (res : Result JobExecutionResult)
      → Replays jt r webhook_delivery (key_of d) s.rows res
      → BeginEnds s (ended res, s)
  begin_replay d s (throws e) h = refl
  begin_replay d s (ok res) h = (refl, h.is_duplicate)

  begin_check :
      (d : Dict Json) (s : Store) (b : Bool) (fault : Option Failure)
      → has_been_processed webhook_delivery (key_of d) s.rows ≡ b
      → BeginEnds s (begin_checked jt r c d s (guarded fault b))
  unfolding begin_checked guarded send
  begin_check d s b (some e) h = refl
  begin_check d s true none h =
      begin_replay d s _ (replay-Replays jt r webhook_delivery (key_of d) s.rows h)
  begin_check d s false none h = (refl, h)

  pub begin_ends : (parsed : Parsed) (s : Store) → BeginEnds s (begin_parsed jt r c parsed s)
  unfolding begin_parsed
  begin_ends (invalid issues message) s = refl
  begin_ends (valid d) s = begin_check d s _ r.read_fault refl

  finish_write :
      (d : Dict Json) (s : Store) (j : Json) (fault : Option Failure)
      → FinishEnds d s (after_write jt r webhook_delivery (key_of d) j s fault)
  unfolding after_write fresh_result
  finish_write d s j (some e) = refl
  finish_write d s j none = (refl, jt.stringify j, r.recorded_at, refl)

  pub finish_ends : (d : Dict Json) (s : Store) → FinishEnds d s (finish_webhook_job jt r c d s)
  unfolding finish_webhook_job after_fetch
  finish_ends d s = by_answer r.fetched
    where
      by_answer : (f : Fetched) → FinishEnds d s (after_fetch jt r d s f)
      by_answer (failed reason) = refl
      by_answer (replied status) = elim (Bool-cases (is_success status)) [
        | inl k ↦ rw k (finish_write d s _ r.write_fault)
        | inr k ↦ rw k refl
      ]
