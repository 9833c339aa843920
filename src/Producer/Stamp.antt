-- ===== src/Producer/Stamp.antt =====
-- From the producer to a processor: what the input schema accepts and the producer stamps, the
-- record schema accepts as it stands.
use task_queue_system.Prelude.{
  ℕ, ◌≡◌, refl, [], ◌∷◌, Text, txt, Option, none, some, Bool, true, arith, leb, includes, text_eq,
  ◌≤◌,
}
use task_queue_system.Prelude.Dict.{Dict, lookup, insert}
use task_queue_system.Json.{Json, text, object}
use task_queue_system.Context.Normal.{IsNormal}
use task_queue_system.Schema.{
  string, enumeration, record_or_empty, email_job_data_schema, email_job_record_schema,
  webhook_job_data_schema, webhook_job_record_schema, at_least, at_most, correlation_id_schema,
  email, idempotency_key, webhook_destinations,
}
use task_queue_system.Schema.Zod.{
  Zod, IsZod, valid, accepts, outputs, field_output, meets, only_known, add_output,
}
use task_queue_system.Producer.{stamp}
use task_queue_system.Schema.Fixed.{IsFixed, outputs_cons, outputs_nil, accepted_object}

-- A correlation ID that the producer may stamp: none, or a normal one.
abbrev pub IsStampable : Option Text → Type 0
IsStampable none = Unit {0}
IsStampable (some t) = IsNormal t

leb_of_le : {a b : ℕ} → a ≤ b → leb a b ≡ true
leb_of_le h = ground (arith, h)

abbrev email_fields : (to subject body key : Json) → Dict Json
email_fields to subject body key =
    (txt "to", to)
    ∷ (txt "subject", subject)
    ∷ (txt "body", body)
    ∷ (txt "idempotencyKey", key)
    ∷ []

abbrev webhook_fields : (destination event payload key : Json) → Dict Json
webhook_fields destination event payload key =
    (txt "destination", destination)
    ∷ (txt "event", event)
    ∷ (txt "payload", payload)
    ∷ (txt "idempotencyKey", key)
    ∷ []

four_fields :
    {p q r t : Text × Json} {d r1 r2 r3 r4 : Dict Json}
    → d ≡ p ∷ r1
    → r1 ≡ q ∷ r2
    → r2 ≡ r ∷ r3
    → r3 ≡ t ∷ r4
    → r4 ≡ []
    → d ≡ p ∷ q ∷ r ∷ t ∷ []
four_fields a b c d e = cc

module _ (is_email : Text → Bool) where
  normal_fits : (t : Text) → IsNormal t → IsFixed is_email correlation_id_schema (text t)
  unfolding field_output meets
  normal_fits t n = rw (leb_of_le n.some_text, leb_of_le n.short) refl

  email_fixed :
      (correlation_id : Option Text) (to subject body key : Json)
      → IsStampable correlation_id
      → IsFixed is_email (string (email ∷ [])) to
      → IsFixed is_email (string (at_least 1 ∷ at_most 500 ∷ [])) subject
      → IsFixed is_email (string (at_most 100000 ∷ [])) body
      → IsFixed is_email idempotency_key key
      → accepts is_email email_job_record_schema
          (object (stamp correlation_id (email_fields to subject body key)))
        ≡ some (stamp correlation_id (email_fields to subject body key))
  unfolding accepts outputs only_known stamp insert lookup text_eq includes add_output
  email_fixed none to subject body key n a b c d = rw (a, b, c, d) refl
  email_fixed (some []) to subject body key n a b c d = rw (a, b, c, d) refl
  email_fixed (some (x ∷ t)) to subject body key n a b c d =
      rw (a, b, c, d, normal_fits (x ∷ t) n) refl

  webhook_fixed :
      (correlation_id : Option Text) (destination event payload key : Json)
      → IsStampable correlation_id
      → IsFixed is_email (enumeration webhook_destinations) destination
      → IsFixed is_email (string (at_least 1 ∷ at_most 200 ∷ [])) event
      → IsFixed is_email record_or_empty payload
      → IsFixed is_email idempotency_key key
      → accepts is_email webhook_job_record_schema
          (object (stamp correlation_id (webhook_fields destination event payload key)))
        ≡ some (stamp correlation_id (webhook_fields destination event payload key))
  unfolding accepts outputs only_known stamp insert lookup text_eq includes add_output
  webhook_fixed none destination event payload key n a b c d = rw (a, b, c, d) refl
  webhook_fixed (some []) destination event payload key n a b c d = rw (a, b, c, d) refl
  webhook_fixed (some (x ∷ t)) destination event payload key n a b c d =
      rw (a, b, c, d, normal_fits (x ∷ t) n) refl

  email_accepted :
      (correlation_id : Option Text) (input : Json) (d : Dict Json)
      → IsStampable correlation_id
      → accepts is_email email_job_data_schema input ≡ some d
      → accepts is_email email_job_record_schema (object (stamp correlation_id d))
        ≡ some (stamp correlation_id d)
  email_accepted correlation_id input d n e =
      let (m, o) = accepted_object is_email email_job_data_schema input d e in
      let (a, r1, fa, o1, e1) = outputs_cons is_email _ _ _ m d tt o in
      let (b, r2, fb, o2, e2) = outputs_cons is_email _ _ _ m r1 tt o1 in
      let (x, r3, fx, o3, e3) = outputs_cons is_email _ _ _ m r2 tt o2 in
      let (k, r4, fk, o4, e4) = outputs_cons is_email _ _ _ m r3 tt o3 in
      let same : d ≡ email_fields a b x k =
        four_fields e1 e2 e3 e4 (outputs_nil is_email m r4 o4) in
      rw same (email_fixed correlation_id a b x k n fa fb fx fk)

  webhook_accepted :
      (correlation_id : Option Text) (input : Json) (d : Dict Json)
      → IsStampable correlation_id
      → accepts is_email webhook_job_data_schema input ≡ some d
      → accepts is_email webhook_job_record_schema (object (stamp correlation_id d))
        ≡ some (stamp correlation_id d)
  webhook_accepted correlation_id input d n e =
      let (m, o) = accepted_object is_email webhook_job_data_schema input d e in
      let (a, r1, fa, o1, e1) = outputs_cons is_email _ _ _ m d tt o in
      let (b, r2, fb, o2, e2) = outputs_cons is_email _ _ _ m r1 tt o1 in
      let (x, r3, fx, o3, e3) = outputs_cons is_email _ _ _ m r2 tt o2 in
      let (k, r4, fk, o4, e4) = outputs_cons is_email _ _ _ m r3 tt o3 in
      let same : d ≡ webhook_fields a b x k =
        four_fields e1 e2 e3 e4 (outputs_nil is_email m r4 o4) in
      rw same (webhook_fixed correlation_id a b x k n fa fb fx fk)

-- For zod's documented behaviour: data that the email job's input schema accepts, stamped with a
-- normal correlation ID or with none, is accepted by the processor's record schema and comes out of
-- it unchanged, so no job that the producer has taken fails for its schema.
pub stamped_email_job :
    (z : Zod) (correlation_id : Option Text) (input : Json) (d : Dict Json)
    → IsZod z
    → IsStampable correlation_id
    → z.parse email_job_data_schema input ≡ valid d
    → z.parse email_job_record_schema (object (stamp correlation_id d))
      ≡ valid (stamp correlation_id d)
stamped_email_job z correlation_id input d law n e = (law.parses email_job_record_schema _ _).1 (
    email_accepted z.is_email correlation_id input d n
      ((law.parses email_job_data_schema input d).0 e))

-- For zod's documented behaviour: data that the webhook job's input schema accepts, with its default
-- payload filled in, and stamped with a normal correlation ID or with none, is accepted by the
-- processor's record schema and comes out of it unchanged.
pub stamped_webhook_job :
    (z : Zod) (correlation_id : Option Text) (input : Json) (d : Dict Json)
    → IsZod z
    → IsStampable correlation_id
    → z.parse webhook_job_data_schema input ≡ valid d
    → z.parse webhook_job_record_schema (object (stamp correlation_id d))
      ≡ valid (stamp correlation_id d)
stamped_webhook_job z correlation_id input d law n e =
    (law.parses webhook_job_record_schema _ _).1 (
      webhook_accepted z.is_email correlation_id input d n
        ((law.parses webhook_job_data_schema input d).0 e))
