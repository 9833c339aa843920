-- ===== src/Schema/Fixed.antt =====
-- What a schema puts out, it accepts as it stands.
use task_queue_system.Prelude.{
  ◌≡◌, refl, inl, inr, [], ◌∷◌, Text, Option, none, some, Bool, true, false, if◌then◌else◌,
  Bool-cases, includes, sym,
}
use task_queue_system.Prelude.Dict.{Dict, lookup}
use task_queue_system.Json.{Json, null, boolean, number, text, array, fields, entries, object}
use task_queue_system.Schema.{
  FieldType, string, optional_string, enumeration, record_or_empty, Schema,
}
use task_queue_system.Schema.Zod.{
  accepts, outputs, field_output, meets, only_known, add_output, field_names,
}

-- A field that every output has.
abbrev pub IsRequired : FieldType → Type 0
IsRequired (optional_string cs) = ⊥
IsRequired _ = Unit

same_json : (a b : Json) → Path (Option (Option Json)) (some (some a)) (some (some b)) → a ≡ b
same_json a b e = cc

if_text :
    (b : Bool) (t : Text) (j : Json)
    → Path (Option (Option Json)) (if b then some (some (text t)) else none) (some (some j))
    → (b ≡ true) × (j ≡ text t)
if_text true t j e = (refl, sym (same_json (text t) j e))
if_text false t j e = cc

same_fields : (a b : Dict Json) → some a ≡ some b → a ≡ b
same_fields a b e = cc

if_text_some :
    (b : Bool) (t : Text)
    → Path (Option (Option Json)) (if b then some (some (text t)) else none) (some none)
    → ⊥
if_text_some true t e = cc
if_text_some false t e = cc

module _ (is_email : Text → Bool) where
  -- A field's output is accepted again as it stands.
  abbrev pub IsFixed : FieldType → Json → Type 0
  IsFixed type j = field_output is_email type (some j) ≡ some (some j)

  fixed :
      (type : FieldType) (v : Option Json) (j : Json)
      → field_output is_email type v ≡ some (some j)
      → IsFixed type j
  unfolding field_output
  fixed (string cs) none j e = cc
  fixed (string cs) (some null) j e = cc
  fixed (string cs) (some (boolean b)) j e = cc
  fixed (string cs) (some (number n)) j e = cc
  fixed (string cs) (some (text t)) j e =
      let (h, same) = if_text (meets is_email cs t) t j e in rw (same, h) refl
  fixed (string cs) (some (array xs)) j e = cc
  fixed (string cs) (some (fields m)) j e = cc
  fixed (optional_string cs) none j e = cc
  fixed (optional_string cs) (some null) j e = cc
  fixed (optional_string cs) (some (boolean b)) j e = cc
  fixed (optional_string cs) (some (number n)) j e = cc
  fixed (optional_string cs) (some (text t)) j e =
      let (h, same) = if_text (meets is_email cs t) t j e in rw (same, h) refl
  fixed (optional_string cs) (some (array xs)) j e = cc
  fixed (optional_string cs) (some (fields m)) j e = cc
  fixed (enumeration names) none j e = cc
  fixed (enumeration names) (some null) j e = cc
  fixed (enumeration names) (some (boolean b)) j e = cc
  fixed (enumeration names) (some (number n)) j e = cc
  fixed (enumeration names) (some (text t)) j e =
      let (h, same) = if_text (includes names t) t j e in rw (same, h) refl
  fixed (enumeration names) (some (array xs)) j e = cc
  fixed (enumeration names) (some (fields m)) j e = cc
  fixed record_or_empty none j e = rw (← same_json (object []) j e) refl
  fixed record_or_empty (some null) j e = cc
  fixed record_or_empty (some (boolean b)) j e = cc
  fixed record_or_empty (some (number n)) j e = cc
  fixed record_or_empty (some (text t)) j e = cc
  fixed record_or_empty (some (array xs)) j e = cc
  fixed record_or_empty (some (fields m)) j e = rw (← same_json (fields m) j e) refl

  required :
      (type : FieldType) (v : Option Json)
      → IsRequired type
      → field_output is_email type v ≡ some none
      → ⊥
  unfolding field_output
  required (string cs) none r e = cc
  required (string cs) (some null) r e = cc
  required (string cs) (some (boolean b)) r e = cc
  required (string cs) (some (number n)) r e = cc
  required (string cs) (some (text t)) r e = if_text_some (meets is_email cs t) t e
  required (string cs) (some (array xs)) r e = cc
  required (string cs) (some (fields m)) r e = cc
  required (enumeration names) none r e = cc
  required (enumeration names) (some null) r e = cc
  required (enumeration names) (some (boolean b)) r e = cc
  required (enumeration names) (some (number n)) r e = cc
  required (enumeration names) (some (text t)) r e = if_text_some (includes names t) t e
  required (enumeration names) (some (array xs)) r e = cc
  required (enumeration names) (some (fields m)) r e = cc
  required record_or_empty none r e = cc
  required record_or_empty (some null) r e = cc
  required record_or_empty (some (boolean b)) r e = cc
  required record_or_empty (some (number n)) r e = cc
  required record_or_empty (some (text t)) r e = cc
  required record_or_empty (some (array xs)) r e = cc
  required record_or_empty (some (fields m)) r e = cc
  required (optional_string cs) v r e = r

  cons_cases :
      (name : Text) (type : FieldType) (v : Option Json) (out : Option (Option Json))
      (rest : Option (Dict Json)) (d : Dict Json)
      → IsRequired type
      → field_output is_email type v ≡ out
      → add_output is_email name out rest ≡ some d
      → (j : Json) × (m : Dict Json) × IsFixed type j × (rest ≡ some m) × (d ≡ (name, j) ∷ m)
  unfolding add_output
  cons_cases name type v none rest d req o e = cc
  cons_cases name type v (some none) rest d req o e = absurd (required type v req o)
  cons_cases name type v (some (some j)) none d req o e = cc
  cons_cases name type v (some (some j)) (some m) d req o e =
      (j, m, fixed type v j o, refl, sym (same_fields ((name, j) ∷ m) d e))

  -- An output of a schema that starts with a required field.
  pub outputs_cons :
      (name : Text) (type : FieldType) (s : Schema) (m d : Dict Json)
      → IsRequired type
      → outputs is_email ((name, type) ∷ s) m ≡ some d
      → (j : Json) × (rest : Dict Json) × IsFixed type j
        × (outputs is_email s m ≡ some rest)
        × (d ≡ (name, j) ∷ rest)
  unfolding outputs
  outputs_cons name type s m d req e =
      cons_cases name type (lookup name m) (field_output is_email type (lookup name m))
        (outputs is_email s m) d req refl e

  pub outputs_nil : (m d : Dict Json) → outputs is_email [] m ≡ some d → d ≡ []
  unfolding outputs
  outputs_nil m d e = sym (same_fields [] d e)

  pub accepted_object :
      (s : Schema) (input : Json) (d : Dict Json)
      → accepts is_email s input ≡ some d
      → (m : Dict Json) × (outputs is_email s m ≡ some d)
  unfolding accepts
  accepted_object s null d e = cc
  accepted_object s (boolean b) d e = cc
  accepted_object s (number n) d e = cc
  accepted_object s (text t) d e = cc
  accepted_object s (array xs) d e = cc
  accepted_object s (fields m) d e = elim (Bool-cases (only_known (field_names s) (entries m))) [
    | inl known ↦ (entries m, rw known at e)
    | inr unknown ↦ absurd (none_some (rw unknown at e))
  ]
    where
      none_some : Path (Option (Dict Json)) none (some d) → ⊥
      none_some p = cc
