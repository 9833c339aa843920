-- ===== src/Schema/Zod.antt =====
-- The interface to zod, and the meaning that its documentation gives to the combinators in use.
use task_queue_system.Prelude.{
  ◌≡◌, ◌↔◌, [], ◌∷◌, Text, List, Option, none, some, Bool, true, ◌&&◌, leb, length, if◌then◌else◌,
  includes,
}
use task_queue_system.Prelude.Dict.{Dict, lookup}
use task_queue_system.Json.{Json, text, fields, entries, object}
use task_queue_system.Schema.{
  Check, email, at_least, at_most, FieldType, string, optional_string, enumeration, record_or_empty,
  Schema,
}

-- One problem that a ZodError lists.
pub record Issue : Type 0 where
  pub path : Text
  pub code : Text
  pub message : Text

pub data Parsed : Type 0 where
  valid : Dict Json → Parsed
  invalid : List Issue → (message : Text) → Parsed

-- `parse` of a schema; `is_email` is the pattern behind `.email()`.
pub record Zod : Type 0 where
  pub parse : Schema → Json → Parsed
  pub is_email : Text → Bool

module _ (is_email : Text → Bool) where
  unfoldable pub meets : List Check → Text → Bool
  meets [] t = true
  meets (email ∷ cs) t = is_email t && meets cs t
  meets (at_least n ∷ cs) t = leb n (length t) && meets cs t
  meets (at_most n ∷ cs) t = leb (length t) n && meets cs t

  -- The output of a field for the value given, if any: `none` is a problem, and `some none` a field
  -- that the output does not have.
  unfoldable pub field_output : FieldType → Option Json → Option (Option Json)
  field_output (string cs) (some (text t)) = if meets cs t then some (some (text t)) else none
  field_output (string cs) _ = none
  field_output (optional_string cs) none = some none
  field_output (optional_string cs) (some (text t)) =
      if meets cs t then some (some (text t)) else none
  field_output (optional_string cs) (some _) = none
  field_output (enumeration names) (some (text t)) =
      if includes names t then some (some (text t)) else none
  field_output (enumeration names) _ = none
  field_output record_or_empty none = some (some (object []))
  field_output record_or_empty (some (fields m)) = some (some (fields m))
  field_output record_or_empty (some _) = none

  unfoldable pub add_output : Text → Option (Option Json) → Option (Dict Json) → Option (Dict Json)
  add_output name none rest = none
  add_output name (some out) none = none
  add_output name (some none) (some m) = some m
  add_output name (some (some j)) (some m) = some ((name, j) ∷ m)

  unfoldable pub outputs : Schema → Dict Json → Option (Dict Json)
  unfolding add_output field_output meets
  outputs [] m = some []
  outputs ((name, type) ∷ s) m = add_output name (field_output type (lookup name m)) (outputs s m)

abbrev pub field_names : Schema → List Text
field_names [] = []
field_names ((name, _) ∷ s) = name ∷ field_names s

-- `.strict()`: every key is a field of the schema.
unfoldable pub only_known : List Text → Dict Json → Bool
only_known names [] = true
only_known names ((k, _) ∷ m) = includes names k && only_known names m

-- What `parse` puts out for the value, or `none` if it throws.
unfoldable pub accepts : (Text → Bool) → Schema → Json → Option (Dict Json)
unfolding outputs only_known
accepts is_email s (fields m) =
    if only_known (field_names s) (entries m) then outputs is_email s (entries m) else none
accepts is_email s _ = none

-- zod's documented behaviour on such schemas.
pub record IsZod (z : Zod) : Type 0 where
  pub parses :
      (s : Schema) (j : Json) (d : Dict Json)
      → (z.parse s j ≡ valid d) ↔ (accepts z.is_email s j ≡ some d)
