-- ===== src/Json.antt =====
-- JSON values. A number is its text: the program prints numbers and passes numbers on, and
-- computes with none that it reads from JSON.
use task_queue_system.Prelude.{Option, none, some, ℕ, Text, Bool, [], ◌∷◌, decimal}
use task_queue_system.Prelude.Dict.{Dict, lookup}

mutual
  pub data Json : Type 0 where
    null : Json
    boolean : Bool → Json
    number : Text → Json
    text : Text → Json
    array : Items → Json
    fields : Fields → Json

  pub data Items : Type 0 where
    nil : Items
    cons : Json → Items → Items

  pub data Fields : Type 0 where
    end : Fields
    field : Text → Json → Fields → Fields

abbrev pub of_entries : Dict Json → Fields
of_entries [] = end
of_entries ((k, v) ∷ m) = field k v (of_entries m)

abbrev pub entries : Fields → Dict Json
entries end = []
entries (field k v m) = (k, v) ∷ entries m

-- An object literal.
abbrev pub object : Dict Json → Json
object m = fields (of_entries m)

abbrev pub natural : ℕ → Json
natural n = number (decimal n)

-- `payload?.name`
abbrev pub payload_field : Text → Json → Option Json
payload_field name (fields m) = lookup name (entries m)
payload_field name _ = none

-- A field of an object literal that is left out when its value is undefined.
abbrev pub optional_field : Text → Option Json → Dict Json
optional_field name none = []
optional_field name (some j) = (name, j) ∷ []

abbrev pub optional_text : Option Text → Option Json
optional_text none = none
optional_text (some t) = some (text t)
