-- ===== src/Schema/Accepts.antt =====
-- A function with zod's documented behaviour: it puts out what `accepts` says, or one empty issue
-- list. An address is any text with an `@`.
use task_queue_system.Prelude.{◌≡◌, [], ◌∷◌, Text, Option, none, some, Bool, false, ◌==◌, ◌||◌, ◌↔◌}
use task_queue_system.Prelude.Dict.{Dict}
use task_queue_system.Json.{Json}
use task_queue_system.Schema.Zod.{Zod, IsZod, Parsed, valid, invalid, accepts}

unfoldable pub has_at : Text → Bool
has_at [] = false
has_at (c ∷ s) = c == b'@' || has_at s

unfoldable pub parsed_of : Option (Dict Json) → Parsed
parsed_of none = invalid [] []
parsed_of (some d) = valid d

abbrev pub sample_zod : Zod
sample_zod = record { parse = λ s j. parsed_of (accepts has_at s j); is_email = has_at }

parsed_of_valid : (o : Option (Dict Json)) (d : Dict Json) → (parsed_of o ≡ valid d) ↔ (o ≡ some d)
unfolding parsed_of
parsed_of_valid none d = (λ e. cc, λ e. cc)
parsed_of_valid (some x) d = (λ e. cc, λ e. cc)

pub sample_zod-IsZod : IsZod sample_zod
sample_zod-IsZod = record { parses = λ s j d. parsed_of_valid (accepts has_at s j) d }
