-- ===== src/Failure.antt =====
-- What the modelled code throws: its own errors (errors/app.errors.ts, `new Error(…)`), a ZodError,
-- and errors of the libraries, which carry a message and, from the body parser, a status and a type.
use task_queue_system.Prelude.{ℕ, [], ◌∷◌, ◌++◌, Text, txt, List, Option, none, some, decimal}
use task_queue_system.Schema.Zod.{Issue}

pub data Failure : Type 0 where
  zod_error : List Issue → (message : Text) → Failure
  queue_depth_exceeded : (depth limit : ℕ) → Failure
  queue_unavailable : Option Text → Failure
  plain : Text → Failure
  library_error : (name message : Text) → Failure
  http_error : (status : ℕ) → (type : Text) → (message : Text) → Failure

pub data Result {ℓ} (A : Type ℓ) : Type ℓ where
  ok : A → Result A
  throws : Failure → Result A

-- Failures of one kind: their texts may differ, and of an error that is not the service's own the name.
pub data IsSameKind : Failure → Failure → Type 0 where
  same_issues :
      (issues : List Issue) (m m' : Text) → IsSameKind (zod_error issues m) (zod_error issues m')
  over_depth : (d l d' l' : ℕ) → IsSameKind (queue_depth_exceeded d l) (queue_depth_exceeded d' l')
  unreachable :
      (cause cause' : Option Text) → IsSameKind (queue_unavailable cause) (queue_unavailable cause')
  same_status :
      (status : ℕ) (type m m' : Text)
      → IsSameKind (http_error status type m) (http_error status type m')
  plain_plain : (m m' : Text) → IsSameKind (plain m) (plain m')
  plain_library : (m name' m' : Text) → IsSameKind (plain m) (library_error name' m')
  library_plain : (name m m' : Text) → IsSameKind (library_error name m) (plain m')
  library_library :
      (name m name' m' : Text) → IsSameKind (library_error name m) (library_error name' m')

-- The same value, or failures of one kind.
pub data IsAlike {ℓ} {A : Type ℓ} : Result A → Result A → Type ℓ where
  one_value : (a : A) → IsAlike (ok a) (ok a)
  one_kind : (e e' : Failure) → IsSameKind e e' → IsAlike (throws e) (throws e')

infixl 5 ◌>>=◌
abbrev pub ◌>>=◌ {ℓ κ} : {A : Type ℓ} {B : Type κ} → Result A → (A → Result B) → Result B
ok a >>= f = f a
throws e >>= f = throws e

-- `QueueUnavailableError`: an empty cause is falsy.
unavailable_message : Option Text → Text
unavailable_message none = txt "Queue backend unavailable"
unavailable_message (some []) = txt "Queue backend unavailable"
unavailable_message (some (c ∷ s)) = txt "Queue backend unavailable: " ++ (c ∷ s)

-- `err.message`
unfoldable pub message_of : Failure → Text
unfolding unavailable_message
message_of (zod_error issues m) = m
message_of (queue_depth_exceeded depth limit) =
    txt "Queue depth "
    ++ (decimal depth ++ (txt " exceeds configured maximum of " ++ decimal limit))
message_of (queue_unavailable cause) = unavailable_message cause
message_of (plain m) = m
message_of (library_error name m) = m
message_of (http_error status type m) = m

-- `err.name`
unfoldable pub name_of : Failure → Text
name_of (zod_error issues m) = txt "ZodError"
name_of (queue_depth_exceeded depth limit) = txt "QueueDepthExceededError"
name_of (queue_unavailable cause) = txt "QueueUnavailableError"
name_of (plain m) = txt "Error"
name_of (library_error name m) = name
name_of (http_error status type m) = txt "Error"
