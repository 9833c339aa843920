-- ===== src/Context.antt =====
-- logging/context.ts: correlation IDs. The scope of AsyncLocalStorage is an argument: the ID that
-- is current, or `none` outside every scope.
pub mod Normal
pub mod Trace
mod Tests
use task_queue_system.Prelude.{
  ℕ, [], ◌∷◌, Text, txt, Option, none, some, Bool, ◌&&◌, ◌||◌, leb, ◌==◌, if◌then◌else◌, is_empty,
  take, filter, trim, get_or,
}
use task_queue_system.Prelude.Dict.{lookup, insert}
use task_queue_system.Http.{Request, Headers, Outcome, proceed}

abbrev pub correlation_header : Text
correlation_header = txt "x-correlation-id"

-- `/[A-Za-z0-9_-]/`
unfoldable pub is_safe_char : ℕ → Bool
is_safe_char c =
    (leb b'A' c && leb c b'Z')
    || (leb b'a' c && leb c b'z')
    || (leb b'0' c && leb c b'9')
    || c == b'_'
    || c == b'-'

or_undefined : Text → Option Text
or_undefined [] = none
or_undefined (c ∷ s) = some (c ∷ s)

unfoldable pub normalise_correlation_id : Option Text → Option Text
unfolding or_undefined is_safe_char
normalise_correlation_id none = none
normalise_correlation_id (some raw) =
    if is_empty raw then none else or_undefined (filter is_safe_char (take 64 (trim raw)))

-- The middleware: the header set and the scope that the rest of the chain runs in. `uuid` is what
-- `randomUUID()` gives.
unfoldable pub correlation_middleware : Text → Request → Headers → Outcome × Option Text
correlation_middleware uuid req headers =
    let id = get_or (normalise_correlation_id (lookup correlation_header req.headers)) uuid in
    (proceed req (insert correlation_header id headers), some id)
