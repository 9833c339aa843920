-- ===== src/Context/Trace.antt =====
-- The correlation ID among the headers of a response.
use task_queue_system.Prelude.{◌≡◌, refl, Text, Option, false, text_eq}
use task_queue_system.Prelude.Dict.{lookup, insert, lookup-insert}
use task_queue_system.Http.{Headers, Outcome, proceed, respond}
use task_queue_system.Context.{correlation_header}

abbrev pub trace_of : Headers → Option Text
trace_of headers = lookup correlation_header headers

abbrev pub outcome_headers : Outcome → Headers
outcome_headers (proceed req headers) = headers
outcome_headers (respond r) = r.headers

-- A header of another name leaves it alone.
pub trace_of-insert :
    (name value : Text) (headers : Headers)
    → text_eq name correlation_header ≡ false
    → trace_of (insert name value headers) ≡ trace_of headers
trace_of-insert name value headers h = rw (lookup-insert, h) refl
