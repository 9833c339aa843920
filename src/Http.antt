-- ===== src/Http.antt =====
-- Requests and responses, as the handlers of app.ts and of middleware/ see them.
use task_queue_system.Prelude.{ℕ, Text, txt, Option, [], ◌∷◌}
use task_queue_system.Prelude.Dict.{Dict}
use task_queue_system.Json.{Json, object, text}

-- A parameter as Express parses it: a text, an array, or a nested object.
mutual
  pub data QueryValue : Type 0 where
    str : Text → QueryValue
    arr : QueryValues → QueryValue
    obj : QueryValue

  pub data QueryValues : Type 0 where
    nil : QueryValues
    cons : QueryValue → QueryValues → QueryValues

abbrev pub Query : Type 0
Query = Dict QueryValue

-- `headers` holds lower-case names, as Node gives them.
pub record Request : Type 0 where
  pub method : Text
  pub path : Text
  pub ip : Option Text
  pub headers : Dict Text
  pub query : Query
  pub body : Json

abbrev pub Headers : Type 0
Headers = Dict Text

-- What `res.status(…).json(…)` or `.end()` sends; `none` is an empty body.
pub record Response : Type 0 where
  pub status : ℕ
  pub headers : Headers
  pub body : Option Json

-- `{ error: message }`
abbrev pub error_body : Text → Json
error_body message = object ((txt "error", text message) ∷ [])

-- A handler calls `next()`, with the request and the headers set so far, or it responds.
pub data Outcome : Type 0 where
  proceed : Request → Headers → Outcome
  respond : Response → Outcome
