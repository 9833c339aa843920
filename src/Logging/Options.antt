-- ===== src/Logging/Options.antt =====
-- What src/logging/logger.ts configures the library pino with: the level, the transport, the fields of
-- each line and the paths that are censored in it.
use task_queue_system.Prelude.{
  Text, txt, List, [], ◌∷◌, Option, none, some, Bool, true, if◌then◌else◌,
}
use task_queue_system.Config.{Config, NodeEnv}

pub record Transport : Type 0 where
  pub target : Text
  pub colorize : Bool
  pub translate_time : Text
  pub ignore : Text

pub record Redaction : Type 0 where
  pub paths : List Text
  pub censor : Text

-- The argument of `pino`, but for its functions.
pub record LoggerOptions : Type 0 where
  pub level : Text
  pub transport : Option Transport
  pub base_env : NodeEnv
  pub redact : Redaction

pub pretty : Transport
pretty = record {
  target = txt "pino-pretty";
  colorize = true;
  translate_time = txt "SYS:HH:MM:ss.l";
  ignore = txt "pid,hostname";
}

pub redaction : Redaction
redaction = record {
  paths =
      txt "REDIS_URL"
      ∷ txt "*.REDIS_URL"
      ∷ txt "redisUrl"
      ∷ txt "*.redisUrl"
      ∷ txt "password"
      ∷ txt "*.password"
      ∷ txt "BULLBOARD_PASSWORD"
      ∷ txt "*.BULLBOARD_PASSWORD"
      ∷ txt "authorization"
      ∷ txt "*.authorization"
      ∷ txt "req.headers.authorization"
      ∷ txt "req.headers.cookie"
      ∷ txt "headers.authorization"
      ∷ [];
  censor = txt "[REDACTED]";
}

unfoldable pub logger_options : Config → LoggerOptions
unfolding pretty redaction
logger_options c = record {
  level = c.log_level;
  transport = if c.is_explicit_development then some pretty else none;
  base_env = c.node_env;
  redact = redaction;
}
