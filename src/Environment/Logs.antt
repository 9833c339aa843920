-- ===== src/Environment/Logs.antt =====
-- What an environment makes of the logger's options.
use task_queue_system.Prelude.{
  Text, txt, text_eq, sym, List, [], ◌∷◌, Option, none, some, true, ◌≡◌, refl, ◌≢◌, includes,
  Bool-cases, inl, inr,
}
use task_queue_system.Prelude.Dict.{Dict, lookup}
use task_queue_system.Config.{Config}
use task_queue_system.Failure.{ok}
use task_queue_system.Logging.Options.{logger_options}
use task_queue_system.Environment.{
  Coercion, Value, chosen, one_of, environment_schema, value_of, load, config_of, chosen_at,
  text_of,
}
use task_queue_system.Environment.Range.{loaded, found}
use task_queue_system.Environment.Guarded.{is_explicit_only}

-- pino-pretty, which is not installed in production, is not loaded unless the environment itself sets
-- NODE_ENV to `development`: its default is not enough.
no_pretty :
    (z : Coercion) (env : Dict Text) (c : Config)
    → load z env ≡ ok c
    → lookup (txt "NODE_ENV") env ≢ some (txt "development")
    → (logger_options c).transport ≡ none
unfolding logger_options config_of
no_pretty z env c e not_set =
    let (base, p, is) = loaded z env c e in
    rw (is, is_explicit_only (lookup (txt "NODE_ENV") env) not_set) refl

abbrev levels : List Text
levels = txt "fatal" ∷ txt "error" ∷ txt "warn" ∷ txt "info" ∷ txt "debug" ∷ txt "trace" ∷ []

same_value : {a b : Value} → some a ≡ some b → a ≡ b
same_value p = cc

one_of-listed :
    (z : Coercion) (names : List Text) (d : Text) (o : Option Text) (v : Value)
    → includes names d ≡ true
    → value_of z (one_of names d) o ≡ some v
    → (t : Text) × (v ≡ chosen t) × (includes names t ≡ true)
unfolding value_of
one_of-listed z names d none v listed e = (d, sym (same_value e), listed)
one_of-listed z names d (some t) v listed e = elim (Bool-cases (includes names t)) [
  | inl known ↦ (t, sym (same_value (rw known at e)), known)
  | inr unknown ↦ let bad = rw unknown at e in cc
]

-- pino is given a level that it has.
level-listed :
    (z : Coercion) (env : Dict Text) (c : Config)
    → load z env ≡ ok c
    → includes levels (logger_options c).level ≡ true
unfolding logger_options config_of chosen_at text_of lookup text_eq includes
level-listed z env c e =
    let (base, p, is) = loaded z env c e in
    let (v, here, made) =
      found z env environment_schema base (txt "LOG_LEVEL") (one_of levels (txt "info")) p refl in
    let (t, chosen_is, listed) =
      one_of-listed z levels (txt "info") (lookup (txt "LOG_LEVEL") env) v refl made in
    rw (is, here, chosen_is) listed
