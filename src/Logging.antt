-- ===== src/Logging.antt =====
-- logging/logger.ts: what is taken out of a log line before it is written; Options has what the
-- library pino is configured with.
pub mod Ends
pub mod Redacted
pub mod Hidden
pub mod Options
mod Tests
use task_queue_system.Prelude.{
  ℕ, suc, zero, ◌+◌, ◌-◌, [], ◌∷◌, ◌++◌, Text, txt, List, Option, none, some, Bool, true, false,
  ◌&&◌, ◌||◌, not, leb, ◌==◌, if◌then◌else◌, take, drop, length, is_space,
}
use task_queue_system.Prelude.Dict.{Dict, lookup, insert}
use task_queue_system.Json.{Json, text}

unfoldable pub to_lower : ℕ → ℕ
to_lower c = if leb b'A' c && leb c b'Z' then c + 32 else c

-- The text starts with the pattern, which is in lower case, but for the case of letters.
unfoldable pub starts_alike : Text → Text → Bool
unfolding to_lower
starts_alike s [] = true
starts_alike [] (_ ∷ _) = false
starts_alike (a ∷ s) (b ∷ t) = to_lower a == b && starts_alike s t

-- `(rediss?|https?):\/\/`, without the last three characters.
pub scheme_length : Text → Option ℕ
scheme_length s =
    if starts_alike s (txt "rediss://")
    then some 6
    else if starts_alike s (txt "redis://")
    then some 5
    else if starts_alike s (txt "https://")
    then some 5
    else if starts_alike s (txt "http://")
    then some 4
    else none

one_more : Option ℕ → Option ℕ
one_more none = none
one_more (some n) = some (suc n)

-- `[^@\s]*@`: how many characters it matches.
pub password_end : Text → Option ℕ
unfolding one_more
password_end [] = none
password_end (c ∷ s) =
    let rest = one_more (password_end s) in
    if c == b'@' then some 1 else if is_space c then none else rest

-- `[^:/@\s]*:[^@\s]*@`
pub user_end : Text → Option ℕ
unfolding one_more password_end
user_end [] = none
user_end (c ∷ s) =
    let rest = one_more (user_end s) in
    if c == b':'
    then one_more (password_end s)
    else if c == b'/' || c == b'@' || is_space c
    then none
    else rest

-- The length of the scheme and of the whole match, at the start of the text.
pub with_scheme : ℕ → Option ℕ → Option (ℕ × ℕ)
with_scheme k none = none
with_scheme k (some n) = some (k, k + 3 + n)

pub match_from : Text → Option ℕ → Option (ℕ × ℕ)
unfolding with_scheme user_end
match_from s none = none
match_from s (some k) = with_scheme k (user_end (drop (k + 3) s))

pub url_match : Text → Option (ℕ × ℕ)
unfolding match_from scheme_length
url_match s = match_from s (scheme_length s)

-- The first `.replace`, from a point on; so many characters still belong to the match before.
pub replace_urls : ℕ → Text → Text
unfolding url_match
replace_urls n [] = []
replace_urls (suc n) (c ∷ s) = replace_urls n s
replace_urls zero (c ∷ s) = elim (url_match (c ∷ s)) [
  | none ↦ c ∷ replace_urls zero s
  | some (k, n) ↦ take k (c ∷ s) ++ (txt "://[REDACTED]@" ++ replace_urls (n - 1) s)
]

-- `\w`
is_word : ℕ → Bool
is_word c =
    (leb b'0' c && leb c b'9')
    || (leb b'A' c && leb c b'Z')
    || (leb b'a' c && leb c b'z')
    || c == b'_'

-- `(password|token|apikey|api_key|secret)=`, without the last character.
name_length : Text → Option ℕ
name_length s =
    if starts_alike s (txt "password=")
    then some 8
    else if starts_alike s (txt "token=")
    then some 5
    else if starts_alike s (txt "apikey=")
    then some 6
    else if starts_alike s (txt "api_key=")
    then some 7
    else if starts_alike s (txt "secret=")
    then some 6
    else none

-- `[^&\s]*`
value_length : Text → ℕ
value_length [] = 0
value_length (c ∷ s) = let rest = value_length s in if c == b'&' || is_space c then 0 else suc rest

-- At least one character has to be there.
with_name : ℕ → ℕ → Option (ℕ × ℕ)
with_name k zero = none
with_name k (suc n) = some (k, k + 1 + suc n)

parameter_from : Text → Option ℕ → Option (ℕ × ℕ)
unfolding with_name value_length
parameter_from s none = none
parameter_from s (some k) = with_name k (value_length (drop (k + 1) s))

-- `\b` asks that no word character comes before.
parameter_match : (after_word : Bool) → Text → Option (ℕ × ℕ)
unfolding parameter_from name_length
parameter_match after_word s = if after_word then none else parameter_from s (name_length s)

-- The second `.replace`.
replace_parameters : ℕ → (after_word : Bool) → Text → Text
unfolding parameter_match is_word
replace_parameters n after_word [] = []
replace_parameters (suc n) after_word (c ∷ s) = replace_parameters n (is_word c) s
replace_parameters zero after_word (c ∷ s) = elim (parameter_match after_word (c ∷ s)) [
  | none ↦ c ∷ replace_parameters zero (is_word c) s
  | some (k, n) ↦ take k (c ∷ s) ++ (txt "=[REDACTED]" ++ replace_parameters (n - 1) (is_word c) s)
]

unfoldable pub redact_secrets : Text → Text
unfolding replace_urls replace_parameters
redact_secrets input = replace_parameters 0 false (replace_urls 0 input)

-- `formatters.log`: one of the fields, if it is a text.
scrub_value : Text → Option Json → Dict Json → Dict Json
scrub_value key (some (text value)) fields = insert key (text (redact_secrets value)) fields
scrub_value key _ fields = fields

scrub_all : List Text → Dict Json → Dict Json
unfolding scrub_value
scrub_all [] fields = fields
scrub_all (key ∷ keys) fields = scrub_all keys (scrub_value key (lookup key fields) fields)

unfoldable pub scrub : Dict Json → Dict Json
unfolding scrub_all
scrub fields =
    scrub_all (txt "errMessage" ∷ txt "msg" ∷ txt "reason" ∷ txt "failedReason" ∷ []) fields

-- `mixin`: an ID that is empty is none.
unfoldable pub mixin : Option Text → Dict Json
mixin none = []
mixin (some []) = []
mixin (some (c ∷ id)) = (txt "correlationId", text (c ∷ id)) ∷ []
