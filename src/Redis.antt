-- ===== src/Redis.antt =====
-- config/redis.connection.ts: the normalised URL, the connection options, the retry delay, and the
-- shared connection. The WHATWG URL parser and `decodeURIComponent` are parameters.
pub mod Secure
mod Tests
use task_queue_system.Prelude.{
  ℕ, ◌*◌, [], ◌∷◌, ◌++◌, Text, txt, Option, none, some, Bool, true, false, ◌&&◌, ◌||◌, not, min,
  if◌then◌else◌, text_eq, is_empty, starts_with, contains, replace_first, trim, get_or,
}
use task_queue_system.Prelude.Numeric.{to_natural}
use task_queue_system.Config.{Config}
use task_queue_system.Failure.{Failure, Result, ok, throws, plain}

abbrev max_reconnect_delay_ms : ℕ
max_reconnect_delay_ms = 3000

-- The delay before the reconnection of the given number, counted from 1.
unfoldable pub bounded_retry_strategy : ℕ → ℕ
bounded_retry_strategy times = min (times * 200) max_reconnect_delay_ms

-- For an error's `code` and `message`, if it has them.
unfoldable pub is_transient_connection_error : Option Text → Option Text → Bool
is_transient_connection_error error_code message =
    let code = get_or error_code [] in
    let msg = get_or message [] in
    text_eq code (txt "ECONNRESET")
    || text_eq code (txt "EPIPE")
    || contains msg (txt "ECONNRESET")
    || contains msg (txt "EPIPE")
    || contains msg (txt "Connection is closed")

-- REST URLs become TCP URLs.
to_tcp : Text → Text
to_tcp url =
    if starts_with url (txt "https://")
    then replace_first (txt "https://") (txt "rediss://") url
    else if starts_with url (txt "http://")
    then replace_first (txt "http://") (txt "redis://") url
    else url

force_tls : Text → Text
force_tls url =
    if contains url (txt "upstash.io") && starts_with url (txt "redis://")
    then replace_first (txt "redis://") (txt "rediss://") url
    else url

add_port : Text → Text
add_port url =
    if contains url (txt "upstash.io")
      && not (contains url (txt ":6379"))
      && not (contains url (txt ":443"))
    then replace_first (txt ".upstash.io") (txt ".upstash.io:6379") url
    else url

unfoldable pub get_normalized_redis_url : Text → Text
unfolding to_tcp force_tls add_port
get_normalized_redis_url redis_url =
    let url = trim redis_url in if is_empty url then [] else add_port (force_tls (to_tcp url))

-- What the code reads of a parsed URL; a part that is not there is empty.
pub record Url : Type 0 where
  pub protocol : Text
  pub hostname : Text
  pub port : Text
  pub username : Text
  pub password : Text

-- `new URL(text)`, and `decodeURIComponent`; `none` is an exception.
pub record UrlParser : Type 0 where
  pub parse : Text → Option Url
  pub decode : Text → Option Text

-- `RedisOptions`: what depends on the configuration. A port of `none` is NaN.
pub record Options : Type 0 where
  pub host : Text
  pub port : Option ℕ
  pub username : Option Text
  pub password : Option Text
  pub tls : Bool
  pub enable_offline_queue : Bool

withheld : Failure
withheld = plain (
    txt
      "REDIS_URL could not be parsed. Expected rediss://<user>:<password>@<host>:<port>. The value has been withheld from this message.")

module _ (u : UrlParser) where
  -- `text ? decodeURIComponent(text) : undefined`; the outer `none` is an exception.
  decoded : Text → Option (Option Text)
  decoded [] = some none
  decoded (c ∷ s) = elim (u.decode (c ∷ s)) [ none ↦ none | some t ↦ some (some t) ]

  options_of : Bool → Url → Option (Option Text) → Option (Option Text) → Result Options
  unfolding withheld
  options_of is_tls url (some username) (some password) = ok (record {
    host = url.hostname;
    port = to_natural (if is_empty url.port then txt "6379" else url.port);
    username = username;
    password = password;
    tls = is_tls;
    enable_offline_queue = true;
  })
  options_of is_tls url none password = throws withheld
  options_of is_tls url (some username) none = throws withheld

  of_url : Text → Option Url → Result Options
  unfolding withheld decoded options_of
  of_url norm_url none = throws withheld
  of_url norm_url (some url) =
      options_of (starts_with norm_url (txt "rediss://")) url (decoded url.username)
        (decoded url.password)

  -- Without a URL: the host, the port and the password of the configuration.
  discrete_options : Config → Options
  discrete_options c = record {
    host = c.redis_host;
    port = some c.redis_port;
    username = none;
    password = if is_empty c.redis_password then none else some c.redis_password;
    tls = false;
    enable_offline_queue = true;
  }

  options_for : Config → Text → Result Options
  unfolding of_url discrete_options
  options_for c [] = ok (discrete_options c)
  options_for c (x ∷ url) = of_url (x ∷ url) (u.parse (x ∷ url))

  unfoldable pub get_redis_options : Config → Result Options
  unfolding options_for
  get_redis_options c = options_for c (get_normalized_redis_url c.redis_url)

  unfoldable pub fail_fast : Result Options → Result Options
  fail_fast (throws e) = throws e
  fail_fast (ok o) = ok (record o { enable_offline_queue = false })

  unfoldable pub get_producer_redis_options : Config → Result Options
  unfolding fail_fast
  get_producer_redis_options c = fail_fast (get_redis_options c)
