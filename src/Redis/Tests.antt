-- ===== src/Redis/Tests.antt =====
-- The connection's functions at concrete inputs.
use task_queue_system.Prelude.{
  ◌≡◌, refl, txt, none, some, true, contains, starts_with, replace_first, trim, inl,
}
use task_queue_system.Prelude.Numeric.{to_natural}
use task_queue_system.Config.{Config}
use task_queue_system.Failure.{ok}
use task_queue_system.Samples.{sample_config}
use task_queue_system.Redis.{UrlParser, Options, get_normalized_redis_url, get_redis_options}
use task_queue_system.Redis.Secure.{upstash_uses_tls}

abbrev hosted : Config
hosted = record sample_config { redis_url = txt " https://eu1.upstash.io " }

normalized : get_normalized_redis_url hosted.redis_url ≡ txt "rediss://eu1.upstash.io:6379"
unfolding get_normalized_redis_url contains starts_with replace_first trim
normalized = refl

-- A parser that knows one URL.
abbrev parser : UrlParser
parser = record {
  parse = λ url. some (record {
    protocol = txt "rediss:";
    hostname = txt "eu1.upstash.io";
    port = txt "6379";
    username = txt "";
    password = txt "";
  });
  decode = λ t. some t;
}

abbrev options : Options
options = record {
  host = txt "eu1.upstash.io";
  port = some 6379;
  username = none;
  password = none;
  tls = true;
  enable_offline_queue = true;
}

options_run : get_redis_options parser hosted ≡ ok options
unfolding to_natural get_redis_options get_normalized_redis_url contains starts_with replace_first
    trim
options_run = refl

upstash_uses_tls_example : options.tls ≡ true
unfolding contains starts_with trim
upstash_uses_tls_example = upstash_uses_tls parser hosted options refl refl (inl options_run)

-- A port that is neither 6379 nor 443 gets a second one before it.
second_port :
    get_normalized_redis_url (txt "rediss://h.upstash.io:6380")
    ≡ txt "rediss://h.upstash.io:6379:6380"
unfolding get_normalized_redis_url contains starts_with replace_first trim
second_port = refl
