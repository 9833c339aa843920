-- ===== src/Environment/Range.antt =====
-- What a loaded configuration promises: its numbers are in their ranges.
use task_queue_system.Prelude.{
  ℕ, suc, ◌≤◌, ◌≡◌, refl, [], ◌∷◌, inl, inr, Text, txt, List, Option, none, some, Bool-cases, arith,
  text_eq, text_eq_iff, subst, sym,
}
use task_queue_system.Prelude.Dict.{Dict, lookup}
use task_queue_system.Config.{Config}
use task_queue_system.Failure.{ok, throws}
use task_queue_system.Environment.{
  Variable, whole, Value, counted, Coercion, AtMost, IsInRange, environment_schema, value_of,
  counted_or, add_value, safe_parse, invalid_environment, invalid_keys, counted_at, config_of, load,
  number_of,
}

same {ℓ} : {A : Type ℓ} {a b : A} → some a ≡ some b → a ≡ b
same p = cc

added :
    (name : Text) (o : Option Value) (rest : Option (Dict Value)) (m : Dict Value)
    → add_value name o rest ≡ some m
    → (x : Value) × (r : Dict Value) × (o ≡ some x) × (rest ≡ some r) × (m ≡ (name, x) ∷ r)
unfolding add_value
added name none rest m e = cc
added name (some x) none m e = cc
added name (some x) (some r) m e = (x, r, refl, refl, sym (same e))

module _ (z : Coercion) (env : Dict Text) where
  -- The output of a variable of the schema.
  abbrev pub Found : Dict Value → Text → Variable → Type 0
  Found m name v =
      (x : Value) × (lookup name m ≡ some x) × (value_of z v (lookup name env) ≡ some x)

  pub found :
      (s : List (Text × Variable)) (m : Dict Value) (name : Text) (v : Variable)
      → safe_parse z s env ≡ some m
      → lookup name s ≡ some v
      → Found m name v
  unfolding safe_parse lookup
  found [] m name v e k = cc
  found ((n, w) ∷ s) m name v e k =
      let (x, r, here, rest, is) = added n (value_of z w (lookup n env)) (safe_parse z s env) m e in
      subst (λ m'. Found m' name v) (sym is)
        (elim (Bool-cases (text_eq n name)) [
          | inl mine ↦ (
            x,
            rw mine refl,
            subst (λ n'. value_of z v (lookup n' env) ≡ some x) ((text_eq_iff n name).0 mine)
                (subst (λ w'. value_of z w' (lookup n env) ≡ some x) (same (rw mine at k)) here),
          )
          | inr other ↦ let (y, l, p) = found s r name v rest (rw other at k) in (y, rw other l, p)
        ])

  -- The default and zod's numbers are both within the bounds.
  bounded :
      (least d : ℕ) (most : Option ℕ) (o : Option Text) (x : Value)
      → IsInRange z
      → (least ≤ d) × AtMost d most
      → value_of z (whole least most d) o ≡ some x
      → (n : ℕ) × (x ≡ counted n) × (least ≤ n) × AtMost n most
  unfolding value_of counted_or
  bounded least d most none x law h e = (d, sym (same e), h.0, h.1)
  bounded least d most (some t) x law h e = by_number (z.number least most t) refl e
    where
      by_number :
          (o : Option ℕ)
          → z.number least most t ≡ o
          → counted_or o ≡ some x
          → (n : ℕ) × (x ≡ counted n) × (least ≤ n) × AtMost n most
      by_number none p q = cc
      by_number (some n) p q = let (l, m) = law.bounds least most t n p in (n, sym (same q), l, m)

  counted_at-range :
      (m : Dict Value) (name : Text) (least d : ℕ) (most : Option ℕ)
      → IsInRange z
      → safe_parse z environment_schema env ≡ some m
      → lookup name environment_schema ≡ some (whole least most d)
      → (least ≤ d) × AtMost d most
      → (least ≤ counted_at name m) × AtMost (counted_at name m) most
  unfolding counted_at number_of
  counted_at-range m name least d most law e k h =
      let (x, l, p) = found environment_schema m name (whole least most d) e k in
      let (n, is, lo, hi) = bounded least d most (lookup name env) x law h p in rw (l, is) (lo, hi)

-- The ranges of the schema, for what the program reads.
pub record IsValid (c : Config) : Type 0 where
  pub port : 1 ≤ c.port
  pub redis_port : 1 ≤ c.redis_port
  pub some_worker : 1 ≤ c.worker_concurrency
  pub few_workers : c.worker_concurrency ≤ 50
  pub rate : (1 ≤ c.rate_limit_max) × (1 ≤ c.rate_limit_duration_ms)
  pub http_window : 1 ≤ c.http_rate_limit_window_ms
  pub http_rates : (1 ≤ c.http_rate_limit_max_per_ip) × (1 ≤ c.http_rate_limit_max_global)
  pub depth : 1 ≤ c.max_queue_depth
  pub ttl : 1 ≤ c.dashboard_snapshot_ttl_ms
  pub poll : 1 ≤ c.dashboard_poll_interval_seconds
  pub entries : 1 ≤ c.dashboard_max_cache_entries
  pub refreshes : 1 ≤ c.dashboard_max_refreshes_per_window
  pub window : 1 ≤ c.dashboard_refresh_window_ms
  pub dashboard_rate : 1 ≤ c.dashboard_rate_limit_max_per_ip
  pub timeout : 1 ≤ c.webhook_timeout_ms

-- The output that a configuration is made of.
pub loaded :
    (z : Coercion) (env : Dict Text) (c : Config)
    → load z env ≡ ok c
    → (base : Dict Value) × (safe_parse z environment_schema env ≡ some base)
      × (c ≡ config_of base env)
unfolding load
loaded z env c e = by_output (safe_parse z environment_schema env) refl e
  where
    ok_same : {a b : Config} → ok a ≡ ok b → a ≡ b
    ok_same p = cc

    by_output :
        (o : Option (Dict Value))
        → safe_parse z environment_schema env ≡ o
        → (elim o [
          | none ↦ throws (invalid_environment (invalid_keys z environment_schema env))
          | some base ↦ ok (config_of base env)
        ])
          ≡ ok c
        → (base : Dict Value) × (safe_parse z environment_schema env ≡ some base)
          × (c ≡ config_of base env)
    by_output none p q = cc
    by_output (some base) p q = (base, p, sym (ok_same q))

-- If zod keeps to the bounds of a number: a configuration that the module loads from any environment
-- has every number in its range. All of them but the depth cache's time are at least 1, and the
-- worker's concurrency is at most 50.
pub load-IsValid :
    (z : Coercion) (env : Dict Text) (c : Config) → IsInRange z → load z env ≡ ok c → IsValid c
unfolding lookup text_eq config_of
load-IsValid z env c law e =
    let (base, p, is) = loaded z env c e in
    let workers =
      counted_at-range z env base (txt "WORKER_CONCURRENCY") 1 5 (some 50) law p refl
        (omega arith, omega arith) in
    subst IsValid (sym is) (record {
      port = positive_at (txt "PORT") 2999 p refl;
      redis_port = positive_at (txt "REDIS_PORT") 6378 p refl;
      some_worker = workers.0;
      few_workers = workers.1;
      rate = (
        positive_at (txt "RATE_LIMIT_MAX") 99 p refl,
        positive_at (txt "RATE_LIMIT_DURATION_MS") 59999 p refl,
      );
      http_window = positive_at (txt "HTTP_RATE_LIMIT_WINDOW_MS") 59999 p refl;
      http_rates = (
        positive_at (txt "HTTP_RATE_LIMIT_MAX_PER_IP") 19 p refl,
        positive_at (txt "HTTP_RATE_LIMIT_MAX_GLOBAL") 199 p refl,
      );
      depth = positive_at (txt "MAX_QUEUE_DEPTH") 999 p refl;
      ttl = positive_at (txt "DASHBOARD_SNAPSHOT_TTL_MS") 899999 p refl;
      poll = positive_at (txt "DASHBOARD_POLL_INTERVAL_SECONDS") 9 p refl;
      entries = positive_at (txt "DASHBOARD_MAX_CACHE_ENTRIES") 63 p refl;
      refreshes = positive_at (txt "DASHBOARD_MAX_REFRESHES_PER_WINDOW") 59 p refl;
      window = positive_at (txt "DASHBOARD_REFRESH_WINDOW_MS") 59999 p refl;
      dashboard_rate = positive_at (txt "DASHBOARD_RATE_LIMIT_MAX_PER_IP") 119 p refl;
      timeout = positive_at (txt "WEBHOOK_TIMEOUT_MS") 4999 p refl;
    })
  where
    positive_at :
        {base : Dict Value} (name : Text) (d : ℕ)
        → safe_parse z environment_schema env ≡ some base
        → lookup name environment_schema ≡ some (whole 1 none (suc d))
        → 1 ≤ counted_at name base
    positive_at {base} name d p k =
        (counted_at-range z env base name 1 (suc d) none law p k (omega arith, tt)).0
