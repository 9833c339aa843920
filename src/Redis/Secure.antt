-- ===== src/Redis/Secure.antt =====
-- An Upstash host is never reached in the clear.
use task_queue_system.Prelude.{
  ◌≡◌, ◌⊎◌, refl, inl, inr, ◌∷◌, ◌++◌, [], Text, txt, Option, none, some, Bool, true, false, ◌&&◌,
  ◌||◌, not, Bool-cases, arith, starts_with, contains, replace_at_start, split_start,
  starts_with-replace_first, trim, is_empty, drop, String, subst, ◌∙◌, sym, ap,
}
use task_queue_system.Config.{Config}
use task_queue_system.Failure.{Result, ok, throws}
use task_queue_system.Redis.{
  UrlParser, Options, Url, get_normalized_redis_url, get_redis_options, to_tcp, force_tls, add_port,
  options_for, of_url, options_of, decoded, get_producer_redis_options, fail_fast,
}

-- The text starts with one of the four schemes that the code knows.
abbrev pub has_scheme : Text → Bool
has_scheme url =
    starts_with url (txt "https://")
    || starts_with url (txt "http://")
    || starts_with url (txt "redis://")
    || starts_with url (txt "rediss://")

abbrev is_upstash : Text → Bool
is_upstash url = contains url (txt "upstash.io")

starts : String → Text → Bool
starts name url = starts_with url (txt name)

-- A prefix without a dot is as it was once the port is added.
add_port-starts :
    (url : Text) → starts_with (add_port url) (txt "rediss://") ≡ starts_with url (txt "rediss://")
unfolding add_port
add_port-starts url =
    elim (Bool-cases (
      contains url (txt "upstash.io")
      && not (contains url (txt ":6379"))
      && not (contains url (txt ":443")))) [
        | inl missing ↦ rw missing (
            starts_with-replace_first b'.' (txt "upstash.io") (txt "upstash.io:6379") url
              (txt "rediss://") (omega arith))
        | inr there ↦ rw there refl
      ]

-- Either scheme of Redis, once it is that of a URL of Upstash, becomes the secure one.
force_tls-secure :
    (url : Text)
    → is_upstash url ≡ true
    → (starts_with url (txt "redis://") || starts_with url (txt "rediss://")) ≡ true
    → starts_with (force_tls url) (txt "rediss://") ≡ true
unfolding force_tls
force_tls-secure url host scheme = elim (Bool-cases (starts_with url (txt "redis://"))) [
  | inl plain_scheme ↦
      rw (host, plain_scheme, replace_at_start (txt "redis://") (txt "rediss://") url plain_scheme)
        (unfold starts_with in refl)
  | inr secure ↦ rw (host, secure) (ground (arith, scheme, secure))
]

-- The host stands behind the scheme.
behind_https :
    (url : Text) → is_upstash (txt "https://" ++ url) ≡ is_upstash (txt "rediss://" ++ url)
unfolding contains starts_with
behind_https url = refl

behind_http : (url : Text) → is_upstash (txt "http://" ++ url) ≡ is_upstash (txt "redis://" ++ url)
unfolding contains starts_with
behind_http url = refl

to_tcp-kept :
    (url : Text)
    → is_upstash url ≡ true
    → has_scheme url ≡ true
    → (is_upstash (to_tcp url) ≡ true)
      × ((starts_with (to_tcp url) (txt "redis://") || starts_with (to_tcp url) (txt "rediss://"))
          ≡ true)
unfolding to_tcp
to_tcp-kept url host scheme = elim (Bool-cases (starts_with url (txt "https://"))) [
  | inl https ↦
      let there = subst (λ u. is_upstash u ≡ true) (split_start url (txt "https://") https) host in
      rw (https, replace_at_start (txt "https://") (txt "rediss://") url https)
        (sym (behind_https (drop 8 url)) ∙ there, unfold starts_with in refl)
  | inr not_https ↦ elim (Bool-cases (starts_with url (txt "http://"))) [
    | inl http ↦
        let there = subst (λ u. is_upstash u ≡ true) (split_start url (txt "http://") http) host in
        rw (not_https, http, replace_at_start (txt "http://") (txt "redis://") url http)
          (sym (behind_http (drop 7 url)) ∙ there, unfold starts_with in refl)
    | inr not_http ↦ rw (not_https, not_http) (host, ground (arith, scheme, not_https, not_http))
  ]
]

normalized_secure :
    (redis_url : Text)
    → is_upstash (trim redis_url) ≡ true
    → has_scheme (trim redis_url) ≡ true
    → starts_with (get_normalized_redis_url redis_url) (txt "rediss://") ≡ true
unfolding get_normalized_redis_url
normalized_secure redis_url host scheme =
    let (host', scheme') = to_tcp-kept (trim redis_url) host scheme in
    rw given (
      add_port-starts (force_tls (to_tcp (trim redis_url)))
      ∙ force_tls-secure (to_tcp (trim redis_url)) host' scheme')
  where
    not_empty : (t : Text) → is_upstash t ≡ true → is_empty t ≡ false
    not_empty [] h = unfold contains starts_with in cc
    not_empty (c ∷ t) h = refl

    given : is_empty (trim redis_url) ≡ false
    given = not_empty (trim redis_url) host

abbrev tls_of : Result Options → Bool
tls_of (ok o) = o.tls
tls_of (throws e) = false

module _ (u : UrlParser) (o : Options) where
  fail_fast-tls :
      (r : Result Options)
      → fail_fast u r ≡ ok o
      → ((o' : Options) → r ≡ ok o' → o'.tls ≡ true)
      → o.tls ≡ true
  unfolding fail_fast
  fail_fast-tls (throws f) e h = cc
  fail_fast-tls (ok o') e h = sym (ap tls_of e) ∙ h o' refl

  options_of-tls :
      (is_tls : Bool) (url : Url) (username password : Option (Option Text))
      → options_of u is_tls url username password ≡ ok o
      → o.tls ≡ is_tls
  unfolding options_of
  options_of-tls is_tls url none password e = cc
  options_of-tls is_tls url (some username) none e = cc
  options_of-tls is_tls url (some username) (some password) e = sym (ap tls_of e)

  options_for-tls :
      (c : Config) (url : Text)
      → starts_with url (txt "rediss://") ≡ true
      → options_for u c url ≡ ok o
      → o.tls ≡ true
  unfolding options_for of_url
  options_for-tls c [] h e = unfold starts_with in cc
  options_for-tls c (x ∷ url) h e = by_parse (u.parse (x ∷ url)) e
    where
      by_parse : (parsed : Option Url) → of_url u (x ∷ url) parsed ≡ ok o → o.tls ≡ true
      by_parse none e = cc
      by_parse (some p) e =
          options_of-tls (starts_with (x ∷ url) (txt "rediss://")) p (decoded u p.username)
            (decoded u p.password) e
          ∙ h

-- A REDIS_URL with a known scheme that names an Upstash host is connected to over TLS, whichever of
-- https, http, redis and rediss it is written with: options that the code makes of it, for the worker
-- or for a producer, have TLS on.
pub upstash_uses_tls :
    (u : UrlParser) (c : Config) (o : Options)
    → contains (trim c.redis_url) (txt "upstash.io") ≡ true
    → has_scheme (trim c.redis_url) ≡ true
    → (get_redis_options u c ≡ ok o) ⊎ (get_producer_redis_options u c ≡ ok o)
    → o.tls ≡ true
unfolding get_redis_options get_producer_redis_options
upstash_uses_tls u c o host scheme (inl e) =
    options_for-tls u o c _ (normalized_secure c.redis_url host scheme) e
upstash_uses_tls u c o host scheme (inr e) =
    fail_fast-tls u o _ e
      (λ o' e'. options_for-tls u o' c _ (normalized_secure c.redis_url host scheme) e')
