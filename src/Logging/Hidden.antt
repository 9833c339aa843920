-- ===== src/Logging/Hidden.antt =====
-- The credentials of a URL in a log message do not show in what is written.
use mathlib.Core.List.{append_assoc}
use task_queue_system.Prelude.{
  ℕ, suc, ◌+◌, ◌-◌, ◌≡◌, refl, [], ◌∷◌, ◌++◌, Text, txt, some, Bool, false, ◌==◌, arith, All,
  All-append, All-map, All-filter, filter, not, ◌&&◌, is_space, length, length-append, drop, take,
  ap, sym, ◌∙◌, take_of_short,
}
use task_queue_system.Logging.{
  redact_secrets, replace_urls, url_match, match_from, with_scheme, user_end, scheme_length,
  one_more, starts_alike, to_lower, replace_parameters,
}
use task_queue_system.Logging.Ends.{IsPlain, IsOut, password_end_lem}
use task_queue_system.Logging.Redacted.{take_append, skipped, replaced_some, same_output}

pub data Scheme : Type 0 where
  redis rediss http https : Scheme

abbrev pub name_of : Scheme → Text
name_of redis = txt "redis"
name_of rediss = txt "rediss"
name_of http = txt "http"
name_of https = txt "https"

-- A URL with a user, who may be empty, and a password.
abbrev pub url_of : Scheme → (user password rest : Text) → Text
url_of scheme user password rest =
    name_of scheme ++ (txt "://" ++ (user ++ b':' ∷ (password ++ b'@' ∷ rest)))

-- A character of a user's name.
abbrev pub IsName : ℕ → Type 0
IsName c = ((c == b':') ≡ false) × (((c == b'/') ≡ false) × IsPlain c)

user_end_name :
    (user password rest : Text)
    → All IsName user
    → All IsPlain password
    → user_end (user ++ b':' ∷ (password ++ b'@' ∷ rest))
      ≡ some (length user + suc (suc (length password)))
unfolding user_end one_more
user_end_name [] password rest h k = rw (password_end_lem rest password k) (ap some (omega arith))
user_end_name (c ∷ user) password rest h k =
    rw (h.0.0, h.0.1.0, h.0.1.1.0, h.0.1.1.1, user_end_name user password rest h.1 k)
      (ap some (omega arith))

drop_past : (a b : Text) (n : ℕ) → drop (length a + n) (a ++ b) ≡ drop n b
drop_past [] b n = ap (λ m. drop m b) (omega arith)
drop_past (c ∷ a) b n =
    let count : suc (length a) + n ≡ suc (length a + n) = omega arith in
    ap (λ m. drop m (c ∷ a ++ b)) count ∙ drop_past a b n

module _ (f : ℕ) (g : Text) (out : IsOut f) (name : All IsName (f ∷ g))
    (found : (x : Text) → scheme_length (f ∷ g ++ (txt "://" ++ x)) ≡ some (length (f ∷ g)))
    (rest : Text) where
  abbrev url : Text → Text → Text
  url u p = f ∷ g ++ (txt "://" ++ (u ++ b':' ∷ (p ++ b'@' ∷ rest)))

  -- Behind the first letter, up to the at sign.
  abbrev up_to : Text → Text → Text
  up_to u p = g ++ (txt "://" ++ (u ++ b':' ∷ p))

  module _ (u p : Text) (hu : All IsName u) (hp : All IsPlain p) where
    url_split : url u p ≡ f ∷ up_to u p ++ b'@' ∷ rest
    url_split =
        ap (λ t. f ∷ g ++ (txt "://" ++ t)) (sym (append_assoc u (b':' ∷ p) (b'@' ∷ rest)))
        ∙ ap (λ t. f ∷ t) (sym (append_assoc g (txt "://" ++ (u ++ b':' ∷ p)) (b'@' ∷ rest)))

    password-IsPlain : All IsPlain (u ++ b':' ∷ p)
    unfolding is_space
    password-IsPlain =
        All-append IsPlain u (b':' ∷ p) (All-map u (λ c h. h.1.1) hu) ((refl, refl), hp)

    up_to-IsPlain : All IsPlain (f ∷ up_to u p)
    unfolding is_space
    up_to-IsPlain =
        All-append IsPlain (f ∷ g) (txt "://" ++ (u ++ b':' ∷ p))
          (All-map (f ∷ g) (λ c h. h.1.1) name)
          ((refl, refl), ((refl, refl), ((refl, refl), password-IsPlain)))

    up_to_end : user_end (f ∷ up_to u p ++ b'@' ∷ rest) ≡ some (suc (suc (length (up_to u p))))
    unfolding is_space
    up_to_end =
        let q = txt "//" ++ (u ++ b':' ∷ p) in
        ap user_end (ap (λ t. f ∷ t) (append_assoc g (b':' ∷ q) (b'@' ∷ rest)))
        ∙ (user_end_name (f ∷ g) q rest name ((refl, refl), ((refl, refl), password-IsPlain))
            ∙ ap some (omega (arith, length-append g (b':' ∷ q))))

    url_found :
        url_match (url u p)
        ≡ some (length (f ∷ g), length (f ∷ g) + 3 + (length u + suc (suc (length p))))
    unfolding url_match match_from with_scheme
    url_found =
        let s = u ++ b':' ∷ (p ++ b'@' ∷ rest) in
        rw (found s) (
          let e : drop (length (f ∷ g) + 3) (url u p) ≡ s = drop_past (f ∷ g) (txt "://" ++ s) 3 in
          rw (e, user_end_name u p rest hu hp) refl)

    left_out :
        replace_urls (length (up_to u p) + 1) (up_to u p ++ b'@' ∷ rest) ≡ replace_urls 0 rest
    unfolding replace_urls
    left_out = skipped (up_to u p) (b'@' ∷ rest) 1

    url_redacted : replace_urls 0 (url u p) ≡ f ∷ g ++ (txt "://[REDACTED]@" ++ replace_urls 0 rest)
    url_redacted =
        let s = g ++ (txt "://" ++ (u ++ b':' ∷ (p ++ b'@' ∷ rest))) in
        let k = length (f ∷ g) in
        let n = k + 3 + (length u + suc (suc (length p))) in
        let count : n - 1 ≡ length (up_to u p) + 1 =
          omega
            (arith, length-append g (txt "://" ++ (u ++ b':' ∷ p)), length-append u (b':' ∷ p)) in
        let short : take k (f ∷ s) ≡ f ∷ g =
          take_append k (f ∷ g) (txt "://" ++ (u ++ b':' ∷ (p ++ b'@' ∷ rest))) (omega arith)
          ∙ take_of_short k (f ∷ g) (omega arith) in
        let split : s ≡ up_to u p ++ b'@' ∷ rest = ap (drop 1) url_split in
        let skip : replace_urls (n - 1) s ≡ replace_urls 0 rest =
          ap (λ m. replace_urls m s) count
          ∙ (ap (λ t. replace_urls (length (up_to u p) + 1) t) split ∙ left_out) in
        replaced_some f s k n url_found
        ∙ (ap (λ t. t ++ (txt "://[REDACTED]@" ++ replace_urls (n - 1) s)) short
            ∙ ap (λ t. f ∷ g ++ (txt "://[REDACTED]@" ++ t)) skip)

  hidden :
      (pre u p u' p' : Text)
      → All IsName u
      → All IsPlain p
      → All IsName u'
      → All IsPlain p'
      → replace_urls 0 (pre ++ url u p) ≡ replace_urls 0 (pre ++ url u' p')
  hidden pre u p u' p' hu hp hu' hp' =
      let at_start : replace_urls 0 (url u p) ≡ replace_urls 0 (url u' p') =
        url_redacted u p hu hp ∙ sym (url_redacted u' p' hu' hp') in
      rw (url_split u p hu hp, url_split u' p' hu' hp')
        (same_output f (up_to u p) (up_to u' p') rest out (up_to-IsPlain u p hu hp)
          (up_to-IsPlain u' p' hu' hp') (up_to_end u p hu hp) (up_to_end u' p' hu' hp') pre 0
          (omega arith) (rw⁻¹ (url_split u p hu hp, url_split u' p' hu' hp') at_start))

-- Both hold of a literal by computation.
not_in : (f : ℕ) (t : Text) → All (λ b. (f == b) ≡ false) (filter (λ b. not (f == b)) t)
not_in f t = All-filter (λ b. (f == b) ≡ false) (λ b. not (f == b)) t (λ b h. ground (arith, h))

is_name : ℕ → Bool
is_name c = not (c == b':') && (not (c == b'/') && (not (c == b'@') && not (is_space c)))

names : (t : Text) → All IsName (filter is_name t)
unfolding is_name
names t = All-filter IsName is_name t (λ c h. ground (arith, h))

r-IsOut : IsOut b'r'
unfolding to_lower
r-IsOut =
    let out = not_in b'r' in
    (out (txt "ediss://"), out (txt "edis://"), out (txt "ttps://"), out (txt "ttp://"))

h-IsOut : IsOut b'h'
unfolding to_lower
h-IsOut =
    let out = not_in b'h' in
    (out (txt "ediss://"), out (txt "edis://"), out (txt "ttps://"), out (txt "ttp://"))

name_of-IsName : (scheme : Scheme) → All IsName (name_of scheme)
unfolding is_space is_name
name_of-IsName redis = names (txt "redis")
name_of-IsName rediss = names (txt "rediss")
name_of-IsName http = names (txt "http")
name_of-IsName https = names (txt "https")

-- Whatever stands before and after it in a message: of a URL of Redis or HTTP with a user and a
-- password, what is written does not tell the user nor the password, if the user has no colon, slash,
-- at sign or white space, and the password no at sign or white space. The same message with any other
-- such user and password is redacted to the same text.
pub credentials_hidden :
    (before after : Text) (scheme : Scheme) (user password user' password' : Text)
    → All IsName user
    → All IsPlain password
    → All IsName user'
    → All IsPlain password'
    → redact_secrets (before ++ url_of scheme user password after)
      ≡ redact_secrets (before ++ url_of scheme user' password' after)
unfolding redact_secrets to_lower is_space scheme_length starts_alike
credentials_hidden before after redis u p u' p' hu hp hu' hp' = ap (replace_parameters 0 false) (
    hidden b'r' (txt "edis") r-IsOut (name_of-IsName redis) (λ x. refl) after before u p u' p' hu hp
      hu' hp')
credentials_hidden before after rediss u p u' p' hu hp hu' hp' = ap (replace_parameters 0 false) (
    hidden b'r' (txt "ediss") r-IsOut (name_of-IsName rediss) (λ x. refl) after before u p u' p' hu
      hp hu' hp')
credentials_hidden before after http u p u' p' hu hp hu' hp' = ap (replace_parameters 0 false) (
    hidden b'h' (txt "ttp") h-IsOut (name_of-IsName http) (λ x. refl) after before u p u' p' hu hp
      hu' hp')
credentials_hidden before after https u p u' p' hu hp hu' hp' = ap (replace_parameters 0 false) (
    hidden b'h' (txt "ttps") h-IsOut (name_of-IsName https) (λ x. refl) after before u p u' p' hu hp
      hu' hp')
