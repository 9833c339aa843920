-- ===== src/Logging/Redacted.antt =====
-- A log line does not depend on the credentials of a URL in it.
use task_queue_system.Prelude.{
  ℕ, suc, zero, ◌+◌, ◌-◌, ◌≤◌, ◌≡◌, ◌⊎◌, refl, inl, inr, [], ◌∷◌, ◌++◌, Text, txt, Option, none,
  some, arith, All, length, drop, take, ap, ◌∙◌,
}
use task_queue_system.Logging.{
  replace_urls, url_match, match_from, with_scheme, user_end, scheme_length,
}
use task_queue_system.Logging.Ends.{
  IsPlain, Alike, user_end-Alike, IsOut, scheme_length-same, scheme_length-within,
}

pub drop_append : (k : ℕ) (a b : Text) → k ≤ length a → drop k (a ++ b) ≡ drop k a ++ b
drop_append zero a b h = refl
drop_append (suc k) [] b h = absurd (omega (arith, h))
drop_append (suc k) (c ∷ a) b h = drop_append k a b (omega (arith, h))

pub take_append : (k : ℕ) (a b : Text) → k ≤ length a → take k (a ++ b) ≡ take k a
take_append zero a b h = refl
take_append (suc k) [] b h = absurd (omega (arith, h))
take_append (suc k) (c ∷ a) b h = ap (λ t. c ∷ t) (take_append k a b (omega (arith, h)))

length-drop : (k : ℕ) (a : Text) → k ≤ length a → length (drop k a) + k ≡ length a
length-drop zero a h = omega arith
length-drop (suc k) [] h = absurd (omega (arith, h))
length-drop (suc k) (c ∷ a) h = omega (arith, h, length-drop k a (omega (arith, h)))

-- What belongs to a match is left out.
pub skipped : (a b : Text) (m : ℕ) → replace_urls (length a + m) (a ++ b) ≡ replace_urls m b
unfolding replace_urls
skipped [] b m = ap (λ n. replace_urls n b) (omega arith)
skipped (c ∷ a) b m =
    let count : suc (length a) + m ≡ suc (length a + m) = omega arith in
    ap (λ n. replace_urls n (c ∷ a ++ b)) count ∙ skipped a b m

replaced_none :
    (c : ℕ) (s : Text) → url_match (c ∷ s) ≡ none → replace_urls 0 (c ∷ s) ≡ c ∷ replace_urls 0 s
unfolding replace_urls
replaced_none c s e = rw (e, replace_urls) refl

pub replaced_some :
    (c : ℕ) (s : Text) (k n : ℕ)
    → url_match (c ∷ s) ≡ some (k, n)
    → replace_urls 0 (c ∷ s) ≡ take k (c ∷ s) ++ (txt "://[REDACTED]@" ++ replace_urls (n - 1) s)
unfolding replace_urls
replaced_some c s k n e = rw (e, replace_urls) refl

-- Two matches from the same start, `a` characters before texts of lengths `l` and `l'`.
abbrev MatchAlike : ℕ → ℕ → ℕ → Option (ℕ × ℕ) → Option (ℕ × ℕ) → Type 0
MatchAlike a l l' o o' =
    ((o ≡ none) × (o' ≡ none))
    ⊎ ((k : ℕ) × (k ≤ a)
        × (((n : ℕ) × (1 ≤ n) × (n ≤ a) × (o ≡ some (k, n)) × (o' ≡ some (k, n)))
            ⊎ ((o ≡ some (k, a + l)) × (o' ≡ some (k, a + l')))))

with_scheme-MatchAlike :
    (a d k l l' : ℕ) (o o' : Option ℕ)
    → d + (k + 3) ≡ a
    → Alike d l l' o o'
    → MatchAlike a l l' (with_scheme k o) (with_scheme k o')
unfolding with_scheme
with_scheme-MatchAlike a d k l l' o o' h (inl (p, q)) = inl (rw p refl, rw q refl)
with_scheme-MatchAlike a d k l l' o o' h (inr (inl (n, le, p, q))) =
    inr (
      k,
      omega (arith, h),
      inl (k + 3 + n, omega arith, omega (arith, h, le), rw p refl, rw q refl),
    )
with_scheme-MatchAlike a d k l l' o o' h (inr (inr (p, q))) =
    let there : (m : ℕ) → Path (Option (ℕ × ℕ)) (some (k, k + 3 + (d + m))) (some (k, a + m)) =
      λ m. ap (λ n. some (k, n)) (omega (arith, h)) in
    inr (k, omega (arith, h), inr (rw p (there l), rw q (there l')))

module _ (f : ℕ) (v v' rest : Text) (out : IsOut f) where
  abbrev pub text_of : Text → Text
  text_of w = f ∷ w ++ b'@' ∷ rest

  module _ (h : All IsPlain (f ∷ v)) (h' : All IsPlain (f ∷ v'))
      (e : user_end (text_of v) ≡ some (suc (suc (length v))))
      (e' : user_end (text_of v') ≡ some (suc (suc (length v')))) where
    match_from-MatchAlike :
        (a : Text) (k : ℕ)
        → k + 3 ≤ length a
        → MatchAlike
            (length a)
            (suc (suc (length v)))
            (suc (suc (length v')))
            (match_from (a ++ text_of v) (some k))
            (match_from (a ++ text_of v') (some k))
    unfolding match_from
    match_from-MatchAlike a k le =
        rw (drop_append (k + 3) a (text_of v) le, drop_append (k + 3) a (text_of v') le)
          (with_scheme-MatchAlike (length a) (length (drop (k + 3) a)) k _ _ _ _
            (length-drop (k + 3) a le)
            (user_end-Alike rest (f ∷ v) (f ∷ v') h h' e e' (drop (k + 3) a)))

    url_match-MatchAlike :
        (c : ℕ) (a : Text)
        → MatchAlike
            (suc (length a))
            (suc (suc (length v)))
            (suc (suc (length v')))
            (url_match (c ∷ a ++ text_of v))
            (url_match (c ∷ a ++ text_of v'))
    unfolding url_match
    url_match-MatchAlike c a =
        rw (scheme_length-same f (v ++ b'@' ∷ rest) (v' ++ b'@' ∷ rest) c a out) (
          by_scheme (scheme_length (c ∷ a ++ text_of v'))
            (λ k q. scheme_length-within f (v' ++ b'@' ∷ rest) [] c a k out q))
      where
        by_scheme :
            (o : Option ℕ)
            → ((k : ℕ) → o ≡ some k → k + 3 ≤ suc (length a))
            → MatchAlike
                (suc (length a))
                (suc (suc (length v)))
                (suc (suc (length v')))
                (match_from (c ∷ a ++ text_of v) o)
                (match_from (c ∷ a ++ text_of v') o)
        by_scheme none within = unfold match_from in inl (refl, refl)
        by_scheme (some k) within = match_from-MatchAlike (c ∷ a) k (within k refl)

    to_rest :
        (w a : Text)
        → replace_urls (suc (length a) + suc (suc (length w)) - 1) (a ++ text_of w)
          ≡ replace_urls 0 rest
    unfolding replace_urls
    to_rest w a =
        let count : suc (length a) + suc (suc (length w)) - 1 ≡ length a + (suc (length w) + 1) =
          omega arith in
        ap (λ n. replace_urls n (a ++ text_of w)) count
        ∙ (skipped a (text_of w) (suc (length w) + 1) ∙ skipped (f ∷ w) (b'@' ∷ rest) 1)

    pub same_output :
        (a : Text) (n : ℕ)
        → n ≤ length a
        → replace_urls 0 (text_of v) ≡ replace_urls 0 (text_of v')
        → replace_urls n (a ++ text_of v) ≡ replace_urls n (a ++ text_of v')
    unfolding replace_urls
    same_output [] zero le here = here
    same_output [] (suc n) le here = absurd (omega (arith, le))
    same_output (c ∷ a) (suc n) le here = same_output a n (omega (arith, le)) here
    same_output (c ∷ a) zero le here =
        by_match (url_match-MatchAlike c a) (λ n le'. same_output a n le' here)
      where
        by_match :
            MatchAlike
              (suc (length a))
              (suc (suc (length v)))
              (suc (suc (length v')))
              (url_match (c ∷ a ++ text_of v))
              (url_match (c ∷ a ++ text_of v'))
            → ((n : ℕ)
                → n ≤ length a
                → replace_urls n (a ++ text_of v) ≡ replace_urls n (a ++ text_of v'))
            → replace_urls 0 (c ∷ a ++ text_of v) ≡ replace_urls 0 (c ∷ a ++ text_of v')
        by_match (inl (p, q)) later =
            rw (replaced_none c (a ++ text_of v) p, replaced_none c (a ++ text_of v') q)
              (ap (λ t. c ∷ t) (later 0 (omega arith)))
        by_match (inr (k, near, inl (n, pos, le, p, q))) later =
            rw
              (
                replaced_some c (a ++ text_of v) k n p,
                replaced_some c (a ++ text_of v') k n q,
                take_append k (c ∷ a) (text_of v) near,
                take_append k (c ∷ a) (text_of v') near,
                later (n - 1) (omega (arith, le, pos)),
              )
              refl
        by_match (inr (k, near, inr (p, q))) later =
            rw
              (
                replaced_some c (a ++ text_of v) k _ p,
                replaced_some c (a ++ text_of v') k _ q,
                take_append k (c ∷ a) (text_of v) near,
                take_append k (c ∷ a) (text_of v') near,
                to_rest v a,
                to_rest v' a,
              )
              refl
