-- ===== src/Logging/Ends.antt =====
-- How far a match reaches that starts before a text `w ++ '@' ∷ rest`, where `w` has neither an at sign
-- nor white space: not into it, or up to its at sign, or there is none, whatever `w` is.
use task_queue_system.Prelude.{
  ℕ, suc, ◌+◌, ◌≤◌, ◌≡◌, ◌⊎◌, refl, inl, inr, [], ◌∷◌, ◌++◌, Text, txt, Option, none, some, true,
  false, Bool-cases, ◌||◌, ◌==◌, arith, All, is_space, length, ap, ◌∙◌,
}
use task_queue_system.Logging.{
  one_more, password_end, user_end, starts_alike, to_lower, scheme_length,
}

-- A character of a password.
abbrev pub IsPlain : ℕ → Type 0
IsPlain c = ((c == b'@') ≡ false) × (is_space c ≡ false)

-- Two ends of a match from the same start, `a` characters before texts of lengths `l` and `l'`.
abbrev pub Alike : ℕ → ℕ → ℕ → Option ℕ → Option ℕ → Type 0
Alike a l l' o o' =
    ((o ≡ none) × (o' ≡ none))
    ⊎ (((n : ℕ) × (n ≤ a) × (o ≡ some n) × (o' ≡ some n))
        ⊎ ((o ≡ some (a + l)) × (o' ≡ some (a + l'))))

one_more-Alike :
    (a l l' : ℕ) (o o' : Option ℕ)
    → Alike a l l' o o'
    → Alike (suc a) l l' (one_more o) (one_more o')
unfolding one_more
one_more-Alike a l l' o o' (inl (p, q)) = inl (rw p refl, rw q refl)
one_more-Alike a l l' o o' (inr (inl (n, h, p, q))) =
    inr (inl (suc n, omega (arith, h), rw p refl, rw q refl))
one_more-Alike a l l' o o' (inr (inr (p, q))) =
    let further : (k : ℕ) → some (suc (a + k)) ≡ some (suc a + k) = λ k. ap some (omega arith) in
    inr (inr (rw p (further l), rw q (further l')))

at_start : {l l' : ℕ} {o o' : Option ℕ} → o ≡ some l → o' ≡ some l' → Alike 0 l l' o o'
at_start {l} {l'} p q = inr (inr (p ∙ ap some (omega arith), q ∙ ap some (omega arith)))

module _ (rest : Text) where
  -- The text that a match must not tell from another.
  abbrev pub before_at : Text → Text
  before_at w = w ++ b'@' ∷ rest

  pub password_end_lem :
      (w : Text) → All IsPlain w → password_end (w ++ b'@' ∷ rest) ≡ some (suc (length w))
  unfolding password_end one_more
  password_end_lem [] h = refl
  password_end_lem (c ∷ w) h = rw (h.0.0, h.0.1, password_end_lem w h.1) refl

  module _ (w w' : Text) (h : All IsPlain w) (h' : All IsPlain w') where
    abbrev Both : ℕ → Option ℕ → Option ℕ → Type 0
    Both a = Alike a (suc (length w)) (suc (length w'))

    pub password_end-Alike :
        (a : Text)
        → Both (length a) (password_end (a ++ before_at w)) (password_end (a ++ before_at w'))
    unfolding password_end one_more
    password_end-Alike [] = at_start (password_end_lem w h) (password_end_lem w' h')
    password_end-Alike (c ∷ a) = elim (Bool-cases (c == b'@')) [
      | inl at ↦ rw at (inr (inl (1, omega arith, refl, refl)))
      | inr other ↦ elim (Bool-cases (is_space c)) [
        | inl space ↦ rw (other, space) (inl (refl, refl))
        | inr plain ↦ rw (other, plain) (one_more-Alike (length a) _ _ _ _ (password_end-Alike a))
      ]
    ]

    pub user_end-Alike :
        user_end (before_at w) ≡ some (suc (length w))
        → user_end (before_at w') ≡ some (suc (length w'))
        → (a : Text) → Both (length a) (user_end (a ++ before_at w)) (user_end (a ++ before_at w'))
    unfolding user_end one_more
    user_end-Alike e e' [] = at_start e e'
    user_end-Alike e e' (c ∷ a) = elim (Bool-cases (c == b':')) [
      | inl colon ↦ rw colon (one_more-Alike (length a) _ _ _ _ (password_end-Alike a))
      | inr other ↦ elim (Bool-cases (c == b'/' || c == b'@' || is_space c)) [
        | inl stop ↦ rw (other, stop) (inl (refl, refl))
        | inr plain ↦ rw (other, plain) (one_more-Alike (length a) _ _ _ _ (user_end-Alike e e' a))
      ]
    ]

abbrev Without : ℕ → Text → Type 0
Without f t = All (λ b. (to_lower f == b) ≡ false) t

-- The character stands in no scheme behind the first letter, so no scheme that starts before reaches it.
abbrev pub IsOut : ℕ → Type 0
IsOut f =
    Without f (txt "ediss://")
    × Without f (txt "edis://")
    × Without f (txt "ttps://")
    × Without f (txt "ttp://")

-- The rest of a pattern in which a character does not stand cannot reach that character.
module _ (f : ℕ) (y y' : Text) where
  starts_alike-same :
      (a t : Text) → Without f t → starts_alike (a ++ f ∷ y) t ≡ starts_alike (a ++ f ∷ y') t
  unfolding starts_alike
  starts_alike-same a [] h = refl
  starts_alike-same [] (b ∷ t) h = rw h.0 refl
  starts_alike-same (c ∷ a) (b ∷ t) h = rw (starts_alike-same a t h.1) refl

  starts_alike-within :
      (a t : Text) → Without f t → starts_alike (a ++ f ∷ y) t ≡ true → length t ≤ length a
  unfolding starts_alike
  starts_alike-within a [] h e = omega arith
  starts_alike-within [] (b ∷ t) h e = ground (arith, e, h.0)
  starts_alike-within (c ∷ a) (b ∷ t) h e = ground (arith, e, starts_alike-within a t h.1)

  pub scheme_length-same :
      (c : ℕ) (a : Text)
      → IsOut f
      → scheme_length (c ∷ a ++ f ∷ y) ≡ scheme_length (c ∷ a ++ f ∷ y')
  unfolding scheme_length starts_alike
  scheme_length-same c a (h1, h2, h3, h4) =
      rw
        (
          starts_alike-same a (txt "ediss://") h1,
          starts_alike-same a (txt "edis://") h2,
          starts_alike-same a (txt "ttps://") h3,
          starts_alike-same a (txt "ttp://") h4,
        )
        refl

  pub scheme_length-within :
      (c : ℕ) (a : Text) (k : ℕ)
      → IsOut f
      → scheme_length (c ∷ a ++ f ∷ y) ≡ some k
      → k + 3 ≤ suc (length a)
  unfolding scheme_length starts_alike
  scheme_length-within c a k (h1, h2, h3, h4) e = ground (
    arith,
    e,
    starts_alike-within a (txt "ediss://") h1,
    starts_alike-within a (txt "edis://") h2,
    starts_alike-within a (txt "ttps://") h3,
    starts_alike-within a (txt "ttp://") h4,
  )
