-- ===== src/Context/Normal.antt =====
-- What survives the normalisation of a caller's correlation ID.
use task_queue_system.Prelude.{
  ℕ, ◌≤◌, ◌≡◌, refl, inl, inr, [], ◌∷◌, Text, Option, none, some, true, false, arith, All,
  All-filter, length, length-filter-le, length-take-le, take, filter, trim, is_empty, Bool-cases,
  is_space, trim_of_no_space, All-map, take_of_short, filter_of_All,
}
use task_queue_system.Context.{is_safe_char, or_undefined, normalise_correlation_id}

-- At most 64 characters, at least one, all of them letters, digits, `_` or `-`.
pub record IsNormal (t : Text) : Type 0 where
  pub some_text : 1 ≤ length t
  pub short : length t ≤ 64
  pub safe : All (λ c. is_safe_char c ≡ true) t

or_undefined-IsNormal :
    (s t : Text)
    → length s ≤ 64
    → All (λ c. is_safe_char c ≡ true) s
    → or_undefined s ≡ some t
    → IsNormal t
unfolding or_undefined
or_undefined-IsNormal [] t h k e = cc
or_undefined-IsNormal (c ∷ s) t h k e =
    rw (← some_eq e) (record { some_text = omega arith; short = h; safe = k })
  where
    some_eq : some (c ∷ s) ≡ some t → c ∷ s ≡ t
    some_eq p = cc

-- An ID that is accepted from a caller is 1 to 64 characters long and has no character but letters,
-- digits, `_` and `-`: no white space and no control character reaches a log line through it.
pub normalise_correlation_id-IsNormal :
    (raw : Option Text) (t : Text) → normalise_correlation_id raw ≡ some t → IsNormal t
unfolding normalise_correlation_id
normalise_correlation_id-IsNormal none t e = cc
normalise_correlation_id-IsNormal (some raw) t e = elim (Bool-cases (is_empty raw)) [
  | inl empty ↦ absurd (undefined (rw empty at e))
  | inr given ↦
      or_undefined-IsNormal (filter is_safe_char (take 64 (trim raw))) t
        (omega (
          arith,
          length-filter-le {0} is_safe_char (take 64 (trim raw)),
          length-take-le {0} 64 (trim raw),
        ))
        (All-filter (λ c. is_safe_char c ≡ true) is_safe_char (take 64 (trim raw)) (λ c h. h))
        (rw given at e)
]
  where
    undefined : Path (Option Text) none (some t) → ⊥
    undefined p = cc

safe_is_not_space : (c : ℕ) → is_safe_char c ≡ true → is_space c ≡ false
unfolding is_safe_char is_space
safe_is_not_space c h = ground arith

or_undefined-some : (s : Text) → 1 ≤ length s → or_undefined s ≡ some s
unfolding or_undefined
or_undefined-some [] h = absurd (omega arith)
or_undefined-some (c ∷ s) h = refl

not_empty : (s : Text) → 1 ≤ length s → is_empty s ≡ false
not_empty [] h = absurd (omega arith)
not_empty (c ∷ s) h = refl

-- A normal ID is accepted as it stands, so an ID that the service has handed out is honoured when a
-- caller sends it back.
pub normalise_correlation_id_of_IsNormal :
    (t : Text) → IsNormal t → normalise_correlation_id (some t) ≡ some t
unfolding normalise_correlation_id
normalise_correlation_id_of_IsNormal t n =
    rw
      (
        not_empty t n.some_text,
        trim_of_no_space t (All-map t safe_is_not_space n.safe),
        take_of_short 64 t n.short,
        filter_of_All is_safe_char t n.safe,
      )
      (or_undefined-some t n.some_text)
