-- ===== src/Prelude/Search.antt =====
-- Texts within texts: `s.includes(t)` and `s.replace(pattern, text)` for a text as pattern.
use Prim.Native.Nat.{ℕ}
use mathlib.Core.Path.{◌≡◌, refl, sym}
use mathlib.Core.Logic.{◌≢◌}
use mathlib.Core.Bool.{Bool, true, ◌&&◌, ◌||◌}
use mathlib.Core.List.{[], ◌∷◌, ◌++◌, append-nil}
use native.Mathlib.Omega.{arith}
use task_queue_system.Prelude.Tests.{◌==◌, if◌then◌else◌, Bool-cases}
use task_queue_system.Prelude.Lists.{length, drop, All}
use task_queue_system.Prelude.Texts.{Text, starts_with}
use mathlib.Core.Logic.{inl, inr}

unfoldable pub contains : Text → Text → Bool
contains [] t = starts_with [] t
contains (c ∷ s) t = starts_with (c ∷ s) t || contains s t

-- The first occurrence is replaced, if there is one.
unfoldable pub replace_first : (pattern replacement : Text) → Text → Text
replace_first pattern replacement [] = if starts_with [] pattern then replacement else []
replace_first pattern replacement (c ∷ s) =
    let rest = replace_first pattern replacement s in
    if starts_with (c ∷ s) pattern then replacement ++ drop (length pattern) (c ∷ s) else c ∷ rest

-- An occurrence at the start is the first.
pub replace_at_start :
    (pattern replacement s : Text)
    → starts_with s pattern ≡ true
    → replace_first pattern replacement s ≡ replacement ++ drop (length pattern) s
unfolding replace_first
replace_at_start [] replacement [] h = unfold starts_with in sym (append-nil replacement)
replace_at_start (p ∷ pattern) replacement [] h = unfold starts_with in cc
replace_at_start pattern replacement (c ∷ s) h = rw h refl

-- A text that starts with `t` is `t` and the rest.
pub split_start : (s t : Text) → starts_with s t ≡ true → s ≡ t ++ drop (length t) s
unfolding starts_with
split_start s [] h = refl
split_start [] (d ∷ t) h = cc
split_start (c ∷ s) (d ∷ t) h = grind (arith, split_start s t)

-- A replacement that starts with the same character as its pattern leaves a prefix without that
-- character as it was.
pub starts_with-replace_first :
    (x : ℕ) (pattern replacement s t : Text)
    → All (λ c. c ≢ x) t
    → starts_with (replace_first (x ∷ pattern) (x ∷ replacement) s) t ≡ starts_with s t
unfolding starts_with replace_first
starts_with-replace_first x pattern replacement s [] h = refl
starts_with-replace_first x pattern replacement [] (d ∷ t) h = refl
starts_with-replace_first x pattern replacement (c ∷ s) (d ∷ t) h =
    elim (Bool-cases (c == x && starts_with s pattern)) [
      | inl first ↦ rw first (ground (arith, first, h.0))
      | inr later ↦
          rw later (ground (arith, starts_with-replace_first x pattern replacement s t h.1))
    ]
