-- ===== src/Prelude/Space.antt =====
-- `s.trim()`: white space and line terminators of ECMAScript, dropped at both ends.
use Prim.Native.Nat.{ℕ, ◌≤◌}
use mathlib.Core.Path.{◌≡◌, refl}
use mathlib.Core.Logic.{inl, inr}
use mathlib.Core.Bool.{Bool, false, ◌&&◌, ◌||◌}
use mathlib.Core.List.{[], ◌∷◌}
use native.Mathlib.Omega.{arith}
use task_queue_system.Prelude.Tests.{leb, ◌==◌, if◌then◌else◌, Bool-cases}
use task_queue_system.Prelude.Lists.{All, All-map}
use task_queue_system.Prelude.Texts.{Text, is_empty}
use task_queue_system.Prelude.Decimal.{IsDigits}

unfoldable pub is_space : ℕ → Bool
is_space c =
    (leb 9 c && leb c 13)
    || c == 32
    || c == 160
    || c == 0x1680
    || (leb 0x2000 c && leb c 0x200a)
    || c == 0x2028
    || c == 0x2029
    || c == 0x202f
    || c == 0x205f
    || c == 0x3000
    || c == 0xfeff

trim_start : Text → Text
trim_start [] = []
trim_start (c ∷ s) = if is_space c then trim_start s else c ∷ s

trim_end : Text → Text
trim_end [] = []
trim_end (c ∷ s) = let rest = trim_end s in if is_empty rest && is_space c then [] else c ∷ rest

unfoldable pub trim : Text → Text
unfolding trim_start trim_end is_space
trim s = trim_end (trim_start s)

digit_is_not_space : (c : ℕ) → 48 ≤ c → c ≤ 57 → is_space c ≡ false
unfolding is_space
digit_is_not_space c h k = ground arith

trim_start_of_no_space : (s : Text) → All (λ c. is_space c ≡ false) s → trim_start s ≡ s
unfolding trim_start
trim_start_of_no_space [] h = refl
trim_start_of_no_space (c ∷ s) h = rw h.0

trim_end_of_no_space : (s : Text) → All (λ c. is_space c ≡ false) s → trim_end s ≡ s
unfolding trim_end
trim_end_of_no_space [] h = refl
trim_end_of_no_space (c ∷ s) h = ground (arith, trim_end_of_no_space s h.1, h.0)

-- A text without white space has nothing to trim.
pub trim_of_no_space : (s : Text) → All (λ c. is_space c ≡ false) s → trim s ≡ s
unfolding trim
trim_of_no_space s h = rw (trim_start_of_no_space s h) (trim_end_of_no_space s h)

pub trim_of_IsDigits : (s : Text) → IsDigits s → trim s ≡ s
trim_of_IsDigits s h = trim_of_no_space s (All-map s (λ c k. digit_is_not_space c k.0 k.1) h)

module _ {ℓ} (P : ℕ → Type ℓ) where
  trim_start-All : (s : Text) → All P s → All P (trim_start s)
  unfolding trim_start
  trim_start-All [] h = tt
  trim_start-All (c ∷ s) h = elim (Bool-cases (is_space c)) [
    | inl space ↦ rw space (trim_start-All s h.1)
    | inr other ↦ rw other h
  ]

  trim_end-All : (s : Text) → All P s → All P (trim_end s)
  unfolding trim_end
  trim_end-All [] h = tt
  trim_end-All (c ∷ s) h = elim (Bool-cases (is_empty (trim_end s) && is_space c)) [
    | inl gone ↦ rw gone tt
    | inr kept ↦ rw kept (h.0, trim_end-All s h.1)
  ]

  pub trim-All : (s : Text) → All P s → All P (trim s)
  unfolding trim
  trim-All s h = trim_end-All (trim_start s) (trim_start-All s h)
