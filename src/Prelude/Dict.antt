-- ===== src/Prelude/Dict.antt =====
-- A `Map` with text keys, as its entries in order of insertion.
use mathlib.Core.List.{List, [], ◌∷◌}
use mathlib.Core.Option.{Option, none, some}
use mathlib.Core.Path.{◌≡◌, refl, subst₂}
use Prim.Native.Nat.{◌+◌, ◌≤◌}
use native.Mathlib.Omega.{arith}
use task_queue_system.Prelude.Tests.{if◌then◌else◌, Bool-cases}
use mathlib.Core.Logic.{inl, inr}
use task_queue_system.Prelude.Lists.{length, All}
use task_queue_system.Prelude.Texts.{Text, text_eq, text_eq_iff, text_eq_refl}

abbrev pub Dict {ℓ} : Type ℓ → Type ℓ
Dict V = List (Text × V)

module _ {ℓ} {V : Type ℓ} where
  unfoldable pub lookup : Text → Dict V → Option V
  lookup k [] = none
  lookup k ((j, v) ∷ m) = if text_eq j k then some v else lookup k m

  unfoldable pub insert : Text → V → Dict V → Dict V
  insert k v [] = (k, v) ∷ []
  insert k v ((j, w) ∷ m) = if text_eq j k then (k, v) ∷ m else (j, w) ∷ insert k v m

  pub lookup-insert :
      (k j : Text) (v : V) (m : Dict V)
      → lookup j (insert k v m) ≡ (if text_eq k j then some v else lookup j m)
  unfolding lookup insert
  lookup-insert k j v [] = refl
  lookup-insert k j v ((i, w) ∷ m) =
      ground (arith, text_eq_iff k j, text_eq_iff i k, text_eq_iff i j, lookup-insert k j v m)

  pub lookup-insert_self : (k : Text) (v : V) (m : Dict V) → lookup k (insert k v m) ≡ some v
  lookup-insert_self k v m = rw lookup-insert (rw text_eq_refl)

  pub length-insert-le : (k : Text) (v : V) (m : Dict V) → length (insert k v m) ≤ length m + 1
  unfolding insert
  length-insert-le k v [] = omega arith
  length-insert-le k v ((j, w) ∷ m) = ground (arith, length-insert-le k v m)

same_value {ℓ} : {V : Type ℓ} {w v : V} → some w ≡ some v → w ≡ v
same_value e = cc

module _ {ℓ κ} {V : Type ℓ} (P : Text → V → Type κ) where
  -- What holds of each entry holds of the entry found.
  pub lookup-All :
      (k : Text) (m : Dict V) {v : V} → All (λ e. P e.0 e.1) m → lookup k m ≡ some v → P k v
  unfolding lookup
  lookup-All k [] h e = cc
  lookup-All k ((j, w) ∷ m) {v} h e =
      let found : (if text_eq j k then some w else lookup k m) ≡ some v = e in
      elim (Bool-cases (text_eq j k)) [
        | inl same ↦ subst₂ P ((text_eq_iff j k).0 same) (same_value (rw same at found)) h.0
        | inr other ↦ lookup-All k m h.1 (rw other at found)
      ]

  pub insert-All :
      (k : Text) (v : V) (m : Dict V)
      → All (λ e. P e.0 e.1) m
      → P k v
      → All (λ e. P e.0 e.1) (insert k v m)
  unfolding insert
  insert-All k v [] h p = (p, tt)
  insert-All k v ((j, w) ∷ m) h p = elim (Bool-cases (text_eq j k)) [
    | inl same ↦ rw same (p, h.1)
    | inr other ↦ rw other (h.0, insert-All k v m h.1 p)
  ]
