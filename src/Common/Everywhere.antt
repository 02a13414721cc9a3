-- ===== src/Common/Everywhere.antt =====
-- A property of every element of a list and its place, kept by the changes that the kernel makes
-- to its vectors.
use Prim.Native.Nat.{ℕ, zero, suc}
use mathlib.Core.Path.{◌≡◌, refl, ap}
use mathlib.Core.Logic.{◌≢◌, ◌⊎◌, inl, inr}
use mathlib.Core.List.{List, [], ◌∷◌, ◌++◌}
use mathlib.Core.Option.{some}
use native.Mathlib.Omega.{arith}
use vibra.Common.Lists.{length, get_elem?, set}

module _ {ℓ} {A : Type ℓ} where
  -- A place of a list that has been written holds the value written, or what it held.
  pub set-at :
      (xs : List A) (n : ℕ) (v : A) (i : ℕ) {x : A}
      → get_elem? (set xs n v) i ≡ some x
      → ((n ≢ i) × (get_elem? xs i ≡ some x)) ⊎ ((n ≡ i) × (x ≡ v))
  set-at [] n v i h = absurd (cc)
  set-at (y ∷ xs) zero v zero h = inr (refl, cc)
  set-at (y ∷ xs) zero v (suc i) h = inl (omega arith, h)
  set-at (y ∷ xs) (suc n) v zero h = inl (omega arith, h)
  set-at (y ∷ xs) (suc n) v (suc i) h = elim (set-at xs n v i h) [
    | inl old ↦ inl (λ e. old.0 (omega arith), old.1)
    | inr new ↦ inr (ap suc new.0, new.1)
  ]

  -- A place of a list with one element pushed is an old place or the last one.
  pub push-at :
      (xs : List A) (v : A) (i : ℕ) {x : A}
      → get_elem? (xs ++ v ∷ []) i ≡ some x
      → (get_elem? xs i ≡ some x) ⊎ ((i ≡ length xs) × (x ≡ v))
  push-at [] v zero h = inr (refl, cc)
  push-at [] v (suc i) h = cc
  push-at (y ∷ xs) v zero h = inl h
  push-at (y ∷ xs) v (suc i) h = elim (push-at xs v i h) [
    | inl old ↦ inl old
    | inr new ↦ inr (ap suc new.0, new.1)
  ]

  abbrev pub AllAt {κ} : (ℕ → A → Type κ) → List A → Type (ℓ ⊔ κ)
  AllAt P xs = (i : ℕ) (x : A) → get_elem? xs i ≡ some x → P i x

  pub AllAt-set {κ} :
      (P : ℕ → A → Type κ) (xs : List A) (n : ℕ) (v : A)
      → P n v
      → ((i : ℕ) (x : A) → n ≢ i → get_elem? xs i ≡ some x → P i x)
      → AllAt P (set xs n v)
  AllAt-set P xs n v new all i x h = elim (set-at xs n v i h) [
    | inl old ↦ all i x old.0 old.1
    | inr e ↦ rw (← e.0, e.1) new
  ]

  pub AllAt-push {κ} :
      (P : ℕ → A → Type κ) (xs : List A) (v : A)
      → P (length xs) v
      → AllAt P xs
      → AllAt P (xs ++ v ∷ [])
  AllAt-push P xs v new all i x h = elim (push-at xs v i h) [
    | inl old ↦ all i x old
    | inr e ↦ rw (e.0, e.1) new
  ]
