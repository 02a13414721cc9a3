-- ===== src/Task/Lists.antt =====
-- What the loops of kernel/src/task/mod.rs do to a property of every task and its place.
use vibra.Common.{ℕ, zero, suc, ◌≡◌, refl, ap, List, [], ◌∷◌, some, Bool}
use vibra.Common.{true, length, get_elem?}
use vibra.Common.{AllAt, ◌⊎◌, Bool-cases, inl, inr}
use vibra.Task.{Task, wake_due, wake_all}
use vibra.Task.Api.{update_first}

pub length-wake_all : (now : ℕ) (ts : List Task) → length (wake_all now ts) ≡ length ts
unfolding wake_all
length-wake_all now [] = refl
length-wake_all now (t ∷ ts) = ap suc (length-wake_all now ts)

pub length-update_first :
    (test : Task → Bool) (change : Task → Task) (ts : List Task)
    → length (update_first test change ts) ≡ length ts
unfolding update_first
length-update_first test change [] = refl
length-update_first test change (t ∷ ts) = elim (Bool-cases (test t)) [
  | inl p ↦ rw p
  | inr p ↦ rw p (ap suc (length-update_first test change ts))
]

-- Every place of the woken table holds the woken task of that place.
pub wake_all-at :
    (now : ℕ) (ts : List Task) (i : ℕ) (t : Task)
    → get_elem? (wake_all now ts) i ≡ some t
    → (u : Task) × (get_elem? ts i ≡ some u) × (t ≡ wake_due now u)
unfolding wake_all
wake_all-at now [] i t h = cc
wake_all-at now (u ∷ ts) zero t h = (u, refl, cc)
wake_all-at now (u ∷ ts) (suc i) t h = wake_all-at now ts i t h

pub get_elem?-wake_all :
    (now : ℕ) (ts : List Task) (i : ℕ) (t : Task)
    → get_elem? ts i ≡ some t
    → get_elem? (wake_all now ts) i ≡ some (wake_due now t)
unfolding wake_all
get_elem?-wake_all now [] i t h = cc
get_elem?-wake_all now (u ∷ ts) zero t h = cc
get_elem?-wake_all now (u ∷ ts) (suc i) t h = get_elem?-wake_all now ts i t h

-- A place of the updated table holds what it held, or its change if it passed the test.
pub update_first-at :
    (test : Task → Bool) (change : Task → Task) (ts : List Task) (i : ℕ) (t : Task)
    → get_elem? (update_first test change ts) i ≡ some t
    → (u : Task) × (get_elem? ts i ≡ some u) × ((t ≡ u) ⊎ ((test u ≡ true) × (t ≡ change u)))
unfolding update_first
update_first-at test change [] i t h = cc
update_first-at test change (u ∷ ts) zero t h = elim (Bool-cases (test u)) [
  | inl p ↦ (u, refl, inr (p, cc (rw p at h)))
  | inr p ↦ (u, refl, inl (cc (rw p at h)))
]
update_first-at test change (u ∷ ts) (suc i) t h = elim (Bool-cases (test u)) [
  | inl p ↦ (t, rw p at h, inl refl)
  | inr p ↦ update_first-at test change ts i t (rw p at h)
]

module _ (P : ℕ → Task → Type 0) where
  pub AllAt-wake_all :
      (now : ℕ) (ts : List Task)
      → ((i : ℕ) (t : Task) → P i t → P i (wake_due now t))
      → AllAt P ts
      → AllAt P (wake_all now ts)
  AllAt-wake_all now ts keep all i t h =
      let (u, there, e) = wake_all-at now ts i t h in rw e (keep i u (all i u there))

  pub AllAt-update_first :
      (test : Task → Bool) (change : Task → Task) (ts : List Task)
      → ((i : ℕ) (t : Task) → test t ≡ true → P i t → P i (change t))
      → AllAt P ts
      → AllAt P (update_first test change ts)
  AllAt-update_first test change ts keep all i t h =
      let (u, there, cases) = update_first-at test change ts i t h in
      elim cases [ inl e ↦ rw e (all i u there) | inr b ↦ rw b.1 (keep i u b.0 (all i u there)) ]
