-- ===== src/Memory/Pmm/Count.antt =====
-- Counting the free frames of kernel/src/memory/pmm.rs below a bound.
use vibra.Common.{
  ℕ, zero, suc, ◌+◌, ◌<◌, ◌≡◌, refl, Bool, true, false, arith, if◌then◌else◌, ◌==◌, Bool-cases, inl,
  inr,
}

-- How many numbers below `n` pass the test.
pub count : (ℕ → Bool) → ℕ → ℕ
count test zero = 0
count test (suc n) = count test n + (if test n then 1 else 0)

pub count_same : (f g : ℕ → Bool) (n : ℕ) → ((j : ℕ) → j < n → f j ≡ g j) → count f n ≡ count g n
unfolding count
count_same f g zero same = refl
count_same f g (suc n) same =
    ground (arith, count_same f g n (λ j h. same j (omega arith)), same n (omega arith))

-- One number less passes.
pub count_less :
    (f g : ℕ → Bool) (i n : ℕ)
    → i < n
    → f i ≡ true
    → ((j : ℕ) → g j ≡ (if i == j then false else f j))
    → count f n ≡ count g n + 1
unfolding count
count_less f g i zero h up same = absurd (omega arith)
count_less f g i (suc n) h up same = elim (Bool-cases (i == n)) [
  | inl last ↦
      ground (arith, count_same f g n (λ j lt. let e = same j in ground (arith, e)), same n)
  | inr other ↦ ground (arith, count_less f g i n (ground arith) up same, same n)
]

pub count-eq-zero : (f : ℕ → Bool) (n : ℕ) → ((j : ℕ) → j < n → f j ≡ false) → count f n ≡ 0
unfolding count
count-eq-zero f zero none = refl
count-eq-zero f (suc n) none =
    ground (arith, count-eq-zero f n (λ j h. none j (omega arith)), none n (omega arith))

pub count_pos : (f : ℕ → Bool) (n : ℕ) → 0 < count f n → 0 < n
unfolding count
count_pos f zero h = h
count_pos f (suc n) h = omega arith

pub count_witness : (f : ℕ → Bool) (n : ℕ) → 0 < count f n → (i : ℕ) × (i < n) × (f i ≡ true)
unfolding count
count_witness f zero h = absurd (omega arith)
count_witness f (suc n) h = elim (Bool-cases (f n)) [
  | inl up ↦ (n, omega arith, up)
  | inr down ↦ let (i, lt, at) = count_witness f n (ground arith) in (i, omega arith, at)
]
