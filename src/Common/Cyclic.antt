-- ===== src/Common/Cyclic.antt =====
-- Positions of a table walked cyclically: `%` by its length.
use Prim.Native.Nat.{ℕ, ◌+◌, ◌-◌, ◌%◌, ◌≤◌, ◌<◌}
use mathlib.Core.Path.{◌≡◌, ◌∙◌}
use native.Mathlib.Omega.{arith}
use native.Mathlib.Nat.{mod-add-mod, mod-eq_of_lt, mod-eq-sub-mod}
use native.Mathlib.Decide.{dec_lt}

pub mod_step : (a m : ℕ) → (a % m + 1) % m ≡ (a + 1) % m
mod_step a m = mod-add-mod a m 1

pub mod_wrap : (a m : ℕ) → m ≤ a → a < m + m → a % m ≡ a - m
mod_wrap a m h h' = mod-eq-sub-mod h ∙ mod-eq_of_lt (omega arith)

-- From `s`, `k + 1` steps lead back to `s` exactly when they make a whole turn.
pub turn_done : (s k m : ℕ) → s < m → k < m → (s + k + 1) % m ≡ s → k + 1 ≡ m
turn_done s k m h h' e = elim (dec_lt (s + k + 1) m) [
  | yes p ↦ absurd (omega (arith, mod-eq_of_lt p))
  | no p ↦ omega (arith, mod_wrap (s + k + 1) m (omega arith) (omega arith))
]

pub turn_open : (s k m : ℕ) → s < m → k + 1 ≡ m → (s + k + 1) % m ≡ s
turn_open s k m h e = omega (arith, mod_wrap (s + k + 1) m (omega arith) (omega arith))

-- Every position is some number of steps, below one turn, from `s`.
pub steps_to : (s i m : ℕ) → s < m → i < m → (k : ℕ) × (k < m) × ((s + k) % m ≡ i)
steps_to s i m h h' = elim (dec_lt i s) [
  | yes p ↦ (
    i + m - s,
    omega arith,
    omega (arith, mod_wrap (s + (i + m - s)) m (omega arith) (omega arith)),
  )
  | no p ↦ (i - s, omega arith, omega (arith, mod-eq_of_lt {n = s + (i - s)} {m = m} (omega arith)))
]
