-- ===== src/Common/Tables.antt =====
-- Laws of small numbers by a table: the byte and bit operations of the kernel on every byte.
use Prim.Native.Nat.{ℕ, zero, suc, ◌+◌, ◌≤◌, ◌<◌}
use mathlib.Core.Path.{◌≡◌}
use mathlib.Core.Logic.{inl, inr}
use mathlib.Core.Bool.{Bool, true, ◌&&◌}
use native.Mathlib.Omega.{arith}
use vibra.Common.Tests.{◌==◌, ==_iff, Bool-cases}

-- The row of a test for the `n` numbers from `from` on.
unfoldable pub passes : (ℕ → Bool) → ℕ → ℕ → Bool
passes test from zero = true
passes test from (suc n) = test from && passes test (from + 1) n

row-passes :
    (test : ℕ → Bool) (from n x : ℕ)
    → from ≤ x
    → x < from + n
    → passes test from n ≡ true
    → test x ≡ true
unfolding passes
row-passes test from zero x lo hi all = absurd (omega arith)
row-passes test from (suc n) x lo hi all = elim (Bool-cases (from == x)) [
  | inl here ↦ let at : from ≡ x = (==_iff from x).0 here in rw (← at) (ground arith)
  | inr past ↦ row-passes test (from + 1) n x (ground arith) (omega arith) (ground arith)
]

pub read_table :
    (n : ℕ) (test : ℕ → Bool) → passes test 0 n ≡ true → (x : ℕ) → x < n → test x ≡ true
read_table n test all x below = row-passes test 0 n x (omega arith) (omega arith) all
