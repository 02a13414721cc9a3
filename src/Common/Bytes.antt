-- ===== src/Common/Bytes.antt =====
-- Bytes: big-endian fields, slices and comparison of byte arrays.
use Prim.Native.Nat.{ℕ, ◌+◌, ◌*◌, ◌/◌, ◌%◌, ◌<◌, bit_or}
use mathlib.Core.Path.{◌≡◌, refl}
use mathlib.Core.Logic.{◌↔◌}
use mathlib.Core.Bool.{Bool, true, false, ◌&&◌}
use mathlib.Core.List.{List, [], ◌∷◌}
use native.Mathlib.Omega.{arith}
use vibra.Common.Tests.{◌==◌, ==_iff}
use vibra.Common.Tables.{passes, read_table}
use vibra.Common.Lists.{take, drop}

-- `to_be` of a `u16`, as the two bytes that it stores.
abbrev pub high_byte : ℕ → ℕ
high_byte x = x / 256 % 256

abbrev pub low_byte : ℕ → ℕ
low_byte x = x % 256

-- `(hi as u32) << 8 | lo as u32`.
unfoldable pub join_bytes : ℕ → ℕ → ℕ
join_bytes hi lo = bit_or (hi * 256) lo

join_table : passes (λ a. passes (λ b. join_bytes a b == (a * 256 + b)) 0 256) 0 256 ≡ true
unfolding passes join_bytes
join_table = refl

pub join_bytes_lem : (hi lo : ℕ) → hi < 256 → lo < 256 → join_bytes hi lo ≡ hi * 256 + lo
join_bytes_lem hi lo h l = (==_iff _ _).0 (read_table 256 _ (read_table 256 _ join_table hi h) lo l)

-- `&bytes[from..from + n]`.
abbrev pub slice : ℕ → ℕ → List ℕ → List ℕ
slice from n xs = take n (drop from xs)

unfoldable pub bytes_eq : List ℕ → List ℕ → Bool
bytes_eq [] [] = true
bytes_eq [] (y ∷ ys) = false
bytes_eq (x ∷ xs) [] = false
bytes_eq (x ∷ xs) (y ∷ ys) = x == y && bytes_eq xs ys

pub bytes_eq_iff : (xs ys : List ℕ) → (bytes_eq xs ys ≡ true) ↔ (xs ≡ ys)
unfolding bytes_eq
bytes_eq_iff [] [] = ((λ h. refl), λ h. refl)
bytes_eq_iff [] (y ∷ ys) = ((λ h. cc), λ h. cc)
bytes_eq_iff (x ∷ xs) [] = ((λ h. cc), λ h. cc)
bytes_eq_iff (x ∷ xs) (y ∷ ys) = ground (arith, bytes_eq_iff xs ys)

pub bytes_eq_refl : (xs : List ℕ) → bytes_eq xs xs ≡ true
bytes_eq_refl xs = (bytes_eq_iff xs xs).1 refl
