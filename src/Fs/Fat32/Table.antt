-- ===== src/Fs/Fat32/Table.antt =====
-- Numbers in a sector of kernel/src/fs/fat32.rs: what `copy_from_slice` and the little-endian reads see.
use vibra.Common.{
  ℕ, zero, suc, ◌+◌, ◌%◌, ◌^◌, ◌≤◌, ◌<◌, ◌≡◌, refl, ap, [], ◌∷◌, length, get_or, arith, inl, inr,
  ◌⊎◌,
}
use native.Mathlib.Nat.{zero-add, add-zero}
use vibra.Fs.Disk.{Bytes}
use vibra.Fs.Fat32.{u32_at, le32, copy_to}

pub length-copy_to : (from : ℕ) (bytes buf : Bytes) → length (copy_to from bytes buf) ≡ length buf
unfolding copy_to
length-copy_to from bytes [] = refl
length-copy_to zero [] (x ∷ buf) = refl
length-copy_to zero (b ∷ bytes) (x ∷ buf) = ap suc (length-copy_to zero bytes buf)
length-copy_to (suc from) bytes (x ∷ buf) = ap suc (length-copy_to from bytes buf)

-- Byte by byte.
pub get_or-copy_to_in :
    (from i : ℕ) (bytes buf : Bytes)
    → i < length bytes
    → from + i < length buf
    → get_or (copy_to from bytes buf) (from + i) 0 ≡ get_or bytes i 0
unfolding copy_to
get_or-copy_to_in from i bytes [] lt room = absurd (omega arith)
get_or-copy_to_in zero i [] (x ∷ buf) lt room = absurd (omega arith)
get_or-copy_to_in zero zero (b ∷ bytes) (x ∷ buf) lt room = refl
get_or-copy_to_in zero (suc i) (b ∷ bytes) (x ∷ buf) lt room =
    rw (zero-add (suc i))
      (rw (zero-add i) at (get_or-copy_to_in zero i bytes buf (omega arith) (omega arith)))
get_or-copy_to_in (suc from) i bytes (x ∷ buf) lt room =
    let e : suc from + i ≡ suc (from + i) = omega arith in
    rw e (get_or-copy_to_in from i bytes buf lt (omega arith))

pub get_or-copy_to_out :
    (from i : ℕ) (bytes buf : Bytes)
    → (i < from) ⊎ (from + length bytes ≤ i)
    → get_or (copy_to from bytes buf) i 0 ≡ get_or buf i 0
unfolding copy_to
get_or-copy_to_out from i bytes [] out = refl
get_or-copy_to_out zero i [] (x ∷ buf) out = refl
get_or-copy_to_out zero zero (b ∷ bytes) (x ∷ buf) out = absurd (ground arith)
get_or-copy_to_out zero (suc i) (b ∷ bytes) (x ∷ buf) out =
    get_or-copy_to_out zero i bytes buf
      (elim out [ inl h ↦ absurd (omega arith) | inr h ↦ inr (omega arith) ])
get_or-copy_to_out (suc from) zero bytes (x ∷ buf) out = refl
get_or-copy_to_out (suc from) (suc i) bytes (x ∷ buf) out =
    get_or-copy_to_out from i bytes buf
      (elim out [ inl h ↦ inl (omega arith) | inr h ↦ inr (omega arith) ])

-- A number read where it was written.
pub u32_at-copy_to_self :
    (i v : ℕ) (buf : Bytes) → i + 4 ≤ length buf → u32_at (copy_to i (le32 v) buf) i ≡ v % 2 ^ 32
unfolding u32_at le32
u32_at-copy_to_self i v buf room =
    let at = λ (k : ℕ) (lt : k < 4). get_or-copy_to_in i k (le32 v) buf lt (omega arith) in
    let first : get_or (copy_to i (le32 v) buf) i 0 ≡ v % 256 =
      rw (add-zero i) at (at 0 (omega arith)) in
    omega (arith, first, at 1 (omega arith), at 2 (omega arith), at 3 (omega arith))

-- A number written four bytes away or more is not seen.
pub u32_at-copy_to_apart :
    (i j v : ℕ) (buf : Bytes)
    → (j + 4 ≤ i) ⊎ (i + 4 ≤ j)
    → u32_at (copy_to i (le32 v) buf) j ≡ u32_at buf j
unfolding u32_at le32
u32_at-copy_to_apart i j v buf apart =
    let out = λ (k : ℕ) (lt : k < 4).
      get_or-copy_to_out i (j + k) (le32 v) buf
        (elim apart [ inl h ↦ inl (omega arith) | inr h ↦ inr (omega arith) ]) in
    let first : get_or (copy_to i (le32 v) buf) j 0 ≡ get_or buf j 0 =
      get_or-copy_to_out i j (le32 v) buf
        (elim apart [ inl h ↦ inl (omega arith) | inr h ↦ inr (omega arith) ]) in
    omega (arith, first, out 1 (omega arith), out 2 (omega arith), out 3 (omega arith))
