-- ===== src/Fs/Fat32/Write/Splice.antt =====
-- Bytes put into bytes across a boundary, for the writes of kernel/src/fs/fat32.rs that span sectors and
-- clusters.
use vibra.Common.{ℕ, zero, suc, ◌+◌, ◌≡◌, refl, sym, ap, [], ◌∷◌, ◌++◌, length, take, drop, arith}
use native.Mathlib.Nat.{zero-add}
use vibra.Fs.Disk.{Bytes}
use vibra.Fs.Fat32.{copy_to}

pub copy_to-nil : (from : ℕ) (buf : Bytes) → copy_to from [] buf ≡ buf
unfolding copy_to
copy_to-nil from [] = refl
copy_to-nil zero (x ∷ buf) = refl
copy_to-nil (suc from) (x ∷ buf) = ap (λ xs. x ∷ xs) (copy_to-nil from buf)

-- The part before the boundary goes to the left, the rest to the front of the right.
pub copy_to-append :
    (from k : ℕ) (bytes left right : Bytes)
    → from + k ≡ length left
    → copy_to from bytes (left ++ right)
      ≡ copy_to from (take k bytes) left ++ copy_to 0 (drop k bytes) right
unfolding copy_to
copy_to-append zero zero bytes [] right e = refl
copy_to-append zero (suc k) bytes [] right e = absurd (omega arith)
copy_to-append (suc from) k bytes [] right e = absurd (omega arith)
copy_to-append zero zero bytes (x ∷ left) right e = absurd (omega arith)
copy_to-append zero (suc k) [] (x ∷ left) right e =
    ap (λ xs. x ∷ (left ++ xs)) (sym (copy_to-nil 0 right))
copy_to-append zero (suc k) (b ∷ bytes) (x ∷ left) right e =
    ap (λ xs. b ∷ xs) (copy_to-append zero k bytes left right (omega arith))
copy_to-append (suc from) k bytes (x ∷ left) right e =
    ap (λ xs. x ∷ xs) (copy_to-append from k bytes left right (omega arith))

-- Behind the boundary only the right changes.
pub copy_to-right :
    (n from : ℕ) (bytes left right : Bytes)
    → length left ≡ n
    → copy_to (n + from) bytes (left ++ right) ≡ left ++ copy_to from bytes right
unfolding copy_to
copy_to-right zero from bytes [] right e = rw (zero-add from) refl
copy_to-right (suc n) from bytes [] right e = absurd (omega arith)
copy_to-right zero from bytes (x ∷ left) right e = absurd (omega arith)
copy_to-right (suc n) from bytes (x ∷ left) right e =
    let s : suc n + from ≡ suc (n + from) = omega arith in
    rw s (ap (λ xs. x ∷ xs) (copy_to-right n from bytes left right (omega arith)))

-- A whole buffer is replaced.
pub copy_to-whole : (bytes buf : Bytes) → length bytes ≡ length buf → copy_to 0 bytes buf ≡ bytes
unfolding copy_to
copy_to-whole [] [] e = refl
copy_to-whole [] (x ∷ buf) e = absurd (omega arith)
copy_to-whole (b ∷ bytes) [] e = absurd (omega arith)
copy_to-whole (b ∷ bytes) (x ∷ buf) e = ap (λ xs. b ∷ xs) (copy_to-whole bytes buf (omega arith))

pub append_assoc : (xs ys zs : Bytes) → (xs ++ ys) ++ zs ≡ xs ++ (ys ++ zs)
append_assoc [] ys zs = refl
append_assoc (x ∷ xs) ys zs = ap (λ l. x ∷ l) (append_assoc xs ys zs)
