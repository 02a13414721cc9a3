-- ===== src/Fs/Fat32/Dir/Bytes32.antt =====
-- The 32 bytes of a directory entry of kernel/src/fs/fat32.rs, written and read back.
use vibra.Common.{
  ℕ, zero, suc, ◌+◌, ◌*◌, ◌/◌, ◌%◌, ◌^◌, ◌≤◌, ◌<◌, ◌≡◌, refl, sym, ap, ap₂, ◌∙◌, [], ◌∷◌, ◌++◌,
  length, take, drop, get_or, arith, length-append,
}
use native.Mathlib.Nat.{zero-add}
use vibra.Fs.Disk.{Bytes}
use vibra.Fs.Fat32.{copy_to}
use vibra.Fs.Fat32.Dir.{FatDirEntry, read_entry, entry_at, entry_bytes, tail_bytes}

-- A buffer read from where bytes were put begins with these.
pub take-copy_to :
    (from : ℕ) (bytes buf : Bytes)
    → from + length bytes ≤ length buf
    → (rest : Bytes) × (drop from (copy_to from bytes buf) ≡ bytes ++ rest)
unfolding copy_to
take-copy_to zero [] [] room = ([], refl)
take-copy_to zero (b ∷ bytes) [] room = absurd (omega arith)
take-copy_to (suc from) bytes [] room = absurd (omega arith)
take-copy_to zero [] (x ∷ buf) room = (x ∷ buf, refl)
take-copy_to zero (b ∷ bytes) (x ∷ buf) room =
    let (rest, e) = take-copy_to zero bytes buf (omega arith) in (rest, ap (λ xs. b ∷ xs) e)
take-copy_to (suc from) bytes (x ∷ buf) room = take-copy_to from bytes buf (omega arith)

take-append_all : (xs ys : Bytes) → take (length xs) (xs ++ ys) ≡ xs
take-append_all [] ys = refl
take-append_all (x ∷ xs) ys = ap (λ zs. x ∷ zs) (take-append_all xs ys)

get_or-behind : (xs ys : Bytes) (k : ℕ) → get_or (xs ++ ys) (length xs + k) 0 ≡ get_or ys k 0
get_or-behind [] ys k = rw (zero-add k) refl
get_or-behind (x ∷ xs) ys k =
    let e : length (x ∷ xs) + k ≡ suc (length xs + k) = omega arith in rw e (get_or-behind xs ys k)

append_assoc : (xs ys zs : Bytes) → (xs ++ ys) ++ zs ≡ xs ++ (ys ++ zs)
append_assoc [] ys zs = refl
append_assoc (x ∷ xs) ys zs = ap (λ l. x ∷ l) (append_assoc xs ys zs)

-- The ranges of the fields; single bytes are taken as they are.
pub record IsEntry (e : FatDirEntry) : Type 0 where
  pub name_length : length e.name ≡ 11
  pub creation_time_fits : e.creation_time < 65536
  pub creation_date_fits : e.creation_date < 65536
  pub last_access_date_fits : e.last_access_date < 65536
  pub first_cluster_high_fits : e.first_cluster_high < 65536
  pub write_time_fits : e.write_time < 65536
  pub write_date_fits : e.write_date < 65536
  pub first_cluster_low_fits : e.first_cluster_low < 65536
  pub file_size_fits : e.file_size < 2 ^ 32

length-entry_bytes : (e : FatDirEntry) → IsEntry e → length (entry_bytes e) ≡ 32
unfolding entry_bytes
length-entry_bytes e v = length-append e.name (tail_bytes e) ∙ ap (λ (n : ℕ). n + 21) v.name_length

pair_value : (v : ℕ) → v < 65536 → v % 256 + 256 * (v / 256 % 256) ≡ v
pair_value v lt = omega arith

quad_value :
    (v : ℕ)
    → v < 2 ^ 32
    → v % 256 + 256 * (v / 256 % 256) + 65536 * (v / 65536 % 256) + 16777216 * (v / 16777216 % 256)
      ≡ v
quad_value v lt = omega arith

-- The fields behind a name of eleven bytes.
pub read_entry-entry_bytes :
    (e : FatDirEntry) (rest : Bytes) → IsEntry e → read_entry (entry_bytes e ++ rest) ≡ e
unfolding entry_bytes read_entry
read_entry-entry_bytes e rest v =
    let ys = tail_bytes e ++ rest in
    let at = λ (k : ℕ).
      ap (λ (n : ℕ). get_or (e.name ++ ys) (n + k) 0) (sym v.name_length)
      ∙ get_or-behind e.name ys k in
    let front =
      ap (λ (n : ℕ). take n (e.name ++ ys)) (sym v.name_length) ∙ take-append_all e.name ys in
    let pair =
      λ (k x : ℕ) (lt : x < 65536) (lo : get_or ys k 0 ≡ x % 256)
          (hi : get_or ys (k + 1) 0 ≡ x / 256 % 256).
        ap₂ (λ (a b : ℕ). a + 256 * b) (at k ∙ lo) (at (k + 1) ∙ hi) ∙ pair_value x lt in
    let quad =
      λ (b0 : get_or ys 17 0 ≡ e.file_size % 256) (b1 : get_or ys 18 0 ≡ e.file_size / 256 % 256)
          (b2 : get_or ys 19 0 ≡ e.file_size / 65536 % 256)
          (b3 : get_or ys 20 0 ≡ e.file_size / 16777216 % 256).
        ap₂ (λ (a b : ℕ). a + b)
          (ap₂ (λ (a b : ℕ). a + b) (ap₂ (λ (a b : ℕ). a + 256 * b) (at 17 ∙ b0) (at 18 ∙ b1))
            (ap (λ (c : ℕ). 65536 * c) (at 19 ∙ b2)))
          (ap (λ (d : ℕ). 16777216 * d) (at 20 ∙ b3))
        ∙ quad_value e.file_size v.file_size_fits in
    ap read_entry (append_assoc e.name (tail_bytes e) rest) ∙ λ i. record {
      name = front i;
      attributes = at 0 i;
      reserved = at 1 i;
      creation_time_tenths = at 2 i;
      creation_time = pair 3 e.creation_time v.creation_time_fits refl refl i;
      creation_date = pair 5 e.creation_date v.creation_date_fits refl refl i;
      last_access_date = pair 7 e.last_access_date v.last_access_date_fits refl refl i;
      first_cluster_high = pair 9 e.first_cluster_high v.first_cluster_high_fits refl refl i;
      write_time = pair 11 e.write_time v.write_time_fits refl refl i;
      write_date = pair 13 e.write_date v.write_date_fits refl refl i;
      first_cluster_low = pair 15 e.first_cluster_low v.first_cluster_low_fits refl refl i;
      file_size = quad refl refl refl refl i;
    }

-- A directory entry with a name of 11 bytes and fields in their ranges, put into a sector where
-- it fits, is read back from its place as it was.
pub entry_at-entry_bytes :
    (e : FatDirEntry) (offset : ℕ) (buf : Bytes)
    → IsEntry e
    → offset + 32 ≤ length buf
    → entry_at (copy_to offset (entry_bytes e) buf) offset ≡ e
unfolding entry_at
entry_at-entry_bytes e offset buf v room =
    let (rest, at) =
      take-copy_to offset (entry_bytes e) buf (omega (arith, length-entry_bytes e v)) in
    ap read_entry at ∙ read_entry-entry_bytes e rest v
