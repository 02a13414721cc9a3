-- ===== src/Fs/Ramfs/ReadWrite.antt =====
-- A write through an open file of kernel/src/fs/ramfs.rs, and what is read back.
use vibra.Fs.{ok, start}
use vibra.Fs.Ramfs.{RamFs, RamFsFile, RamFsEntry, find_entry, write_entry, is_file_at}
use vibra.Fs.Ramfs.Handle.{read, write, seek, seek_to, overwrite, grow}
use vibra.Common.{
  ℕ, zero, suc, ◌+◌, ◌-◌, ◌^◌, ◌≤◌, ◌<◌, List, [], ◌∷◌, ◌++◌, some, true, false, ◌≡◌, refl, ap, ◌∙◌,
  ltb, leb, length, take, drop, slice, replicate, length-replicate, length-append, length-take, min,
  arith, Bool-cases, inl, inr,
}

-- What is read of the file that has been written is what was written.
find_entry-write_entry :
    (path bytes : List ℕ) (es : List RamFsEntry) (e : RamFsEntry)
    → find_entry (is_file_at path) es ≡ some e
    → find_entry (is_file_at path) (write_entry (is_file_at path) bytes es)
      ≡ some (record e { content = bytes })
unfolding find_entry write_entry is_file_at
find_entry-write_entry path bytes [] e h = cc
find_entry-write_entry path bytes (x ∷ es) e h = elim (Bool-cases (is_file_at path x)) [
  | inl here ↦
      let h' = rw here at h in
      let same : x ≡ e = cc in
      let again : is_file_at path (record x { content = bytes }) ≡ true = here in
      rw (← same, here) (rw again refl)
  | inr past ↦
      let h' = rw past at h in rw past (rw past (find_entry-write_entry path bytes es e h'))
]

drop-append : (xs ys : List ℕ) (n : ℕ) → length xs ≡ n → drop n (xs ++ ys) ≡ ys
drop-append [] ys zero h = refl
drop-append [] ys (suc n) h = absurd (omega arith)
drop-append (x ∷ xs) ys zero h = absurd (omega arith)
drop-append (x ∷ xs) ys (suc n) h = drop-append xs ys n (omega arith)

take-append : (xs ys : List ℕ) (n : ℕ) → length xs ≡ n → take n (xs ++ ys) ≡ xs
take-append [] ys zero h = refl
take-append [] ys (suc n) h = absurd (omega arith)
take-append (x ∷ xs) ys zero h = absurd (omega arith)
take-append (x ∷ xs) ys (suc n) h = ap (λ rest. x ∷ rest) (take-append xs ys n (omega arith))

grow-length : (n : ℕ) (bytes : List ℕ) → n ≤ length (grow n bytes)
unfolding grow
grow-length n bytes = elim (Bool-cases (ltb (length bytes) n)) [
  | inl short ↦ rw short (
      omega (
        arith,
        length-append bytes (replicate (n - length bytes) 0),
        length-replicate {A = ℕ} (n - length bytes) 0,
      ))
  | inr long ↦ rw long (ground arith)
]

-- The bytes at the place of a write are those written.
slice-overwrite :
    (pos : ℕ) (buf bytes : List ℕ) → slice pos (length buf) (overwrite pos buf bytes) ≡ buf
unfolding overwrite
slice-overwrite pos buf bytes =
    let grown = grow (pos + length buf) bytes in
    let front : length (take pos grown) ≡ pos =
      omega (arith, length-take pos grown, grow-length (pos + length buf) bytes) in
    rw (drop-append (take pos grown) (buf ++ drop (pos + length buf) grown) pos front)
      (take-append buf (drop (pos + length buf) grown) (length buf) refl)

overwrite-length :
    (pos : ℕ) (buf bytes : List ℕ) → pos + length buf ≤ length (overwrite pos buf bytes)
unfolding overwrite
overwrite-length pos buf bytes =
    let grown = grow (pos + length buf) bytes in
    omega (
      arith,
      length-append (take pos grown) (buf ++ drop (pos + length buf) grown),
      length-append buf (drop (pos + length buf) grown),
      length-take pos grown,
      grow-length (pos + length buf) bytes,
    )

read-found :
    (n : ℕ) (f : RamFsFile) (fs : RamFs) (e : RamFsEntry)
    → find_entry (is_file_at f.path) fs.entries ≡ some e
    → n + f.position ≤ length e.content
    → 0 < n
    → read n f fs ≡ (ok (slice f.position n e.content), record f { position = f.position + n })
unfolding read
read-found n f fs e there long pos =
    let inside : leb (length e.content) f.position ≡ false = ground arith in
    let all : min n (length e.content - f.position) ≡ n = omega arith in
    rw (read, there) (rw (inside, all) refl)

-- Through a writable handle on an existing file, at a position below 2^63: a write of at least
-- one byte reports its length, seeking back to the position succeeds, and a read of that length
-- gives the bytes, also when the write went beyond the end of the file.
pub read-write :
    (buf : List ℕ) (f : RamFsFile) (fs : RamFs) (e : RamFsEntry)
    → f.writable ≡ true
    → f.position < 2 ^ 63
    → find_entry (is_file_at f.path) fs.entries ≡ some e
    → 0 < length buf
    → (f1 f2 f3 : RamFsFile) × (fs1 : RamFs) × (write buf f fs ≡ (ok (length buf), f1, fs1))
      × (seek (start f.position) f1 fs1 ≡ (ok f.position, f2))
      × (read (length buf) f2 fs1 ≡ (ok buf, f3))
unfolding write seek seek_to read
read-write buf f fs e w low there pos =
    let bytes = overwrite f.position buf e.content in
    let long = overwrite-length f.position buf e.content in
    let inside : leb (2 ^ 63) f.position ≡ false = ground arith in
    (
      record f { position = f.position + length buf },
      f,
      record f { position = f.position + length buf },
      record fs { entries = write_entry (is_file_at f.path) bytes fs.entries },
      simp (w, there),
      rw inside refl,
      read-found (length buf) f
            (record fs { entries = write_entry (is_file_at f.path) bytes fs.entries }) _
            (find_entry-write_entry f.path bytes fs.entries e there) (omega arith) pos
          ∙ ap (λ bs. (ok bs, record f { position = f.position + length buf }))
              (slice-overwrite f.position buf e.content),
    )
