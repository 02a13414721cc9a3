-- ===== src/Fs/Fat32/Write/Sectors.antt =====
-- Runs of sectors of kernel/src/fs/fat32.rs: the bytes they hold, read one by one and written in part.
use vibra.Common.{
  ℕ, zero, suc, ◌+◌, ◌-◌, ◌*◌, ◌≤◌, ◌<◌, ◌≡◌, ◌≢◌, refl, sym, ap, ap₂, ◌∙◌, [], ◌∷◌, ◌++◌, Option,
  some, ◌==◌, ◌&&◌, length, take, drop, arith, length-append, length-take, length-drop, Bool-cases,
  inl, inr, ◌⊎◌,
}
use native.Mathlib.Nat.{zero-add, add-zero}
use vibra.Fs.{ok}
use vibra.Fs.Disk.{Bytes, DiskIo, IsLawful}
use vibra.Fs.Fat32.{Geometry, copy_to, read_sectors}
use vibra.Fs.Fat32.Table.{length-copy_to}
use vibra.Fs.Fat32.Entries.{IsGeo, bytes_of, length-sector}
use vibra.Fs.Fat32.Write.{write_part, write_sectors}
use vibra.Fs.Fat32.Write.Splice.{append_assoc, copy_to-nil, copy_to-append, copy_to-whole}

-- The bytes of `n` sectors from one on.
pub bytes_at : (io : DiskIo) → io.Disk → ℕ → ℕ → Bytes
bytes_at io d zero s = []
bytes_at io d (suc n) s = bytes_of (io.read d s) ++ bytes_at io d n (s + 1)

pub bytes_at-same :
    (io : DiskIo) (d d' : io.Disk) (n s : ℕ)
    → ((t : ℕ) → s ≤ t → t < s + n → io.read d' t ≡ io.read d t)
    → bytes_at io d' n s ≡ bytes_at io d n s
unfolding bytes_at
bytes_at-same io d d' zero s same = refl
bytes_at-same io d d' (suc n) s same =
    ap₂ (λ (a b : Bytes). a ++ b) (ap bytes_of (same s (omega arith) (omega arith)))
      (bytes_at-same io d d' n (s + 1) (λ t lo hi. same t (omega arith) (omega arith)))

pub bytes_at-append :
    (io : DiskIo) (d : io.Disk) (m n s : ℕ)
    → bytes_at io d (m + n) s ≡ bytes_at io d m s ++ bytes_at io d n (s + m)
unfolding bytes_at
bytes_at-append io d zero n s = ap₂ (bytes_at io d) (zero-add n) (sym (add-zero s))
bytes_at-append io d (suc m) n s =
    let count : suc m + n ≡ suc (m + n) = omega arith in
    let at : s + 1 + m ≡ s + suc m = omega arith in
    rw count (
      ap (λ xs. bytes_of (io.read d s) ++ xs)
        (bytes_at-append io d m n (s + 1)
          ∙ ap (λ (k : ℕ). bytes_at io d m (s + 1) ++ bytes_at io d n k) at)
      ∙ sym (
          append_assoc (bytes_of (io.read d s)) (bytes_at io d m (s + 1))
            (bytes_at io d n (s + suc m))))

module _ (io : DiskIo) (geo : Geometry) {size : ℕ} (l : IsLawful io size) (g : IsGeo geo size) where
  pub length-bytes_at :
      (d : io.Disk) (n s : ℕ) → s + n ≤ size → length (bytes_at io d n s) ≡ n * 512
  unfolding bytes_at
  length-bytes_at d zero s le = refl
  length-bytes_at d (suc n) s le = omega (
    arith,
    length-append (bytes_of (io.read d s)) (bytes_at io d n (s + 1)),
    length-sector io geo l g d s,
    length-bytes_at d n (s + 1) (omega arith),
  )

  pub read_sectors-bytes_at :
      (n s : ℕ) (d : io.Disk)
      → s + n ≤ size
      → read_sectors io geo n s d ≡ (ok (bytes_at io d n s), d)
  unfolding read_sectors bytes_at
  read_sectors-bytes_at zero s d le = refl
  read_sectors-bytes_at (suc n) s d le =
      let (buf, e) = l.reads d s (omega arith) in ground (arith, read_sectors-bytes_at n (s + 1) d)

  -- One sector, whole or in part.
  write_part-runs :
      (s offset : ℕ) (bytes : Bytes) (d : io.Disk)
      → s < size
      → offset + length bytes ≤ 512
      → (d' : io.Disk) × (write_part io geo s offset bytes d ≡ (ok tt, d'))
        × (io.read d' s ≡ some (copy_to offset bytes (bytes_of (io.read d s))))
        × ((t : ℕ) → s ≢ t → io.read d' t ≡ io.read d t)
  unfolding write_part
  write_part-runs s offset bytes d lt room =
      let (buf, e) = l.reads d s lt in
      let len : length buf ≡ 512 = l.length-read d s buf e in
      elim (Bool-cases (offset == 0 && length bytes == 512)) [
        | inl full ↦
            let start : offset ≡ 0 = ground arith in
            let all : length bytes ≡ 512 = ground arith in
            let (d', wrote, back, others) = l.writes d s bytes lt all in
            (
              d',
              ground arith,
              rw start (
                  back
                  ∙ ap some (
                      sym (
                        copy_to-whole bytes (bytes_of (io.read d s))
                          (omega (arith, length-sector io geo l g d s lt))))),
              others,
            )
        | inr part ↦
            let (d', wrote, back, others) =
              l.writes d s (copy_to offset bytes buf) lt (length-copy_to offset bytes buf ∙ len) in
            (
              d',
              ground arith,
              back ∙ ap (λ (o : Option Bytes). some (copy_to offset bytes (bytes_of o))) (sym e),
              others,
            )
      ]

  -- A run of sectors written from an offset in the first one on.
  pub write_sectors-bytes_at :
      (n s offset : ℕ) (bytes : Bytes) (d : io.Disk)
      → offset < 512
      → offset + length bytes ≤ n * 512
      → s + n ≤ size
      → (d' : io.Disk) × (write_sectors io geo n s offset bytes d ≡ (ok tt, d'))
        × (bytes_at io d' n s ≡ copy_to offset bytes (bytes_at io d n s))
        × ((t : ℕ) → (t < s) ⊎ (s + n ≤ t) → io.read d' t ≡ io.read d t)
  unfolding write_sectors bytes_at
  write_sectors-bytes_at zero s offset [] d lt room le =
      (d, refl, sym (copy_to-nil offset []), λ t out. refl)
  write_sectors-bytes_at (suc n) s offset [] d lt room le =
      (d, refl, sym (copy_to-nil offset _), λ t out. refl)
  write_sectors-bytes_at zero s offset (b ∷ bytes) d lt room le = absurd (omega arith)
  write_sectors-bytes_at (suc n) s offset (b ∷ bytes) d lt room le =
      let part = take (512 - offset) (b ∷ bytes) in
      let rest = drop (512 - offset) (b ∷ bytes) in
      let (d1, run, first, others) =
        write_part-runs s offset part d (omega arith)
          (omega (arith, length-take (512 - offset) (b ∷ bytes))) in
      let (d2, run', behind, others') =
        write_sectors-bytes_at n (s + 1) 0 rest d1 (omega arith)
          (omega (arith, length-drop (512 - offset) (b ∷ bytes))) (omega arith) in
      let head : bytes_of (io.read d2 s) ≡ copy_to offset part (bytes_of (io.read d s)) =
        ap bytes_of (others' s (inl (omega arith)) ∙ first) in
      let tail : bytes_at io d2 n (s + 1) ≡ copy_to 0 rest (bytes_at io d n (s + 1)) =
        behind
        ∙ ap (copy_to 0 rest)
            (bytes_at-same io d d1 n (s + 1) (λ t lo hi. others t (λ e. omega arith))) in
      (
        d2,
        ground arith,
        ap₂ (λ (a c : Bytes). a ++ c) head tail
            ∙ sym (
                copy_to-append offset (512 - offset) (b ∷ bytes) (bytes_of (io.read d s))
                  (bytes_at io d n (s + 1))
                  (omega (arith, length-sector io geo l g d s (omega arith)))),
        λ t out.
            others' t (elim out [ inl h ↦ inl (omega arith) | inr h ↦ inr (omega arith) ])
            ∙ others t (λ e. elim out [ inl h ↦ omega arith | inr h ↦ omega arith ]),
      )
