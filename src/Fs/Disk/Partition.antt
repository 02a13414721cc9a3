-- ===== src/Fs/Disk/Partition.antt =====
-- A window into a disk, `PartitionDisk` of kernel/src/fs/partition.rs, one sector at a time.
use vibra.Common.{
  ℕ, ◌+◌, ◌/◌, ◌%◌, ◌≤◌, ◌<◌, ◌≡◌, ◌≢◌, refl, Option, none, some, ltb, leb, ◌==◌, ◌||◌, not,
  if◌then◌else◌, length, arith, Option-cases, inl, inr, u64_mod,
}
use vibra.Fs.{Result, ok, err, invalid_path, io_error}
use vibra.Fs.Disk.{Bytes, DiskIo, IsLawful}

-- `check`: the sectors of a buffer of `len` bytes lie in a window of `sectors`.
unfoldable pub check : ℕ → ℕ → ℕ → Result (Unit {0})
check sectors sector len =
    if len == 0 || not (len % 512 == 0)
    then err invalid_path
    else if leb u64_mod (sector + len / 512)
    then err io_error
    else if ltb sectors (sector + len / 512)
    then err io_error
    else ok tt

-- `checked_add` of the offset, behind the check.
unfoldable pub target : ℕ → ℕ → ℕ → ℕ → Option ℕ
unfolding check
target offset sectors sector len = elim (check sectors sector len) [
  | err e ↦ none
  | ok u ↦ if leb u64_mod (offset + sector) then none else some (offset + sector)
]

-- Reads and writes of whole sectors, as the file systems make them.
module _ (io : DiskIo) (offset sectors : ℕ) where
  unfoldable pub window_read : io.Disk → ℕ → Option Bytes
  window_read d s = elim (target offset sectors s 512) [ none ↦ none | some t ↦ io.read d t ]

  unfoldable pub window_write : io.Disk → ℕ → Bytes → Option io.Disk
  window_write d s bytes = elim (target offset sectors s (length bytes)) [
    | none ↦ none
    | some t ↦ io.write d t bytes
  ]

  abbrev pub window : DiskIo
  window = record { Disk = io.Disk; read = window_read; write = window_write }

pub target-inside :
    (offset sectors s : ℕ)
    → s < sectors
    → offset + sectors < u64_mod
    → target offset sectors s 512 ≡ some (offset + s)
unfolding target
target-inside offset sectors s lt fits = ground arith

target-some :
    (offset sectors s len : ℕ) {t : ℕ} → target offset sectors s len ≡ some t → offset + s ≡ t
unfolding target
target-some offset sectors s len e = ground arith

module _ (io : DiskIo) (offset sectors : ℕ) where
  -- A sector of the disk that is another one than that of the window's `s`.
  window-others :
      (d d' : io.Disk) (s : ℕ)
      → ((t : ℕ) → offset + s ≢ t → io.read d' t ≡ io.read d t)
      → (t : ℕ) → s ≢ t
      → window_read io offset sectors d' t ≡ window_read io offset sectors d t
  unfolding window_read window_write
  window-others d d' s others t ne = elim (Option-cases (target offset sectors t 512)) [
    | inl e ↦ rw (e, window_read) refl
    | inr (u, e) ↦
        rw (e, window_read) (others u (λ q. ne (omega (arith, target-some offset sectors t 512 e))))
  ]

  length-read_window :
      {size : ℕ} (l : IsLawful io size) (d : io.Disk) (s : ℕ) (bytes : Bytes)
      → window_read io offset sectors d s ≡ some bytes
      → length bytes ≡ 512
  unfolding window_read window_write
  length-read_window l d s bytes e = elim (Option-cases (target offset sectors s 512)) [
    | inl q ↦ absurd (ground arith)
    | inr (u, q) ↦ l.length-read d u bytes (ground arith)
  ]

  -- The window of a partition that lies in a lawful disk, its end below 2^64, is a lawful disk of
  -- the partition's sectors: reads give 512 bytes, writes are read back, and other sectors stay.
  pub window-IsLawful :
      {size : ℕ}
      → IsLawful io size
      → offset + sectors ≤ size
      → offset + sectors < u64_mod
      → IsLawful (window io offset sectors) sectors
  unfolding window_read window_write
  window-IsLawful l inside fits = record {
    reads = λ d s lt.
        rw (target-inside offset sectors s lt fits, window_read)
          (l.reads d (offset + s) (omega arith));
    length-read = λ d s bytes e. length-read_window l d s bytes e;
    writes = λ d s bytes lt len.
        let (d', wrote, back, others) = l.writes d (offset + s) bytes (omega arith) len in
        (
          d',
          rw (window_write, len, target-inside offset sectors s lt fits) wrote,
          rw (target-inside offset sectors s lt fits, window_read) back,
          window-others d d' s others,
        );
  }
