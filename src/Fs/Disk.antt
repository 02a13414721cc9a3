-- ===== src/Fs/Disk.antt =====
-- A disk behind the trait `DiskIo` of kernel/src/fs/disk.rs, in sectors of 512 bytes, and the actions of a
-- driver on it. An error leaves the disk as the last write left it.
pub mod Memory
pub mod Partition
use vibra.Common.{ℕ, ◌≡◌, ◌≢◌, ◌<◌, List, Option, none, some, length}
use vibra.Fs.{FsError, Result, ok, err, io_error}

abbrev pub sector_size : ℕ
sector_size = 512

abbrev pub Bytes : Type 0
Bytes = List ℕ

-- `none` is a failure; a write that fails has changed nothing.
pub record DiskIo : Type 1 where
  pub Disk : Type 0
  pub read : Disk → ℕ → Option Bytes
  pub write : Disk → ℕ → Bytes → Option Disk

-- A disk that keeps what is written to its first `size` sectors.
pub record IsLawful (io : DiskIo) (size : ℕ) : Type 0 where
  pub reads : (d : io.Disk) (s : ℕ) → s < size → (bytes : Bytes) × (io.read d s ≡ some bytes)
  pub length-read :
      (d : io.Disk) (s : ℕ) (bytes : Bytes) → io.read d s ≡ some bytes → length bytes ≡ 512
  pub writes :
      (d : io.Disk) (s : ℕ) (bytes : Bytes)
      → s < size
      → length bytes ≡ 512
      → (d' : io.Disk) × (io.write d s bytes ≡ some d')
        × (io.read d' s ≡ some bytes)
        × ((t : ℕ) → s ≢ t → io.read d' t ≡ io.read d t)

-- `Result<A, FsError>` of code that reads and writes the disk.
abbrev pub Action : Type 0 → Type 0 → Type 0
Action D A = D → Result A × D

module _ {D A : Type 0} where
  abbrev pub pure : A → Action D A
  pure a d = (ok a, d)

  abbrev pub raise : FsError → Action D A
  raise e d = (err e, d)

  abbrev pub or_raise : Option A → FsError → Action D A
  or_raise none e = raise e
  or_raise (some a) e = pure a

infixl 5 ◌>>=◌ ◌>>◌
abbrev pub ◌>>=◌ : {D A B : Type 0} → Action D A → (A → Action D B) → Action D B
◌>>=◌ m f d = let (r, d') = m d in elim r [ ok a ↦ f a d' | err e ↦ (err e, d') ]

abbrev pub ◌>>◌ : {D A B : Type 0} → Action D A → Action D B → Action D B
m >> k = m >>= λ _. k

-- `let _ = m;`
unfoldable pub attempt : {D A : Type 0} → Action D A → Action D (Unit {0})
attempt m d = (ok tt, (m d).1)

module _ (io : DiskIo) where
  -- `read_sector` and `write_sector` of fat32.rs.
  unfoldable pub read_sector : ℕ → Action io.Disk Bytes
  read_sector s d = elim (io.read d s) [ none ↦ (err io_error, d) | some bytes ↦ (ok bytes, d) ]

  unfoldable pub write_sector : ℕ → Bytes → Action io.Disk (Unit {0})
  write_sector s bytes d = elim (io.write d s bytes) [
    | none ↦ (err io_error, d)
    | some d' ↦ (ok tt, d')
  ]
