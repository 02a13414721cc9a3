-- ===== src/Fs/Fat32/Entries.antt =====
-- The entries of the file allocation table of kernel/src/fs/fat32.rs on a disk that keeps what is written:
-- `fat_get` and `fat_set` as a read and a write of one entry of a function.
use vibra.Common.{
  ℕ, zero, suc, ◌+◌, ◌*◌, ◌%◌, ◌≤◌, ◌<◌, ◌≡◌, ◌≢◌, refl, ap, ◌∙◌, max, [], Option, none, some,
  length, arith,
}
use native.Mathlib.Decide.{ℕ_discrete}
use vibra.Fs.{ok}
use vibra.Fs.Disk.{Bytes, DiskIo, IsLawful, read_sector, write_sector}
use vibra.Fs.Fat32.{
  Geometry, u32_at, le32, copy_to, masked, mask_span, sector_in_fat, entry_in_sector, fat_get,
  fat_set, write_copies,
}
use vibra.Fs.Fat32.Table.{length-copy_to}

-- A volume that its disk holds: the copies of the table fit before the data, FSInfo stands before the
-- table, every cluster has an entry and its sectors, and no cluster number is a mark.
pub record IsGeo (geo : Geometry) (size : ℕ) : Type 0 where
  pub covered : (geo.total_clusters + 2) * 4 ≤ geo.fat_size * 512
  pub copies_end : geo.fat_start_sector + max geo.fat_count 1 * geo.fat_size ≤ geo.data_start_sector
  pub data_end : geo.data_start_sector + geo.total_clusters * geo.sectors_per_cluster ≤ size
  pub info_before : geo.fs_info_sector < geo.fat_start_sector
  pub clusters_fit : geo.total_clusters + 2 ≤ 0x0fff_fff7
  pub cluster_span : geo.cluster_size ≡ geo.sectors_per_cluster * 512
  pub has_sectors : 1 ≤ geo.sectors_per_cluster

abbrev pub bytes_of : Option Bytes → Bytes
bytes_of none = []
bytes_of (some bytes) = bytes

-- The value of the entry of a cluster, in the first copy of the table.
unfoldable pub entry_of : (io : DiskIo) → Geometry → io.Disk → ℕ → ℕ
unfolding u32_at
entry_of io geo d cluster =
    u32_at (bytes_of (io.read d (geo.fat_start_sector + sector_in_fat cluster)))
      (entry_in_sector cluster)
    % mask_span

pub entry_of-read :
    (io : DiskIo) (geo : Geometry) (d : io.Disk) (c : ℕ) (buf : Bytes)
    → io.read d (geo.fat_start_sector + sector_in_fat c) ≡ some buf
    → entry_of io geo d c ≡ u32_at buf (entry_in_sector c) % mask_span
unfolding entry_of
entry_of-read io geo d c buf e =
    ap (λ (o : Option Bytes). u32_at (bytes_of o) (entry_in_sector c) % mask_span) e

pub entry_of_same :
    (io : DiskIo) (geo : Geometry) (d d' : io.Disk) (c : ℕ)
    → io.read d' (geo.fat_start_sector + sector_in_fat c)
      ≡ io.read d (geo.fat_start_sector + sector_in_fat c)
    → entry_of io geo d' c ≡ entry_of io geo d c
unfolding entry_of
entry_of_same io geo d d' c e =
    ap (λ (o : Option Bytes). u32_at (bytes_of o) (entry_in_sector c) % mask_span) e

-- The sectors of all copies of the table.
abbrev pub InTable : Geometry → ℕ → Type 0
InTable geo t =
    (geo.fat_start_sector ≤ t) × (t < geo.fat_start_sector + max geo.fat_count 1 * geo.fat_size)

abbrev pub copy_sector : Geometry → ℕ → ℕ → ℕ
copy_sector geo sector copy = geo.fat_start_sector + copy * geo.fat_size + sector

module _ (io : DiskIo) (geo : Geometry) {size : ℕ} (l : IsLawful io size) where
  pub read_sector-ok :
      (d : io.Disk) (s : ℕ) → s < size → read_sector io s d ≡ (ok (bytes_of (io.read d s)), d)
  unfolding read_sector
  read_sector-ok d s lt = rw ((l.reads d s lt).1, read_sector) refl

  pub fat_get-entry_of :
      (d : io.Disk) (c : ℕ)
      → geo.fat_start_sector + sector_in_fat c < size
      → fat_get io geo c d ≡ (ok (entry_of io geo d c), d)
  unfolding fat_get entry_of
  fat_get-entry_of d c lt =
      let (bytes, e) = l.reads d (geo.fat_start_sector + sector_in_fat c) lt in ground arith

  -- The written copies hold the sector, a sector that held it still does, and the others are as they were.
  pub write_copies_lem :
      (n copy sector : ℕ) (buf : Bytes) (d : io.Disk)
      → length buf ≡ 512
      → ((k : ℕ) → copy ≤ k → k < copy + n → copy_sector geo sector k < size)
      → (d' : io.Disk) × (write_copies io geo n copy sector buf d ≡ (ok tt, d'))
        × ((k : ℕ) → copy ≤ k → k < copy + n → io.read d' (copy_sector geo sector k) ≡ some buf)
        × ((t : ℕ) → io.read d t ≡ some buf → io.read d' t ≡ some buf)
        × ((t : ℕ)
            → ((k : ℕ) → copy ≤ k → k < copy + n → copy_sector geo sector k ≢ t)
            → io.read d' t ≡ io.read d t)
  unfolding write_copies write_sector
  write_copies_lem zero copy sector buf d len room =
      (d, refl, (λ k lo hi. absurd (omega arith)), (λ t h. h), λ t h. refl)
  write_copies_lem (suc n) copy sector buf d len room =
      let (d1, wrote, back, others) =
        l.writes d (copy_sector geo sector copy) buf (room copy (omega arith) (omega arith)) len in
      let (d2, run, written, stays, rest) =
        write_copies_lem n (copy + 1) sector buf d1 len
          (λ k lo hi. room k (omega arith) (omega arith)) in
      (
        d2,
        ground arith,
        (λ k lo hi. elim (ℕ_discrete k copy) [
          | yes e ↦ rw e (stays (copy_sector geo sector copy) back)
          | no ne ↦ written k (omega arith) (omega arith)
        ]),
        (λ t h. stays t (elim (ℕ_discrete (copy_sector geo sector copy) t) [
          | yes e ↦ rw (← e) back
          | no ne ↦ others t ne ∙ h
        ])),
        λ t h.
            rest t (λ k lo hi. h k (omega arith) (omega arith))
            ∙ others t (h copy (omega arith) (omega arith)),
      )

pub copies_fit : (k n s f : ℕ) → k < n → s < f → k * f + s < n * f
copies_fit k n s f lt below = grind arith

-- Different sectors of the table keep apart in all copies.
pub copies_apart : (k s s' f : ℕ) → s ≢ s' → s < f → s' < f → k * f + s ≢ s'
copies_apart zero s s' f ne lt lt' e = ne (omega arith)
copies_apart (suc k) s s' f ne lt lt' e = grind arith

module _ (io : DiskIo) (geo : Geometry) {size : ℕ} (l : IsLawful io size) (g : IsGeo geo size) where
  -- The clusters that the table has an entry for, and where the entry stands.
  pub sector_in_fat-lt : (c : ℕ) → c < geo.total_clusters + 2 → sector_in_fat c < geo.fat_size
  sector_in_fat-lt c lt = omega (arith, g.covered)

  pub sector-lt :
      (k c : ℕ)
      → k < max geo.fat_count 1
      → c < geo.total_clusters + 2
      → copy_sector geo (sector_in_fat c) k < size
  sector-lt k c lt below = omega (
    arith,
    g.copies_end,
    g.data_end,
    copies_fit k (max geo.fat_count 1) (sector_in_fat c) geo.fat_size lt (sector_in_fat-lt c below),
  )

  pub fat_get-IsGeo :
      (d : io.Disk) (c : ℕ)
      → c < geo.total_clusters + 2
      → fat_get io geo c d ≡ (ok (entry_of io geo d c), d)
  fat_get-IsGeo d c below =
      fat_get-entry_of io geo l d c (omega (arith, sector-lt 0 c (omega arith) below))

  -- The sector of the entry with the new value put in.
  abbrev pub new_sector : io.Disk → ℕ → ℕ → Bytes
  new_sector d c v =
      let buf = bytes_of (io.read d (geo.fat_start_sector + sector_in_fat c)) in
      copy_to (entry_in_sector c) (le32 (masked (u32_at buf (entry_in_sector c)) v)) buf

  pub fat_set_run :
      (c v : ℕ) (d : io.Disk)
      → c < geo.total_clusters + 2
      → fat_set io geo c v d
        ≡ write_copies io geo (max geo.fat_count 1) 0 (sector_in_fat c) (new_sector d c v) d
  unfolding fat_set
  fat_set_run c v d below =
      let (bytes, e) =
        l.reads d (geo.fat_start_sector + sector_in_fat c)
          (omega (arith, sector-lt 0 c (omega arith) below)) in
      ground arith

  pub length-sector : (d : io.Disk) (s : ℕ) → s < size → length (bytes_of (io.read d s)) ≡ 512
  length-sector d s lt =
      let (bytes, e) = l.reads d s lt in ground (arith, l.length-read d s bytes e)

  pub length-new_sector :
      (c v : ℕ) (d : io.Disk) → c < geo.total_clusters + 2 → length (new_sector d c v) ≡ 512
  length-new_sector c v d below =
      length-copy_to (entry_in_sector c) _ _
      ∙ length-sector d (geo.fat_start_sector + sector_in_fat c)
          (omega (arith, sector-lt 0 c (omega arith) below))

  -- What a write of an entry does to the disk.
  pub fat_set_lem :
      (c v : ℕ) (d : io.Disk)
      → c < geo.total_clusters + 2
      → (d' : io.Disk) × (fat_set io geo c v d ≡ (ok tt, d'))
        × ((k : ℕ)
            → k < max geo.fat_count 1
            → io.read d' (copy_sector geo (sector_in_fat c) k) ≡ some (new_sector d c v))
        × ((t : ℕ)
            → ((k : ℕ) → k < max geo.fat_count 1 → copy_sector geo (sector_in_fat c) k ≢ t)
            → io.read d' t ≡ io.read d t)
  fat_set_lem c v d below =
      let (d', run, written, stays, others) =
        write_copies_lem io geo l (max geo.fat_count 1) 0 (sector_in_fat c) (new_sector d c v) d
          (length-new_sector c v d below) (λ k lo hi. sector-lt k c (omega arith) below) in
      (
        d',
        fat_set_run c v d below ∙ run,
        (λ k lt. written k (omega arith) (omega arith)),
        λ t apart. others t (λ k lo hi. apart k (omega arith)),
      )

  -- A disk that is the same before the data has the same table.
  pub table_kept :
      (d d' : io.Disk) (c : ℕ)
      → ((t : ℕ) → t < geo.data_start_sector → io.read d' t ≡ io.read d t)
      → c < geo.total_clusters + 2
      → entry_of io geo d' c ≡ entry_of io geo d c
  table_kept d d' c same below = entry_of_same io geo d d' c (
      same (geo.fat_start_sector + sector_in_fat c) (
        omega (
          arith,
          g.copies_end,
          copies_fit 0 (max geo.fat_count 1) (sector_in_fat c) geo.fat_size (omega arith)
              (sector_in_fat-lt c below),
        )))
