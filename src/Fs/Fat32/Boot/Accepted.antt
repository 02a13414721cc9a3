-- ===== src/Fs/Fat32/Boot/Accepted.antt =====
-- The geometries that `with_mode` of kernel/src/fs/fat32.rs accepts.
use vibra.Common.{
  ℕ, ◌+◌, ◌-◌, ◌*◌, ◌/◌, ◌%◌, ◌≤◌, ◌<◌, ◌≡◌, refl, ◌⊎◌, inl, inr, max, some, ◌==◌, arith, u32_mod,
  Option-cases, Bool-cases,
}
use vibra.Fs.{ok}
use vibra.Fs.Fat32.{Geometry}
use vibra.Fs.Fat32.Entries.{IsGeo}
use vibra.Fs.Fat32.Boot.{
  Fat32BootSector, sector_shift, is_refused, info_sector, data_start, total_sectors, count_clusters,
  geometry, read_boot,
}

pub record Accepts (boot : Fat32BootSector) (shift : ℕ) (geo : Geometry) : Type 0 where
  pub known_shift : (shift ≡ 1) ⊎ (shift ≡ 8)
  pub layout : geometry boot shift ≡ geo
  pub reserved : 1 ≤ boot.reserved_sectors
  pub has_table : 1 ≤ boot.fat_size_32
  pub no_root_area : boot.root_entry_count ≡ 0
  pub copies : (1 ≤ boot.fat_count) × (boot.fat_count ≤ 4)
  pub cluster : (1 ≤ boot.sectors_per_cluster * shift) × (boot.sectors_per_cluster * shift ≤ 255)
  pub clusters : 2 ≤ count_clusters boot shift

sector_shift-some :
    (bytes : ℕ) {shift : ℕ} → sector_shift bytes ≡ some shift → (shift ≡ 1) ⊎ (shift ≡ 8)
unfolding sector_shift
sector_shift-some bytes h = elim (Bool-cases (bytes == 512)) [
  | inl a ↦ inl (ground arith)
  | inr b ↦ inr (ground arith)
]

pub read_boot-Accepts :
    (boot : Fat32BootSector) (geo : Geometry)
    → read_boot boot ≡ ok geo
    → (shift : ℕ) × (sector_shift boot.bytes_per_sector ≡ some shift) × Accepts boot shift geo
unfolding read_boot is_refused
read_boot-Accepts boot geo h = elim (Option-cases (sector_shift boot.bytes_per_sector)) [
  | inl e ↦ absurd (ground arith)
  | inr (shift, e) ↦ (
    shift,
    e,
    record {
      known_shift = sector_shift-some boot.bytes_per_sector e;
      layout = ground arith;
      reserved = ground arith;
      has_table = ground arith;
      no_root_area = ground arith;
      copies = (ground arith, ground arith);
      cluster = (ground (arith, sector_shift-some boot.bytes_per_sector e), ground arith);
      clusters = ground arith;
    },
  )
]

quotient_fits : (x y : ℕ) → 1 ≤ y → x / y * y ≤ x
quotient_fits x y h = grind arith

-- The sectors of the clusters end with the volume.
clusters_end :
    (t ds spc total : ℕ)
    → 1 ≤ spc
    → (t - ds) / spc % u32_mod ≡ total
    → 2 ≤ total
    → ds + total * spc ≤ t
clusters_end t ds spc total pos e two =
    let below : total ≤ (t - ds) / spc = omega arith in
    let wide : total * spc ≤ (t - ds) / spc * spc = grind arith in
    let some_left : 1 ≤ total * spc = grind arith in omega (arith, quotient_fits (t - ds) spc pos)

module _ (boot : Fat32BootSector) (shift : ℕ) (geo : Geometry) (a : Accepts boot shift geo) where
  Accepts-IsGeo :
      boot.fat_size_32 * shift < u32_mod
      → (count_clusters boot shift + 2) * 4 ≤ boot.fat_size_32 * shift * 512
      → info_sector (boot.fs_info_sector * shift) < boot.reserved_sectors * shift
      → count_clusters boot shift + 2 ≤ 0x0fff_fff7
      → IsGeo (geometry boot shift) (total_sectors boot * shift)
  unfolding geometry data_start count_clusters
  Accepts-IsGeo uncut covered info few =
      let cut : boot.fat_size_32 * shift % u32_mod ≡ boot.fat_size_32 * shift = omega arith in
      let one : max boot.fat_count 1 ≡ boot.fat_count = omega (arith, a.copies.0) in
      let none_before : (boot.root_entry_count * 32 + 511) / 512 ≡ 0 =
        omega (arith, a.no_root_area) in
      record {
        covered = rw cut covered;
        copies_end = rw (cut, one) (omega (arith, none_before));
        data_end =
            clusters_end (total_sectors boot * shift) (data_start boot shift)
              (boot.sectors_per_cluster * shift) (count_clusters boot shift) a.cluster.0 refl
              a.clusters;
        info_before = info;
        clusters_fit = few;
        cluster_span = omega arith;
        has_sectors = a.cluster.0;
      }

factor_uncut : (f shift : ℕ) → (shift ≡ 1) ⊎ (shift ≡ 8) → f * 8 < u32_mod → f * shift < u32_mod
factor_uncut f shift (inl e) lt = rw e (omega arith)
factor_uncut f shift (inr e) lt = rw e lt

-- The geometry that `with_mode` accepts is well-formed on a disk of the volume's sectors, the
-- factor of the sector size being known, if its table is below 2^32 sectors and has an entry for
-- every cluster, FSInfo stands before the table, and there are fewer clusters than the marks.
pub read_boot-IsGeo :
    (boot : Fat32BootSector) (geo : Geometry)
    → read_boot boot ≡ ok geo
    → boot.fat_size_32 * 8 < u32_mod
    → (geo.total_clusters + 2) * 4 ≤ geo.fat_size * 512
    → geo.fs_info_sector < geo.fat_start_sector
    → geo.total_clusters + 2 ≤ 0x0fff_fff7
    → (shift : ℕ) × (sector_shift boot.bytes_per_sector ≡ some shift)
      × IsGeo geo (total_sectors boot * shift)
unfolding geometry
read_boot-IsGeo boot geo accepted short covered info few =
    let (shift, known, a) = read_boot-Accepts boot geo accepted in
    let uncut : boot.fat_size_32 * shift < u32_mod =
      factor_uncut boot.fat_size_32 shift a.known_shift short in
    let cut : boot.fat_size_32 * shift % u32_mod ≡ boot.fat_size_32 * shift = omega arith in
    (
      shift,
      known,
      rw (← a.layout) (
          Accepts-IsGeo boot shift geo a uncut (rw cut at (rw (← a.layout) at covered))
            (rw (← a.layout) at info) (rw (← a.layout) at few)),
    )
