-- ===== src/Fs/Fat32/Boot.antt =====
-- The boot sector of kernel/src/fs/fat32.rs and the geometry that `with_mode` reads from it. The products
-- that the source checks stay far below 2^64: no field has more than 32 bits, and the factor is 1 or 8.
pub mod Accepted
use vibra.Common.{
  ℕ, zero, suc, ◌+◌, ◌-◌, ◌*◌, ◌/◌, ◌%◌, ◌^◌, List, [], ◌∷◌, Option, none, some, Bool, true, false,
  ltb, leb, ◌==◌, not, ◌&&◌, ◌||◌, if◌then◌else◌, get_or, slice, u32_mod,
}
use vibra.Fs.{Result, ok, err, invalid_path}
use vibra.Fs.Disk.{Bytes, DiskIo, Action, pure, raise, or_raise, read_sector, ◌>>=◌, ◌>>◌}
use vibra.Fs.Fat32.{Geometry, u32_at, u16_at}
use vibra.Fs.Fat32.Dir.{contains}

-- The fields that the code reads.
pub record Fat32BootSector : Type 0 where
  pub bytes_per_sector : ℕ
  pub sectors_per_cluster : ℕ
  pub reserved_sectors : ℕ
  pub fat_count : ℕ
  pub root_entry_count : ℕ
  pub total_sectors_16 : ℕ
  pub fat_size_16 : ℕ
  pub total_sectors_32 : ℕ
  pub fat_size_32 : ℕ
  pub root_cluster : ℕ
  pub fs_info_sector : ℕ
  pub volume_label : Bytes

-- The packed fields at their places.
unfoldable pub boot_sector : Bytes → Fat32BootSector
unfolding u16_at u32_at
boot_sector buf = record {
  bytes_per_sector = u16_at buf 11;
  sectors_per_cluster = get_or buf 13 0;
  reserved_sectors = u16_at buf 14;
  fat_count = get_or buf 16 0;
  root_entry_count = u16_at buf 17;
  total_sectors_16 = u16_at buf 19;
  fat_size_16 = u16_at buf 22;
  total_sectors_32 = u32_at buf 32;
  fat_size_32 = u32_at buf 36;
  root_cluster = u32_at buf 44;
  fs_info_sector = u16_at buf 48;
  volume_label = slice 71 11 buf;
}

pub record Fat32Fs : Type 0 where
  pub geo : Geometry
  pub mounted : Bool
  pub read_only : Bool

unfoldable pub is_power_of_two : ℕ → Bool
unfolding contains
is_power_of_two n = contains (1 ∷ 2 ∷ 4 ∷ 8 ∷ 16 ∷ 32 ∷ 64 ∷ 128 ∷ []) n

-- The sectors of 512 bytes in one of the device.
unfoldable pub sector_shift : ℕ → Option ℕ
sector_shift bytes = if bytes == 512 then some 1 else if bytes == 4096 then some 8 else none

unfoldable pub info_sector : ℕ → ℕ
info_sector v = if leb v 0xffff then v else 0

unfoldable pub data_start : Fat32BootSector → ℕ → ℕ
data_start boot shift =
    boot.reserved_sectors * shift
    + boot.fat_count * (boot.fat_size_32 * shift)
    + (boot.root_entry_count * 32 + 511) / 512

unfoldable pub total_sectors : Fat32BootSector → ℕ
total_sectors boot =
    if boot.total_sectors_16 == 0 then boot.total_sectors_32 else boot.total_sectors_16

-- `as u32` cuts to 32 bits.
unfoldable pub count_clusters : Fat32BootSector → ℕ → ℕ
unfolding data_start total_sectors
count_clusters boot shift =
    (total_sectors boot * shift - data_start boot shift)
    / (boot.sectors_per_cluster * shift)
    % u32_mod

unfoldable pub is_refused : Fat32BootSector → Bool
unfolding is_power_of_two
is_refused boot =
    not (boot.fat_size_16 == 0)
    || not (boot.root_entry_count == 0)
    || (boot.sectors_per_cluster == 0 || not (is_power_of_two boot.sectors_per_cluster))
    || (boot.reserved_sectors == 0 || boot.fat_size_32 == 0)
    || (boot.fat_count == 0 || ltb 4 boot.fat_count)

unfoldable pub geometry : Fat32BootSector → ℕ → Geometry
unfolding data_start count_clusters info_sector
geometry boot shift = record {
  fat_start_sector = boot.reserved_sectors * shift;
  fat_count = boot.fat_count;
  fat_size = boot.fat_size_32 * shift % u32_mod;
  data_start_sector = data_start boot shift;
  sectors_per_cluster = boot.sectors_per_cluster * shift;
  cluster_size = 512 * (boot.sectors_per_cluster * shift);
  root_cluster = boot.root_cluster;
  fs_info_sector = info_sector (boot.fs_info_sector * shift);
  total_clusters = count_clusters boot shift;
  volume_label = boot.volume_label;
}

unfoldable pub read_boot : Fat32BootSector → Result Geometry
unfolding sector_shift is_refused geometry count_clusters
read_boot boot = elim (sector_shift boot.bytes_per_sector) [
  | none ↦ err invalid_path
  | some shift ↦
      if is_refused boot
      then err invalid_path
      else if ltb 255 (boot.sectors_per_cluster * shift)
      then err invalid_path
      else if ltb (count_clusters boot shift) 2
      then err invalid_path
      else ok (geometry boot shift)
]

module _ (io : DiskIo) where
  unfoldable pub with_mode : Bool → Action io.Disk Fat32Fs
  unfolding read_sector boot_sector read_boot
  with_mode read_only = do
    buf ← read_sector io 0
    elim (read_boot (boot_sector buf)) [
      | err e ↦ raise e
      | ok geo ↦ pure (record { geo = geo; mounted = false; read_only = read_only })
    ]
