-- ===== src/Fs/Fat32/Volume/Checks.antt =====
-- Runs of the volume, the entries and the boot sector of kernel/src/fs/fat32.rs at small inputs.
use vibra.Common.{
  ℕ, ◌==◌, if◌then◌else◌, ◌*◌, ◌≡◌, refl, List, [], ◌∷◌, ◌++◌, some, true, replicate, arith, ◌⊎◌,
  map,
}
use vibra.Fs.Disk.{Bytes}
use vibra.Fs.Disk.Memory.{memory}
use vibra.Fs.Fat32.{copy_to}
use vibra.Fs.Fat32.Entries.{IsGeo}
use vibra.Fs.Fat32.Boot.{
  Fat32BootSector, Fat32Fs, geometry, read_boot, sector_shift, is_refused, count_clusters,
  total_sectors, data_start, info_sector, is_power_of_two,
}
use vibra.Fs.Fat32.Boot.Accepted.{read_boot-IsGeo}
use vibra.Fs.Fat32.Dir.{
  FatDirEntry, entry_at, entry_bytes, get_name, to_83, ascii_upper, rfind_dot, pack_83, all_valid,
  is_valid_83, contains,
}
use vibra.Fs.Fat32.Dir.Bytes32.{entry_at-entry_bytes}
use vibra.Fs.Fat32.Dir.ShortName.{get_name-to_83}
use vibra.Fs.Fat32.Volume.Session.{Request, to_create, to_remove, to_open, through_write, serve_all}
use vibra.Fs.Fat32.Volume.Guard.{serve_all-read_only}

-- A volume of 96 clusters of one sector.
abbrev small_boot : Fat32BootSector
small_boot = record {
  bytes_per_sector = 512;
  sectors_per_cluster = 1;
  reserved_sectors = 2;
  fat_count = 2;
  root_entry_count = 0;
  total_sectors_16 = 100;
  fat_size_16 = 0;
  total_sectors_32 = 0;
  fat_size_32 = 1;
  root_cluster = 2;
  fs_info_sector = 1;
  volume_label = replicate 11 b' ';
}

read_boot-IsGeo_example :
    (shift : ℕ) × (sector_shift 512 ≡ some shift)
    × IsGeo (geometry small_boot 1) (total_sectors small_boot * shift)
unfolding read_boot is_refused sector_shift is_power_of_two contains geometry count_clusters
    total_sectors data_start info_sector
read_boot-IsGeo_example =
    read_boot-IsGeo small_boot (geometry small_boot 1) refl (omega arith) (omega arith)
      (omega arith) (omega arith)

abbrev locked : Fat32Fs
locked = record { geo = geometry small_boot 1; mounted = true; read_only = true }

-- The root directory of that volume with one empty file, A.
abbrev one_file : ℕ → Bytes
one_file s =
    if s == 2
    then replicate 12 0xff ++ replicate 500 0
    else if s == 4
    then b'A' ∷ replicate 10 b' ' ++ 0x20 ∷ replicate 500 0
    else replicate 512 0

abbrev path_a : List ℕ
path_a = b'/' ∷ b'a' ∷ []

abbrev requests : List Request
requests =
    to_create (0, 0) path_a
    ∷ to_open path_a
    ∷ through_write (0, 0) 0 (1 ∷ 2 ∷ [])
    ∷ to_remove path_a
    ∷ []

serve_all-read_only_example : (serve_all (memory 100) locked requests (one_file, [])).0 ≡ one_file
serve_all-read_only_example = serve_all-read_only (memory 100) locked refl requests one_file

-- README.TXT of 300 bytes at the cluster 65538.
abbrev readme : FatDirEntry
readme = record {
  name = b'R' ∷ b'E' ∷ b'A' ∷ b'D' ∷ b'M' ∷ b'E' ∷ b' ' ∷ b' ' ∷ b'T' ∷ b'X' ∷ b'T' ∷ [];
  attributes = 0x20;
  reserved = 0;
  creation_time_tenths = 0;
  creation_time = 0x6000;
  creation_date = 0x5a21;
  last_access_date = 0x5a21;
  first_cluster_high = 1;
  write_time = 0x6000;
  write_date = 0x5a21;
  first_cluster_low = 2;
  file_size = 300;
}

entry_at-entry_bytes_example :
    entry_at (copy_to 32 (entry_bytes readme) (replicate 64 0)) 32 ≡ readme
entry_at-entry_bytes_example =
    entry_at-entry_bytes readme 32 (replicate 64 0)
      (record {
        name_length = refl;
        creation_time_fits = omega arith;
        creation_date_fits = omega arith;
        last_access_date_fits = omega arith;
        first_cluster_high_fits = omega arith;
        write_time_fits = omega arith;
        write_date_fits = omega arith;
        first_cluster_low_fits = omega arith;
        file_size_fits = omega arith;
      })
      (omega arith)

abbrev readme_name : List ℕ
readme_name = b'r' ∷ b'e' ∷ b'a' ∷ b'd' ∷ b'm' ∷ b'e' ∷ b'.' ∷ b't' ∷ b'x' ∷ b't' ∷ []

get_name-to_83_example :
    (get_name readme ≡ map ascii_upper readme_name)
    ⊎ (get_name readme ++ b'.' ∷ [] ≡ map ascii_upper readme_name)
unfolding to_83 ascii_upper rfind_dot pack_83 all_valid is_valid_83 contains
get_name-to_83_example = get_name-to_83 readme_name readme refl
