-- ===== src/Fs/Partition/Checks.antt =====
-- Runs of kernel/src/fs/partition.rs on a disk with one Linux partition in its MBR and on a FAT32 volume.
use vibra.Common.{bytes_eq, [], ◌∷◌, ◌++◌, ◌≡◌, refl, some, ◌==◌, if◌then◌else◌, replicate, arith}
use vibra.Fs.Disk.{Bytes}
use vibra.Fs.Partition.{Device, read_partitions}
use vibra.Fs.Fat32.Boot.{boot_sector, geometry, read_boot}
use vibra.Fs.Partition.Detect.{detect_fs_type, fat32, detect_fs_type-accepted}
use vibra.Fs.Partition.Sizes.{Sized, read_partitions-Sized}

-- Type 0x83, from sector 2048 on, 4096 sectors.
abbrev mbr : Bytes
mbr =
    replicate 450 0
    ++ (0x83 ∷ 0 ∷ 0 ∷ 0 ∷ 0 ∷ 8 ∷ 0 ∷ 0 ∷ 0 ∷ 16 ∷ 0 ∷ 0 ∷ replicate 48 0 ++ 0x55 ∷ 0xaa ∷ [])

abbrev one_partition : Device
one_partition = record {
  sector_size = 512;
  read_lba = λ lba n. if lba == 0 then some mbr else some (replicate 512 0);
  read = λ s n. some mbr;
}

read_partitions-Sized_example : Sized 1024 (read_partitions one_partition)
read_partitions-Sized_example = read_partitions-Sized one_partition (omega arith)

-- 32 reserved sectors, two tables of 600, one sector in a cluster, 70000 sectors.
abbrev boot_bytes : Bytes
boot_bytes =
    replicate 11 0
    ++ (0 ∷ 2 ∷ 1 ∷ 32 ∷ 0 ∷ 2 ∷ replicate 15 0)
    ++ (0x70
        ∷ 0x11
        ∷ 1
        ∷ 0
        ∷ 88
        ∷ 2
        ∷ 0
        ∷ 0
        ∷ 0
        ∷ 0
        ∷ 0
        ∷ 0
        ∷ 2
        ∷ 0
        ∷ 0
        ∷ 0
        ∷ 1
        ∷ 0
        ∷ replicate 460 0)
    ++ (0x55 ∷ 0xaa ∷ replicate 1536 0)

abbrev fat_volume : Device
fat_volume = record {
  sector_size = 512;
  read_lba = λ lba n. some boot_bytes;
  read = λ s n. some boot_bytes;
}

detect_fs_type-accepted_example : detect_fs_type fat_volume ≡ fat32
unfolding read_boot bytes_eq boot_sector
detect_fs_type-accepted_example =
    detect_fs_type-accepted fat_volume boot_bytes (geometry (boot_sector boot_bytes) 1) refl refl
      refl refl refl refl
