-- ===== src/Fs/Partition/Detect.antt =====
-- What is on a partition, kernel/src/fs/partition.rs: `fat_family` and `detect_fs_type`. The names that
-- they return are constructors; the message about a failed read is left out.
use vibra.Common.{
  ℕ, ◌+◌, ◌-◌, ◌*◌, ◌/◌, ◌≤◌, ◌≡◌, inl, inr, [], ◌∷◌, Option, none, some, Bool, true, false, not,
  ltb, leb, ◌==◌, ◌&&◌, ◌||◌, if◌then◌else◌, length, slice, get_or, bit_and, bytes_eq, arith,
  Bool-cases,
}
use vibra.Fs.{ok}
use vibra.Fs.Disk.{Bytes}
use vibra.Fs.Fat32.{Geometry, u16_at, u32_at}
use vibra.Fs.Fat32.Boot.{
  Fat32BootSector, boot_sector, is_power_of_two, is_refused, sector_shift, count_clusters,
  total_sectors, data_start, read_boot,
}
use vibra.Fs.Fat32.Boot.Accepted.{Accepts, read_boot-Accepts}
use vibra.Fs.Partition.{Device, has_protective, mbr_entry}

pub data FsName : Type 0 where
  unknown ntfs exfat fat12 fat16 fat32 iso9660 gpt mbr ext2 ext3 ext4 : FsName

-- By the number of clusters, where the layout does not decide.
unfoldable pub by_clusters : ℕ → FsName
by_clusters clusters =
    if ltb clusters 4085 then fat12 else if ltb clusters 65525 then fat16 else fat32

abbrev pub fat_size_of : Fat32BootSector → ℕ
fat_size_of boot = if boot.fat_size_16 == 0 then boot.fat_size_32 else boot.fat_size_16

abbrev pub known_sector : ℕ → Bool
known_sector bps = bps == 512 || bps == 1024 || bps == 2048 || bps == 4096

abbrev pub data_start_of : Fat32BootSector → ℕ
data_start_of boot =
    boot.reserved_sectors
    + boot.fat_count * fat_size_of boot
    + (boot.root_entry_count * 32 + boot.bytes_per_sector - 1) / boot.bytes_per_sector

unfoldable pub family_of : Fat32BootSector → Option FsName
unfolding is_power_of_two total_sectors by_clusters
family_of boot =
    if not (known_sector boot.bytes_per_sector)
      || boot.sectors_per_cluster == 0
      || not (is_power_of_two boot.sectors_per_cluster)
    then none
    else if boot.reserved_sectors == 0 || boot.fat_count == 0 || ltb 4 boot.fat_count
    then none
    else if fat_size_of boot == 0
    then none
    else if ltb (total_sectors boot) boot.reserved_sectors
    then none
    else if boot.fat_size_16 == 0 && not (boot.fat_size_32 == 0) && boot.root_entry_count == 0
    then some fat32
    else if leb (total_sectors boot) (data_start_of boot)
    then none
    else some (by_clusters ((total_sectors boot - data_start_of boot) / boot.sectors_per_cluster))

unfoldable pub fat_family : Bytes → Option FsName
unfolding boot_sector family_of
fat_family s = if ltb (length s) 512 then none else family_of (boot_sector s)

-- Whether one of the flags of a mask is set.
abbrev pub has_flag : ℕ → ℕ → Bool
has_flag flags mask = not (bit_and flags mask == 0)

unfoldable pub ext_generation : Bytes → FsName
unfolding u32_at
ext_generation s =
    if has_flag (u32_at s 1120) 0x2c0 || has_flag (u32_at s 1124) 0x200
    then ext4
    else if has_flag (u32_at s 1116) 4
    then ext3
    else ext2

-- "NTFS    ", "EXFAT   " and "CD001"
abbrev pub ntfs_mark : Bytes
ntfs_mark = 0x4e ∷ 0x54 ∷ 0x46 ∷ 0x53 ∷ 32 ∷ 32 ∷ 32 ∷ 32 ∷ []

abbrev pub exfat_mark : Bytes
exfat_mark = 0x45 ∷ 0x58 ∷ 0x46 ∷ 0x41 ∷ 0x54 ∷ 32 ∷ 32 ∷ 32 ∷ []

abbrev pub iso_mark : Bytes
iso_mark = 0x43 ∷ 0x44 ∷ 0x30 ∷ 0x30 ∷ 0x31 ∷ []

abbrev pub is_signed : Bytes → Bool
is_signed s = get_or s 510 0 == 0x55 && get_or s 511 0 == 0xaa

unfoldable pub has_entry : Bytes → Bool
unfolding mbr_entry
has_entry s =
    not ((mbr_entry s 0).ptype == 0)
    || not ((mbr_entry s 1).ptype == 0)
    || not ((mbr_entry s 2).ptype == 0)
    || not ((mbr_entry s 3).ptype == 0)

abbrev pub holds_iso : Option Bytes → Bool
holds_iso none = false
holds_iso (some pvd) = bytes_eq (slice 1 5 pvd) iso_mark

-- The first 2 KiB, when the OEM name and the BPB say nothing.
unfoldable pub detect_other : Device → Bytes → FsName
unfolding has_protective has_entry u16_at ext_generation
detect_other disk s =
    if holds_iso (disk.read 64 2048)
    then iso9660
    else if is_signed s && has_protective s
    then gpt
    else if is_signed s && has_entry s
    then mbr
    else if u16_at s 1080 == 0xef53
    then ext_generation s
    else unknown

abbrev pub or_other : Option FsName → FsName → FsName
or_other none other = other
or_other (some name) other = name

unfoldable pub detect_fs_type : Device → FsName
unfolding fat_family detect_other
detect_fs_type disk = elim (disk.read 0 2048) [
  | none ↦ unknown
  | some s ↦
      if bytes_eq (slice 3 8 s) ntfs_mark
      then ntfs
      else if bytes_eq (slice 3 8 s) exfat_mark
      then exfat
      else or_other (if is_signed s then fat_family s else none) (detect_other disk s)
]

-- What the FAT32 driver's checks leave over.
read_boot-refused :
    (boot : Fat32BootSector) (geo : Geometry) → read_boot boot ≡ ok geo → is_refused boot ≡ false
unfolding read_boot
read_boot-refused boot geo h = elim (Bool-cases (is_refused boot)) [
  | inl bad ↦ absurd (ground arith)
  | inr good ↦ good
]

enough_sectors :
    (boot : Fat32BootSector) (shift : ℕ) (geo : Geometry)
    → Accepts boot shift geo
    → boot.reserved_sectors ≤ total_sectors boot
unfolding count_clusters data_start
enough_sectors boot shift geo a = ground arith

known_from_shift :
    (bytes : ℕ) {shift : ℕ} → sector_shift bytes ≡ some shift → known_sector bytes ≡ true
unfolding sector_shift
known_from_shift bytes h = ground arith

guards_pass :
    (boot : Fat32BootSector)
    → is_refused boot ≡ false
    → (boot.fat_size_16 == 0 ≡ true)
      × (boot.root_entry_count == 0 ≡ true)
      × (boot.sectors_per_cluster == 0 ≡ false)
      × (is_power_of_two boot.sectors_per_cluster ≡ true)
      × (boot.reserved_sectors == 0 ≡ false)
      × (boot.fat_size_32 == 0 ≡ false)
      × (boot.fat_count == 0 ≡ false)
      × (ltb 4 boot.fat_count ≡ false)
unfolding is_refused
guards_pass boot h = (
  ground arith,
  ground arith,
  ground arith,
  ground arith,
  ground arith,
  ground arith,
  ground arith,
  ground arith,
)

pub read_boot-family_of :
    (boot : Fat32BootSector) (geo : Geometry)
    → read_boot boot ≡ ok geo
    → family_of boot ≡ some fat32
unfolding family_of
read_boot-family_of boot geo h =
    let (shift, known, a) = read_boot-Accepts boot geo h in
    let (f16, root, spc, pow, res, f32, copies, four) =
      guards_pass boot (read_boot-refused boot geo h) in
    ground (arith, known_from_shift boot.bytes_per_sector known, enough_sectors boot shift geo a)

-- Where the first 2048 bytes of a disk can be read, end their first sector with 0x55 0xAA, do not
-- have the OEM name of NTFS or exFAT, and hold a boot sector that the checks of `with_mode` of
-- the FAT32 driver accept, `detect_fs_type` answers fat32.
pub detect_fs_type-accepted :
    (disk : Device) (s : Bytes) (geo : Geometry)
    → disk.read 0 2048 ≡ some s
    → length s ≡ 2048
    → is_signed s ≡ true
    → bytes_eq (slice 3 8 s) ntfs_mark ≡ false
    → bytes_eq (slice 3 8 s) exfat_mark ≡ false
    → read_boot (boot_sector s) ≡ ok geo
    → detect_fs_type disk ≡ fat32
unfolding detect_fs_type fat_family
detect_fs_type-accepted disk s geo first size signed no_ntfs no_exfat accepted =
    let big : ltb (length s) 512 ≡ false = ground arith in
    let family = read_boot-family_of (boot_sector s) geo accepted in
    rw (detect_fs_type, first) (ground (arith, family))
