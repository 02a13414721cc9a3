-- ===== src/Fs/Partition.antt =====
-- Partition tables, kernel/src/fs/partition.rs: the MBR with its chain of logical partitions, the GPT with
-- its checksum, and the choice between them. The device answers a read by its number and length; its
-- sectors have at least 512 bytes. A number of a sector has 32 bits in an MBR, so no sum there wraps.
pub mod Sizes
pub mod Detect
mod Checks
use vibra.Common.{
  ℕ, zero, suc, ◌+◌, ◌-◌, ◌*◌, ◌/◌, ◌%◌, ◌^◌, min, List, [], ◌∷◌, ◌++◌, Option, none, some, Bool,
  true, false, ltb, leb, ◌==◌, not, ◌&&◌, ◌||◌, if◌then◌else◌, length, slice, get_or, bit_and,
  bit_xor, bytes_eq, replicate, u64_mod,
}
use vibra.Fs.Disk.{Bytes}
use vibra.Fs.Fat32.{copy_to}
use vibra.Fs.Fat32.Dir.{contains}
use vibra.Fs.Fat32.Dir.Find.{char_of}

pub data PartKind : Type 0 where
  plain efi linux unknown : PartKind

pub record Partition : Type 0 where
  pub index : ℕ
  pub start_lba : ℕ
  pub sectors : ℕ
  pub kind : PartKind
  pub label : List ℕ

-- `read_lba` of a number of bytes.
pub record Device : Type 0 where
  pub sector_size : ℕ
  pub read_lba : ℕ → ℕ → Option Bytes
  pub read : ℕ → ℕ → Option Bytes

-- One bit of the checksum, and the eight of a byte.
unfoldable pub crc_bits : ℕ → ℕ → ℕ
crc_bits zero crc = crc
crc_bits (suc n) crc = crc_bits n (bit_xor (crc / 2) (if crc % 2 == 1 then 0xedb8_8320 else 0))

unfoldable pub crc_from : ℕ → Bytes → ℕ
unfolding crc_bits
crc_from crc [] = crc
crc_from crc (b ∷ bytes) = crc_from (crc_bits 8 (bit_xor crc b)) bytes

unfoldable pub crc32 : Bytes → ℕ
unfolding crc_from
crc32 bytes = 0xffff_ffff - crc_from 0xffff_ffff bytes

-- The little-endian number of `n` bytes, or 0 if they are not all there.
unfoldable pub le_value : ℕ → Bytes → ℕ → ℕ
le_value zero buf i = 0
le_value (suc n) buf i = get_or buf i 0 + 256 * le_value n buf (i + 1)

unfoldable pub number_at : ℕ → Bytes → ℕ → ℕ
unfolding le_value
number_at n buf off = if leb (off + n) (length buf) then le_value n buf off else 0

abbrev pub u64_at : Bytes → ℕ → ℕ
u64_at buf off = number_at 8 buf off % u64_mod

unfoldable pub guid_eq : Bytes → ℕ → Bytes → Bool
guid_eq buf off guid = bytes_eq (slice off 16 buf) guid

-- Units up to a zero or the end of the bytes.
unfoldable pub utf16_name : ℕ → Bytes → ℕ → List ℕ
unfolding le_value
utf16_name zero buf off = []
utf16_name (suc n) buf off =
    let unit = le_value 2 buf off in
    let rest = utf16_name n buf (off + 2) in
    if ltb (length buf) (off + 2) || unit == 0 then [] else char_of unit ∷ rest

abbrev pub data_types : List ℕ
data_types =
    0x01 ∷ 0x04 ∷ 0x06 ∷ 0x0b ∷ 0x0c ∷ 0x0e ∷ 0x11 ∷ 0x14 ∷ 0x16 ∷ 0x1b ∷ 0x1c ∷ 0x1e ∷ 0x07 ∷ 0x17
    ∷ 0x27 ∷ []

unfoldable pub kind_from_mbr : ℕ → PartKind
unfolding contains
kind_from_mbr ptype =
    if contains data_types ptype
    then plain
    else if ptype == 0x83
    then linux
    else if ptype == 0xef
    then efi
    else unknown

pub record MbrEntry : Type 0 where
  pub ptype : ℕ
  pub start : ℕ
  pub count : ℕ

unfoldable pub mbr_entry : Bytes → ℕ → MbrEntry
unfolding number_at
mbr_entry sector i = record {
  ptype = get_or sector (446 + i * 16 + 4) 0;
  start = number_at 4 sector (446 + i * 16 + 8);
  count = number_at 4 sector (446 + i * 16 + 12);
}

abbrev pub ratio_of : Device → ℕ
ratio_of disk = disk.sector_size / 512

-- `saturating_mul`.
abbrev pub saturating_mul : ℕ → ℕ → ℕ
saturating_mul a b = min (a * b) (u64_mod - 1)

abbrev pub is_extended : ℕ → Bool
is_extended ptype = ptype == 5 || ptype == 15 || ptype == 0x85

abbrev pub is_unused : MbrEntry → Bool
is_unused e = e.ptype == 0 || e.count == 0

unfoldable pub mbr_partition : ℕ → ℕ → ℕ → MbrEntry → Partition
unfolding kind_from_mbr
mbr_partition ratio index start e = record {
  index = index;
  start_lba = saturating_mul start ratio;
  sectors = saturating_mul e.count ratio;
  kind = kind_from_mbr e.ptype;
  label = [];
}

-- The primary partitions from entry `i` on, and the extended one that stands last.
unfoldable pub primary : ℕ → ℕ → ℕ → Bytes → Option ℕ → List Partition × Option ℕ
unfolding mbr_entry mbr_partition
primary zero i ratio sector extended = ([], extended)
primary (suc n) i ratio sector extended =
    let e = mbr_entry sector i in
    if is_unused e || e.ptype == 0xee
    then primary n (i + 1) ratio sector extended
    else if is_extended e.ptype
    then primary n (i + 1) ratio sector (some e.start)
    else let (parts, found) = primary n (i + 1) ratio sector extended in
      (mbr_partition ratio (i + 1) e.start e ∷ parts, found)

unfoldable pub read_mbr_sector : Device → ℕ → Option Bytes
read_mbr_sector disk lba = elim (disk.read_lba lba disk.sector_size) [
  | none ↦ none
  | some buf ↦
      if get_or buf 510 0 == 0x55 && get_or buf 511 0 == 0xaa then some (slice 0 512 buf) else none
]

-- The chain of extended boot records; the source follows 128 of them.
unfoldable pub logical : ℕ → Device → ℕ → ℕ → ℕ → List Partition
unfolding mbr_entry mbr_partition
logical zero disk extended ebr index = []
logical (suc n) disk extended ebr index = elim (read_mbr_sector disk ebr) [
  | none ↦ []
  | some sector ↦
      let own = mbr_entry sector 0 in
      let next = mbr_entry sector 1 in
      let index' = (if is_unused own then index else min (index + 1) 255) in
      let rest =
        (if is_unused next || extended + next.start == ebr
          then []
          else logical n disk extended (extended + next.start) index') in
      if is_unused own
      then rest
      else mbr_partition (ratio_of disk) index (ebr + own.start) own ∷ rest
]

abbrev pub non_empty_or_none : List Partition → Option (List Partition)
non_empty_or_none [] = none
non_empty_or_none (p ∷ ps) = some (p ∷ ps)

unfoldable pub logical_of : Device → Option ℕ → List Partition
unfolding logical
logical_of disk none = []
logical_of disk (some extended) = logical 128 disk extended extended 5

unfoldable pub parse_mbr : Device → Bytes → Option (List Partition)
unfolding primary logical_of
parse_mbr disk sector0 =
    let (parts, extended) = primary 4 0 (ratio_of disk) sector0 none in
    non_empty_or_none (parts ++ logical_of disk extended)

-- "EFI PART"
abbrev pub gpt_sig : Bytes
gpt_sig = 0x45 ∷ 0x46 ∷ 0x49 ∷ 0x20 ∷ 0x50 ∷ 0x41 ∷ 0x52 ∷ 0x54 ∷ []

abbrev pub guid_ms_basic_data : Bytes
guid_ms_basic_data =
    0xa2 ∷ 0xa0 ∷ 0xd0 ∷ 0xeb ∷ 0xe5 ∷ 0xb9 ∷ 0x33 ∷ 0x44 ∷ 0x87 ∷ 0xc0 ∷ 0x68 ∷ 0xb6 ∷ 0xb7 ∷ 0x26
    ∷ 0x99 ∷ 0xc7 ∷ []

abbrev pub guid_efi_system : Bytes
guid_efi_system =
    0x28 ∷ 0x73 ∷ 0x2a ∷ 0xc1 ∷ 0x1f ∷ 0xf8 ∷ 0xd2 ∷ 0x11 ∷ 0xba ∷ 0x4b ∷ 0x00 ∷ 0xa0 ∷ 0xc9 ∷ 0x3e
    ∷ 0xc9 ∷ 0x3b ∷ []

abbrev pub guid_linux_data : Bytes
guid_linux_data =
    0xaf ∷ 0x3d ∷ 0xc6 ∷ 0x0f ∷ 0x83 ∷ 0x84 ∷ 0x72 ∷ 0x47 ∷ 0x8e ∷ 0x79 ∷ 0x3d ∷ 0x69 ∷ 0xd8 ∷ 0x47
    ∷ 0x7d ∷ 0xe4 ∷ []

-- `checked_add` and `checked_mul` on 64 bits.
abbrev pub checked : ℕ → Option ℕ
checked n = if leb u64_mod n then none else some n

infixl 5 ◌>>?◌
abbrev pub ◌>>?◌ : {A B : Type 0} → Option A → (A → Option B) → Option B
o >>? f = elim o [ none ↦ none | some a ↦ f a ]

-- The bytes of entry `i`, which may lie across two sectors.
unfoldable pub gpt_bytes : Device → ℕ → ℕ → ℕ → Option Bytes
gpt_bytes disk entries_lba entry_size i =
    let ss = disk.sector_size in
    let at = i * entry_size % ss in
    checked (i * entry_size) >>? λ offset. checked (entries_lba + offset / ss) >>? λ lba.
    if ltb ss (at + entry_size)
    then (disk.read_lba lba ss >>? λ left. disk.read_lba ((lba + 1) % u64_mod) ss >>? λ right.
        some (slice at entry_size (left ++ right)))
    else (disk.read_lba lba ss >>? λ sector. some (slice at entry_size sector))

unfoldable pub kind_from_guid : Bytes → PartKind
unfolding guid_eq
kind_from_guid entry =
    if guid_eq entry 0 guid_efi_system
    then efi
    else if guid_eq entry 0 guid_linux_data
    then linux
    else if guid_eq entry 0 guid_ms_basic_data
    then plain
    else unknown

-- Entry `i`: none if it is unused, ends before its start or is too large to count in sectors of 512 bytes.
-- `last - first + 1` wraps, as the release build has it; a debug build panics there.
unfoldable pub gpt_partition : ℕ → ℕ → Bytes → Option Partition
gpt_partition ratio i entry =
    let first = u64_at entry 32 in
    let last = u64_at entry 40 in
    if bytes_eq (slice 0 16 entry) (replicate 16 0) || ltb last first
    then none
    else (checked (first * ratio) >>? λ start_lba.
        checked ((last + u64_mod - first + 1) % u64_mod * ratio) >>? λ sectors. some (record {
          index = (i + 1) % 256;
          start_lba = start_lba;
          sectors = sectors;
          kind = kind_from_guid entry;
          label = utf16_name 36 entry 56;
        }))

abbrev pub cons_some : Option Partition → List Partition → List Partition
cons_some none parts = parts
cons_some (some p) parts = p ∷ parts

-- The `n` entries from `i` on; a failed read gives up the whole table.
unfoldable pub gpt_entries : ℕ → Device → ℕ → ℕ → ℕ → Option (List Partition)
gpt_entries zero disk entries_lba entry_size i = some []
gpt_entries (suc n) disk entries_lba entry_size i =
    let rest = gpt_entries n disk entries_lba entry_size (i + 1) in
    gpt_bytes disk entries_lba entry_size i >>? λ entry.
    rest >>? λ parts. some (cons_some (gpt_partition (ratio_of disk) i entry) parts)

abbrev pub lies_in : ℕ → ℕ → ℕ → Bool
lies_in lo hi n = leb lo n && leb n hi

-- The checksum is that of the header with its own field cleared.
unfoldable pub is_gpt_header : Bytes → Bool
unfolding number_at crc32 copy_to
is_gpt_header hdr =
    let size = number_at 4 hdr 12 in
    bytes_eq (slice 0 8 hdr) gpt_sig
    && lies_in 92 512 size
    && crc32 (slice 0 size (copy_to 16 (replicate 4 0) hdr)) == number_at 4 hdr 16

unfoldable pub parse_gpt : Device → Option (List Partition)
parse_gpt disk = disk.read_lba 1 512 >>? λ hdr.
    let count = number_at 4 hdr 80 in
    let entry_size = number_at 4 hdr 84 in
    if not (is_gpt_header hdr)
      || not (lies_in 128 4096 entry_size)
      || count == 0
      || ltb 1024 count
      || ltb disk.sector_size entry_size
    then none
    else (gpt_entries count disk (u64_at hdr 72) entry_size 0 >>? non_empty_or_none)

unfoldable pub has_protective : Bytes → Bool
unfolding mbr_entry
has_protective sector =
    (mbr_entry sector 0).ptype == 0xee
    || (mbr_entry sector 1).ptype == 0xee
    || (mbr_entry sector 2).ptype == 0xee
    || (mbr_entry sector 3).ptype == 0xee

-- The first table there is.
abbrev pub or_else : Option (List Partition) → List Partition → List Partition
or_else none parts = parts
or_else (some found) parts = found

unfoldable pub read_partitions : Device → List Partition
read_partitions disk = elim (disk.read 0 512) [
  | none ↦ []
  | some sector0 ↦
      or_else (if has_protective sector0 then parse_gpt disk else none)
        (or_else (parse_mbr disk sector0) (or_else (parse_gpt disk) []))
]
