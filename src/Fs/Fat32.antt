-- ===== src/Fs/Fat32.antt =====
-- A FAT32 volume, kernel/src/fs/fat32.rs: its geometry and the file allocation table, over any disk.
-- Sectors are lists of 512 bytes; numbers on the disk are little-endian. Each loop of the source over
-- the table is bounded by the number of clusters.
pub mod Write
pub mod Table
pub mod Entries
pub mod RoundTrip
pub mod Links
pub mod Chains
pub mod Alloc
pub mod Grow
pub mod Dir
pub mod Boot
pub mod Volume
mod Checks
use vibra.Common.{
  ℕ, zero, suc, ◌+◌, ◌-◌, ◌*◌, ◌/◌, ◌%◌, ◌^◌, min, max, List, [], ◌∷◌, ◌++◌, Option, none, some,
  Bool, true, false, ltb, leb, ◌==◌, not, ◌&&◌, ◌||◌, if◌then◌else◌, length, take, drop, get_or,
  u32_mod,
}
use vibra.Fs.{FsError, Result, ok, err, io_error, invalid_path, disk_full}
use vibra.Fs.Disk.{
  Bytes, DiskIo, Action, pure, raise, or_raise, attempt, read_sector, write_sector, ◌>>=◌, ◌>>◌,
}

abbrev pub end_of_chain : ℕ
end_of_chain = 0x0fff_ffff

abbrev pub fat_free : ℕ
fat_free = 0

-- FAT_MASK keeps 28 bits.
abbrev pub mask_span : ℕ
mask_span = 2 ^ 28

pub record Geometry : Type 0 where
  pub fat_start_sector : ℕ
  pub fat_count : ℕ
  pub fat_size : ℕ
  pub data_start_sector : ℕ
  pub sectors_per_cluster : ℕ
  pub cluster_size : ℕ
  pub root_cluster : ℕ
  pub fs_info_sector : ℕ
  pub total_clusters : ℕ
  pub volume_label : Bytes

unfoldable pub cluster_to_sector : Geometry → ℕ → Option ℕ
cluster_to_sector geo cluster =
    if ltb cluster 2
    then none
    else some (geo.data_start_sector + (cluster - 2) * geo.sectors_per_cluster)

-- `u32::from_le_bytes` of four bytes, and `to_le_bytes`.
unfoldable pub u32_at : Bytes → ℕ → ℕ
u32_at buf i =
    get_or buf i 0
    + 256 * get_or buf (i + 1) 0
    + 65536 * get_or buf (i + 2) 0
    + 16777216 * get_or buf (i + 3) 0

unfoldable pub u16_at : Bytes → ℕ → ℕ
u16_at buf i = get_or buf i 0 + 256 * get_or buf (i + 1) 0

unfoldable pub le32 : ℕ → Bytes
le32 v = v % 256 ∷ v / 256 % 256 ∷ v / 65536 % 256 ∷ v / 16777216 % 256 ∷ []

unfoldable pub le16 : ℕ → Bytes
le16 v = v % 256 ∷ v / 256 % 256 ∷ []

-- `buf[from..from + bytes.len()].copy_from_slice(bytes)`.
unfoldable pub copy_to : ℕ → Bytes → Bytes → Bytes
copy_to from bytes [] = []
copy_to zero [] (x ∷ buf) = x ∷ buf
copy_to zero (b ∷ bytes) (x ∷ buf) = b ∷ copy_to zero bytes buf
copy_to (suc from) bytes (x ∷ buf) = x ∷ copy_to from bytes buf

-- Where the entry of a cluster stands in the table.
abbrev pub sector_in_fat : ℕ → ℕ
sector_in_fat cluster = cluster * 4 / 512

abbrev pub entry_in_sector : ℕ → ℕ
entry_in_sector cluster = cluster * 4 % 512

-- `(old & !FAT_MASK) | (value & FAT_MASK)`.
abbrev pub masked : ℕ → ℕ → ℕ
masked old value = old / mask_span * mask_span + value % mask_span

unfoldable pub is_end_of_chain : ℕ → Bool
is_end_of_chain value = leb 0x0fff_fff8 value

abbrev pub is_last : ℕ → Bool
is_last next = ltb next 2 || is_end_of_chain next

-- The two hints of the FSInfo sector.
unfoldable pub new_hints : ℕ → Bytes → Bytes
unfolding u32_at le32 copy_to
new_hints next_free buf =
    let free = u32_at buf 488 in
    let counted =
      (if not (free == 0xffff_ffff) && ltb 0 free
        then copy_to 488 (le32 (free - 1)) buf
        else buf) in
    copy_to 492 (le32 next_free) counted

module _ (io : DiskIo) (geo : Geometry) where
  unfoldable pub fat_get : ℕ → Action io.Disk ℕ
  unfolding u32_at read_sector
  fat_get cluster = do
    buf ← read_sector io (geo.fat_start_sector + sector_in_fat cluster)
    pure (u32_at buf (entry_in_sector cluster) % mask_span)

  -- The copies of a sector of the table, from copy `copy` on.
  unfoldable pub write_copies : ℕ → ℕ → ℕ → Bytes → Action io.Disk (Unit {0})
  unfolding write_sector
  write_copies zero copy sector buf = pure tt
  write_copies (suc n) copy sector buf =
      write_sector io (geo.fat_start_sector + copy * geo.fat_size + sector) buf
      >> write_copies n (copy + 1) sector buf

  unfoldable pub fat_set : ℕ → ℕ → Action io.Disk (Unit {0})
  unfolding u32_at le32 copy_to read_sector write_copies
  fat_set cluster value = do
    buf ← read_sector io (geo.fat_start_sector + sector_in_fat cluster)
    write_copies (max geo.fat_count 1) 0 (sector_in_fat cluster) (
        copy_to (entry_in_sector cluster)
          (le32 (masked (u32_at buf (entry_in_sector cluster)) value)) buf)

  -- The loop of `chain`, with room for `n` clusters more.
  unfoldable pub chain_from : ℕ → ℕ → Action io.Disk (List ℕ)
  unfolding fat_get is_end_of_chain
  chain_from zero cluster = pure []
  chain_from (suc n) cluster = do
    next ← fat_get cluster
    let rest = chain_from n next
    if is_last next then pure (cluster ∷ []) else (do clusters ← rest; pure (cluster ∷ clusters))

  unfoldable pub chain : ℕ → Action io.Disk (List ℕ)
  unfolding chain_from
  chain first = if ltb first 2 then pure [] else chain_from (geo.total_clusters + 3) first

  unfoldable pub set_all : List ℕ → ℕ → Action io.Disk (Unit {0})
  unfolding fat_set
  set_all [] value = pure tt
  set_all (c ∷ cs) value = fat_set c value >> set_all cs value

  unfoldable pub free_chain : ℕ → Action io.Disk (Unit {0})
  unfolding chain set_all
  free_chain first = do clusters ← chain first; set_all clusters fat_free

  unfoldable pub update_fsinfo : ℕ → Action io.Disk (Unit {0})
  unfolding new_hints read_sector write_sector u32_at
  update_fsinfo next_free =
      if geo.fs_info_sector == 0 || geo.fs_info_sector == 0xffff then pure tt else (do
        buf ← read_sector io geo.fs_info_sector
        if not (u32_at buf 0 == 0x4161_5252) || not (u32_at buf 484 == 0x6141_7272)
            then pure tt
            else write_sector io geo.fs_info_sector (new_hints next_free buf))

  unfoldable pub link_from : Option ℕ → ℕ → Action io.Disk (Unit {0})
  unfolding fat_set
  link_from none cluster = pure tt
  link_from (some previous) cluster = fat_set previous cluster

  -- The loop of `alloc_cluster`, from a cluster on.
  unfoldable pub alloc_from : ℕ → ℕ → Option ℕ → Action io.Disk ℕ
  unfolding fat_get fat_set link_from update_fsinfo attempt
  alloc_from zero cluster prev = raise disk_full
  alloc_from (suc n) cluster prev = do
    value ← fat_get cluster
    let rest = alloc_from n (cluster + 1) prev
    if value == fat_free
        then (do
          fat_set cluster end_of_chain
          link_from prev cluster
          attempt (update_fsinfo cluster)
          pure cluster)
        else rest

  -- `end` is the sum as a u32.
  unfoldable pub alloc_cluster : Option ℕ → Action io.Disk ℕ
  unfolding alloc_from
  alloc_cluster prev = alloc_from ((geo.total_clusters + 2) % u32_mod - 2) 2 prev

  -- The sectors of a cluster, one behind the other.
  unfoldable pub read_sectors : ℕ → ℕ → Action io.Disk Bytes
  unfolding read_sector
  read_sectors zero sector = pure []
  read_sectors (suc n) sector = do
    buf ← read_sector io sector
    rest ← read_sectors n (sector + 1)
    pure (buf ++ rest)

  unfoldable pub read_clusters : List ℕ → Action io.Disk Bytes
  unfolding read_sectors cluster_to_sector
  read_clusters [] = pure []
  read_clusters (c ∷ cs) = do
    sector ← or_raise (cluster_to_sector geo c) invalid_path
    bytes ← read_sectors geo.sectors_per_cluster sector
    rest ← read_clusters cs
    pure (bytes ++ rest)

  unfoldable pub read_chain : ℕ → Action io.Disk Bytes
  unfolding chain read_clusters
  read_chain first = do clusters ← chain first; read_clusters clusters
