-- ===== src/Fs/Fat32/Dir/Find.antt =====
-- The search of a directory of kernel/src/fs/fat32.rs: `read_dir` with its long names, `find_in_dir`,
-- `find_path`, `parent_cluster` and `find_free_slot`.
use vibra.Common.{
  ℕ, zero, suc, ◌+◌, ◌/◌, ◌%◌, List, [], ◌∷◌, ◌++◌, Option, none, some, ltb, leb, ◌==◌, ◌&&◌, ◌||◌,
  if◌then◌else◌, get_or, bit_and, replicate,
}
use vibra.Fs.{invalid_path, not_found, not_a_directory}
use vibra.Fs.Names.{split_path}
use vibra.Fs.Disk.{
  Bytes, DiskIo, Action, pure, raise, or_raise, read_sector, write_sector, ◌>>=◌, ◌>>◌,
}
use vibra.Fs.Fat32.{Geometry, u16_at, cluster_to_sector, chain, alloc_cluster}
use vibra.Fs.Fat32.Dir.{
  FatDirEntry, DirSlot, entry_at, is_end, is_free, is_long_name, is_directory, get_name,
  get_cluster, same_name, attr_volume_id, attr_directory,
}

-- The 13 units of a part of a long name, at 1, 14 and 28.
unfoldable pub units_at : ℕ → Bytes → ℕ → List ℕ
unfolding u16_at
units_at zero buf i = []
units_at (suc n) buf i = u16_at buf i ∷ units_at n buf (i + 2)

unfoldable pub long_part : Bytes → ℕ → List ℕ
unfolding units_at
long_part buf offset =
    units_at 5 buf (offset + 1) ++ (units_at 6 buf (offset + 14) ++ units_at 2 buf (offset + 28))

-- `char::from_u32` of a unit; a surrogate is none.
abbrev pub char_of : ℕ → ℕ
char_of unit = if leb 0xd800 unit && ltb unit 0xe000 then b'?' else unit

unfoldable pub part_text : List ℕ → List ℕ
part_text [] = []
part_text (u ∷ us) = if u == 0 || u == 0xffff then part_text us else char_of u ∷ part_text us

-- The parts stand on the disk with the last one first; `parts` has the first one read at the front of
-- what is already turned round.
unfoldable pub long_text : List (List ℕ) → List ℕ
unfolding part_text
long_text [] = []
long_text (p ∷ ps) = part_text p ++ long_text ps

unfoldable pub or_short : List ℕ → FatDirEntry → List ℕ
unfolding get_name
or_short [] entry = get_name entry
or_short (c ∷ cs) entry = c ∷ cs

-- Where a scan of entries is: at the end mark, or between two entries with the parts of a long name, the
-- last one read first.
pub data Scan : Type 0 where
  ended : List (DirSlot × List ℕ) → Scan
  going : List (List ℕ) → List (DirSlot × List ℕ) → Scan

-- What a scan that may have come to the end mark does next.
abbrev pub resume :
    {D B : Type 0}
    → Scan
    → (List (DirSlot × List ℕ) → B)
    → (List (List ℕ) → List (DirSlot × List ℕ) → Action D B)
    → Action D B
resume scan stop go = elim scan [ ended all ↦ pure (stop all) | going parts found ↦ go parts found ]

-- One entry.
unfoldable pub scan_entry : ℕ → Bytes → ℕ → List (List ℕ) → List (DirSlot × List ℕ) → Scan
unfolding entry_at is_end is_free is_long_name long_part long_text or_short
scan_entry sector buf offset parts found =
    let entry = entry_at buf offset in
    if is_end entry
    then ended found
    else if is_free entry
    then going [] found
    else if is_long_name entry
    then going (long_part buf offset ∷ parts) found
    else if bit_and entry.attributes attr_volume_id == 0
    then going [] (
        found
        ++ (
          record { entry = entry; sector = sector; offset = offset },
          or_short (long_text parts) entry,
        )
          ∷ [])
    else going [] found

-- The `n` entries of a sector from an offset on.
unfoldable pub scan_sector : ℕ → ℕ → Bytes → ℕ → List (List ℕ) → List (DirSlot × List ℕ) → Scan
unfolding scan_entry
scan_sector zero sector buf offset parts found = going parts found
scan_sector (suc n) sector buf offset parts found =
    elim (scan_entry sector buf offset parts found) [
      | ended all ↦ ended all
      | going parts' found' ↦ scan_sector n sector buf (offset + 32) parts' found'
    ]

-- An entry whose name begins with 0 or 0xE5, of the `n` from an offset on.
unfoldable pub free_offset : ℕ → Bytes → ℕ → Option ℕ
free_offset zero buf offset = none
free_offset (suc n) buf offset =
    let rest = free_offset n buf (offset + 32) in
    if get_or buf offset 0 == 0 || get_or buf offset 0 == 0xe5 then some offset else rest

-- `find_in_dir` on what was read.
unfoldable pub find_name : List ℕ → List (DirSlot × List ℕ) → Option DirSlot
unfolding same_name
find_name name [] = none
find_name name ((slot, entry_name) ∷ found) =
    if same_name entry_name name then some slot else find_name name found

-- `path.split('/').filter(|s| !s.is_empty())`.
unfoldable pub non_empty : List (List ℕ) → List (List ℕ)
non_empty [] = []
non_empty ([] ∷ ps) = non_empty ps
non_empty ((c ∷ cs) ∷ ps) = (c ∷ cs) ∷ non_empty ps

unfoldable pub parts_of : List ℕ → List (List ℕ)
unfolding split_path non_empty
parts_of path = non_empty (split_path path)

unfoldable pub root_slot : Geometry → DirSlot
root_slot geo = record {
  entry = record {
    name = b' ' ∷ replicate 10 0;
    attributes = attr_directory;
    reserved = 0;
    creation_time_tenths = 0;
    creation_time = 0;
    creation_date = 0;
    last_access_date = 0;
    first_cluster_high = geo.root_cluster / 65536 % 65536;
    write_time = 0;
    write_date = 0;
    first_cluster_low = geo.root_cluster % 65536;
    file_size = 0;
  };
  sector = 0;
  offset = 0;
}

module _ (io : DiskIo) (geo : Geometry) where
  unfoldable pub scan_sectors :
      ℕ → ℕ → List (List ℕ) → List (DirSlot × List ℕ) → Action io.Disk Scan
  unfolding read_sector scan_sector
  scan_sectors zero sector parts found = pure (going parts found)
  scan_sectors (suc n) sector parts found = do
    buf ← read_sector io sector
    resume (scan_sector 16 sector buf 0 parts found) ended (scan_sectors n (sector + 1))

  unfoldable pub scan_clusters :
      List ℕ → List (List ℕ) → List (DirSlot × List ℕ) → Action io.Disk (List (DirSlot × List ℕ))
  unfolding scan_sectors cluster_to_sector
  scan_clusters [] parts found = pure found
  scan_clusters (c ∷ cs) parts found = do
    base ← or_raise (cluster_to_sector geo c) invalid_path
    scan ← scan_sectors geo.sectors_per_cluster base parts found
    resume scan (λ all. all) (scan_clusters cs)

  unfoldable pub read_dir : ℕ → Action io.Disk (List (DirSlot × List ℕ))
  unfolding chain scan_clusters
  read_dir dir_cluster = do clusters ← chain io geo dir_cluster; scan_clusters clusters [] []

  unfoldable pub find_in_dir : ℕ → List ℕ → Action io.Disk (Option DirSlot)
  unfolding read_dir find_name
  find_in_dir dir_cluster name = do found ← read_dir dir_cluster; pure (find_name name found)

  -- The cluster of a directory that a path goes through.
  unfoldable pub enter_dir : DirSlot → Action io.Disk ℕ
  unfolding is_directory get_cluster
  enter_dir slot =
      if is_directory slot.entry then pure (get_cluster slot.entry) else raise not_a_directory

  -- The loop of `find_path` from a directory on.
  unfoldable pub find_parts : ℕ → List (List ℕ) → Action io.Disk (Option DirSlot)
  unfolding find_in_dir enter_dir
  find_parts current [] = pure none
  find_parts current (part ∷ []) = find_in_dir current part
  find_parts current (part ∷ next ∷ parts) = do
    found ← find_in_dir current part
    elim found [
      | none ↦ pure none
      | some slot ↦ enter_dir slot >>= λ inner. find_parts inner (next ∷ parts)
    ]

  unfoldable pub find_path_parts : List (List ℕ) → Action io.Disk (Option DirSlot)
  unfolding find_parts root_slot
  find_path_parts [] = pure (some (root_slot geo))
  find_path_parts (part ∷ parts) = find_parts geo.root_cluster (part ∷ parts)

  unfoldable pub find_path : List ℕ → Action io.Disk (Option DirSlot)
  unfolding parts_of find_path_parts
  find_path path = find_path_parts (parts_of path)

  -- The loop of `parent_cluster`; the last part is the name.
  unfoldable pub parent_parts : ℕ → List (List ℕ) → Action io.Disk (ℕ × List ℕ)
  unfolding find_in_dir enter_dir
  parent_parts current [] = raise invalid_path
  parent_parts current (name ∷ []) = pure (current, name)
  parent_parts current (part ∷ next ∷ parts) = do
    found ← find_in_dir current part
    elim found [
      | none ↦ raise not_found
      | some slot ↦ enter_dir slot >>= λ inner. parent_parts inner (next ∷ parts)
    ]

  unfoldable pub parent_cluster : List ℕ → Action io.Disk (ℕ × List ℕ)
  unfolding parts_of parent_parts
  parent_cluster path = parent_parts geo.root_cluster (parts_of path)

  unfoldable pub free_in_sectors : ℕ → ℕ → Action io.Disk (Option (ℕ × ℕ))
  unfolding read_sector free_offset
  free_in_sectors zero sector = pure none
  free_in_sectors (suc n) sector = do
    buf ← read_sector io sector
    elim (free_offset 16 buf 0) [
      | some offset ↦ pure (some (sector, offset))
      | none ↦ free_in_sectors n (sector + 1)
    ]

  -- The free slot, if there is one, and the last cluster.
  unfoldable pub free_in_clusters : ℕ → List ℕ → Action io.Disk (Option (ℕ × ℕ) × ℕ)
  unfolding cluster_to_sector free_in_sectors
  free_in_clusters last [] = pure (none, last)
  free_in_clusters last (c ∷ cs) = do
    base ← or_raise (cluster_to_sector geo c) invalid_path
    slot ← free_in_sectors geo.sectors_per_cluster base
    elim slot [ some at ↦ pure (some at, c) | none ↦ free_in_clusters c cs ]

  unfoldable pub zero_sectors : ℕ → ℕ → Action io.Disk (Unit {0})
  unfolding write_sector
  zero_sectors zero sector = pure tt
  zero_sectors (suc n) sector =
      write_sector io sector (replicate 512 0) >> zero_sectors n (sector + 1)

  -- A cluster of zeros, allocated behind `prev`.
  unfoldable pub fresh_cluster : Option ℕ → Action io.Disk (ℕ × ℕ)
  unfolding alloc_cluster cluster_to_sector zero_sectors
  fresh_cluster prev = do
    new ← alloc_cluster io geo prev
    base ← or_raise (cluster_to_sector geo new) invalid_path
    zero_sectors geo.sectors_per_cluster base
    pure (new, base)

  unfoldable pub find_free_slot : ℕ → Action io.Disk (ℕ × ℕ)
  unfolding chain free_in_clusters fresh_cluster
  find_free_slot dir_cluster = do
    clusters ← chain io geo dir_cluster
    (slot, last) ← free_in_clusters dir_cluster clusters
    elim slot [ some at ↦ pure at | none ↦ fresh_cluster (some last) >>= λ new. pure (new.1, 0) ]
