-- ===== src/Fs/Fat32/Volume.antt =====
-- `Fat32Fs` of kernel/src/fs/fat32.rs: the operations of a mounted volume. `now` is the date and the time of
-- `dos_now`.
pub mod Handle
pub mod Session
pub mod Guard
mod Checks
use vibra.Common.{
  ℕ, zero, suc, ◌+◌, ◌-◌, ◌*◌, ◌/◌, ◌%◌, ◌^◌, min, max, List, [], ◌∷◌, ◌++◌, Option, none, some,
  Bool, true, false, ltb, leb, ◌==◌, not, ◌&&◌, ◌||◌, if◌then◌else◌, length, take, bytes_eq, bit_or,
  replicate,
}
use vibra.Fs.{
  Result, ok, err, FileType, directory, file, DirEntry, FileMetadata, new_permissions, invalid_path,
  not_found, not_a_directory, is_a_directory, not_supported, already_exists, not_empty,
  permission_denied, read_only,
}
use vibra.Fs.Names.{slash}
use vibra.Fs.Disk.{
  Bytes, DiskIo, Action, pure, raise, or_raise, read_sector, write_sector, ◌>>=◌, ◌>>◌,
}
use vibra.Fs.Fat32.{Geometry, copy_to, chain, free_chain, alloc_cluster, read_chain}
use vibra.Fs.Fat32.Write.{write_range}
use vibra.Fs.Fat32.Boot.{Fat32Fs}
use vibra.Fs.Fat32.Dir.{
  FatDirEntry, DirSlot, entry_at, entry_bytes, is_directory, is_file, get_cluster, set_cluster,
  to_83, attr_directory,
}
use vibra.Fs.Fat32.Dir.Find.{
  read_dir, find_in_dir, find_path, parent_cluster, find_free_slot, fresh_cluster, parts_of,
}

-- The clock chip's reading.
pub record Rtc : Type 0 where
  pub year : ℕ
  pub month : ℕ
  pub day : ℕ
  pub hour : ℕ
  pub minute : ℕ
  pub second : ℕ

-- The date and the time, each 16 bits.
unfoldable pub dos_now : Option Rtc → ℕ × ℕ
dos_now none = (0, 0)
dos_now (some rtc) =
    let year = min (max rtc.year 1980) 2107 - 1980 in
    (
      bit_or (bit_or (year * 512) (rtc.month * 32)) rtc.day,
      bit_or (bit_or (rtc.hour * 2048 % 65536) (rtc.minute * 32)) (rtc.second / 2),
    )

-- An entry of a file or a directory that begins at a cluster.
unfoldable pub new_entry : Bytes → ℕ → ℕ × ℕ → ℕ → FatDirEntry
new_entry name attributes (date, time) cluster = record {
  name = name;
  attributes = attributes;
  reserved = 0;
  creation_time_tenths = 0;
  creation_time = time;
  creation_date = date;
  last_access_date = date;
  first_cluster_high = cluster / 65536 % 65536;
  write_time = time;
  write_date = date;
  first_cluster_low = cluster % 65536;
  file_size = 0;
}

-- `set_entry` on the entry read.
unfoldable pub updated : FatDirEntry → ℕ → ℕ → ℕ × ℕ → FatDirEntry
unfolding set_cluster
updated e cluster size (date, time) = record (set_cluster e cluster) {
  file_size = size;
  write_date = date;
  write_time = time;
}

pub record Fat32File : Type 0 where
  pub geo : Geometry
  pub slot : DirSlot
  pub start_cluster : ℕ
  pub size : ℕ
  pub position : ℕ
  pub content : Bytes
  pub read_only : Bool

unfoldable pub is_dot_name : List ℕ → Bool
is_dot_name name = bytes_eq name (b'.' ∷ []) || bytes_eq name (b'.' ∷ b'.' ∷ []) || bytes_eq name []

unfoldable pub type_of : FatDirEntry → FileType
unfolding is_directory
type_of e = if is_directory e then directory else file

unfoldable pub mode_of : FatDirEntry → ℕ
unfolding is_directory
mode_of e = if is_directory e then 0x1ed else 0x1a4

-- The rows of `readdir`.
unfoldable pub listing : List (DirSlot × List ℕ) → List DirEntry
unfolding is_dot_name type_of mode_of
listing [] = []
listing ((slot, name) ∷ found) =
    if is_dot_name name
    then listing found
    else record {
      name = name;
      file_type = type_of slot.entry;
      size = slot.entry.file_size;
      permissions = new_permissions (mode_of slot.entry);
      uid = 0;
      gid = 0;
    }
      ∷ listing found

unfoldable pub holds_only_dots : List (DirSlot × List ℕ) → Bool
unfolding is_dot_name
holds_only_dots [] = true
holds_only_dots ((slot, name) ∷ found) = is_dot_name name && holds_only_dots found

-- `path.rsplit('/').find(|s| !s.is_empty()).unwrap_or("/")`.
unfoldable pub last_part : List (List ℕ) → List ℕ
last_part [] = slash ∷ []
last_part (p ∷ []) = p
last_part (p ∷ q ∷ ps) = last_part (q ∷ ps)

unfoldable pub is_root_path : List ℕ → Bool
is_root_path path = bytes_eq path (slash ∷ []) || bytes_eq path []

unfoldable pub mount : Fat32Fs → Fat32Fs
mount fs = record fs { mounted = true }

unfoldable pub unmount : Fat32Fs → Fat32Fs
unmount fs = record fs { mounted = false }

module _ (io : DiskIo) where
  abbrev pub found_or : Option DirSlot → Action io.Disk DirSlot
  found_or slot = or_raise slot not_found

  -- A sector with `bytes` put in at an offset.
  unfoldable pub patch_sector : ℕ → ℕ → Bytes → Action io.Disk (Unit {0})
  unfolding read_sector write_sector copy_to
  patch_sector sector offset bytes = do
    buf ← read_sector io sector
    write_sector io sector (copy_to offset bytes buf)

  unfoldable pub set_entry : ℕ × ℕ → DirSlot → ℕ → ℕ → Action io.Disk (Unit {0})
  unfolding read_sector write_sector entry_at entry_bytes updated copy_to
  set_entry now slot cluster size = do
    buf ← read_sector io slot.sector
    write_sector io slot.sector (
        copy_to slot.offset (entry_bytes (updated (entry_at buf slot.offset) cluster size now)) buf)

module _ (io : DiskIo) (fs : Fat32Fs) where
  abbrev pub writing : {A : Type 0} → Action io.Disk A → Action io.Disk A
  writing m = if fs.read_only then raise read_only else m

  -- `Ok(None)` is `none`.
  unfoldable pub lookup : List ℕ → Action io.Disk (Option (ℕ × ℕ × DirSlot))
  unfolding find_path is_file get_cluster
  lookup path = do
    found ← find_path io fs.geo path
    elim found [
      | none ↦ pure none
      | some slot ↦
          if is_file slot.entry
          then pure (some (get_cluster slot.entry, slot.entry.file_size, slot))
          else raise is_a_directory
    ]

  unfoldable pub write_at : ℕ → ℕ → Bytes → Action io.Disk (ℕ × ℕ)
  unfolding write_range
  write_at start offset bytes = writing (write_range io fs.geo start offset bytes)

  unfoldable pub publish_size : ℕ × ℕ → DirSlot → ℕ → ℕ → Action io.Disk (Unit {0})
  unfolding set_entry
  publish_size now slot start size = writing (set_entry io now slot start size)

  unfoldable pub truncate : ℕ × ℕ → List ℕ → Action io.Disk (Unit {0})
  unfolding find_path is_file free_chain get_cluster set_entry
  truncate now path = writing (do
    found ← find_path io fs.geo path
    slot ← found_or io found
    if not (is_file slot.entry)
        then raise is_a_directory
        else (do free_chain io fs.geo (get_cluster slot.entry); set_entry io now slot 0 0))

  unfoldable pub open_file : List ℕ → Action io.Disk Fat32File
  unfolding find_path is_directory is_file get_cluster read_chain
  open_file path = do
    found ← find_path io fs.geo path
    slot ← found_or io found
    if is_directory slot.entry
        then raise is_a_directory
        else if not (is_file slot.entry)
        then raise not_found
        else (do
          content ← read_chain io fs.geo (get_cluster slot.entry)
          pure (record {
            geo = fs.geo;
            slot = slot;
            start_cluster = get_cluster slot.entry;
            size = slot.entry.file_size;
            position = 0;
            content = take slot.entry.file_size content;
            read_only = fs.read_only;
          }))

  -- The slot of a file that `create` empties or makes.
  unfoldable pub create_slot : ℕ × ℕ → ℕ → Bytes → Option DirSlot → Action io.Disk DirSlot
  unfolding is_directory free_chain get_cluster set_entry find_free_slot new_entry entry_bytes
      patch_sector
  create_slot now dir_cluster name83 (some slot) =
      if is_directory slot.entry
      then raise is_a_directory
      else (do free_chain io fs.geo (get_cluster slot.entry); set_entry io now slot 0 0; pure slot)
  create_slot now dir_cluster name83 none = do
    (sector, offset) ← find_free_slot io fs.geo dir_cluster
    patch_sector io sector offset (entry_bytes (new_entry name83 0x20 now 0))
    pure (record { entry = new_entry name83 0x20 now 0; sector = sector; offset = offset })

  unfoldable pub create : ℕ × ℕ → List ℕ → Action io.Disk Fat32File
  unfolding parent_cluster to_83 find_in_dir create_slot
  create now path = writing (do
    (dir_cluster, name) ← parent_cluster io fs.geo path
    name83 ← or_raise (to_83 name) not_supported
    found ← find_in_dir io fs.geo dir_cluster name
    slot ← create_slot now dir_cluster name83 found
    pure (record {
      geo = fs.geo;
      slot = slot;
      start_cluster = 0;
      size = 0;
      position = 0;
      content = [];
      read_only = false;
    }))

  -- The chain is freed, and the name begins with the mark of a removed entry.
  unfoldable pub erase : DirSlot → Action io.Disk (Unit {0})
  unfolding free_chain get_cluster patch_sector
  erase slot = do
    free_chain io fs.geo (get_cluster slot.entry)
    patch_sector io slot.sector slot.offset (0xe5 ∷ [])

  unfoldable pub remove : List ℕ → Action io.Disk (Unit {0})
  unfolding find_path is_directory erase
  remove path = writing (do
    found ← find_path io fs.geo path
    slot ← found_or io found
    if is_directory slot.entry then raise is_a_directory else erase slot)

  -- The first sector of a directory: itself and its parent, in the root the cluster 0.
  unfoldable pub dot_sector : ℕ × ℕ → ℕ → ℕ → Bytes
  unfolding entry_bytes new_entry copy_to
  dot_sector now cluster parent =
      let up : ℕ = (if parent == fs.geo.root_cluster then 0 else parent) in
      copy_to 32 (entry_bytes (new_entry (b'.' ∷ b'.' ∷ replicate 9 b' ') attr_directory now up)) (
        copy_to 0 (entry_bytes (new_entry (b'.' ∷ replicate 10 b' ') attr_directory now cluster))
          (replicate 512 0))

  unfoldable pub mkdir : ℕ × ℕ → List ℕ → Action io.Disk (Unit {0})
  unfolding parent_cluster to_83 find_in_dir fresh_cluster dot_sector find_free_slot patch_sector
      entry_bytes new_entry write_sector
  mkdir now path = writing (do
    (dir_cluster, name) ← parent_cluster io fs.geo path
    name83 ← or_raise (to_83 name) not_supported
    found ← find_in_dir io fs.geo dir_cluster name
    elim found [
      | some slot ↦ raise already_exists
      | none ↦ do
        (new, base) ← fresh_cluster io fs.geo none
        write_sector io base (dot_sector now new dir_cluster)
        (sector, offset) ← find_free_slot io fs.geo dir_cluster
        patch_sector io sector offset (entry_bytes (new_entry name83 attr_directory now new))
    ])

  unfoldable pub rmdir : List ℕ → Action io.Disk (Unit {0})
  unfolding find_path is_directory get_cluster read_dir holds_only_dots erase
  rmdir path = writing (do
    found ← find_path io fs.geo path
    slot ← found_or io found
    if not (is_directory slot.entry)
        then raise not_a_directory
        else if get_cluster slot.entry == fs.geo.root_cluster || ltb (get_cluster slot.entry) 2
        then raise permission_denied
        else (do
          rows ← read_dir io fs.geo (get_cluster slot.entry)
          if holds_only_dots rows then erase slot else raise not_empty))

  unfoldable pub readdir : List ℕ → Action io.Disk (List DirEntry)
  unfolding find_path is_root_path is_directory get_cluster read_dir listing
  readdir path = do
    found ← find_path io fs.geo path
    slot ← found_or io found
    if not (is_root_path path) && not (is_directory slot.entry) then raise not_a_directory else (do
      rows ←
          read_dir io fs.geo
            (if is_root_path path then fs.geo.root_cluster else get_cluster slot.entry)
      pure (listing rows))

  -- An error of the disk counts as a missing file.
  unfoldable pub exists : List ℕ → Action io.Disk Bool
  unfolding find_path
  exists path d =
      let (r, d') = find_path io fs.geo path d in
      elim r [
        | err e ↦ (ok false, d')
        | ok found ↦ elim found [ none ↦ (ok false, d') | some slot ↦ (ok true, d') ]
      ]

  unfoldable pub stat : List ℕ → Action io.Disk FileMetadata
  unfolding find_path type_of mode_of last_part parts_of
  stat path = do
    found ← find_path io fs.geo path
    slot ← found_or io found
    pure (record {
      name = last_part (parts_of path);
      file_type = type_of slot.entry;
      size = slot.entry.file_size;
      permissions = new_permissions (mode_of slot.entry);
      uid = 0;
      gid = 0;
      created = 0;
      modified = 0;
    })
