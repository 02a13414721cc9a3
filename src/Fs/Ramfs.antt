-- ===== src/Fs/Ramfs.antt =====
-- The file system in memory, kernel/src/fs/ramfs.rs. Every operation holds the lock from end to end, so
-- it is a function of `RamFs`, the state behind the `Arc`; an open file is its path and position.
pub mod Handle
pub mod ReadWrite
pub mod Tree
pub mod Reach
use vibra.Fs.{
  FsError, FileType, Result, Permissions, new_permissions, FileMetadata, DirEntry, SeekFrom, ok,
  err, file, directory, not_found, permission_denied, already_exists, is_a_directory,
  not_a_directory, not_empty, read_only, invalid_path, start, current, end_of,
}
use vibra.Fs.Names.{slash, normalize_path, rfind_slash, starts_with, contains_slash}
use vibra.Common.{
  ℕ, zero, suc, ◌+◌, ◌-◌, ◌%◌, ◌^◌, List, [], ◌∷◌, ◌++◌, Option, none, some, Bool, true, false, not,
  ◌&&◌, ◌||◌, if◌then◌else◌, ltb, leb, ◌==◌, length, take, drop, slice, replicate, min, bytes_eq,
  u64_mod,
}

pub record RamFsEntry : Type 0 where
  pub name : List ℕ
  pub file_type : FileType
  pub content : List ℕ
  pub created : ℕ
  pub modified : ℕ

pub record RamFs : Type 0 where
  pub entries : List RamFsEntry
  pub mounted : Bool

pub record RamFsFile : Type 0 where
  pub path : List ℕ
  pub position : ℕ
  pub writable : Bool

abbrev pub root : List ℕ
root = slash ∷ []

unfoldable pub new_entry : FileType → List ℕ → RamFsEntry
new_entry file_type name = record {
  name = name;
  file_type = file_type;
  content = [];
  created = 0;
  modified = 0;
}

unfoldable pub new_fs : RamFs
new_fs = record { entries = []; mounted = false }

abbrev pub is_directory : FileType → Bool
is_directory directory = true
is_directory _ = false

abbrev pub is_file : FileType → Bool
is_file file = true
is_file _ = false

unfoldable pub has_name : List ℕ → RamFsEntry → Bool
has_name path e = bytes_eq e.name path

unfoldable pub is_file_at : List ℕ → RamFsEntry → Bool
is_file_at path e = bytes_eq e.name path && is_file e.file_type

unfoldable pub is_directory_at : List ℕ → RamFsEntry → Bool
is_directory_at path e = bytes_eq e.name path && is_directory e.file_type

-- `iter().any`, `iter().find`, `remove(position)` and a write through `iter_mut().find`.
unfoldable pub any_entry : (RamFsEntry → Bool) → List RamFsEntry → Bool
any_entry test [] = false
any_entry test (e ∷ es) = test e || any_entry test es

unfoldable pub find_entry : (RamFsEntry → Bool) → List RamFsEntry → Option RamFsEntry
find_entry test [] = none
find_entry test (e ∷ es) = if test e then some e else find_entry test es

unfoldable pub remove_entry : (RamFsEntry → Bool) → List RamFsEntry → List RamFsEntry
remove_entry test [] = []
remove_entry test (e ∷ es) = if test e then es else e ∷ remove_entry test es

unfoldable pub write_entry : (RamFsEntry → Bool) → List ℕ → List RamFsEntry → List RamFsEntry
write_entry test bytes [] = []
write_entry test bytes (e ∷ es) =
    if test e then record e { content = bytes } ∷ es else e ∷ write_entry test bytes es

unfoldable pub parent : List ℕ → List ℕ
parent path = elim (rfind_slash path) [
  | none ↦ root
  | some i ↦ if i == 0 then root else take i path
]

unfoldable pub parent_exists : List RamFsEntry → List ℕ → Bool
unfolding parent
parent_exists entries path = any_entry (is_directory_at (parent path)) entries

unfoldable pub write_data : List ℕ → List ℕ → RamFs → Result (Unit {0}) × RamFs
write_data path bytes fs =
    let p = normalize_path path in
    if any_entry (is_file_at p) fs.entries
    then (ok tt, record fs { entries = write_entry (is_file_at p) bytes fs.entries })
    else (err not_found, fs)

unfoldable pub read_data : List ℕ → RamFs → Result (List ℕ)
read_data path fs = elim (find_entry (is_file_at (normalize_path path)) fs.entries) [
  | none ↦ err not_found
  | some e ↦ ok e.content
]

unfoldable pub mount : RamFs → RamFs
mount fs =
    if any_entry (has_name root) fs.entries
    then record fs { mounted = true }
    else record fs { mounted = true; entries = fs.entries ++ new_entry directory root ∷ [] }

unfoldable pub unmount : RamFs → RamFs
unmount fs = record fs { mounted = false }

abbrev pub opened : List ℕ → RamFsFile
opened path = record { path = path; position = 0; writable = true }

unfoldable pub open_file : List ℕ → RamFs → Result RamFsFile
open_file path fs =
    let p = normalize_path path in
    if any_entry (is_file_at p) fs.entries then ok (opened p) else err not_found

unfoldable pub create : List ℕ → RamFs → Result RamFsFile × RamFs
create path fs =
    let p = normalize_path path in
    if any_entry (has_name p) fs.entries
    then (err already_exists, fs)
    else if not (parent_exists fs.entries p)
    then (err not_found, fs)
    else (ok (opened p), record fs { entries = fs.entries ++ new_entry file p ∷ [] })

unfoldable pub remove : List ℕ → RamFs → Result (Unit {0}) × RamFs
remove path fs =
    let p = normalize_path path in
    if bytes_eq p root
    then (err permission_denied, fs)
    else elim (find_entry (has_name p) fs.entries) [
      | none ↦ (err not_found, fs)
      | some e ↦
          if is_directory e.file_type
          then (err is_a_directory, fs)
          else (ok tt, record fs { entries = remove_entry (has_name p) fs.entries })
    ]

unfoldable pub mkdir : List ℕ → RamFs → Result (Unit {0}) × RamFs
mkdir path fs =
    let p = normalize_path path in
    if bytes_eq p root
    then (err already_exists, fs)
    else if any_entry (has_name p) fs.entries
    then (err already_exists, fs)
    else if not (parent_exists fs.entries p)
    then (err not_found, fs)
    else (ok tt, record fs { entries = fs.entries ++ new_entry directory p ∷ [] })

-- An entry below the directory `path`, at any depth.
unfoldable pub is_child : List ℕ → RamFsEntry → Bool
is_child path e = not (bytes_eq e.name path) && starts_with e.name (path ++ slash ∷ [])

unfoldable pub rmdir : List ℕ → RamFs → Result (Unit {0}) × RamFs
rmdir path fs =
    let p = normalize_path path in
    if bytes_eq p root
    then (err permission_denied, fs)
    else elim (find_entry (has_name p) fs.entries) [
      | none ↦ (err not_found, fs)
      | some e ↦
          if not (is_directory e.file_type)
          then (err not_a_directory, fs)
          else if any_entry (is_child p) fs.entries
          then (err not_empty, fs)
          else (ok tt, record fs { entries = remove_entry (has_name p) fs.entries })
    ]

abbrev pub mode_of : FileType → ℕ
mode_of t = if is_directory t then 0x1ed else 0x1a4

-- The loop of `readdir`: entries below the prefix whose name has no further slash.
unfoldable pub list_children : List ℕ → List ℕ → List RamFsEntry → List DirEntry
list_children path prefix [] = []
list_children path prefix (e ∷ es) =
    let relative = drop (length prefix) e.name in
    let rest = list_children path prefix es in
    if bytes_eq e.name path || not (starts_with e.name prefix)
    then rest
    else if bytes_eq relative [] || contains_slash relative
    then rest
    else record {
      name = relative;
      file_type = e.file_type;
      size = length e.content;
      permissions = new_permissions (mode_of e.file_type);
      uid = 0;
      gid = 0;
    }
      ∷ rest

unfoldable pub readdir : List ℕ → RamFs → Result (List DirEntry)
readdir path fs =
    let p = normalize_path path in
    if any_entry (has_name p) fs.entries
    then ok (list_children p (if bytes_eq p root then root else p ++ slash ∷ []) fs.entries)
    else err not_found

unfoldable pub exists : List ℕ → RamFs → Bool
exists path fs = any_entry (has_name (normalize_path path)) fs.entries

unfoldable pub stat : List ℕ → RamFs → Result FileMetadata
stat path fs = elim (find_entry (has_name (normalize_path path)) fs.entries) [
  | none ↦ err not_found
  | some e ↦ ok (record {
    name = e.name;
    file_type = e.file_type;
    size = length e.content;
    permissions = new_permissions (mode_of e.file_type);
    uid = 0;
    gid = 0;
    created = e.created;
    modified = e.modified;
  })
]
