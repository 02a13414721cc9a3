-- ===== src/Fs.antt =====
-- The virtual file system, kernel/src/fs: vfs.rs's types and permissions here, the paths in Path,
-- ramfs.rs in Ramfs and mount.rs in Mount. A path or a name is the list of its bytes.
pub mod Names
pub mod Permission
pub mod Ramfs
pub mod Mount
pub mod Disk
pub mod Fat32
pub mod Partition
mod Checks
use vibra.Common.{
  ℕ, List, Bool, true, false, bit_and, bit_or, ◌==◌, not, if◌then◌else◌, ◌∷◌, [], ◌&&◌,
}

pub data FsError : Type 0 where
  not_found permission_denied io_error invalid_path already_exists not_empty not_a_directory :
      FsError
  is_a_directory disk_full read_only not_supported : FsError

pub data FileType : Type 0 where
  file directory symlink device : FileType

pub data Result (A : Type 0) : Type 0 where
  ok : A → Result A
  err : FsError → Result A

pub record Permissions : Type 0 where
  pub owner_read : Bool
  pub owner_write : Bool
  pub owner_exec : Bool
  pub group_read : Bool
  pub group_write : Bool
  pub group_exec : Bool
  pub other_read : Bool
  pub other_write : Bool
  pub other_exec : Bool

-- `(rwx & mask) != 0`.
abbrev pub has_bit : ℕ → ℕ → Bool
has_bit rwx mask = not (bit_and rwx mask == 0)

unfoldable pub new_permissions : ℕ → Permissions
new_permissions rwx = record {
  owner_read = has_bit rwx 0x100;
  owner_write = has_bit rwx 0x80;
  owner_exec = has_bit rwx 0x40;
  group_read = has_bit rwx 0x20;
  group_write = has_bit rwx 0x10;
  group_exec = has_bit rwx 8;
  other_read = has_bit rwx 4;
  other_write = has_bit rwx 2;
  other_exec = has_bit rwx 1;
}

-- `if flag { mode |= mask; }`.
abbrev pub add_bit : Bool → ℕ → ℕ → ℕ
add_bit flag mask mode = if flag then bit_or mode mask else mode

unfoldable pub to_octal : Permissions → ℕ
to_octal p =
    let owner =
      add_bit p.owner_exec 0x40 (add_bit p.owner_write 0x80 (add_bit p.owner_read 0x100 0)) in
    let group =
      add_bit p.group_exec 8 (add_bit p.group_write 0x10 (add_bit p.group_read 0x20 owner)) in
    add_bit p.other_exec 1 (add_bit p.other_write 2 (add_bit p.other_read 4 group))

unfoldable pub to_string : Permissions → List ℕ
to_string p =
    (if p.owner_read then b'r' else b'-')
    ∷ (if p.owner_write then b'w' else b'-')
    ∷ (if p.owner_exec then b'x' else b'-')
    ∷ (if p.group_read then b'r' else b'-')
    ∷ (if p.group_write then b'w' else b'-')
    ∷ (if p.group_exec then b'x' else b'-')
    ∷ (if p.other_read then b'r' else b'-')
    ∷ (if p.other_write then b'w' else b'-')
    ∷ (if p.other_exec then b'x' else b'-')
    ∷ []

pub record FileMetadata : Type 0 where
  pub name : List ℕ
  pub file_type : FileType
  pub size : ℕ
  pub permissions : Permissions
  pub uid : ℕ
  pub gid : ℕ
  pub created : ℕ
  pub modified : ℕ

pub record DirEntry : Type 0 where
  pub name : List ℕ
  pub file_type : FileType
  pub size : ℕ
  pub permissions : Permissions
  pub uid : ℕ
  pub gid : ℕ

-- The offsets of the last two are the 64 bits of an `i64`.
pub data SeekFrom : Type 0 where
  start current end_of : ℕ → SeekFrom
