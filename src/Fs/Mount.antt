-- ===== src/Fs/Mount.antt =====
-- The mount table, kernel/src/fs/mount.rs. A file system behind its handle is its number; the table
-- never looks inside.
pub mod Longest
use vibra.Fs.{FsError, Result, ok, err, already_exists, not_found}
use vibra.Fs.Names.{slash, split_path, starts_with}
use vibra.Common.{
  ℕ, zero, suc, ◌+◌, List, [], ◌∷◌, ◌++◌, Option, none, some, Bool, true, false, ◌==◌, ◌&&◌, ◌||◌,
  bytes_eq, if◌then◌else◌, ltb, leb, length, drop, get_elem?,
}

pub record MountPoint : Type 0 where
  pub path : List ℕ
  pub fs : ℕ
  pub readonly : Bool

-- A byte string from its end: `normalized` is kept reversed, so that `push` and `pop` are at the front.
unfoldable pub pop_slashes : List ℕ → List ℕ
pop_slashes [] = []
pop_slashes (c ∷ cs) = if c == slash then pop_slashes cs else c ∷ cs

unfoldable pub pop_name : List ℕ → List ℕ
pop_name [] = []
pop_name (c ∷ cs) = if c == slash then c ∷ cs else pop_name cs

-- `push_str`, onto the reversed bytes.
unfoldable pub push_str : List ℕ → List ℕ → List ℕ
push_str [] reversed = reversed
push_str (c ∷ cs) reversed = push_str cs (c ∷ reversed)

unfoldable pub mount_part : List ℕ → List ℕ → List ℕ
unfolding pop_slashes pop_name push_str
mount_part part reversed =
    if bytes_eq part [] || bytes_eq part (b'.' ∷ [])
    then reversed
    else if bytes_eq part (b'.' ∷ b'.' ∷ [])
    then pop_name (pop_slashes reversed)
    else push_str part (slash ∷ reversed)

unfoldable pub mount_parts : List (List ℕ) → List ℕ → List ℕ
unfolding mount_part
mount_parts [] reversed = reversed
mount_parts (p ∷ ps) reversed = mount_parts ps (mount_part p reversed)

unfoldable pub or_root : List ℕ → List ℕ
or_root [] = slash ∷ []
or_root (c ∷ cs) = c ∷ cs

unfoldable pub normalize_mount : List ℕ → List ℕ
unfolding mount_parts split_path or_root push_str
normalize_mount path = or_root (push_str (mount_parts (split_path path) []) [])

unfoldable pub is_mounted_at : List ℕ → List MountPoint → Bool
is_mounted_at path [] = false
is_mounted_at path (m ∷ ms) = bytes_eq m.path path || is_mounted_at path ms

unfoldable pub is_mounted : List ℕ → List MountPoint → Bool
is_mounted path mounts = is_mounted_at (normalize_mount path) mounts

unfoldable pub mount_fs : List ℕ → ℕ → Bool → List MountPoint → Result (Unit {0}) × List MountPoint
mount_fs path fs readonly mounts =
    let p = normalize_mount path in
    if is_mounted_at p mounts
    then (err already_exists, mounts)
    else (ok tt, mounts ++ record { path = p; fs = fs; readonly = readonly } ∷ [])

-- `remove(position)`.
unfoldable pub remove_mount : List ℕ → List MountPoint → List MountPoint
remove_mount path [] = []
remove_mount path (m ∷ ms) = if bytes_eq m.path path then ms else m ∷ remove_mount path ms

unfoldable pub unmount_fs : List ℕ → List MountPoint → Result (Unit {0}) × List MountPoint
unmount_fs path mounts =
    let p = normalize_mount path in
    if is_mounted_at p mounts then (ok tt, remove_mount p mounts) else (err not_found, mounts)

-- `path.as_bytes().get(n) == Some(&b'/')`.
unfoldable pub slash_at : ℕ → List ℕ → Bool
slash_at n path = elim (get_elem? path n) [ none ↦ false | some c ↦ c == slash ]

-- Whether a mount point is the path or one of its ancestors.
unfoldable pub mount_matches : List ℕ → MountPoint → Bool
unfolding slash_at
mount_matches path m =
    bytes_eq path m.path || (starts_with path m.path && slash_at (length m.path) path)

-- The loop of `find_fs`: the best match so far and its length.
unfoldable pub find_best :
    List ℕ → ℕ → List MountPoint → Option (ℕ × List ℕ) → ℕ → Option (ℕ × List ℕ)
find_best path idx [] best best_len = best
find_best path idx (m ∷ ms) best best_len =
    let rest = find_best path (idx + 1) ms in
    if mount_matches path m && ltb best_len (length m.path)
    then rest (some (idx, drop (length m.path) path)) (length m.path)
    else rest best best_len

-- The place in the table, and the path inside that file system.
unfoldable pub find_fs : List ℕ → List MountPoint → Option (ℕ × List ℕ)
unfolding find_best
find_fs path mounts = find_best (normalize_mount path) 0 mounts none 0
