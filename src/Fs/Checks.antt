-- ===== src/Fs/Checks.antt =====
-- Runs of the file systems of kernel/src/fs on small trees.
use vibra.Fs.{ok, start, file}
use vibra.Fs.Names.{normalize_path, split_path, push_part, push_parts, pop, join_parts, root_or}
use vibra.Fs.Ramfs.{RamFs, RamFsFile, mount, new_fs, mkdir, create, is_file_at, find_entry}
use vibra.Fs.Ramfs.Handle.{read, write, seek}
use vibra.Fs.Ramfs.ReadWrite.{read-write}
use vibra.Fs.Ramfs.Tree.{IsTree}
use vibra.Fs.Ramfs.Reach.{here, next, makes_dir, creates, reachable-IsTree}
use vibra.Fs.Mount.{MountPoint, find_fs, normalize_mount}
use vibra.Fs.Mount.Longest.{NoneHolds, IsDeepest, find_fs-IsDeepest}
use vibra.Common.{ℕ, List, [], ◌∷◌, none, true, false, ◌≡◌, ◌⊎◌, some, refl, arith, bytes_eq}

-- "/a"
abbrev dir_a : List ℕ
dir_a = b'/' ∷ b'a' ∷ []

-- "/a/./b"
abbrev file_b : List ℕ
file_b = b'/' ∷ b'a' ∷ b'/' ∷ b'.' ∷ b'/' ∷ b'b' ∷ []

-- "/a/./b" names "/a/b", and "/../a" names "/a".
normalize_b : normalize_path file_b ≡ b'/' ∷ b'a' ∷ b'/' ∷ b'b' ∷ []
unfolding normalize_path split_path push_parts push_part pop join_parts root_or bytes_eq
normalize_b = refl

normalize_up : normalize_path (b'/' ∷ b'.' ∷ b'.' ∷ b'/' ∷ b'a' ∷ []) ≡ dir_a
unfolding normalize_path split_path push_parts push_part pop join_parts root_or bytes_eq
normalize_up = refl

reachable-IsTree_example : IsTree (create file_b (mkdir dir_a (mount new_fs)).1).1.entries
reachable-IsTree_example =
    reachable-IsTree (create file_b (mkdir dir_a (mount new_fs)).1).1
      (next (next here (makes_dir dir_a)) (creates file_b))

abbrev one_file : RamFs
one_file = record {
  entries =
      record { name = dir_a; file_type = file; content = 1 ∷ 2 ∷ []; created = 0; modified = 0 }
      ∷ [];
  mounted = true;
}

abbrev at_one : RamFsFile
at_one = record { path = dir_a; position = 1; writable = true }

read-write_example :
    (f1 f2 f3 : RamFsFile) × (fs1 : RamFs) × (write (7 ∷ 8 ∷ 9 ∷ []) at_one one_file
      ≡ (ok 3, f1, fs1))
    × (seek (start 1) f1 fs1 ≡ (ok 1, f2))
    × (read 3 f2 fs1 ≡ (ok (7 ∷ 8 ∷ 9 ∷ []), f3))
unfolding find_entry is_file_at bytes_eq
read-write_example =
    read-write (7 ∷ 8 ∷ 9 ∷ []) at_one one_file
      (record { name = dir_a; file_type = file; content = 1 ∷ 2 ∷ []; created = 0; modified = 0 })
      refl (omega arith) refl (omega arith)

abbrev mounts : List MountPoint
mounts =
    record { path = dir_a; fs = 1; readonly = false }
    ∷ record { path = b'/' ∷ b'a' ∷ b'/' ∷ b'b' ∷ []; fs = 2; readonly = true }
    ∷ []

find_fs-IsDeepest_example :
    ((find_fs file_b mounts ≡ none) × NoneHolds (normalize_mount file_b) mounts)
    ⊎ ((idx : ℕ) × (rel : List ℕ) × (find_fs file_b mounts ≡ some (idx, rel))
        × IsDeepest (normalize_mount file_b) mounts idx rel)
find_fs-IsDeepest_example = find_fs-IsDeepest file_b mounts
