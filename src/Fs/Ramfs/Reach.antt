-- ===== src/Fs/Ramfs/Reach.antt =====
-- Every state of the file system in memory of kernel/src/fs/ramfs.rs that calls can lead to.
use vibra.Fs.{directory}
use vibra.Fs.Ramfs.{
  RamFs, RamFsFile, RamFsEntry, root, new_entry, new_fs, has_name, is_file_at, is_directory_at,
  any_entry, find_entry, write_entry, parent, parent_exists, create, remove, mkdir, rmdir, mount,
  unmount, write_data,
}
use vibra.Fs.Names.{normalize_path}
use vibra.Fs.Ramfs.Handle.{write}
use vibra.Fs.Ramfs.Tree.{IsTree, create-IsTree, mkdir-IsTree, remove-path-IsTree, rmdir-IsTree}
use vibra.Common.{
  ℕ, zero, suc, List, [], ◌∷◌, some, Bool, true, ◌||◌, ◌≡◌, refl, sym, ap, ◌∙◌, bytes_eq, get_elem?,
  AllAt, Bool-cases, Option-cases, inl, inr, ◌⊎◌,
}

-- A write changes no name and no type.
any_entry-write :
    (test : RamFsEntry → Bool) (q bytes : List ℕ) (es : List RamFsEntry)
    → any_entry (is_directory_at q) (write_entry test bytes es) ≡ any_entry (is_directory_at q) es
unfolding any_entry write_entry is_directory_at
any_entry-write test q bytes [] = refl
any_entry-write test q bytes (x ∷ es) = elim (Bool-cases (test x)) [
  | inl here ↦ rw here refl
  | inr past ↦ rw past (ap (λ b. is_directory_at q x || b) (any_entry-write test q bytes es))
]

get_elem?-write :
    (test : RamFsEntry → Bool) (bytes : List ℕ) (es : List RamFsEntry) (i : ℕ) (x : RamFsEntry)
    → get_elem? (write_entry test bytes es) i ≡ some x
    → (y : RamFsEntry) × (get_elem? es i ≡ some y) × (y.name ≡ x.name)
unfolding write_entry
get_elem?-write test bytes [] i x h = cc
get_elem?-write test bytes (y ∷ es) zero x h = elim (Bool-cases (test y)) [
  | inl here ↦
      let h' = rw here at h in
      let same : record y { content = bytes } ≡ x = cc in (y, refl, ap (λ r. r.name) same)
  | inr past ↦ let h' = rw past at h in let same : y ≡ x = cc in (y, refl, ap (λ r. r.name) same)
]
get_elem?-write test bytes (y ∷ es) (suc i) x h = elim (Bool-cases (test y)) [
  | inl here ↦ (x, rw here at h, refl)
  | inr past ↦ get_elem?-write test bytes es i x (rw past at h)
]

write-IsTree :
    (test : RamFsEntry → Bool) (bytes : List ℕ) (es : List RamFsEntry)
    → IsTree es
    → IsTree (write_entry test bytes es)
unfolding parent_exists
write-IsTree test bytes es h = record {
  rooted = any_entry-write test root bytes es ∙ h.rooted;
  housed = λ i x g.
      let was = get_elem?-write test bytes es i x g in
      elim (h.housed i was.0 was.1) [
        | inl is_root ↦ inl (rw (← was.2) is_root)
        | inr in_dir ↦ inr (any_entry-write test (parent x.name) bytes es ∙ rw was.2 at in_dir)
      ];
}

-- One call on the file system; a handle is any path with any position.
pub data Step (fs : RamFs) : RamFs → Type 0 where
  creates : (path : List ℕ) → Step fs (create path fs).1
  makes_dir : (path : List ℕ) → Step fs (mkdir path fs).1
  removes : (path : List ℕ) → Step fs (remove path fs).1
  removes_dir : (path : List ℕ) → Step fs (rmdir path fs).1
  sets_data : (path bytes : List ℕ) → Step fs (write_data path bytes fs).1
  writes : (buf : List ℕ) (f : RamFsFile) → Step fs (write buf f fs).2
  unmounts : Step fs (unmount fs)

pub data Reach (fs : RamFs) : RamFs → Type 0 where
  here : Reach fs fs
  next : {g h : RamFs} → Reach fs g → Step g h → Reach fs h

write_data-IsTree :
    (path bytes : List ℕ) (fs : RamFs)
    → IsTree fs.entries
    → IsTree (write_data path bytes fs).1.entries
unfolding write_data
write_data-IsTree path bytes fs h =
    elim (Bool-cases (any_entry (is_file_at (normalize_path path)) fs.entries)) [
      | inl there ↦ rw there (write-IsTree _ bytes fs.entries h)
      | inr missing ↦ rw missing h
    ]

write_handle-IsTree :
    (buf : List ℕ) (f : RamFsFile) (fs : RamFs)
    → IsTree fs.entries
    → IsTree (write buf f fs).2.entries
unfolding write
write_handle-IsTree buf f fs h = elim (Bool-cases f.writable) [
  | inr closed ↦ simp closed h
  | inl open_one ↦ elim (Option-cases (find_entry (is_file_at f.path) fs.entries)) [
    | inl missing ↦ simp (open_one, missing) h
    | inr e ↦ simp (open_one, e.1) (write-IsTree _ _ fs.entries h)
  ]
]

Step-IsTree : {g h : RamFs} → Step g h → IsTree g.entries → IsTree h.entries
unfolding unmount
Step-IsTree {g} (creates path) t = create-IsTree path g t
Step-IsTree {g} (makes_dir path) t = mkdir-IsTree path g t
Step-IsTree {g} (removes path) t = remove-path-IsTree path g t
Step-IsTree {g} (removes_dir path) t = rmdir-IsTree path g t
Step-IsTree {g} (sets_data path bytes) t = write_data-IsTree path bytes g t
Step-IsTree {g} (writes buf f) t = write_handle-IsTree buf f g t
Step-IsTree {g} unmounts t = t

Reach-IsTree : {g h : RamFs} → Reach g h → IsTree g.entries → IsTree h.entries
Reach-IsTree here t = t
Reach-IsTree (next r s) t = Step-IsTree s (Reach-IsTree r t)

root-housed :
    AllAt
      (λ i e. (e.name ≡ root) ⊎ (parent_exists (new_entry directory root ∷ []) e.name ≡ true))
      (new_entry directory root ∷ [])
unfolding new_entry
root-housed zero e h =
    let same : new_entry directory root ≡ e = cc in inl (ap (λ r. r.name) (sym same))
root-housed (suc i) e h = cc

mounted-IsTree : IsTree (mount new_fs).entries
unfolding mount new_fs any_entry is_directory_at has_name bytes_eq new_entry
mounted-IsTree = record { rooted = refl; housed = root-housed }

-- From the mounted empty file system in memory, whatever calls of `create`, `mkdir`, `remove`,
-- `rmdir`, `write_data`, `unmount` and of `write` through a handle follow, in every order and on
-- every path, also failing ones: the root is a directory and every other entry lies in a
-- directory that exists.
pub reachable-IsTree : (fs : RamFs) → Reach (mount new_fs) fs → IsTree fs.entries
reachable-IsTree fs r = Reach-IsTree r mounted-IsTree
