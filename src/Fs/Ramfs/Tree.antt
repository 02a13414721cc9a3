-- ===== src/Fs/Ramfs/Tree.antt =====
-- The entries of kernel/src/fs/ramfs.rs form a tree: what every operation keeps.
use vibra.Fs.{FileType, file, directory}
use vibra.Fs.Names.{slash, normalize_path, rfind_slash, starts_with}
use vibra.Fs.Ramfs.{
  RamFs, RamFsEntry, root, new_entry, is_directory, has_name, is_directory_at, any_entry,
  find_entry, remove_entry, parent, parent_exists, create, remove, mkdir, rmdir, is_child,
}
use vibra.Common.{
  ℕ, zero, suc, ◌<◌, List, [], ◌∷◌, ◌++◌, some, Bool, true, false, ◌||◌, ◌≡◌, ◌≢◌, refl, sym, ap,
  ◌∙◌, ◌==◌, bytes_eq, bytes_eq_iff, length, take, length-take, get_elem?, AllAt, push-at, arith,
  Bool-cases, Option-cases, inl, inr, ◌⊎◌,
}

-- The root is a directory, and every other entry lies in a directory.
pub record IsTree (es : List RamFsEntry) : Type 0 where
  pub rooted : any_entry (is_directory_at root) es ≡ true
  pub housed : AllAt (λ i e. (e.name ≡ root) ⊎ (parent_exists es e.name ≡ true)) es

any_entry-push :
    (test : RamFsEntry → Bool) (es : List RamFsEntry) (e : RamFsEntry)
    → any_entry test es ≡ true
    → any_entry test (es ++ e ∷ []) ≡ true
unfolding any_entry
any_entry-push test [] e h = cc
any_entry-push test (x ∷ es) e h = ground (arith, any_entry-push test es e)

any_entry-remove :
    (test keep : RamFsEntry → Bool) (es : List RamFsEntry) (e : RamFsEntry)
    → find_entry test es ≡ some e
    → keep e ≡ false
    → any_entry keep (remove_entry test es) ≡ any_entry keep es
unfolding any_entry remove_entry find_entry
any_entry-remove test keep [] e h k = refl
any_entry-remove test keep (x ∷ es) e h k = elim (Bool-cases (test x)) [
  | inl here ↦
      let h' = rw here at h in
      let same : x ≡ e = cc in let gone : keep x ≡ false = rw same k in rw here (rw gone refl)
  | inr past ↦
      let h' = rw past at h in
      rw past (ap (λ b. keep x || b) (any_entry-remove test keep es e h' k))
]

-- An entry that is left was there before.
get_elem?-remove :
    (test : RamFsEntry → Bool) (es : List RamFsEntry) (i : ℕ) (x : RamFsEntry)
    → get_elem? (remove_entry test es) i ≡ some x
    → (j : ℕ) × (get_elem? es j ≡ some x)
unfolding remove_entry
get_elem?-remove test [] i x h = cc
get_elem?-remove test (y ∷ es) zero x h = elim (Bool-cases (test y)) [
  | inl here ↦ (1, rw here at h)
  | inr past ↦ (0, rw past at h)
]
get_elem?-remove test (y ∷ es) (suc i) x h = elim (Bool-cases (test y)) [
  | inl here ↦ (suc (suc i), rw here at h)
  | inr past ↦ let r = get_elem?-remove test es i x (rw past at h) in (suc r.0, r.1)
]

any_entry-false :
    (test : RamFsEntry → Bool) (es : List RamFsEntry) (i : ℕ) (x : RamFsEntry)
    → any_entry test es ≡ false
    → get_elem? es i ≡ some x
    → test x ≡ false
unfolding any_entry
any_entry-false test [] i x h g = cc
any_entry-false test (y ∷ es) zero x h g = let same : y ≡ x = cc in rw (← same) (ground arith)
any_entry-false test (y ∷ es) (suc i) x h g = any_entry-false test es i x (ground arith) g

find_entry-passes :
    (test : RamFsEntry → Bool) (es : List RamFsEntry) (e : RamFsEntry)
    → find_entry test es ≡ some e
    → test e ≡ true
unfolding find_entry
find_entry-passes test [] e h = cc
find_entry-passes test (x ∷ es) e h = elim (Bool-cases (test x)) [
  | inl here ↦ let h' = rw here at h in let same : x ≡ e = cc in rw (← same) here
  | inr past ↦ find_entry-passes test es e (rw past at h)
]

-- A path goes on behind its last slash.
starts_with-take :
    (path : List ℕ) (i : ℕ)
    → rfind_slash path ≡ some i
    → (starts_with path (take i path ++ slash ∷ []) ≡ true) × (i < length path)
unfolding rfind_slash starts_with
starts_with-take [] i h = cc
starts_with-take (c ∷ cs) zero h = elim (Option-cases (rfind_slash cs)) [
  | inl last ↦ let h' = rw last at h in (ground arith, omega arith)
  | inr later ↦ absurd (let h' = rw later.1 at h in cc)
]
starts_with-take (c ∷ cs) (suc i) h = elim (Option-cases (rfind_slash cs)) [
  | inl last ↦ absurd (let h' = rw last at h in ground arith)
  | inr later ↦
      let h' = rw later.1 at h in
      let same : later.0 ≡ i = cc in
      let rest = starts_with-take cs i (later.1 ∙ ap some same) in
      (ground (arith, rest.0), omega (arith, rest.1))
]

not_take : (path : List ℕ) (i : ℕ) → i < length path → bytes_eq path (take i path) ≡ false
not_take path i below = elim (Bool-cases (bytes_eq path (take i path))) [
  | inl same ↦ absurd (
      let e = ap length ((bytes_eq_iff path (take i path)).0 same) in
      omega (arith, e, length-take i path))
  | inr differs ↦ differs
]

plain-is_directory_at :
    (p : List ℕ) (e : RamFsEntry) → is_directory e.file_type ≡ false → is_directory_at p e ≡ false
unfolding is_directory_at
plain-is_directory_at p e plain = ground arith

-- An entry whose parent is `p`, other than the root, lies below `p`.
parent-is_child :
    (path p : List ℕ) (e : RamFsEntry)
    → e.name ≡ path
    → p ≢ root
    → parent path ≡ p
    → is_child p e ≡ true
unfolding parent is_child
parent-is_child path p e name other e' = elim (Option-cases (rfind_slash path)) [
  | inl none_found ↦ absurd (let h = rw (parent, none_found) at e' in other (sym h))
  | inr at ↦ elim (Bool-cases (at.0 == 0)) [
    | inl front ↦ absurd (let h = rw (parent, at.1, front) at e' in other (sym h))
    | inr inside ↦
        let h : take at.0 path ≡ p = rw (parent, at.1, inside) at e' in
        let goes_on = starts_with-take path at.0 at.1 in
        rw (name, ← h) (ground (arith, not_take path at.0 goes_on.1, goes_on.0))
  ]
]

-- The directory `p` that has no entry below it houses none.
empty-is_directory_at :
    (p : List ℕ) (es : List RamFsEntry) (e : RamFsEntry) (i : ℕ) (x : RamFsEntry)
    → p ≢ root
    → has_name p e ≡ true
    → any_entry (is_child p) es ≡ false
    → get_elem? es i ≡ some x
    → is_directory_at (parent x.name) e ≡ false
unfolding is_directory_at has_name
empty-is_directory_at p es e i x other named empty at =
    elim (Bool-cases (bytes_eq e.name (parent x.name))) [
      | inr differs ↦ rw differs refl
      | inl same ↦
          let here : parent x.name ≡ p =
            sym ((bytes_eq_iff _ _).0 same) ∙ (bytes_eq_iff e.name p).0 named in
          absurd (
            let below = parent-is_child x.name p x refl other here in
            let above = any_entry-false (is_child p) es i x empty at in cc)
    ]

-- Making an entry whose parent is there.
push-IsTree :
    (es : List RamFsEntry) (t : FileType) (p : List ℕ)
    → parent_exists es p ≡ true
    → IsTree es
    → IsTree (es ++ new_entry t p ∷ [])
unfolding parent_exists new_entry
push-IsTree es t p there h = record {
  rooted = any_entry-push _ es _ h.rooted;
  housed = λ i e g. elim (push-at es (new_entry t p) i g) [
    | inl old ↦ elim (h.housed i e old) [
      | inl is_root ↦ inl is_root
      | inr in_dir ↦ inr (any_entry-push _ es _ in_dir)
    ]
    | inr new ↦ inr (any_entry-push _ es _ (rw new.1 there))
  ];
}

-- Removing the entry `e`, which no other entry needs as its directory.
remove-IsTree :
    (es : List RamFsEntry) (p : List ℕ) (e : RamFsEntry)
    → find_entry (has_name p) es ≡ some e
    → is_directory_at root e ≡ false
    → ((i : ℕ) (x : RamFsEntry)
        → get_elem? es i ≡ some x
        → is_directory_at (parent x.name) e ≡ false ⊎ x.name ≡ root)
    → IsTree es
    → IsTree (remove_entry (has_name p) es)
unfolding parent_exists
remove-IsTree es p e found not_root unneeded h = record {
  rooted = any_entry-remove _ _ es e found not_root ∙ h.rooted;
  housed = λ i x g.
      let was = get_elem?-remove _ es i x g in
      elim (unneeded was.0 x was.1) [
        | inr is_root ↦ inl is_root
        | inl free ↦ elim (h.housed was.0 x was.1) [
          | inl is_root ↦ inl is_root
          | inr in_dir ↦ inr (any_entry-remove _ _ es e found free ∙ in_dir)
        ]
      ];
}

-- `create` keeps the tree.
pub create-IsTree :
    (path : List ℕ) (fs : RamFs) → IsTree fs.entries → IsTree (create path fs).1.entries
unfolding create
create-IsTree path fs h =
    elim (Bool-cases (any_entry (has_name (normalize_path path)) fs.entries)) [
      | inl taken ↦ rw taken h
      | inr free ↦ elim (Bool-cases (parent_exists fs.entries (normalize_path path))) [
        | inr lost ↦ rw (free, lost) h
        | inl there ↦ rw (free, there) (push-IsTree fs.entries file (normalize_path path) there h)
      ]
    ]

pub mkdir-IsTree :
    (path : List ℕ) (fs : RamFs) → IsTree fs.entries → IsTree (mkdir path fs).1.entries
unfolding mkdir
mkdir-IsTree path fs h = elim (Bool-cases (bytes_eq (normalize_path path) root)) [
  | inl is_root ↦ rw is_root h
  | inr below ↦ elim (Bool-cases (any_entry (has_name (normalize_path path)) fs.entries)) [
    | inl taken ↦ rw (below, taken) h
    | inr free ↦ elim (Bool-cases (parent_exists fs.entries (normalize_path path))) [
      | inr lost ↦ rw (below, free, lost) h
      | inl there ↦
          rw (below, free, there) (push-IsTree fs.entries directory (normalize_path path) there h)
    ]
  ]
]

pub remove-path-IsTree :
    (path : List ℕ) (fs : RamFs) → IsTree fs.entries → IsTree (remove path fs).1.entries
unfolding remove
remove-path-IsTree path fs h = elim (Bool-cases (bytes_eq (normalize_path path) root)) [
  | inl is_root ↦ rw is_root h
  | inr below ↦ elim (Option-cases (find_entry (has_name (normalize_path path)) fs.entries)) [
    | inl missing ↦ rw (below, missing) h
    | inr e ↦ elim (Bool-cases (is_directory e.0.file_type)) [
      | inl dir ↦ rw (below, e.1, dir) h
      | inr plain ↦
          rw (below, e.1, plain)
            (remove-IsTree fs.entries (normalize_path path) e.0 e.1
              (plain-is_directory_at root e.0 plain)
              (λ i x at. inl (plain-is_directory_at (parent x.name) e.0 plain)) h)
    ]
  ]
]

rmdir-empty :
    (p : List ℕ) (es : List RamFsEntry) (e : RamFsEntry)
    → bytes_eq p root ≡ false
    → find_entry (has_name p) es ≡ some e
    → any_entry (is_child p) es ≡ false
    → IsTree es
    → IsTree (remove_entry (has_name p) es)
unfolding has_name is_directory_at
rmdir-empty p es e below found empty h =
    let named : bytes_eq e.name p ≡ true = find_entry-passes (has_name p) es e found in
    let same : e.name ≡ p = (bytes_eq_iff _ _).0 named in
    let other : p ≢ root = λ is_root. (let t = (bytes_eq_iff p root).1 is_root in cc) in
    remove-IsTree es p e found (rw same (rw below refl))
      (λ i x at. inl (empty-is_directory_at p es e i x other named empty at)) h

pub rmdir-IsTree :
    (path : List ℕ) (fs : RamFs) → IsTree fs.entries → IsTree (rmdir path fs).1.entries
unfolding rmdir
rmdir-IsTree path fs h = elim (Bool-cases (bytes_eq (normalize_path path) root)) [
  | inl is_root ↦ rw is_root h
  | inr below ↦ elim (Option-cases (find_entry (has_name (normalize_path path)) fs.entries)) [
    | inl missing ↦ rw (below, missing) h
    | inr e ↦ elim (Bool-cases (is_directory e.0.file_type)) [
      | inr plain ↦ rw (below, e.1, plain) h
      | inl dir ↦ elim (Bool-cases (any_entry (is_child (normalize_path path)) fs.entries)) [
        | inl full ↦ rw (below, e.1, dir, full) h
        | inr empty ↦
            rw (below, e.1, dir, empty)
              (rmdir-empty (normalize_path path) fs.entries e.0 below e.1 empty h)
      ]
    ]
  ]
]
