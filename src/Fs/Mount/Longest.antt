-- ===== src/Fs/Mount/Longest.antt =====
-- Which mount point `find_fs` of kernel/src/fs/mount.rs picks.
use vibra.Fs.Names.{slash, starts_with}
use vibra.Fs.Mount.{MountPoint, slash_at, mount_matches, find_best, find_fs, normalize_mount}
use vibra.Common.{
  ℕ, zero, suc, ◌+◌, ◌≤◌, ◌<◌, List, [], ◌∷◌, Option, none, some, true, ◌&&◌, ◌≡◌, refl, sym, ap,
  ap₂, ◌∙◌, ◌++◌, bytes_eq, bytes_eq_iff, ltb, length, drop, get_elem?, AllAt, arith, Bool-cases,
  inl, inr, ◌⊎◌,
}

-- A path in the tree that hangs at `at`: that place itself, or what follows it from a slash on.
abbrev pub IsUnder : List ℕ → List ℕ → List ℕ → Type 0
IsUnder at rel path = (path ≡ at ++ rel) × ((rel ≡ []) ⊎ ((more : List ℕ) × (rel ≡ slash ∷ more)))

prefix-IsUnder :
    (xs at : List ℕ)
    → starts_with xs at ≡ true
    → slash_at (length at) xs ≡ true
    → IsUnder at (drop (length at) xs) xs
unfolding starts_with slash_at
prefix-IsUnder [] [] h k = absurd (cc)
prefix-IsUnder (x ∷ xs) [] h k =
    let e : x ≡ slash = ground arith in (refl, inr (xs, ap (λ c. c ∷ xs) e))
prefix-IsUnder [] (y ∷ ys) h k = absurd (cc)
prefix-IsUnder (x ∷ xs) (y ∷ ys) h k =
    let e : x ≡ y = ground arith in
    let rest = prefix-IsUnder xs ys (ground arith) (ground arith) in
    (ap₂ (λ c cs. c ∷ cs) e rest.0, rest.1)

drop_all : (xs : List ℕ) → drop (length xs) xs ≡ []
drop_all [] = refl
drop_all (x ∷ xs) = drop_all xs

append_nil : (xs : List ℕ) → xs ++ [] ≡ xs
append_nil [] = refl
append_nil (x ∷ xs) = ap (λ ys. x ∷ ys) (append_nil xs)

starts_with-append : (at rel : List ℕ) → starts_with (at ++ rel) at ≡ true
unfolding starts_with
starts_with-append [] rel = ground arith
starts_with-append (y ∷ ys) rel = ground (arith, starts_with-append ys rel)

slash_at-append : (at more : List ℕ) → slash_at (length at) (at ++ slash ∷ more) ≡ true
unfolding slash_at
slash_at-append [] more = refl
slash_at-append (y ∷ ys) more = slash_at-append ys more

-- What the two tests of the loop say of a path.
mount_matches-IsUnder :
    (path : List ℕ) (m : MountPoint)
    → mount_matches path m ≡ true
    → IsUnder m.path (drop (length m.path) path) path
unfolding mount_matches
mount_matches-IsUnder path m h = elim (Bool-cases (bytes_eq path m.path)) [
  | inl same ↦
      let e : path ≡ m.path = (bytes_eq_iff path m.path).0 same in
      rw e (rw (drop_all m.path) (sym (append_nil m.path), inl refl))
  | inr other ↦ prefix-IsUnder path m.path (ground arith) (ground arith)
]

IsUnder-mount_matches :
    (path rel : List ℕ) (m : MountPoint) → IsUnder m.path rel path → mount_matches path m ≡ true
unfolding mount_matches
IsUnder-mount_matches path rel m (e, inl none_left) =
    let same : path ≡ m.path = e ∙ ap (λ r. m.path ++ r) none_left ∙ append_nil m.path in
    let it = (bytes_eq_iff path m.path).1 same in ground arith
IsUnder-mount_matches path rel m (e, inr (more, below)) =
    let split : path ≡ m.path ++ slash ∷ more = e ∙ ap (λ r. m.path ++ r) below in
    let front = starts_with-append m.path (slash ∷ more) in
    let next = slash_at-append m.path more in rw split (ground (arith, front, next))

-- No mount point that matches has a path longer than `n`.
abbrev NoneBeyond : List ℕ → List MountPoint → ℕ → Type 0
NoneBeyond path mounts n = AllAt (λ i m. mount_matches path m ≡ true → length m.path ≤ n) mounts

-- The place `idx` of the table, and the rest of the path behind it.
record IsLongest (path : List ℕ) (mounts : List MountPoint) (from idx : ℕ) (rel : List ℕ)
    (least : ℕ) : Type 0 where
  pub place : ℕ
  pub point : MountPoint
  pub at : idx ≡ from + place
  pub there : get_elem? mounts place ≡ some point
  pub matches : mount_matches path point ≡ true
  pub behind : rel ≡ drop (length point.path) path
  pub long : least < length point.path
  pub longest : NoneBeyond path mounts (length point.path)

-- What a search from a best match so far gives.
abbrev Picks : List ℕ → List MountPoint → ℕ → Option (ℕ × List ℕ) → ℕ → Option (ℕ × List ℕ) → Type 0
Picks path mounts from best n r =
    ((r ≡ best) × NoneBeyond path mounts n)
    ⊎ ((idx : ℕ) × (rel : List ℕ) × (r ≡ some (idx, rel)) × IsLongest path mounts from idx rel n)

NoneBeyond-cons :
    (path : List ℕ) (m : MountPoint) (ms : List MountPoint) (n : ℕ)
    → (mount_matches path m ≡ true → length m.path ≤ n)
    → NoneBeyond path ms n
    → NoneBeyond path (m ∷ ms) n
NoneBeyond-cons path m ms n one rest zero x h = let same : m ≡ x = cc in rw (← same) one
NoneBeyond-cons path m ms n one rest (suc i) x h = rest i x h

find_best-Picks :
    (path : List ℕ) (from : ℕ) (mounts : List MountPoint) (best : Option (ℕ × List ℕ)) (n : ℕ)
    → Picks path mounts from best n (find_best path from mounts best n)
unfolding find_best
find_best-Picks path from [] best n = inl (refl, λ i m h. cc)
find_best-Picks path from (m ∷ ms) best n =
    elim (Bool-cases (mount_matches path m && ltb n (length m.path))) [
      | inl better ↦
          rw better
            (elim (find_best-Picks path (from + 1) ms (some (from, drop (length m.path) path))
              (length m.path)) [
                | inl stays ↦ inr (
                  from,
                  drop (length m.path) path,
                  stays.0,
                  record {
                    place = 0;
                    point = m;
                    at = omega arith;
                    there = refl;
                    matches = ground arith;
                    behind = refl;
                    long = ground arith;
                    longest = NoneBeyond-cons path m ms (length m.path) (λ h. omega arith) stays.1;
                  },
                )
                | inr (idx, rel, e, it) ↦ inr (
                  idx,
                  rel,
                  e,
                  record {
                    place = suc it.place;
                    point = it.point;
                    at = omega (arith, it.at);
                    there = it.there;
                    matches = it.matches;
                    behind = it.behind;
                    long = (let l = it.long in ground arith);
                    longest =
                        NoneBeyond-cons path m ms (length it.point.path)
                          (λ h. let l = it.long in omega arith) it.longest;
                  },
                )
              ])
      | inr worse ↦ rw worse (elim (find_best-Picks path (from + 1) ms best n) [
        | inl stays ↦ inl (stays.0, NoneBeyond-cons path m ms n (λ h. ground arith) stays.1)
        | inr (idx, rel, e, it) ↦ inr (
          idx,
          rel,
          e,
          record {
            place = suc it.place;
            point = it.point;
            at = omega (arith, it.at);
            there = it.there;
            matches = it.matches;
            behind = it.behind;
            long = it.long;
            longest =
                NoneBeyond-cons path m ms (length it.point.path)
                  (λ h. let l = it.long in ground arith) it.longest;
          },
        )
      ])
    ]

-- The deepest mount point whose tree holds the path, at place `idx` of the table.
pub record IsDeepest (path : List ℕ) (mounts : List MountPoint) (idx : ℕ) (rel : List ℕ)
    : Type 0 where
  pub point : MountPoint
  pub there : get_elem? mounts idx ≡ some point
  pub under : IsUnder point.path rel path
  pub deepest :
      AllAt (λ i m. (r : List ℕ) → IsUnder m.path r path → length m.path ≤ length point.path) mounts

-- No mount point but one with an empty path holds the path.
abbrev pub NoneHolds : List ℕ → List MountPoint → Type 0
NoneHolds path mounts = AllAt (λ i m. (r : List ℕ) → IsUnder m.path r path → m.path ≡ []) mounts

length-zero : (xs : List ℕ) → length xs ≤ 0 → xs ≡ []
length-zero [] h = refl
length-zero (x ∷ xs) h = absurd (omega arith)

-- `find_fs` gives the place in the table of a mount point whose path, followed by the rest that
-- it returns, is the normalized path, the rest being empty or beginning with a slash, and no
-- mount point of the table for which the same can be said has a longer path; it gives nothing
-- only if every such mount point has an empty path. By this a mount at `/` has only the path `/`
-- and paths that begin with two slashes.
pub find_fs-IsDeepest :
    (path : List ℕ) (mounts : List MountPoint)
    → ((find_fs path mounts ≡ none) × NoneHolds (normalize_mount path) mounts)
      ⊎ ((idx : ℕ) × (rel : List ℕ) × (find_fs path mounts ≡ some (idx, rel))
          × IsDeepest (normalize_mount path) mounts idx rel)
unfolding find_fs
find_fs-IsDeepest path mounts =
    let p = normalize_mount path in
    elim (find_best-Picks p 0 mounts none 0) [
      | inl (e, none_matches) ↦ inl (
        e,
        λ i m at r u. length-zero m.path (none_matches i m at (IsUnder-mount_matches p r m u)),
      )
      | inr (idx, rel, e, it) ↦ inr (
        idx,
        rel,
        e,
        record {
          point = it.point;
          there = (let same : idx ≡ it.place = omega (arith, it.at) in rw same it.there);
          under = rw it.behind (mount_matches-IsUnder p it.point it.matches);
          deepest = λ i m at r u. it.longest i m at (IsUnder-mount_matches p r m u);
        },
      )
    ]
