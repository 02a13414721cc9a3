-- ===== src/Fs/Fat32/Alloc.antt =====
-- `alloc_cluster` of kernel/src/fs/fat32.rs: the first free cluster, its end mark and its link.
use vibra.Common.{
  ℕ, zero, suc, ◌+◌, ◌-◌, ◌%◌, ◌≤◌, ◌<◌, ◌≡◌, ◌≢◌, refl, ap, ◌∙◌, Option, none, some, not, ltb,
  ◌==◌, ◌||◌, ◌&&◌, length, arith, Bool-cases, inl, inr, u32_mod,
}
use native.Mathlib.Decide.{ℕ_discrete}
use vibra.Fs.{ok, err, disk_full}
use vibra.Fs.Disk.{Bytes, DiskIo, IsLawful, Action, pure, attempt, ◌>>◌}
use vibra.Fs.Fat32.{
  Geometry, u32_at, le32, fat_set, end_of_chain, link_from, new_hints, update_fsinfo, alloc_from,
  alloc_cluster,
}
use vibra.Fs.Fat32.Table.{length-copy_to}
use vibra.Fs.Fat32.Entries.{IsGeo, InTable, entry_of, entry_of_same, fat_get-IsGeo}
use vibra.Fs.Fat32.RoundTrip.{fat_set-fat_get}

length-new_hints : (n : ℕ) (buf : Bytes) → length (new_hints n buf) ≡ length buf
unfolding new_hints
length-new_hints n buf =
    let free = u32_at buf 488 in
    length-copy_to 492 (le32 n) _ ∙ elim (Bool-cases (not (free == 0xffff_ffff) && ltb 0 free)) [
      | inl e ↦ rw e (length-copy_to 488 (le32 (free - 1)) buf)
      | inr e ↦ rw e refl
    ]

module _ (io : DiskIo) (geo : Geometry) {size : ℕ} (l : IsLawful io size) (g : IsGeo geo size) where
  -- The hints of FSInfo are in a sector of their own, and what goes wrong there is not reported.
  attempt-update_fsinfo :
      (c : ℕ) (d : io.Disk)
      → (d' : io.Disk) × (attempt (update_fsinfo io geo c) d ≡ (ok tt, d'))
        × ((t : ℕ) → geo.fs_info_sector ≢ t → io.read d' t ≡ io.read d t)
  unfolding attempt update_fsinfo
  attempt-update_fsinfo c d =
      elim (Bool-cases (geo.fs_info_sector == 0 || geo.fs_info_sector == 0xffff)) [
        | inl skip ↦ (d, rw skip refl, λ t ne. refl)
        | inr on ↦
            let lt : geo.fs_info_sector < size =
              omega (arith, g.info_before, g.copies_end, g.data_end) in
            let (bytes, at) = l.reads d geo.fs_info_sector lt in
            elim (Bool-cases
              (not (u32_at bytes 0 == 0x4161_5252) || not (u32_at bytes 484 == 0x6141_7272))) [
                | inl other ↦ (d, ground arith, λ t ne. refl)
                | inr signed ↦
                    let (d', wrote, _, others) =
                      l.writes d geo.fs_info_sector (new_hints c bytes) lt
                        (length-new_hints c bytes ∙ l.length-read d geo.fs_info_sector bytes at) in
                    (d', ground arith, others)
              ]
      ]

  -- The steps of `alloc_cluster` for the cluster that it has found.
  unfoldable pub take_cluster : ℕ → Option ℕ → Action io.Disk ℕ
  take_cluster c prev = do
    fat_set io geo c end_of_chain
    link_from io geo prev c
    attempt (update_fsinfo io geo c)
    pure c

  alloc_from_found :
      (n from c : ℕ) (prev : Option ℕ) (d : io.Disk)
      → from ≤ c
      → c < from + n
      → from + n ≤ geo.total_clusters + 2
      → ((k : ℕ) → from ≤ k → k < c → entry_of io geo d k ≢ 0)
      → entry_of io geo d c ≡ 0
      → alloc_from io geo n from prev d ≡ take_cluster c prev d
  unfolding alloc_from take_cluster
  alloc_from_found zero from c prev d lo hi fits used free = absurd (omega arith)
  alloc_from_found (suc n) from c prev d lo hi fits used free = elim (ℕ_discrete from c) [
    | yes e ↦ rw e (ground (arith, fat_get-IsGeo io geo l g d c (omega arith)))
    | no ne ↦ ground (
      arith,
      fat_get-IsGeo io geo l g d from (omega arith),
      used from (omega arith) (omega arith),
      alloc_from_found n (from + 1) c prev d (omega arith) (omega arith) (omega arith)
          (λ k a b. used k (omega arith) b) free,
    )
  ]

  alloc_from_full :
      (n from : ℕ) (prev : Option ℕ) (d : io.Disk)
      → from + n ≤ geo.total_clusters + 2
      → ((k : ℕ) → from ≤ k → k < from + n → entry_of io geo d k ≢ 0)
      → alloc_from io geo n from prev d ≡ (err disk_full, d)
  unfolding alloc_from
  alloc_from_full zero from prev d fits used = refl
  alloc_from_full (suc n) from prev d fits used = ground (
    arith,
    fat_get-IsGeo io geo l g d from (omega arith),
    used from (omega arith) (omega arith),
    alloc_from_full n (from + 1) prev d (omega arith) (λ k a b. used k (omega arith) (omega arith)),
  )

  -- A disk where cluster `c` has been taken for the end of a chain behind `prev`.
  abbrev pub Taken : ℕ → Option ℕ → io.Disk → io.Disk → Type 0
  Taken c prev d d' =
      (entry_of io geo d' c ≡ end_of_chain)
      × ((p : ℕ) → prev ≡ some p → entry_of io geo d' p ≡ c)
      × ((k : ℕ)
          → c ≢ k
          → prev ≢ some k
          → k < geo.total_clusters + 2
          → entry_of io geo d' k ≡ entry_of io geo d k)
      × ((t : ℕ) → ¬ InTable geo t → geo.fs_info_sector ≢ t → io.read d' t ≡ io.read d t)

  -- A sector before the table holds no entry.
  info_apart : (k : ℕ) → geo.fs_info_sector ≢ geo.fat_start_sector + k
  info_apart k e = omega (arith, g.info_before)

  take_cluster-none :
      (c : ℕ) (d : io.Disk)
      → c < geo.total_clusters + 2
      → (d' : io.Disk) × (take_cluster c none d ≡ (ok c, d')) × Taken c none d d'
  unfolding take_cluster link_from
  take_cluster-none c d lt =
      let (d1, run, _, (mine, theirs, outside, _)) =
        fat_set-fat_get io geo l g c end_of_chain d lt in
      let (d2, run', rest) = attempt-update_fsinfo c d1 in
      let same = λ (k : ℕ). entry_of_same io geo d1 d2 k (rest _ (info_apart _)) in
      (
        d2,
        ground arith,
        (
          same c ∙ mine,
          (λ p e. absurd (cc)),
          (λ k ne _ below. same k ∙ theirs k ne below),
          λ t out ne. rest t ne ∙ outside t out,
        ),
      )

  take_cluster-some :
      (c p : ℕ) (d : io.Disk)
      → c < geo.total_clusters + 2
      → p < geo.total_clusters + 2
      → p ≢ c
      → (d' : io.Disk) × (take_cluster c (some p) d ≡ (ok c, d')) × Taken c (some p) d d'
  unfolding take_cluster link_from
  take_cluster-some c p d lt lt' apart =
      let (d1, run, _, (mine, theirs, outside, _)) =
        fat_set-fat_get io geo l g c end_of_chain d lt in
      let (d2, run', _, (mine', theirs', outside', _)) = fat_set-fat_get io geo l g p c d1 lt' in
      let (d3, run'', rest) = attempt-update_fsinfo c d2 in
      let same = λ (k : ℕ). entry_of_same io geo d2 d3 k (rest _ (info_apart _)) in
      (
        d3,
        ground arith,
        (
          same c ∙ theirs' c apart lt ∙ mine,
          (λ q e.
              let e' : p ≡ q = cc in rw (← e') (same p ∙ mine' ∙ omega (arith, g.clusters_fit))),
          (λ k ne ne' below. same k ∙ theirs' k (λ q. ne' (ap some q)) below ∙ theirs k ne below),
          λ t out ne. rest t ne ∙ outside' t out ∙ outside t out,
        ),
      )

  turns : (geo.total_clusters + 2) % u32_mod - 2 ≡ geo.total_clusters
  turns = omega (arith, g.clusters_fit)

  -- The first free cluster is taken; it is marked and linked, and nothing else changes but FSInfo.
  pub alloc_cluster_first_free :
      (c p : ℕ) (d : io.Disk)
      → 2 ≤ c
      → c < geo.total_clusters + 2
      → ((k : ℕ) → 2 ≤ k → k < c → entry_of io geo d k ≢ 0)
      → entry_of io geo d c ≡ 0
      → p < geo.total_clusters + 2
      → entry_of io geo d p ≢ 0
      → (d' : io.Disk) × (alloc_cluster io geo (some p) d ≡ (ok c, d')) × Taken c (some p) d d'
  unfolding alloc_cluster
  alloc_cluster_first_free c p d lo hi used free lt in_use =
      let (d', run, taken) =
        take_cluster-some c p d hi lt (λ e. in_use (ap (entry_of io geo d) e ∙ free)) in
      (
        d',
        rw turns (
            alloc_from_found geo.total_clusters 2 c (some p) d lo (omega arith) (omega arith) used
              free
            ∙ run),
        taken,
      )

  pub alloc_cluster_first_free_none :
      (c : ℕ) (d : io.Disk)
      → 2 ≤ c
      → c < geo.total_clusters + 2
      → ((k : ℕ) → 2 ≤ k → k < c → entry_of io geo d k ≢ 0)
      → entry_of io geo d c ≡ 0
      → (d' : io.Disk) × (alloc_cluster io geo none d ≡ (ok c, d')) × Taken c none d d'
  unfolding alloc_cluster
  alloc_cluster_first_free_none c d lo hi used free =
      let (d', run, taken) = take_cluster-none c d hi in
      (
        d',
        rw turns (
            alloc_from_found geo.total_clusters 2 c none d lo (omega arith) (omega arith) used free
            ∙ run),
        taken,
      )

  -- On a lawful disk with a well-formed volume in which no cluster is free, `alloc_cluster`
  -- reports a full disk and leaves the disk as it was.
  pub alloc_cluster_full :
      (prev : Option ℕ) (d : io.Disk)
      → ((k : ℕ) → 2 ≤ k → k < geo.total_clusters + 2 → entry_of io geo d k ≢ 0)
      → alloc_cluster io geo prev d ≡ (err disk_full, d)
  unfolding alloc_cluster
  alloc_cluster_full prev d used =
      rw turns (
        alloc_from_full geo.total_clusters 2 prev d (omega arith) (λ k a b. used k a (omega arith)))
