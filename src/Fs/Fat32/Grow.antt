-- ===== src/Fs/Fat32/Grow.antt =====
-- A chain of kernel/src/fs/fat32.rs grown by `alloc_cluster`, as `write_range` and `find_free_slot` do it.
use vibra.Common.{
  ℕ, ◌+◌, ◌≤◌, ◌<◌, ◌≡◌, ◌≢◌, refl, sym, ap, ◌∙◌, List, [], ◌∷◌, ◌++◌, some, false, arith,
}
use vibra.Fs.{ok}
use vibra.Fs.Disk.{DiskIo, IsLawful}
use vibra.Fs.Fat32.{Geometry, alloc_cluster, chain, is_last, is_end_of_chain}
use vibra.Fs.Fat32.Entries.{IsGeo, InTable, entry_of}
use vibra.Fs.Fat32.Links.{
  Links, All, Below, Links-grow, Links-ne_nil, Links-in_use, last, last-Below, All-map2,
}
use vibra.Fs.Fat32.Chains.{chain-Links}
use vibra.Fs.Fat32.Alloc.{alloc_cluster_first_free}

is_last-cluster : (c : ℕ) → 2 ≤ c → c < 0x0fff_fff8 → is_last c ≡ false
unfolding is_end_of_chain
is_last-cluster c lo hi = ground arith

append-Below : (n c : ℕ) (cs : List ℕ) → Below n cs → c < n → Below n (cs ++ c ∷ [])
append-Below n c [] b lt = (lt, tt)
append-Below n c (x ∷ cs) b lt = (b.0, append-Below n c cs b.1 lt)

module _ (io : DiskIo) (geo : Geometry) {size : ℕ} (l : IsLawful io size) (g : IsGeo geo size) where
  -- `c` is the first free cluster.
  abbrev pub FirstFree : ℕ → io.Disk → Type 0
  FirstFree c d =
      (2 ≤ c)
      × (c < geo.total_clusters + 2)
      × (entry_of io geo d c ≡ 0)
      × ((k : ℕ) → 2 ≤ k → k < c → entry_of io geo d k ≢ 0)

  -- The chain has `c` behind `cs`, and the sectors outside the table and FSInfo are as they were.
  abbrev pub Grows : ℕ → List ℕ → ℕ → io.Disk → io.Disk → Type 0
  Grows first cs c d d' =
      (chain io geo first d' ≡ (ok (cs ++ c ∷ []), d'))
      × ((t : ℕ) → ¬ InTable geo t → geo.fs_info_sector ≢ t → io.read d' t ≡ io.read d t)

  -- On a lawful disk with a well-formed volume, for a chain of clusters with entries that the
  -- table links from a cluster above 1, its last entry not free, and the first free cluster:
  -- `alloc_cluster` behind the last cluster returns the free one, `chain` then lists the same
  -- clusters and the new one, and no sector but those of the table and FSInfo has changed.
  pub alloc_cluster-chain :
      (first c : ℕ) (cs : List ℕ) (d : io.Disk)
      → 2 ≤ first
      → Links (entry_of io geo d) first cs
      → Below (geo.total_clusters + 2) cs
      → entry_of io geo d (last cs) ≢ 0
      → FirstFree c d
      → (d' : io.Disk) × (alloc_cluster io geo (some (last cs)) d ≡ (ok c, d'))
        × Grows first cs c d d'
  unfolding is_end_of_chain
  alloc_cluster-chain first c [] d real k b in_use (lo, hi, free, used) =
      absurd (Links-ne_nil k refl)
  alloc_cluster-chain first c (x ∷ cs) d real k b in_use (lo, hi, free, used) =
      let counts : is_last c ≡ false = is_last-cluster c lo (omega (arith, g.clusters_fit)) in
      let (d', run, (mine, linked, others, outside)) =
        alloc_cluster_first_free io geo l g c (last (x ∷ cs)) d lo hi used free
          (last-Below (geo.total_clusters + 2) x cs b) in_use in
      let keep : All (λ y. last (x ∷ cs) ≢ y → entry_of io geo d' y ≡ entry_of io geo d y)
          (x ∷ cs) =
        All-map2 (λ y. y < geo.total_clusters + 2) (λ y. entry_of io geo d y ≢ 0)
          (λ y. last (x ∷ cs) ≢ y → entry_of io geo d' y ≡ entry_of io geo d y) (x ∷ cs)
          (λ y lt ne apart.
            others y (λ e. ne (ap (entry_of io geo d) (sym e) ∙ free)) (λ e. apart (cc)) lt)
          b (Links-in_use _ first (x ∷ cs) k in_use) in
      let grown : Links (entry_of io geo d') first ((x ∷ cs) ++ c ∷ []) =
        Links-grow (entry_of io geo d) (entry_of io geo d') first c (x ∷ cs) k
          (linked (last (x ∷ cs)) refl) counts (rw mine refl) keep in
      (
        d',
        run,
        (
          chain-Links io geo l g first ((x ∷ cs) ++ c ∷ []) d' real grown
              (append-Below (geo.total_clusters + 2) c (x ∷ cs) b hi),
          outside,
        ),
      )
