-- ===== src/Fs/Fat32/Chains.antt =====
-- `chain` and `free_chain` of kernel/src/fs/fat32.rs against the clusters that the table links.
use vibra.Common.{
  ℕ, zero, suc, ◌+◌, ◌%◌, ◌^◌, ◌≤◌, ◌<◌, ◌≡◌, refl, sym, ◌∙◌, List, [], ◌∷◌, length, arith,
}
use native.Mathlib.Decide.{ℕ_discrete}
use vibra.Fs.{ok}
use vibra.Fs.Disk.{DiskIo, IsLawful}
use vibra.Fs.Fat32.{Geometry, chain_from, chain, set_all, free_chain}
use vibra.Fs.Fat32.Entries.{IsGeo, InTable, entry_of, fat_get-IsGeo}
use vibra.Fs.Fat32.RoundTrip.{fat_set-fat_get}
use vibra.Fs.Fat32.Links.{
  Links, last_link, next_link, All, Below, Fresh, Links-Distinct, length-Distinct,
}

module _ (io : DiskIo) (geo : Geometry) {size : ℕ} (l : IsLawful io size) (g : IsGeo geo size) where
  chain_from-Links :
      (n c : ℕ) (cs : List ℕ) (d : io.Disk)
      → Links (entry_of io geo d) c cs
      → Below (geo.total_clusters + 2) cs
      → length cs ≤ n
      → chain_from io geo n c d ≡ (ok cs, d)
  unfolding chain_from
  chain_from-Links zero c cs d (last_link h) b room = absurd (omega arith)
  chain_from-Links zero c cs d (next_link h k) b room = absurd (omega arith)
  chain_from-Links (suc n) c cs d (last_link h) b room =
      ground (arith, fat_get-IsGeo io geo l g d c b.0)
  chain_from-Links (suc n) c cs d (next_link {cs = es} h k) b room = ground (
    arith,
    fat_get-IsGeo io geo l g d c b.0,
    chain_from-Links n (entry_of io geo d c) es d k b.1 (omega arith),
  )

  -- On a lawful disk with a well-formed volume, for a cluster above 1 from which the table links
  -- a list of clusters that have entries: `chain` returns exactly that list and leaves the disk
  -- alone; its limit is never met first.
  pub chain-Links :
      (first : ℕ) (cs : List ℕ) (d : io.Disk)
      → 2 ≤ first
      → Links (entry_of io geo d) first cs
      → Below (geo.total_clusters + 2) cs
      → chain io geo first d ≡ (ok cs, d)
  unfolding chain
  chain-Links first cs d real k b =
      let run = chain_from-Links (geo.total_clusters + 3) first cs d k b (
        omega
          (arith, length-Distinct (geo.total_clusters + 2) cs (Links-Distinct _ first cs k) b)) in
      ground arith

  -- What a write of one value to many entries does.
  pub set_all_lem :
      (cs : List ℕ) (v : ℕ) (d : io.Disk)
      → Below (geo.total_clusters + 2) cs
      → (d' : io.Disk) × (set_all io geo cs v d ≡ (ok tt, d'))
        × All (λ c. entry_of io geo d' c ≡ v % 2 ^ 28) cs
        × ((c : ℕ)
            → c < geo.total_clusters + 2
            → entry_of io geo d c ≡ v % 2 ^ 28
            → entry_of io geo d' c ≡ v % 2 ^ 28)
        × ((c : ℕ)
            → Fresh c cs
            → c < geo.total_clusters + 2
            → entry_of io geo d' c ≡ entry_of io geo d c)
        × ((t : ℕ) → ¬ InTable geo t → io.read d' t ≡ io.read d t)
  unfolding set_all
  set_all_lem [] v d b = (d, refl, tt, (λ c lt e. e), (λ c f lt. refl), λ t out. refl)
  set_all_lem (x ∷ cs) v d b =
      let (d1, run, _, (mine, theirs, outside, _)) = fat_set-fat_get io geo l g x v d b.0 in
      let (d2, run', all, stays, others, outside') = set_all_lem cs v d1 b.1 in
      (
        d2,
        ground arith,
        (stays x b.0 mine, all),
        (λ c lt e.
            stays c lt
              (elim (ℕ_discrete x c) [ yes q ↦ rw (← q) mine | no ne ↦ theirs c ne lt ∙ e ])),
        (λ c f lt. others c f.1 lt ∙ theirs c (λ q. f.0 (sym q)) lt),
        λ t out. outside' t out ∙ outside t out,
      )

  -- Every cluster of the chain is free, and nothing else of the volume has changed.
  abbrev pub Frees : List ℕ → io.Disk → io.Disk → Type 0
  Frees cs d d' =
      All (λ c. entry_of io geo d' c ≡ 0) cs
      × ((c : ℕ)
          → Fresh c cs
          → c < geo.total_clusters + 2
          → entry_of io geo d' c ≡ entry_of io geo d c)
      × ((t : ℕ) → ¬ InTable geo t → io.read d' t ≡ io.read d t)

  -- On a lawful disk with a well-formed volume, for a cluster above 1 from which the table links
  -- a list of clusters that have entries: `free_chain` succeeds, the entries of exactly those
  -- clusters are free, the others are as before, and so is every sector outside the table.
  pub free_chain-Links :
      (first : ℕ) (cs : List ℕ) (d : io.Disk)
      → 2 ≤ first
      → Links (entry_of io geo d) first cs
      → Below (geo.total_clusters + 2) cs
      → (d' : io.Disk) × (free_chain io geo first d ≡ (ok tt, d')) × Frees cs d d'
  unfolding free_chain
  free_chain-Links first cs d real k b =
      let (d', run, all, _, others, outside) = set_all_lem cs 0 d b in
      let at = chain-Links first cs d real k b in (d', ground arith, (all, others, outside))
