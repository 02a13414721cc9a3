-- ===== src/Fs/Fat32/Checks.antt =====
-- Runs of kernel/src/fs/fat32.rs on a volume of four clusters of one sector, with two copies of the table
-- in the sectors 2 and 3, on a disk in memory.
use vibra.Common.{
  length, ℕ, zero, suc, ◌≤◌, ◌<◌, ◌≡◌, ◌≢◌, refl, [], ◌∷◌, ◌++◌, some, ◌==◌, if◌then◌else◌,
  replicate, arith,
}
use native.Mathlib.Decide.{ℕ_discrete}
use vibra.Fs.{ok, err, disk_full}
use vibra.Fs.Disk.{Bytes, IsLawful}
use vibra.Fs.Disk.Memory.{memory, memory-IsLawful}
use vibra.Fs.Disk.Partition.{window, window-IsLawful}
use vibra.Fs.Fat32.{
  read_chain, copy_to, Geometry, fat_get, fat_set, chain, free_chain, alloc_cluster,
  is_end_of_chain,
}
use vibra.Fs.Fat32.Entries.{IsGeo, entry_of}
use vibra.Fs.Fat32.RoundTrip.{Sets, fat_set-fat_get}
use vibra.Fs.Fat32.Links.{Links, last_link, next_link}
use vibra.Fs.Fat32.Chains.{Frees, chain-Links, free_chain-Links}
use vibra.Fs.Fat32.Alloc.{alloc_cluster_full}
use vibra.Fs.Fat32.Write.{write_range}
use vibra.Fs.Fat32.Write.Range.{write_range-read_chain}
use vibra.Fs.Fat32.Grow.{Grows, alloc_cluster-chain}

abbrev small_geo : Geometry
small_geo = record {
  fat_start_sector = 2;
  fat_count = 2;
  fat_size = 1;
  data_start_sector = 4;
  sectors_per_cluster = 1;
  cluster_size = 512;
  root_cluster = 2;
  fs_info_sector = 1;
  total_clusters = 4;
  volume_label = [];
}

small_geo-IsGeo : IsGeo small_geo 8
small_geo-IsGeo = record {
  covered = omega arith;
  copies_end = omega arith;
  data_end = omega arith;
  info_before = omega arith;
  clusters_fit = omega arith;
  cluster_span = omega arith;
  has_sectors = omega arith;
}

abbrev end_mark : Bytes
end_mark = 255 ∷ 255 ∷ 255 ∷ 15 ∷ []

-- A chain of the clusters 2 and 3.
abbrev two_linked : (memory 8).Disk
two_linked s =
    if s == 2 then replicate 8 0 ++ ((3 ∷ 0 ∷ 0 ∷ 0 ∷ []) ++ (end_mark ++ replicate 496 0)) else []

-- All four clusters are in use.
abbrev all_used : (memory 8).Disk
all_used s =
    if s == 2
    then replicate 8 0 ++ (end_mark ++ (end_mark ++ (end_mark ++ (end_mark ++ replicate 488 0))))
    else []

fat_set-fat_get_example :
    (d : (memory 8).Disk) × (fat_set (memory 8) small_geo 4 7 two_linked ≡ (ok tt, d))
    × (fat_get (memory 8) small_geo 4 d ≡ (ok 7, d))
    × Sets (memory 8) small_geo (memory-IsLawful 8) small_geo-IsGeo 4 7 two_linked d
fat_set-fat_get_example =
    fat_set-fat_get (memory 8) small_geo (memory-IsLawful 8) small_geo-IsGeo 4 7 two_linked
      (omega arith)

two_linked-Links : Links (entry_of (memory 8) small_geo two_linked) 2 (2 ∷ 3 ∷ [])
unfolding entry_of is_end_of_chain
two_linked-Links = next_link refl (last_link refl)

chain-Links_example : chain (memory 8) small_geo 2 two_linked ≡ (ok (2 ∷ 3 ∷ []), two_linked)
chain-Links_example =
    chain-Links (memory 8) small_geo (memory-IsLawful 8) small_geo-IsGeo 2 (2 ∷ 3 ∷ []) two_linked
      (omega arith) two_linked-Links (omega arith)

free_chain-Links_example :
    (d : (memory 8).Disk) × (free_chain (memory 8) small_geo 2 two_linked ≡ (ok tt, d))
    × Frees (memory 8) small_geo (memory-IsLawful 8) small_geo-IsGeo (2 ∷ 3 ∷ []) two_linked d
free_chain-Links_example =
    free_chain-Links (memory 8) small_geo (memory-IsLawful 8) small_geo-IsGeo 2 (2 ∷ 3 ∷ [])
      two_linked (omega arith) two_linked-Links (omega arith)

-- 4 is the first free cluster behind 2 and 3.
four_free : (k : ℕ) → 2 ≤ k → k < 4 → entry_of (memory 8) small_geo two_linked k ≢ 0
unfolding entry_of
four_free k lo hi = elim (ℕ_discrete k 2) [
  | yes e ↦ rw e (λ q. omega (arith, q))
  | no ne ↦ let e : k ≡ 3 = omega arith in rw e (λ q. omega (arith, q))
]

alloc_cluster-chain_example :
    (d : (memory 8).Disk) × (alloc_cluster (memory 8) small_geo (some 3) two_linked ≡ (ok 4, d))
    × Grows (memory 8) small_geo (memory-IsLawful 8) small_geo-IsGeo 2 (2 ∷ 3 ∷ []) 4 two_linked d
unfolding entry_of
alloc_cluster-chain_example =
    alloc_cluster-chain (memory 8) small_geo (memory-IsLawful 8) small_geo-IsGeo 2 4 (2 ∷ 3 ∷ [])
      two_linked (omega arith) two_linked-Links (omega arith) (λ q. omega (arith, q))
      (omega arith, omega arith, refl, four_free)

none_free : (k : ℕ) → 2 ≤ k → k < 6 → entry_of (memory 8) small_geo all_used k ≢ 0
unfolding entry_of
none_free zero lo hi = absurd (omega arith)
none_free (suc zero) lo hi = absurd (omega arith)
none_free (suc (suc zero)) lo hi = λ q. omega (arith, q)
none_free (suc (suc (suc zero))) lo hi = λ q. omega (arith, q)
none_free (suc (suc (suc (suc zero)))) lo hi = λ q. omega (arith, q)
none_free (suc (suc (suc (suc (suc zero))))) lo hi = λ q. omega (arith, q)
none_free (suc (suc (suc (suc (suc (suc k)))))) lo hi = absurd (omega arith)

alloc_cluster_full_example :
    alloc_cluster (memory 8) small_geo (some 2) all_used ≡ (err disk_full, all_used)
alloc_cluster_full_example =
    alloc_cluster_full (memory 8) small_geo (memory-IsLawful 8) small_geo-IsGeo (some 2) all_used
      none_free

-- Three sectors of a disk of eight.
window-IsLawful_example : IsLawful (window (memory 8) 4 3) 3
window-IsLawful_example =
    window-IsLawful (memory 8) 4 3 (memory-IsLawful 8) (omega arith) (omega arith)

-- Four bytes across the boundary of the clusters 2 and 3.
write_range-read_chain_example :
    (before : Bytes) × (d : (memory 8).Disk) × (read_chain (memory 8) small_geo 2 two_linked
      ≡ (ok before, two_linked))
    × (write_range (memory 8) small_geo 2 510 (1 ∷ 2 ∷ 3 ∷ 4 ∷ []) two_linked ≡ (ok (2, 514), d))
    × (read_chain (memory 8) small_geo 2 d ≡ (ok (copy_to 510 (1 ∷ 2 ∷ 3 ∷ 4 ∷ []) before), d))
    × (length before ≡ 1024)
write_range-read_chain_example =
    write_range-read_chain (memory 8) small_geo (memory-IsLawful 8) small_geo-IsGeo 2 510
      (2 ∷ 3 ∷ []) (1 ∷ 2 ∷ 3 ∷ 4 ∷ []) two_linked two_linked-Links (omega arith) (omega arith)
