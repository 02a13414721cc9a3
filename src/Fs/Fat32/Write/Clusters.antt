-- ===== src/Fs/Fat32/Write/Clusters.antt =====
-- Clusters of kernel/src/fs/fat32.rs: the bytes of one and of a chain, and `write_cluster_range` in one.
use vibra.Common.{
  ℕ, ◌+◌, ◌-◌, ◌*◌, ◌/◌, ◌%◌, ◌≤◌, ◌<◌, ◌≡◌, ◌≢◌, refl, sym, ap, ap₂, ◌∙◌, List, [], ◌∷◌, ◌++◌,
  some, length, arith, inl, inr, ◌⊎◌,
}
use native.Mathlib.Decide.{dec_lt}
use vibra.Fs.{ok}
use vibra.Fs.Disk.{Bytes, DiskIo, IsLawful}
use vibra.Fs.Fat32.{Geometry, cluster_to_sector, copy_to, read_clusters}
use vibra.Fs.Fat32.Entries.{IsGeo}
use vibra.Fs.Fat32.Links.{All}
use vibra.Fs.Fat32.Write.{write_cluster_range}
use vibra.Fs.Fat32.Write.Splice.{copy_to-right}
use vibra.Fs.Fat32.Write.Sectors.{
  bytes_at, bytes_at-same, bytes_at-append, length-bytes_at, read_sectors-bytes_at,
  write_sectors-bytes_at,
}

-- A cluster of data.
abbrev pub IsCluster : Geometry → ℕ → Type 0
IsCluster geo c = (2 ≤ c) × (c < geo.total_clusters + 2)

abbrev pub first_sector : Geometry → ℕ → ℕ
first_sector geo c = geo.data_start_sector + (c - 2) * geo.sectors_per_cluster

unfoldable pub cluster_bytes : (io : DiskIo) → Geometry → io.Disk → ℕ → Bytes
cluster_bytes io geo d c = bytes_at io d geo.sectors_per_cluster (first_sector geo c)

-- The content of a chain.
unfoldable pub content_of : (io : DiskIo) → Geometry → io.Disk → List ℕ → Bytes
content_of io geo d [] = []
content_of io geo d (c ∷ cs) = cluster_bytes io geo d c ++ content_of io geo d cs

place_fits : (a n s : ℕ) → a < n → a * s + s ≤ n * s
place_fits a n s lt = grind arith

module _ (io : DiskIo) (geo : Geometry) {size : ℕ} (l : IsLawful io size) (g : IsGeo geo size) where
  pub cluster_end : (c : ℕ) → IsCluster geo c → first_sector geo c + geo.sectors_per_cluster ≤ size
  cluster_end c (lo, hi) = omega (
    arith,
    g.data_end,
    place_fits (c - 2) geo.total_clusters geo.sectors_per_cluster (omega arith),
  )

  pub length-cluster_bytes :
      (d : io.Disk) (c : ℕ)
      → IsCluster geo c
      → length (cluster_bytes io geo d c) ≡ geo.sectors_per_cluster * 512
  unfolding cluster_bytes
  length-cluster_bytes d c real =
      length-bytes_at io geo l g d geo.sectors_per_cluster (first_sector geo c) (cluster_end c real)

  cluster_to_sector-some : (c : ℕ) → 2 ≤ c → cluster_to_sector geo c ≡ some (first_sector geo c)
  unfolding cluster_to_sector
  cluster_to_sector-some c lo = ground arith

  pub read_clusters-content_of :
      (cs : List ℕ) (d : io.Disk)
      → All (IsCluster geo) cs
      → read_clusters io geo cs d ≡ (ok (content_of io geo d cs), d)
  unfolding read_clusters content_of cluster_bytes
  read_clusters-content_of [] d real = refl
  read_clusters-content_of (c ∷ cs) d (real, reals) = ground (
    arith,
    cluster_to_sector-some c real.0,
    read_sectors-bytes_at io geo l g geo.sectors_per_cluster (first_sector geo c) d
        (cluster_end c real),
    read_clusters-content_of cs d reals,
  )

  -- Two clusters share no sector.
  pub clusters_apart :
      (c c' t : ℕ)
      → 2 ≤ c
      → 2 ≤ c'
      → c ≢ c'
      → first_sector geo c' ≤ t
      → t < first_sector geo c' + geo.sectors_per_cluster
      → (t < first_sector geo c) ⊎ (first_sector geo c + geo.sectors_per_cluster ≤ t)
  clusters_apart c c' t lo lo' ne from to = elim (dec_lt c c') [
    | yes lt ↦
        inr (omega (arith, place_fits (c - 2) (c' - 2) geo.sectors_per_cluster (omega arith)))
    | no ge ↦ inl (omega (arith, place_fits (c' - 2) (c - 2) geo.sectors_per_cluster (omega arith)))
  ]

  -- A write inside one cluster.
  pub write_cluster_range-copy_to :
      (c within : ℕ) (bytes : Bytes) (d : io.Disk)
      → IsCluster geo c
      → within + length bytes ≤ geo.sectors_per_cluster * 512
      → (d' : io.Disk) × (write_cluster_range io geo c within bytes d ≡ (ok tt, d'))
        × (cluster_bytes io geo d' c ≡ copy_to within bytes (cluster_bytes io geo d c))
        × ((t : ℕ)
            → (t < first_sector geo c) ⊎ (first_sector geo c + geo.sectors_per_cluster ≤ t)
            → io.read d' t ≡ io.read d t)
  unfolding write_cluster_range cluster_bytes
  write_cluster_range-copy_to c within bytes d real room =
      let spc = geo.sectors_per_cluster in
      let base = first_sector geo c in
      let q = within / 512 in
      let inside = cluster_end c real in
      let split : q + (spc - q) ≡ spc = omega arith in
      let (d', run, written, others) =
        write_sectors-bytes_at io geo l g (spc - q) (base + q) (within % 512) bytes d (omega arith)
          (omega arith) (omega arith) in
      let front : bytes_at io d' q base ≡ bytes_at io d q base =
        bytes_at-same io d d' q base (λ t lo hi. others t (inl hi)) in
      let parts = λ (e : io.Disk).
        ap (λ (n : ℕ). bytes_at io e n base) (sym split) ∙ bytes_at-append io e q (spc - q) base in
      let place : q * 512 + within % 512 ≡ within = omega arith in
      (
        d',
        ground (arith, cluster_to_sector-some c real.0),
        parts d'
            ∙ ap₂ (λ (a b : Bytes). a ++ b) front written
            ∙ sym (
                copy_to-right (q * 512) (within % 512) bytes (bytes_at io d q base)
                  (bytes_at io d (spc - q) (base + q))
                  (length-bytes_at io geo l g d q base (omega arith)))
            ∙ ap₂ (λ (n : ℕ) (xs : Bytes). copy_to n bytes xs) place (sym (parts d)),
        λ t out. others t (elim out [ inl h ↦ inl (omega arith) | inr h ↦ inr (omega arith) ]),
      )

  -- What such a write keeps: the sectors before the data, and every other cluster.
  pub others_kept :
      (c : ℕ) (d d' : io.Disk)
      → IsCluster geo c
      → ((t : ℕ)
          → (t < first_sector geo c) ⊎ (first_sector geo c + geo.sectors_per_cluster ≤ t)
          → io.read d' t ≡ io.read d t)
      → ((t : ℕ) → t < geo.data_start_sector → io.read d' t ≡ io.read d t)
        × ((x : ℕ) → IsCluster geo x → c ≢ x → cluster_bytes io geo d' x ≡ cluster_bytes io geo d x)
  unfolding cluster_bytes
  others_kept c d d' real others = (
    (λ t lt. others t (inl (omega arith))),
    λ x is ne.
        bytes_at-same io d d' geo.sectors_per_cluster (first_sector geo x)
          (λ t from to. others t (clusters_apart c x t real.0 is.0 ne from to)),
  )

pub content_of-same :
    (io : DiskIo) (geo : Geometry) (d d' : io.Disk) (cs : List ℕ)
    → All (λ x. cluster_bytes io geo d' x ≡ cluster_bytes io geo d x) cs
    → content_of io geo d' cs ≡ content_of io geo d cs
unfolding content_of
content_of-same io geo d d' [] same = refl
content_of-same io geo d d' (c ∷ cs) same =
    ap₂ (λ (a b : Bytes). a ++ b) same.0 (content_of-same io geo d d' cs same.1)
