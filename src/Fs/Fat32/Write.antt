-- ===== src/Fs/Fat32/Write.antt =====
-- Writing at a place of a file, kernel/src/fs/fat32.rs: `write_cluster_range` and `write_range`.
pub mod Splice
pub mod Sectors
pub mod Clusters
pub mod Content
pub mod Range
use vibra.Common.{
  ℕ, zero, suc, ◌+◌, ◌-◌, ◌/◌, ◌%◌, List, [], ◌∷◌, none, some, ltb, ◌==◌, ◌&&◌, if◌then◌else◌,
  length, take, drop,
}
use vibra.Fs.{io_error, invalid_path}
use vibra.Fs.Disk.{
  Bytes, DiskIo, Action, pure, raise, or_raise, read_sector, write_sector, ◌>>=◌, ◌>>◌,
}
use vibra.Fs.Fat32.{Geometry, cluster_to_sector, copy_to, is_last, fat_get, alloc_cluster}

-- The pieces of `data` that go to one cluster each: the first has room for `room` bytes, the others for a
-- whole cluster. As many turns as there are bytes are enough.
unfoldable pub chunks : ℕ → ℕ → ℕ → Bytes → List Bytes
chunks zero cluster_size room bytes = []
chunks (suc n) cluster_size room [] = []
chunks (suc n) cluster_size room (b ∷ bytes) =
    take room (b ∷ bytes) ∷ chunks n cluster_size cluster_size (drop room (b ∷ bytes))

module _ (io : DiskIo) (geo : Geometry) where
  -- A sector with `bytes` at `offset`; a whole sector is not read before.
  unfoldable pub write_part : ℕ → ℕ → Bytes → Action io.Disk (Unit {0})
  unfolding read_sector write_sector copy_to
  write_part sector offset bytes =
      if offset == 0 && length bytes == 512
      then write_sector io sector bytes
      else (do buf ← read_sector io sector; write_sector io sector (copy_to offset bytes buf))

  -- The loop of `write_cluster_range`; `n` sectors are left in the cluster.
  unfoldable pub write_sectors : ℕ → ℕ → ℕ → Bytes → Action io.Disk (Unit {0})
  unfolding write_part
  write_sectors n sector offset [] = pure tt
  write_sectors zero sector offset (b ∷ bytes) = raise io_error
  write_sectors (suc n) sector offset (b ∷ bytes) =
      write_part sector offset (take (512 - offset) (b ∷ bytes))
      >> write_sectors n (sector + 1) 0 (drop (512 - offset) (b ∷ bytes))

  unfoldable pub write_cluster_range : ℕ → ℕ → Bytes → Action io.Disk (Unit {0})
  unfolding cluster_to_sector write_sectors
  write_cluster_range cluster within bytes = do
    base ← or_raise (cluster_to_sector geo cluster) invalid_path
    write_sectors (geo.sectors_per_cluster - within / 512) (base + within / 512) (within % 512)
        bytes

  -- The cluster behind one, allocated if it was the last.
  unfoldable pub next_cluster : ℕ → Action io.Disk ℕ
  unfolding fat_get alloc_cluster
  next_cluster cluster = do
    next ← fat_get io geo cluster
    if is_last next then alloc_cluster io geo (some cluster) else pure next

  unfoldable pub advance : ℕ → ℕ → Action io.Disk ℕ
  unfolding next_cluster
  advance zero cluster = pure cluster
  advance (suc n) cluster = do next ← next_cluster cluster; advance n next

  unfoldable pub write_chunks : ℕ → ℕ → List Bytes → Action io.Disk (Unit {0})
  unfolding write_cluster_range next_cluster
  write_chunks cluster within [] = pure tt
  write_chunks cluster within (c ∷ []) = write_cluster_range cluster within c
  write_chunks cluster within (c ∷ c' ∷ cs) = do
    write_cluster_range cluster within c
    next ← next_cluster cluster
    write_chunks next 0 (c' ∷ cs)

  -- The first cluster of a file, allocated if it has none.
  unfoldable pub first_cluster : ℕ → Action io.Disk ℕ
  unfolding alloc_cluster
  first_cluster first = if ltb first 2 then alloc_cluster io geo none else pure first

  -- `write_range` behind that: the end of what was written.
  unfoldable pub write_from : ℕ → ℕ → Bytes → Action io.Disk ℕ
  unfolding advance write_chunks chunks
  write_from first offset bytes = do
    cluster ← advance (offset / geo.cluster_size) first
    write_chunks cluster (offset % geo.cluster_size) (
        chunks (length bytes) geo.cluster_size (geo.cluster_size - offset % geo.cluster_size) bytes)
    pure (offset + length bytes)

  -- The two halves of `write_range`: `*start` is set between them, and stays set if the second fails.
  unfoldable pub open_range : ℕ → Bytes → Action io.Disk ℕ
  unfolding first_cluster
  open_range first [] = pure first
  open_range first (b ∷ bytes) = first_cluster first

  unfoldable pub write_open : ℕ → ℕ → Bytes → Action io.Disk ℕ
  unfolding write_from
  write_open start offset [] = pure offset
  write_open start offset (b ∷ bytes) = write_from start offset (b ∷ bytes)

  -- The first cluster, and the end.
  unfoldable pub write_range : ℕ → ℕ → Bytes → Action io.Disk (ℕ × ℕ)
  unfolding open_range write_open
  write_range first offset bytes = do
    start ← open_range first bytes
    end ← write_open start offset bytes
    pure (start, end)
