-- ===== src/Fs/Fat32/Volume/Guard.antt =====
-- A volume of kernel/src/fs/fat32.rs that is mounted read-only: no operation writes to its disk.
use vibra.Common.{
  ℕ, zero, suc, ◌+◌, ◌≡◌, refl, ap, ◌∙◌, List, [], ◌∷◌, Option, none, some, true, arith,
}
use vibra.Fs.{FsError, Result, ok, err, invalid_path, read_only, SeekFrom, start, current, end_of}
use vibra.Fs.Disk.{Bytes, DiskIo, Action, or_raise, read_sector, ◌>>=◌}
use vibra.Fs.Fat32.{
  Geometry, cluster_to_sector, fat_get, chain_from, chain, read_sectors, read_clusters, read_chain,
}
use vibra.Fs.Fat32.Dir.{DirSlot}
use vibra.Fs.Fat32.Dir.Find.{
  Scan, resume, ended, going, scan_sector, scan_sectors, scan_clusters, read_dir, find_in_dir,
  enter_dir, find_parts, find_path_parts, find_path, parts_of,
}
use vibra.Fs.Fat32.Boot.{Fat32Fs}
use vibra.Fs.Fat32.Volume.{Fat32File, lookup, open_file, remove, readdir, stat}
use vibra.Fs.Fat32.Volume.Handle
use vibra.Fs.Fat32.Volume.Session.{
  Request, at_path, to_open, to_list, to_stat, to_remove, to_rmdir, to_create, to_mkdir,
  to_truncate, to_write, to_publish, through_write, through_read, through_seek, Session,
  keep_opened, through, serve, serve_all,
}

-- An action that leaves every disk as it is.
abbrev pub Reads : {D A : Type 0} → Action D A → Type 0
Reads {D} m = (d : D) → (m d).1 ≡ d

bind-Reads :
    {D A B : Type 0} (m : Action D A) (f : A → Action D B)
    → Reads m
    → ((a : A) → Reads (f a))
    → Reads (m >>= f)
bind-Reads {D} {A} {B} m f first next d = after (m d).0 (m d).1 (first d)
  where
    after :
        (r : Result A) (d' : D)
        → d' ≡ d
        → (elim r as (λ x. Result B × D) [ ok a ↦ f a d' | err e ↦ (err e, d') ]).1 ≡ d
    after (ok a) d' e = next a d' ∙ e
    after (err x) d' e = e

resume-Reads :
    {D B : Type 0} (x : Scan) (stop : List (DirSlot × List ℕ) → B)
    (go : List (List ℕ) → List (DirSlot × List ℕ) → Action D B)
    → ((parts : List (List ℕ)) (found : List (DirSlot × List ℕ)) → Reads (go parts found))
    → Reads (resume x stop go)
resume-Reads (ended all) stop go h d = refl
resume-Reads (going parts found) stop go h d = h parts found d

or_raise-Reads : {D A : Type 0} (o : Option A) (e : FsError) → Reads {D = D} (or_raise o e)
or_raise-Reads none e d = refl
or_raise-Reads (some a) e d = refl

module _ (io : DiskIo) (geo : Geometry) where
  read_sector-Reads : (s : ℕ) → Reads (read_sector io s)
  unfolding read_sector
  read_sector-Reads s d = ground arith

  fat_get-Reads : (c : ℕ) → Reads (fat_get io geo c)
  unfolding fat_get
  fat_get-Reads c d = ground arith

  chain_from-Reads : (n c : ℕ) → Reads (chain_from io geo n c)
  unfolding chain_from
  chain_from-Reads zero c d = refl
  chain_from-Reads (suc n) c d = grind (arith, fat_get-Reads, chain_from-Reads n)

  chain-Reads : (first : ℕ) → Reads (chain io geo first)
  unfolding chain
  chain-Reads first d = ground (arith, chain_from-Reads (geo.total_clusters + 3) first d)

  read_sectors-Reads : (n s : ℕ) → Reads (read_sectors io geo n s)
  unfolding read_sectors
  read_sectors-Reads zero s d = refl
  read_sectors-Reads (suc n) s d = ground (arith, read_sectors-Reads n (s + 1) d)

  read_clusters-Reads : (cs : List ℕ) → Reads (read_clusters io geo cs)
  unfolding read_clusters
  read_clusters-Reads [] d = refl
  read_clusters-Reads (c ∷ cs) d = grind (arith, read_sectors-Reads, read_clusters-Reads cs)

  read_chain-Reads : (first : ℕ) → Reads (read_chain io geo first)
  unfolding read_chain
  read_chain-Reads first d = grind (arith, chain-Reads, read_clusters-Reads)

  scan_sectors-Reads :
      (n s : ℕ) (parts : List (List ℕ)) (found : List (DirSlot × List ℕ))
      → Reads (scan_sectors io geo n s parts found)
  unfolding scan_sectors
  scan_sectors-Reads zero s parts found = λ d. refl
  scan_sectors-Reads (suc n) s parts found =
      bind-Reads (read_sector io s)
        (λ buf. resume (scan_sector 16 s buf 0 parts found) ended (scan_sectors io geo n (s + 1)))
        (read_sector-Reads s)
        (λ buf.
          resume-Reads (scan_sector 16 s buf 0 parts found) ended (scan_sectors io geo n (s + 1))
            (scan_sectors-Reads n (s + 1)))

  scan_clusters-Reads :
      (cs : List ℕ) (parts : List (List ℕ)) (found : List (DirSlot × List ℕ))
      → Reads (scan_clusters io geo cs parts found)
  unfolding scan_clusters
  scan_clusters-Reads [] parts found = λ d. refl
  scan_clusters-Reads (c ∷ cs) parts found =
      bind-Reads (or_raise (cluster_to_sector geo c) invalid_path)
        (λ base. scan_sectors io geo geo.sectors_per_cluster base parts found >>= λ x.
          resume x (λ all. all) (scan_clusters io geo cs))
        (or_raise-Reads (cluster_to_sector geo c) invalid_path)
        (λ base.
          bind-Reads (scan_sectors io geo geo.sectors_per_cluster base parts found)
            (λ x. resume x (λ all. all) (scan_clusters io geo cs))
            (scan_sectors-Reads geo.sectors_per_cluster base parts found)
            (λ x. resume-Reads x (λ all. all) (scan_clusters io geo cs) (scan_clusters-Reads cs)))

  read_dir-Reads : (c : ℕ) → Reads (read_dir io geo c)
  unfolding read_dir
  read_dir-Reads c d = grind (arith, chain-Reads, scan_clusters-Reads)

  find_in_dir-Reads : (c : ℕ) (name : List ℕ) → Reads (find_in_dir io geo c name)
  unfolding find_in_dir
  find_in_dir-Reads c name d = ground (arith, read_dir-Reads c d)

  enter_dir-Reads : (slot : DirSlot) → Reads (enter_dir io geo slot)
  unfolding enter_dir
  enter_dir-Reads slot d = ground arith

  find_parts-Reads : (c : ℕ) (parts : List (List ℕ)) → Reads (find_parts io geo c parts)
  unfolding find_parts
  find_parts-Reads c [] d = refl
  find_parts-Reads c (p ∷ []) d = find_in_dir-Reads c p d
  find_parts-Reads c (p ∷ q ∷ ps) d =
      grind (arith, find_in_dir-Reads, enter_dir-Reads, λ (k : ℕ). find_parts-Reads k (q ∷ ps))

  pub find_path-Reads : (path : List ℕ) → Reads (find_path io geo path)
  unfolding find_path
  find_path-Reads path = parts (parts_of path)
    where
      parts : (ps : List (List ℕ)) → Reads (find_path_parts io geo ps)
      parts [] d = refl
      parts (p ∷ ps) d = find_parts-Reads geo.root_cluster (p ∷ ps) d

module _ (io : DiskIo) (fs : Fat32Fs) where
  lookup-Reads : (path : List ℕ) → Reads (lookup io fs path)
  unfolding lookup
  lookup-Reads path d = grind (arith, find_path-Reads)

  open_file-Reads : (path : List ℕ) → Reads (open_file io fs path)
  unfolding open_file
  open_file-Reads path d = grind (arith, find_path-Reads, or_raise-Reads, read_chain-Reads)

  readdir-Reads : (path : List ℕ) → Reads (readdir io fs path)
  unfolding readdir
  readdir-Reads path d = grind (arith, find_path-Reads, or_raise-Reads, read_dir-Reads)

  stat-Reads : (path : List ℕ) → Reads (stat io fs path)
  unfolding stat
  stat-Reads path d = grind (arith, find_path-Reads, or_raise-Reads)

  open_file-read_only :
      (path : List ℕ) (d : io.Disk) (f : Fat32File)
      → (open_file io fs path d).0 ≡ ok f
      → f.read_only ≡ fs.read_only
  unfolding open_file
  open_file-read_only path d f e = ground arith

-- Open files that refuse to be written.
abbrev Locked : List Fat32File → Type 0
Locked [] = Unit
Locked (f ∷ files) = (f.read_only ≡ true) × Locked files

-- Two states of a session with the same disk, whose files are locked.
abbrev Keeps : {D : Type 0} → D → Session D → Type 0
Keeps d s = (s.0 ≡ d) × Locked s.1

through-Keeps :
    {D : Type 0} (act : Fat32File → D → Fat32File × D) (i : ℕ) (d : D) (files : List Fat32File)
    → ((f : Fat32File) → f.read_only ≡ true → ((act f d).0.read_only ≡ true) × ((act f d).1 ≡ d))
    → Locked files
    → Keeps d (through act i (d, files))
unfolding through
through-Keeps act i d [] h l = (refl, tt)
through-Keeps act zero d (f ∷ files) h l = let (a, b) = h f l.0 in (b, (a, l.1))
through-Keeps act (suc i) d (f ∷ files) h l =
    let rest = through-Keeps act i d files h l.1 in (rest.0, (l.0, rest.1))

seek-read_only : (to : SeekFrom) (f : Fat32File) → (Handle.seek to f).1.read_only ≡ f.read_only
unfolding Handle.seek Handle.seek_bits
seek-read_only (start offset) f = ground arith
seek-read_only (current offset) f = ground arith
seek-read_only (end_of offset) f = ground arith

read-read_only : (n : ℕ) (f : Fat32File) → (Handle.read n f).1.read_only ≡ f.read_only
unfolding Handle.read
read-read_only n f = ground arith

write-refused :
    (io : DiskIo) (now : ℕ × ℕ) (bytes : Bytes) (f : Fat32File) (d : io.Disk)
    → f.read_only ≡ true
    → Handle.write io now bytes f d ≡ (err read_only, f, d)
unfolding Handle.write
write-refused io now bytes f d e = rw e refl

module _ (io : DiskIo) (fs : Fat32Fs) (guarded : fs.read_only ≡ true) where
  serve-read_only :
      (r : Request) (d : io.Disk) (files : List Fat32File)
      → Locked files
      → Keeps d (serve io fs r (d, files))
  unfolding serve
  serve-read_only (at_path path) d files l = (lookup-Reads io fs path d, l)
  serve-read_only (to_open path) d files l = (
    open_file-Reads io fs path d,
    with_file (open_file io fs path d).0 (λ f e. open_file-read_only io fs path d f e ∙ guarded),
  )
    where
      with_file :
          (r : Result Fat32File)
          → ((f : Fat32File) → r ≡ ok f → f.read_only ≡ true)
          → Locked (keep_opened r files)
      with_file (ok f) h = (h f refl, l)
      with_file (err e) h = l
  serve-read_only (to_list path) d files l = (readdir-Reads io fs path d, l)
  serve-read_only (to_stat path) d files l = (stat-Reads io fs path d, l)
  serve-read_only (to_remove path) d files l = (rw (guarded, remove) refl, l)
  serve-read_only (to_rmdir path) d files l = (rw guarded refl, l)
  serve-read_only (to_create now path) d files l = (rw guarded refl, rw guarded l)
  serve-read_only (to_mkdir now path) d files l = (rw guarded refl, l)
  serve-read_only (to_truncate now path) d files l = (rw guarded refl, l)
  serve-read_only (to_write first offset bytes) d files l = (rw guarded refl, l)
  serve-read_only (to_publish now slot first size) d files l = (rw guarded refl, l)
  serve-read_only (through_write now i bytes) d files l =
      through-Keeps _ i d files
        (λ f e.
          let w = write-refused io now bytes f d e in
          (ap (λ r. r.1.read_only) w ∙ e, ap (λ r. r.2) w))
        l
  serve-read_only (through_read i n) d files l =
      through-Keeps _ i d files (λ f e. (read-read_only n f ∙ e, refl)) l
  serve-read_only (through_seek i to) d files l =
      through-Keeps _ i d files (λ f e. (seek-read_only to f ∙ e, refl)) l

  serve_all-Keeps :
      (rs : List Request) (s : Session io.Disk) → Locked s.1 → Keeps s.0 (serve_all io fs rs s)
  unfolding serve_all
  serve_all-Keeps [] s l = (refl, l)
  serve_all-Keeps (r ∷ rs) s l =
      let one = serve-read_only r s.0 s.1 l in
      let rest = serve_all-Keeps rs (serve io fs r s) one.1 in (rest.0 ∙ one.0, rest.1)

  -- On a volume that is mounted read-only, over any disk, from a session without open files:
  -- whatever operations of the volume are called, and whatever reads, seeks and writes of the
  -- files that were opened, with whatever arguments, in every order, the disk is left as it was.
  pub serve_all-read_only : (rs : List Request) (d : io.Disk) → (serve_all io fs rs (d, [])).0 ≡ d
  serve_all-read_only rs d = (serve_all-Keeps rs (d, []) tt).0
