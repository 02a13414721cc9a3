-- ===== src/Fs/Fat32/Volume/Session.antt =====
-- Calls of a volume of kernel/src/fs/fat32.rs one behind the other, with the files that it has opened.
use vibra.Common.{ℕ, zero, suc, List, [], ◌∷◌}
use vibra.Fs.{Result, ok, err, SeekFrom}
use vibra.Fs.Disk.{Bytes, DiskIo}
use vibra.Fs.Fat32.Dir.{DirSlot}
use vibra.Fs.Fat32.Boot.{Fat32Fs}
use vibra.Fs.Fat32.Volume.{
  Fat32File, lookup, write_at, publish_size, truncate, open_file, create, remove, mkdir, rmdir,
  readdir, stat,
}
use vibra.Fs.Fat32.Volume.Handle

-- A call of an operation of the volume, or of the open file with a number.
pub data Request : Type 0 where
  at_path to_open to_list to_stat to_remove to_rmdir : List ℕ → Request
  to_create to_mkdir to_truncate : ℕ × ℕ → List ℕ → Request
  to_write : ℕ → ℕ → Bytes → Request
  to_publish : ℕ × ℕ → DirSlot → ℕ → ℕ → Request
  through_write : ℕ × ℕ → ℕ → Bytes → Request
  through_read : ℕ → ℕ → Request
  through_seek : ℕ → SeekFrom → Request

-- The disk and the open files, the last opened first.
abbrev pub Session : Type 0 → Type 0
Session D = D × List Fat32File

abbrev pub keep_opened : Result Fat32File → List Fat32File → List Fat32File
keep_opened (ok f) files = f ∷ files
keep_opened (err e) files = files

-- A call of the open file with a number; without such a file there is nothing to call.
unfoldable pub through : {D : Type 0} → (Fat32File → D → Fat32File × D) → ℕ → Session D → Session D
through act i (d, []) = (d, [])
through act zero (d, f ∷ files) = let (f', d') = act f d in (d', f' ∷ files)
through act (suc i) (d, f ∷ files) = let (d', files') = through act i (d, files) in (d', f ∷ files')

-- The session after a call, and after calls one behind the other.
unfoldable pub serve : (io : DiskIo) → Fat32Fs → Request → Session io.Disk → Session io.Disk
unfolding lookup open_file readdir stat remove rmdir create mkdir truncate write_at publish_size
    through Handle.write Handle.read Handle.seek
serve io fs (at_path path) (d, files) = ((lookup io fs path d).1, files)
serve io fs (to_open path) (d, files) =
    let (r, d') = open_file io fs path d in (d', keep_opened r files)
serve io fs (to_list path) (d, files) = ((readdir io fs path d).1, files)
serve io fs (to_stat path) (d, files) = ((stat io fs path d).1, files)
serve io fs (to_remove path) (d, files) = ((remove io fs path d).1, files)
serve io fs (to_rmdir path) (d, files) = ((rmdir io fs path d).1, files)
serve io fs (to_create now path) (d, files) =
    let (r, d') = create io fs now path d in (d', keep_opened r files)
serve io fs (to_mkdir now path) (d, files) = ((mkdir io fs now path d).1, files)
serve io fs (to_truncate now path) (d, files) = ((truncate io fs now path d).1, files)
serve io fs (to_write first offset bytes) (d, files) =
    ((write_at io fs first offset bytes d).1, files)
serve io fs (to_publish now slot first size) (d, files) =
    ((publish_size io fs now slot first size d).1, files)
serve io fs (through_write now i bytes) s =
    through (λ f d. let (r, f', d') = Handle.write io now bytes f d in (f', d')) i s
serve io fs (through_read i n) s = through (λ f d. ((Handle.read n f).1, d)) i s
serve io fs (through_seek i to) s = through (λ f d. ((Handle.seek to f).1, d)) i s

unfoldable pub serve_all :
    (io : DiskIo) → Fat32Fs → List Request → Session io.Disk → Session io.Disk
unfolding serve
serve_all io fs [] s = s
serve_all io fs (r ∷ rs) s = serve_all io fs rs (serve io fs r s)
