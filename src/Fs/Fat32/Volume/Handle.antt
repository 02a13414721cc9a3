-- ===== src/Fs/Fat32/Volume/Handle.antt =====
-- An open file of kernel/src/fs/fat32.rs: `Fat32File`, which keeps the content and writes through.
-- Positions stay below 2^63, since `seek` refuses what is above, so no sum of one and a length wraps.
use vibra.Common.{
  ℕ, ◌+◌, ◌-◌, ◌%◌, ◌^◌, min, [], ltb, leb, if◌then◌else◌, length, slice, u64_mod, u32_mod,
}
use vibra.Fs.{Result, ok, err, SeekFrom, start, current, end_of, invalid_path, read_only}
use vibra.Fs.Ramfs.Handle.{overwrite}
use vibra.Fs.Disk.{Bytes, DiskIo, Action}
use vibra.Fs.Fat32.Write.{open_range, write_open}
use vibra.Fs.Fat32.Volume.{Fat32File, set_entry}

-- At most `n` bytes.
unfoldable pub read : ℕ → Fat32File → Result Bytes × Fat32File
read n f =
    if leb (length f.content) f.position
    then (ok [], f)
    else let count = min n (length f.content - f.position) in
      (ok (slice f.position count f.content), record f { position = f.position + count })

unfoldable pub seek_bits : ℕ → Fat32File → Result ℕ × Fat32File
seek_bits bits f =
    if leb (2 ^ 63) bits then (err invalid_path, f) else (ok bits, record f { position = bits })

unfoldable pub seek : SeekFrom → Fat32File → Result ℕ × Fat32File
unfolding seek_bits
seek (start offset) f = seek_bits offset f
seek (current offset) f = seek_bits ((f.position + offset) % u64_mod) f
seek (end_of offset) f = seek_bits ((length f.content + offset) % u64_mod) f

-- The size after a write to `end`.
abbrev pub grown : ℕ → Fat32File → Fat32File
grown end f = if ltb f.size end then record f { size = end } else f

module _ (io : DiskIo) where
  -- What a step of `write` leaves in the file when it fails, and when it is the last.
  abbrev pub Writing : Type 0
  Writing = io.Disk → Result ℕ × Fat32File × io.Disk

  abbrev pub or_stop : {A : Type 0} → Action io.Disk A → Fat32File → (A → Writing) → Writing
  or_stop m f next d = let (r, d') = m d in elim r [ ok a ↦ next a d' | err e ↦ (err e, f, d') ]

  -- The cached content comes first and stays written if the disk fails; the position moves last.
  unfoldable pub write : ℕ × ℕ → Bytes → Fat32File → Writing
  unfolding overwrite open_range write_open set_entry
  write now buf f =
      if f.read_only
      then (λ d. (err read_only, f, d))
      else let cached = record f { content = overwrite f.position buf f.content } in
        or_stop (open_range io f.geo f.start_cluster buf) cached λ first.
          let opened = record cached { start_cluster = first } in
          or_stop (write_open io f.geo first f.position buf) opened λ end.
            let sized = grown end opened in
            or_stop (set_entry io now f.slot first (min sized.size (u32_mod - 1))) sized
              λ _ d. (ok (length buf), record sized { position = f.position + length buf }, d)
