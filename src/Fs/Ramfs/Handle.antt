-- ===== src/Fs/Ramfs/Handle.antt =====
-- An open file of kernel/src/fs/ramfs.rs: `read`, `write`, `seek` and `size` of `RamFsFile`.
use vibra.Fs.{Result, SeekFrom, ok, err, not_found, read_only, invalid_path, start, current, end_of}
use vibra.Fs.Ramfs.{RamFs, RamFsFile, find_entry, write_entry, is_file_at}
use vibra.Common.{
  ℕ, ◌+◌, ◌-◌, ◌%◌, ◌^◌, List, [], ◌++◌, none, some, not, if◌then◌else◌, ltb, leb, length, take,
  drop, slice, replicate, min, u64_mod,
}

unfoldable pub entry_len : RamFs → List ℕ → ℕ
entry_len fs path = elim (find_entry (is_file_at path) fs.entries) [
  | none ↦ 0
  | some e ↦ length e.content
]

-- The bytes that `read` puts at the front of a buffer of `n` bytes, and the file after it.
unfoldable pub read : ℕ → RamFsFile → RamFs → Result (List ℕ) × RamFsFile
read n f fs = elim (find_entry (is_file_at f.path) fs.entries) [
  | none ↦ (err not_found, f)
  | some e ↦
      if leb (length e.content) f.position
      then (ok [], f)
      else let count = min n (length e.content - f.position) in
        (ok (slice f.position count e.content), record f { position = f.position + count })
]

-- `resize` to at least `n` bytes with zeros behind.
unfoldable pub grow : ℕ → List ℕ → List ℕ
grow n bytes = if ltb (length bytes) n then bytes ++ replicate (n - length bytes) 0 else bytes

-- The bytes of a file with `buf` written at `pos`.
unfoldable pub overwrite : ℕ → List ℕ → List ℕ → List ℕ
unfolding grow
overwrite pos buf bytes =
    let grown = grow (pos + length buf) bytes in
    take pos grown ++ (buf ++ drop (pos + length buf) grown)

unfoldable pub write : List ℕ → RamFsFile → RamFs → Result ℕ × RamFsFile × RamFs
unfolding overwrite
write buf f fs =
    if not f.writable
    then (err read_only, f, fs)
    else elim (find_entry (is_file_at f.path) fs.entries) [
      | none ↦ (err not_found, f, fs)
      | some e ↦ (
        ok (length buf),
        record f { position = f.position + length buf },
        record fs {
          entries = write_entry (is_file_at f.path) (overwrite f.position buf e.content) fs.entries;
        },
      )
    ]

-- `seek` to 64 bits that an `i64` reads; a set sign bit is a negative position.
unfoldable pub seek_to : ℕ → RamFsFile → Result ℕ × RamFsFile
seek_to bits f =
    if leb (2 ^ 63) bits then (err invalid_path, f) else (ok bits, record f { position = bits })

unfoldable pub seek : SeekFrom → RamFsFile → RamFs → Result ℕ × RamFsFile
unfolding seek_to
seek (start offset) f fs = seek_to offset f
seek (current offset) f fs = seek_to ((f.position + offset) % u64_mod) f
seek (end_of offset) f fs = seek_to ((entry_len fs f.path + offset) % u64_mod) f

unfoldable pub size : RamFsFile → RamFs → ℕ
size f fs = entry_len fs f.path
