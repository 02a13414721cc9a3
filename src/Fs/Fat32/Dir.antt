-- ===== src/Fs/Fat32/Dir.antt =====
-- Directory entries of kernel/src/fs/fat32.rs: the 32 bytes of one, its names, and the 8.3 form of a name.
-- A name is the list of its code points, a name of an entry the list of its 11 bytes.
pub mod Find
pub mod Bytes32
pub mod ShortName
use vibra.Common.{
  ℕ, suc, ◌+◌, ◌-◌, ◌*◌, ◌/◌, ◌%◌, ◌^◌, List, [], ◌∷◌, ◌++◌, map, Option, none, some, Bool, true,
  false, ltb, leb, ◌==◌, not, ◌&&◌, ◌||◌, if◌then◌else◌, length, take, drop, slice, get_or,
  bytes_eq, bit_and, replicate,
}
use vibra.Fs.Disk.{Bytes}
use vibra.Fs.Fat32.{u32_at, u16_at, le32, le16}

pub record FatDirEntry : Type 0 where
  pub name : Bytes
  pub attributes : ℕ
  pub reserved : ℕ
  pub creation_time_tenths : ℕ
  pub creation_time : ℕ
  pub creation_date : ℕ
  pub last_access_date : ℕ
  pub first_cluster_high : ℕ
  pub write_time : ℕ
  pub write_date : ℕ
  pub first_cluster_low : ℕ
  pub file_size : ℕ

pub record DirSlot : Type 0 where
  pub entry : FatDirEntry
  pub sector : ℕ
  pub offset : ℕ

-- The packed fields that `ptr::read` takes from the front of bytes, and `entry_bytes`.
unfoldable pub read_entry : Bytes → FatDirEntry
unfolding u16_at u32_at
read_entry bytes = record {
  name = take 11 bytes;
  attributes = get_or bytes 11 0;
  reserved = get_or bytes 12 0;
  creation_time_tenths = get_or bytes 13 0;
  creation_time = u16_at bytes 14;
  creation_date = u16_at bytes 16;
  last_access_date = u16_at bytes 18;
  first_cluster_high = u16_at bytes 20;
  write_time = u16_at bytes 22;
  write_date = u16_at bytes 24;
  first_cluster_low = u16_at bytes 26;
  file_size = u32_at bytes 28;
}

-- From `buf[offset..]`.
unfoldable pub entry_at : Bytes → ℕ → FatDirEntry
unfolding read_entry
entry_at buf offset = read_entry (drop offset buf)

-- The fields behind the name.
unfoldable pub tail_bytes : FatDirEntry → Bytes
unfolding le16 le32
tail_bytes e =
    e.attributes
    ∷ e.reserved
    ∷ e.creation_time_tenths
    ∷ (le16 e.creation_time
        ++ (le16 e.creation_date
            ++ (le16 e.last_access_date
                ++ (le16 e.first_cluster_high
                    ++ (le16 e.write_time
                        ++ (le16 e.write_date
                            ++ (le16 e.first_cluster_low ++ le32 e.file_size)))))))

unfoldable pub entry_bytes : FatDirEntry → Bytes
unfolding tail_bytes
entry_bytes e = e.name ++ tail_bytes e

abbrev pub attr_directory : ℕ
attr_directory = 0x10

abbrev pub attr_volume_id : ℕ
attr_volume_id = 8

abbrev pub attr_long_name : ℕ
attr_long_name = 15

unfoldable pub is_directory : FatDirEntry → Bool
is_directory e = not (bit_and e.attributes attr_directory == 0)

unfoldable pub is_file : FatDirEntry → Bool
unfolding is_directory
is_file e = not (is_directory e) && bit_and e.attributes attr_volume_id == 0

unfoldable pub is_long_name : FatDirEntry → Bool
is_long_name e = bit_and e.attributes attr_long_name == attr_long_name

unfoldable pub is_end : FatDirEntry → Bool
is_end e = get_or e.name 0 0 == 0

unfoldable pub is_free : FatDirEntry → Bool
is_free e = get_or e.name 0 0 == 0 || get_or e.name 0 0 == 0xe5

unfoldable pub get_cluster : FatDirEntry → ℕ
get_cluster e = e.first_cluster_high * 65536 + e.first_cluster_low

unfoldable pub set_cluster : FatDirEntry → ℕ → FatDirEntry
set_cluster e cluster = record e {
  first_cluster_high = cluster / 65536 % 65536;
  first_cluster_low = cluster % 65536;
}

unfoldable pub without_spaces : Bytes → List ℕ
without_spaces [] = []
without_spaces (c ∷ cs) = if c == b' ' then without_spaces cs else c ∷ without_spaces cs

-- The extension with its dot, if there is any.
abbrev pub dotted : List ℕ → List ℕ
dotted [] = []
dotted (c ∷ cs) = b'.' ∷ c ∷ cs

unfoldable pub get_name : FatDirEntry → List ℕ
unfolding without_spaces
get_name e = without_spaces (take 8 e.name) ++ dotted (without_spaces (slice 8 3 e.name))

unfoldable pub ascii_upper : ℕ → ℕ
ascii_upper c = if leb b'a' c && leb c b'z' then c - 32 else c

-- `eq_ignore_ascii_case`.
unfoldable pub same_name : List ℕ → List ℕ → Bool
unfolding ascii_upper
same_name a b = bytes_eq (map ascii_upper a) (map ascii_upper b)

-- `rfind('.')`.
unfoldable pub rfind_dot : List ℕ → Option ℕ
rfind_dot [] = none
rfind_dot (c ∷ cs) = elim (rfind_dot cs) [
  | some i ↦ some (suc i)
  | none ↦ if c == b'.' then some 0 else none
]

abbrev pub is_alphanumeric : ℕ → Bool
is_alphanumeric c =
    (leb b'0' c && leb c b'9') || (leb b'A' c && leb c b'Z') || (leb b'a' c && leb c b'z')

unfoldable pub contains : List ℕ → ℕ → Bool
contains [] c = false
contains (x ∷ xs) c = x == c || contains xs c

-- The marks !#$%&'()-@^_`{}~
abbrev pub name_marks : List ℕ
name_marks = 33 ∷ 35 ∷ 36 ∷ 37 ∷ 38 ∷ 39 ∷ 40 ∷ 41 ∷ 45 ∷ 64 ∷ 94 ∷ 95 ∷ 96 ∷ 123 ∷ 125 ∷ 126 ∷ []

unfoldable pub is_valid_83 : ℕ → Bool
unfolding contains
is_valid_83 c = is_alphanumeric c || contains name_marks c

unfoldable pub all_valid : List ℕ → Bool
unfolding is_valid_83
all_valid [] = true
all_valid (c ∷ cs) = is_valid_83 c && all_valid cs

-- `n` bytes with spaces behind.
abbrev pub pad : ℕ → List ℕ → List ℕ
pad n cs = cs ++ replicate (n - length cs) b' '

unfoldable pub pack_83 : List ℕ → List ℕ → Option Bytes
unfolding all_valid
pack_83 base ext =
    if length base == 0 || ltb 8 (length base) || ltb 3 (length ext)
    then none
    else if all_valid base && all_valid ext
    then some (pad 8 base ++ pad 3 ext)
    else none

unfoldable pub to_83 : List ℕ → Option Bytes
unfolding ascii_upper rfind_dot pack_83
to_83 name =
    let upper = map ascii_upper name in
    elim (rfind_dot upper) [
      | none ↦ pack_83 upper []
      | some i ↦ pack_83 (take i upper) (drop (suc i) upper)
    ]
