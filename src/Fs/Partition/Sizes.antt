-- ===== src/Fs/Partition/Sizes.antt =====
-- How many partitions kernel/src/fs/partition.rs finds, and what ranges of sectors they are.
use vibra.Common.{
  ℕ, zero, suc, ◌+◌, ◌-◌, ◌*◌, ◌%◌, ◌≤◌, ◌<◌, ◌⊎◌, u64_mod, ◌≡◌, refl, min, List, [], ◌∷◌, ◌++◌,
  Option, none, some, Bool, true, false, not, ltb, ◌==◌, ◌||◌, if◌then◌else◌, arith, Bool-cases,
  Option-cases, inl, inr,
}
use native.Mathlib.Nat.{zero-add}
use vibra.Fs.Disk.{Bytes}
use vibra.Fs.Partition.{
  Partition, Device, is_gpt_header, lies_in, number_at, u64_at, has_protective, MbrEntry, mbr_entry,
  mbr_partition, primary, read_mbr_sector, logical, logical_of, parse_mbr, ratio_of,
  non_empty_or_none, is_unused, is_extended, ◌>>?◌, gpt_bytes, gpt_partition, gpt_entries,
  cons_some, parse_gpt, or_else, read_partitions,
}

-- A range of 64-bit sector numbers: it has a sector, or it begins at 0 and its size of 2^64 came out as 0.
abbrev pub IsRange : Partition → Type 0
IsRange p =
    (p.start_lba < u64_mod)
    × (p.sectors < u64_mod)
    × ((1 ≤ p.sectors) ⊎ ((p.start_lba ≡ 0) × (p.sectors ≡ 0)))

-- At most `n` partitions, which are ranges.
abbrev pub Sized : ℕ → List Partition → Type 0
Sized n [] = Unit
Sized zero (p ∷ ps) = ⊥
Sized (suc n) (p ∷ ps) = IsRange p × Sized n ps

Sized-more : (n : ℕ) (ps : List Partition) → Sized n ps → Sized (suc n) ps
Sized-more n [] s = tt
Sized-more zero (p ∷ ps) s = elim s [ ]
Sized-more (suc n) (p ∷ ps) s = (s.0, Sized-more n ps s.1)

Sized-add : (k n : ℕ) (ps : List Partition) → Sized n ps → Sized (k + n) ps
Sized-add zero n ps s = rw (zero-add n) s
Sized-add (suc k) n ps s =
    let e : suc k + n ≡ suc (k + n) = omega arith in
    rw e (Sized-more (k + n) ps (Sized-add k n ps s))

Sized-append :
    (m n : ℕ) (ps qs : List Partition) → Sized m ps → Sized n qs → Sized (m + n) (ps ++ qs)
Sized-append m n [] qs s t = Sized-add m n qs t
Sized-append zero n (p ∷ ps) qs s t = elim s [ ]
Sized-append (suc m) n (p ∷ ps) qs s t =
    let e : suc m + n ≡ suc (m + n) = omega arith in rw e (s.0, Sized-append m n ps qs s.1 t)

product_pos : (a b : ℕ) → 1 ≤ a → 1 ≤ b → 1 ≤ a * b
product_pos a b h k = grind arith

saturating : (a b : ℕ) → min (a * b) (u64_mod - 1) < u64_mod
saturating a b = omega arith

mbr_partition-IsRange :
    (ratio index start : ℕ) (e : MbrEntry)
    → 1 ≤ ratio
    → is_unused e ≡ false
    → IsRange (mbr_partition ratio index start e)
unfolding mbr_partition
mbr_partition-IsRange ratio index start e pos used =
    let some_sectors : 1 ≤ e.count = ground arith in
    let long = product_pos e.count ratio some_sectors pos in
    (saturating start ratio, saturating e.count ratio, inl (omega arith))

primary-Sized :
    (n i ratio : ℕ) (sector : Bytes) (extended : Option ℕ)
    → 1 ≤ ratio
    → Sized n (primary n i ratio sector extended).0
unfolding primary
primary-Sized zero i ratio sector extended pos = tt
primary-Sized (suc n) i ratio sector extended pos =
    elim (Bool-cases (is_unused (mbr_entry sector i) || (mbr_entry sector i).ptype == 0xee)) [
      | inl skip ↦ rw skip (Sized-more n _ (primary-Sized n (i + 1) ratio sector extended pos))
      | inr kept ↦ rw kept (elim (Bool-cases (is_extended (mbr_entry sector i).ptype)) [
        | inl ext ↦ rw ext (
            Sized-more n _
              (primary-Sized n (i + 1) ratio sector (some (mbr_entry sector i).start) pos))
        | inr own ↦ rw own (
          mbr_partition-IsRange ratio (i + 1) (mbr_entry sector i).start (mbr_entry sector i) pos
              (ground arith),
          primary-Sized n (i + 1) ratio sector extended pos,
        )
      ])
    ]

pick-Sized :
    (n : ℕ) (b : Bool) (p : Partition) (rest : List Partition)
    → (b ≡ false → IsRange p)
    → Sized n rest
    → Sized (suc n) (if b then rest else p ∷ rest)
pick-Sized n true p rest pos s = Sized-more n rest s
pick-Sized n false p rest pos s = (pos refl, s)

stop-Sized :
    (n : ℕ) (b : Bool) (more : List Partition) → Sized n more → Sized n (if b then [] else more)
stop-Sized n true more s = tt
stop-Sized n false more s = s

logical-Sized :
    (n : ℕ) (disk : Device) (extended ebr index : ℕ)
    → 1 ≤ ratio_of disk
    → Sized n (logical n disk extended ebr index)
unfolding logical
logical-Sized zero disk extended ebr index pos = tt
logical-Sized (suc n) disk extended ebr index pos = elim (Option-cases (read_mbr_sector disk ebr)) [
  | inl e ↦ rw (e, logical) tt
  | inr (sector, e) ↦
      let own = mbr_entry sector 0 in
      let next = mbr_entry sector 1 in
      rw (e, logical)
        (pick-Sized n (is_unused own) (mbr_partition (ratio_of disk) index (ebr + own.start) own) _
          (mbr_partition-IsRange (ratio_of disk) index (ebr + own.start) own pos)
          (stop-Sized n (is_unused next || extended + next.start == ebr) _ (
            logical-Sized n disk extended (extended + next.start)
              (if is_unused own then index else min (index + 1) 255) pos)))
]

logical_of-Sized :
    (disk : Device) (extended : Option ℕ) → 1 ≤ ratio_of disk → Sized 128 (logical_of disk extended)
unfolding logical_of
logical_of-Sized disk none pos = tt
logical_of-Sized disk (some extended) pos = logical-Sized 128 disk extended extended 5 pos

-- The parsers give a list or nothing.
abbrev pub AllSized : ℕ → Option (List Partition) → Type 0
AllSized n none = Unit
AllSized n (some ps) = Sized n ps

non_empty-AllSized : (n : ℕ) (ps : List Partition) → Sized n ps → AllSized n (non_empty_or_none ps)
non_empty-AllSized n [] s = tt
non_empty-AllSized n (p ∷ ps) s = s

parse_mbr-AllSized :
    (disk : Device) (sector : Bytes) → 1 ≤ ratio_of disk → AllSized 132 (parse_mbr disk sector)
unfolding parse_mbr
parse_mbr-AllSized disk sector pos =
    let (parts, extended) = primary 4 0 (ratio_of disk) sector none in
    non_empty-AllSized 132 _ (
      Sized-append 4 128 parts (logical_of disk extended)
        (primary-Sized 4 0 (ratio_of disk) sector none pos) (logical_of-Sized disk extended pos))

-- A size that wraps to 0 is that of all 2^64 sectors.
whole_range :
    (first last ratio : ℕ)
    → first ≤ last
    → last < u64_mod
    → 1 ≤ ratio
    → (1 ≤ (last + u64_mod - first + 1) % u64_mod * ratio)
      ⊎ ((first * ratio ≡ 0) × ((last + u64_mod - first + 1) % u64_mod * ratio ≡ 0))
whole_range first last ratio le lt pos = elim (Bool-cases (last - first + 1 == u64_mod)) [
  | inl all ↦
      let start : first ≡ 0 = ground arith in
      let size : (last + u64_mod - first + 1) % u64_mod ≡ 0 = ground arith in
      inr (rw start (omega arith), rw size (omega arith))
  | inr part ↦
      let size : 1 ≤ (last + u64_mod - first + 1) % u64_mod = ground arith in
      inl (product_pos _ ratio size pos)
]

gpt_partition-IsRange :
    (ratio i : ℕ) (entry : Bytes) (p : Partition)
    → 1 ≤ ratio
    → gpt_partition ratio i entry ≡ some p
    → IsRange p
unfolding gpt_partition
gpt_partition-IsRange ratio i entry p pos e =
    let first = u64_at entry 32 in
    let last = u64_at entry 40 in
    let le : first ≤ last = ground arith in
    let lt : last < u64_mod = omega arith in
    let range = whole_range first last ratio le lt pos in
    (ground arith, ground arith, ground (arith, range))

cons_some-Sized :
    (n : ℕ) (o : Option Partition) (ps : List Partition)
    → ((p : Partition) → o ≡ some p → IsRange p)
    → Sized n ps
    → Sized (suc n) (cons_some o ps)
cons_some-Sized n none ps pos s = Sized-more n ps s
cons_some-Sized n (some p) ps pos s = (pos p refl, s)

gpt_entries-AllSized :
    (n : ℕ) (disk : Device) (entries_lba entry_size i : ℕ)
    → 1 ≤ ratio_of disk
    → AllSized n (gpt_entries n disk entries_lba entry_size i)
unfolding gpt_entries
gpt_entries-AllSized zero disk entries_lba entry_size i pos = tt
gpt_entries-AllSized (suc n) disk entries_lba entry_size i pos =
    with_entry (gpt_bytes disk entries_lba entry_size i)
      (gpt_entries n disk entries_lba entry_size (i + 1))
      (gpt_entries-AllSized n disk entries_lba entry_size (i + 1) pos)
  where
    with_entry :
        (o : Option Bytes) (rest : Option (List Partition))
        → AllSized n rest
        → AllSized (suc n) (
            o >>? λ entry.
            rest >>? λ parts. some (cons_some (gpt_partition (ratio_of disk) i entry) parts))
    with_entry none rest s = tt
    with_entry (some entry) none s = tt
    with_entry (some entry) (some parts) s =
        cons_some-Sized n (gpt_partition (ratio_of disk) i entry) parts
          (λ p e. gpt_partition-IsRange (ratio_of disk) i entry p pos e) s

Sized-weaken : (n m : ℕ) (ps : List Partition) → n ≤ m → Sized n ps → Sized m ps
Sized-weaken n m [] le s = tt
Sized-weaken zero m (p ∷ ps) le s = elim s [ ]
Sized-weaken (suc n) zero (p ∷ ps) le s = absurd (omega arith)
Sized-weaken (suc n) (suc m) (p ∷ ps) le s = (s.0, Sized-weaken n m ps (omega arith) s.1)

AllSized-non_empty :
    (n m : ℕ) (o : Option (List Partition))
    → n ≤ m
    → AllSized n o
    → AllSized m (o >>? non_empty_or_none)
AllSized-non_empty n m none le s = tt
AllSized-non_empty n m (some ps) le s = non_empty-AllSized m ps (Sized-weaken n m ps le s)

-- A table that is refused has no partitions.
refused-AllSized :
    (m : ℕ) (b : Bool) (o : Option (List Partition))
    → (b ≡ false → AllSized m o)
    → AllSized m (if b then none else o)
refused-AllSized m true o s = tt
refused-AllSized m false o s = s refl

parse_gpt-AllSized : (disk : Device) → 1 ≤ ratio_of disk → AllSized 1024 (parse_gpt disk)
unfolding parse_gpt
parse_gpt-AllSized disk pos = with_header (disk.read_lba 1 512)
  where
    with_header :
        (o : Option Bytes)
        → AllSized 1024 (
            o >>? λ hdr.
            let count = number_at 4 hdr 80 in
            let entry_size = number_at 4 hdr 84 in
            if not (is_gpt_header hdr)
              || not (lies_in 128 4096 entry_size)
              || count == 0
              || ltb 1024 count
              || ltb disk.sector_size entry_size
            then none
            else (gpt_entries count disk (u64_at hdr 72) entry_size 0 >>? non_empty_or_none))
    with_header none = tt
    with_header (some hdr) = refused-AllSized 1024 _ _ (λ e.
        AllSized-non_empty (number_at 4 hdr 80) 1024
          (gpt_entries (number_at 4 hdr 80) disk (u64_at hdr 72) (number_at 4 hdr 84) 0)
          (ground arith)
          (gpt_entries-AllSized (number_at 4 hdr 80) disk (u64_at hdr 72) (number_at 4 hdr 84) 0
            pos))

or_else-Sized :
    (m : ℕ) (o : Option (List Partition)) (ps : List Partition)
    → AllSized m o
    → Sized m ps
    → Sized m (or_else o ps)
or_else-Sized m none ps s t = t
or_else-Sized m (some qs) ps s t = s

AllSized-weaken : (n m : ℕ) (o : Option (List Partition)) → n ≤ m → AllSized n o → AllSized m o
AllSized-weaken n m none le s = tt
AllSized-weaken n m (some ps) le s = Sized-weaken n m ps le s

-- On a device whose sectors have at least 512 bytes, whatever they hold, `read_partitions` finds
-- at most 1024 partitions. The start and the size of each are below 2^64, and each has a sector,
-- but for one that begins at 0 and whose size of 2^64 sectors wrapped to 0.
pub read_partitions-Sized :
    (disk : Device) → 512 ≤ disk.sector_size → Sized 1024 (read_partitions disk)
unfolding read_partitions
read_partitions-Sized disk wide = with_sector (disk.read 0 512)
  where
    pos : 1 ≤ ratio_of disk
    pos = omega arith

    protected : (b : Bool) → AllSized 1024 (if b then parse_gpt disk else none)
    protected true = parse_gpt-AllSized disk pos
    protected false = tt

    with_sector :
        (o : Option Bytes)
        → Sized 1024 (elim o [
          | none ↦ []
          | some sector0 ↦
              or_else
                (if has_protective sector0 then parse_gpt disk else none)
                (or_else (parse_mbr disk sector0) (or_else (parse_gpt disk) []))
        ])
    with_sector none = tt
    with_sector (some sector0) = or_else-Sized 1024 _ _ (protected (has_protective sector0)) (
        or_else-Sized 1024 _ _
          (AllSized-weaken 132 1024 (parse_mbr disk sector0) (omega arith)
            (parse_mbr-AllSized disk sector0 pos))
          (or_else-Sized 1024 _ _ (parse_gpt-AllSized disk pos) tt))
