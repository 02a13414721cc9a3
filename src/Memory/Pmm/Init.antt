-- ===== src/Memory/Pmm/Init.antt =====
-- What `init` of kernel/src/memory/pmm.rs makes of the boot loader's memory map.
use vibra.Common.{
  ℕ, zero, suc, ◌+◌, ◌-◌, ◌/◌, ◌%◌, ◌≤◌, ◌<◌, ◌≡◌, refl, sym, List, [], ◌∷◌, Bool, true, false,
}
use vibra.Common.{
  arith, ◌*◌, u64_mod, ap₂, ◌==◌, ltb, leb, not, ◌||◌, ◌&&◌, replicate, length-replicate, get_or,
  AllAt, Bool-cases, inl, inr,
}
use vibra.Memory.Bits.{bit_clear_full}
use vibra.Memory.Pmm.{
  Pmm, Entry, is_frame_free, set_frame_free, add_frame, add_frames, all_used, add_entry,
  add_entries, entry_end, entry_base, init, frame_size, reserved_low_mem,
}
use vibra.Memory.Pmm.View.{IsBitmap, set_frame_free-IsBitmap, is_frame_free-set_free}
use vibra.Memory.Pmm.Frame.{IsPmm}
use vibra.Memory.Pmm.Count.{count, count_less, count-eq-zero}
use vibra.Memory.Pmm.Contiguous.{in_range}

-- Frames that an entry of the map gives to the allocator: as many as its range holds from the first megabyte
-- on, counted from the frame where that range begins.
unfoldable pub covers : Entry → ℕ → Bool
unfolding entry_end entry_base
covers e j =
    e.usable && in_range (entry_base e / frame_size) ((entry_end e - entry_base e) / frame_size) j

unfoldable pub any_covers : List Entry → ℕ → Bool
unfolding covers
any_covers [] j = false
any_covers (e ∷ es) j = covers e j || any_covers es j

add_frame-view :
    (max_frames start : ℕ) (p : Pmm)
    → IsBitmap max_frames p.bitmap
    → IsBitmap max_frames (add_frame max_frames start p).bitmap
      × ((j : ℕ)
          → j < max_frames
          → is_frame_free (add_frame max_frames start p).bitmap j
            ≡ (start == j || is_frame_free p.bitmap j))
unfolding add_frame
add_frame-view max_frames start p h = elim (Bool-cases (ltb start max_frames)) [
  | inl inside ↦ rw inside (
    set_frame_free-IsBitmap max_frames p.bitmap h start,
    λ j lt. ground (arith, is_frame_free-set_free max_frames p.bitmap h start j),
  )
  | inr out ↦ rw out (h, λ j lt. ground arith)
]

add_frames-view :
    (max_frames n start : ℕ) (p : Pmm)
    → IsBitmap max_frames p.bitmap
    → IsBitmap max_frames (add_frames max_frames n start p).bitmap
      × ((j : ℕ)
          → j < max_frames
          → is_frame_free (add_frames max_frames n start p).bitmap j
            ≡ (in_range start n j || is_frame_free p.bitmap j))
unfolding add_frames
add_frames-view max_frames zero start p h = (h, λ j lt. ground arith)
add_frames-view max_frames (suc n) start p h =
    let one = add_frame-view max_frames start p h in
    let rest = add_frames-view max_frames n (start + 1) (add_frame max_frames start p) one.0 in
    (rest.0, λ j lt. ground (arith, rest.1 j, one.1 j))

add_entry-view :
    (max_frames : ℕ) (e : Entry) (p : Pmm)
    → IsBitmap max_frames p.bitmap
    → IsBitmap max_frames (add_entry max_frames e p).bitmap
      × ((j : ℕ)
          → j < max_frames
          → is_frame_free (add_entry max_frames e p).bitmap j
            ≡ (covers e j || is_frame_free p.bitmap j))
unfolding add_entry covers
add_entry-view max_frames e p h =
    elim (Bool-cases (not e.usable || leb (entry_end e) (entry_base e))) [
      | inl skip ↦ rw skip (h, λ j lt. ground arith)
      | inr take ↦ rw take (
          let rest =
            add_frames-view max_frames ((entry_end e - entry_base e) / frame_size)
              (entry_base e / frame_size) p h in
          (rest.0, λ j lt. ground (arith, rest.1 j)))
    ]

add_entries-view :
    (max_frames : ℕ) (es : List Entry) (p : Pmm)
    → IsBitmap max_frames p.bitmap
    → IsBitmap max_frames (add_entries max_frames es p).bitmap
      × ((j : ℕ)
          → j < max_frames
          → is_frame_free (add_entries max_frames es p).bitmap j
            ≡ (any_covers es j || is_frame_free p.bitmap j))
unfolding add_entries any_covers
add_entries-view max_frames [] p h = (h, λ j lt. refl)
add_entries-view max_frames (e ∷ es) p h =
    let one = add_entry-view max_frames e p h in
    let rest = add_entries-view max_frames es (add_entry max_frames e p) one.0 in
    (rest.0, λ j lt. ground (arith, rest.1 j, one.1 j))

-- A frame that is not covered by the entries that are still to come.
abbrev Disjoint : List Entry → Type 0
Disjoint [] = Unit {0}
Disjoint (e ∷ es) = ((j : ℕ) → covers e j ≡ true → any_covers es j ≡ false) × Disjoint es

abbrev Counted : ℕ → Pmm → Type 0
Counted max_frames p =
    (p.free_frames ≡ count (is_frame_free p.bitmap) max_frames) × (p.total_frames ≡ p.free_frames)

add_frame-Counted :
    (max_frames start : ℕ) (p : Pmm)
    → IsBitmap max_frames p.bitmap
    → (start < max_frames → is_frame_free p.bitmap start ≡ false)
    → Counted max_frames p
    → Counted max_frames (add_frame max_frames start p)
unfolding add_frame
add_frame-Counted max_frames start p h used c = elim (Bool-cases (ltb start max_frames)) [
  | inr out ↦ rw out c
  | inl inside ↦
      let below : start < max_frames = ground arith in
      let now = λ (j : ℕ). is_frame_free-set_free max_frames p.bitmap h start j below in
      let down = used below in
      let more =
        count_less (is_frame_free (set_frame_free p.bitmap start)) (is_frame_free p.bitmap) start
          max_frames below (ground (arith, now start)) (λ j. ground (arith, now j)) in
      rw inside (omega (arith, c.0), omega (arith, c.1))
]

add_frames-Counted :
    (max_frames n start : ℕ) (p : Pmm)
    → IsBitmap max_frames p.bitmap
    → ((j : ℕ) → j < max_frames → in_range start n j ≡ true → is_frame_free p.bitmap j ≡ false)
    → Counted max_frames p
    → Counted max_frames (add_frames max_frames n start p)
unfolding add_frames
add_frames-Counted max_frames zero start p h used c = c
add_frames-Counted max_frames (suc n) start p h used c =
    let one = add_frame-view max_frames start p h in
    add_frames-Counted max_frames n (start + 1) (add_frame max_frames start p) one.0
      (λ j lt in_it. let old = used j lt in ground (arith, one.1 j lt))
      (add_frame-Counted max_frames start p h (λ lt. used start lt (ground arith)) c)

add_entry-Counted :
    (max_frames : ℕ) (e : Entry) (p : Pmm)
    → IsBitmap max_frames p.bitmap
    → ((j : ℕ) → j < max_frames → covers e j ≡ true → is_frame_free p.bitmap j ≡ false)
    → Counted max_frames p
    → Counted max_frames (add_entry max_frames e p)
unfolding add_entry covers
add_entry-Counted max_frames e p h used c =
    elim (Bool-cases (not e.usable || leb (entry_end e) (entry_base e))) [
      | inl skip ↦ rw skip c
      | inr take ↦ rw take (
          add_frames-Counted max_frames ((entry_end e - entry_base e) / frame_size)
            (entry_base e / frame_size) p h (λ j lt r. used j lt (ground arith)) c)
    ]

add_entries-Counted :
    (max_frames : ℕ) (es : List Entry) (p : Pmm)
    → IsBitmap max_frames p.bitmap
    → ((j : ℕ) → j < max_frames → any_covers es j ≡ true → is_frame_free p.bitmap j ≡ false)
    → Disjoint es
    → Counted max_frames p
    → Counted max_frames (add_entries max_frames es p)
unfolding add_entries any_covers
add_entries-Counted max_frames [] p h used d c = c
add_entries-Counted max_frames (e ∷ es) p h used d c =
    let one = add_entry-view max_frames e p h in
    add_entries-Counted max_frames es (add_entry max_frames e p) one.0
      (λ j lt r. let apart = d.0 j in let old = used j lt in ground (arith, one.1 j lt)) d.1
      (add_entry-Counted max_frames e p h (λ j lt r. used j lt (ground arith)) c)

get_or-replicate : (n i d : ℕ) → get_or (replicate n d) i d ≡ d
get_or-replicate zero i d = refl
get_or-replicate (suc n) zero d = refl
get_or-replicate (suc n) (suc i) d = get_or-replicate n i d

replicate-bytes : (n d m : ℕ) → d < m → AllAt (λ i b. b < m) (replicate n d)
replicate-bytes zero d m h i x e = cc
replicate-bytes (suc n) d m h zero x e = let same : d ≡ x = cc in omega arith
replicate-bytes (suc n) d m h (suc i) x e = replicate-bytes n d m h i x e

all_used-IsBitmap :
    (max_frames : ℕ) → max_frames % 8 ≡ 0 → IsBitmap max_frames (all_used max_frames).bitmap
unfolding all_used
all_used-IsBitmap max_frames whole = record {
  sized = rw (length-replicate (max_frames / 8)) (omega arith);
  bytes = replicate-bytes (max_frames / 8) 0xff 256 (omega arith);
}

all_used-lem : (max_frames j : ℕ) → is_frame_free (all_used max_frames).bitmap j ≡ false
unfolding all_used is_frame_free
all_used-lem max_frames j =
    rw (get_or-replicate (max_frames / 8) (j / 8) 0xff) (bit_clear_full (j % 8) (omega arith))

-- Whether a usable range of memory holds all the bytes of a frame, and the frame lies above the first megabyte.
unfoldable pub holds_frame : Entry → ℕ → Bool
holds_frame e j =
    e.usable
    && leb 0x10_0000 (j * 4096)
    && leb e.base (j * 4096)
    && leb (j * 4096 + 4096) (e.base + e.length)

unfoldable pub any_holds : List Entry → ℕ → Bool
unfolding holds_frame
any_holds [] j = false
any_holds (e ∷ es) j = holds_frame e j || any_holds es j

-- What the boot protocol promises of the usable entries: they begin at a page.
abbrev pub PageAligned : List Entry → Type 0
PageAligned [] = Unit
PageAligned (e ∷ es) = (e.usable ≡ true → e.base % 4096 ≡ 0) × PageAligned es

covers-holds_frame :
    (e : Entry) (j : ℕ)
    → (e.usable ≡ true → e.base % 4096 ≡ 0)
    → (j + 1) * 4096 < u64_mod
    → covers e j ≡ holds_frame e j
unfolding covers holds_frame entry_end entry_base
covers-holds_frame e j aligned small = elim (Bool-cases e.usable) [
  | inl usable ↦ let at = aligned usable in ground arith
  | inr skip ↦ rw skip refl
]

any_covers-any_holds :
    (es : List Entry) (j : ℕ)
    → PageAligned es
    → (j + 1) * 4096 < u64_mod
    → any_covers es j ≡ any_holds es j
unfolding any_covers any_holds
any_covers-any_holds [] j a small = refl
any_covers-any_holds (e ∷ es) j a small =
    ap₂ (λ x y. x || y) (covers-holds_frame e j a.0 small) (any_covers-any_holds es j a.1 small)

-- With a bitmap of whole bytes for memory below 2^64 and a map whose usable entries begin at a
-- multiple of 4096, as the boot protocol promises: after `init` a frame below the end of memory
-- is free exactly if it lies above the first megabyte and all its 4096 bytes lie in one usable
-- entry of the map.
pub is_frame_free-init :
    (max_frames : ℕ) (es : List Entry) (j : ℕ)
    → max_frames % 8 ≡ 0
    → max_frames * 4096 < u64_mod
    → PageAligned es
    → j < max_frames
    → is_frame_free (init max_frames es).bitmap j ≡ any_holds es j
unfolding init
is_frame_free-init max_frames es j whole small aligned lt = ground (
  arith,
  (add_entries-view max_frames es (all_used max_frames) (all_used-IsBitmap max_frames whole)).1 j
      lt,
  all_used-lem max_frames j,
  any_covers-any_holds es j aligned (omega arith),
)

-- With a bitmap of whole bytes that reaches beyond the first megabyte, and a map whose usable
-- ranges do not overlap, `init` leaves a consistent allocator (the free counter is the number of
-- clear bits, the hint lies inside) with every counted frame free.
pub init-IsPmm :
    (max_frames : ℕ) (es : List Entry)
    → max_frames % 8 ≡ 0
    → reserved_low_mem / frame_size ≤ max_frames
    → Disjoint es
    → IsPmm max_frames (init max_frames es)
      × ((init max_frames es).total_frames ≡ (init max_frames es).free_frames)
unfolding init
init-IsPmm max_frames es whole big d =
    let start = all_used-IsBitmap max_frames whole in
    let c =
      add_entries-Counted max_frames es (all_used max_frames) start
        (λ j lt r. all_used-lem max_frames j) d
        (unfold all_used in
          (sym (count-eq-zero _ max_frames (λ j lt. all_used-lem max_frames j)), refl)) in
    (
      record {
        map = (add_entries-view max_frames es (all_used max_frames) start).0;
        counted = c.0;
        hinted = big;
      },
      c.1,
    )
