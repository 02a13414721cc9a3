-- ===== src/Memory/Heap/Blocks.antt =====
-- The free blocks of kernel/src/memory/heap.rs as a list of addresses and sizes: first fit, and a block
-- given back with its neighbours joined.
use vibra.Common.{
  ℕ, ◌+◌, ◌-◌, ◌%◌, ◌^◌, ◌≤◌, ◌<◌, ◌≡◌, List, [], ◌∷◌, Option, none, some, Bool, false, leb, ltb,
  ◌==◌, ◌&&◌, ◌||◌, if◌then◌else◌, u64_mod,
}
use vibra.Memory.Heap.{min_block, size_span, region_of, align_up}

abbrev pub Blocks : Type 0
Blocks = List (ℕ × ℕ)

-- A block in front of a list, joined to the first block if it touches it.
unfoldable pub cons_block : ℕ → ℕ → Blocks → Blocks
cons_block a s [] = (a, s) ∷ []
cons_block a s ((b, t) ∷ bs) = if a + s == b then (a, s + t) ∷ bs else (a, s) ∷ (b, t) ∷ bs

-- The block `start` to `end` given back.
unfoldable pub give_back : ℕ → ℕ → Blocks → Blocks
unfolding cons_block
give_back start end [] = (start, end - start) ∷ []
give_back start end ((a, s) ∷ bs) =
    let rest = give_back start end bs in
    if leb end a then cons_block start (end - start) ((a, s) ∷ bs) else cons_block a s rest

-- What is left of a block behind `end`, and before `start`.
unfoldable pub right_piece : ℕ → ℕ → Blocks → Blocks
right_piece end block_end bs =
    if leb min_block (block_end - end) then (end, block_end - end) ∷ bs else bs

unfoldable pub left_piece : ℕ → ℕ → Blocks → Blocks
left_piece a start bs = if leb min_block (start - a) then (a, start - a) ∷ bs else bs

abbrev pub keep_block : ℕ → ℕ → Option (ℕ × Blocks) → Option (ℕ × Blocks)
keep_block a s none = none
keep_block a s (some (start, bs)) = some (start, (a, s) ∷ bs)

-- First fit: the address taken and the blocks left.
unfoldable pub first_fit : ℕ → ℕ → Blocks → Option (ℕ × Blocks)
unfolding left_piece right_piece
first_fit size align [] = none
first_fit size align ((a, s) ∷ bs) =
    let start = align_up a align in
    let rest = first_fit size align bs in
    if leb (start + size) (a + s)
    then some (start, left_piece a start (right_piece (start + size) (a + s) bs))
    else keep_block a s rest

-- Whether a byte lies in a free block.
unfoldable pub is_free : Blocks → ℕ → Bool
is_free [] x = false
is_free ((a, s) ∷ bs) x = leb a x && ltb x (a + s) || is_free bs x

-- A free block above `lo`: it stands in one region, on a multiple of 16, and its header can hold it.
pub record IsBlock (regions : List (ℕ × ℕ)) (lo a s : ℕ) : Type 0 where
  pub gap : lo < a
  pub aligned : a % 16 ≡ 0
  pub whole : s % 16 ≡ 0
  pub big : 16 ≤ s
  pub small : s < size_span
  pub region : ℕ × ℕ
  pub home : region_of a regions ≡ some region
  pub fits : a + s ≤ region.1
  pub reach : region.1 + 2 ^ 33 < u64_mod

-- A block lies above every address below it.
pub regap :
    {regions : List (ℕ × ℕ)} {lo a s : ℕ} (lo' : ℕ)
    → IsBlock regions lo a s
    → lo' < a
    → IsBlock regions lo' a s
regap lo' b lt = record {
  gap = lt;
  aligned = b.aligned;
  whole = b.whole;
  big = b.big;
  small = b.small;
  region = b.region;
  home = b.home;
  fits = b.fits;
  reach = b.reach;
}

-- Blocks in the order of their addresses, no two of which touch.
abbrev pub AreFree : List (ℕ × ℕ) → ℕ → Blocks → Type 0
AreFree regions lo [] = Unit
AreFree regions lo ((a, s) ∷ bs) = IsBlock regions lo a s × AreFree regions (a + s) bs
