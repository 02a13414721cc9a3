-- ===== src/Memory/Heap/Checks.antt =====
-- Runs of the heap of kernel/src/memory/heap.rs, and the theorems on it at concrete heaps.
use vibra.Common.{
  ℕ, ◌+◌, ◌%◌, ◌≤◌, ◌<◌, ◌≡◌, refl, List, [], ◌∷◌, Option, none, some, true, false, not, max, leb,
  ltb, ◌==◌, ◌&&◌, ◌||◌, if◌then◌else◌, arith, inl, inr,
}
use vibra.Memory.Heap.{
  FreeList, node_size, align_up, granule, region_of, header_ok, node_ok, carve, allocate_at,
  allocate_from, padded, inside, allocate, deallocate, Ran, done, out_of_fuel,
}
use vibra.Memory.Heap.Blocks.{Blocks, first_fit, cons_block, give_back, is_free}
use vibra.Memory.Heap.Chain.{entry}
use vibra.Memory.Heap.Contract.{IsHeap, IsLayout, Allocates, allocate-first_fit}
use vibra.Memory.Heap.Release.{IsTaken, deallocate-give_back}
use vibra.Memory.Heap.Promise.{allocate-is_free, deallocate-allocate}
use vibra.Memory.Heap.Start.{single-AreRegions, init-IsHeap}
use vibra.Memory.Heap.Regions.{added, join_regions, init}
use vibra.Memory.Heap.Cover.{covered, NoneTouches, join_regions-covered}
use vibra.Memory.Heap.Grow.{or_half, grow_with, grow}
use vibra.Memory.Heap.Refuse.{grow-refused}
use vibra.Memory.Pmm
use vibra.Memory.Pmm.{alloc_contiguous, add_entries, all_used}
use vibra.Memory.Pmm.Frame.{IsPmm, SameFrames}
use vibra.Memory.Pmm.Init.{init-IsPmm}

-- Two blocks of one region, a small one before a large one.
abbrev blocks : Blocks
blocks = (0x1000, 64) ∷ (0x2000, 0x1000) ∷ []

abbrev two_blocks : FreeList
two_blocks = record {
  head = some 0x1000;
  regions = (0x1000, 0x4000) ∷ [];
  total_bytes = 0x3000;
  cells = λ x. if x == 0x1000 then entry 64 (some 0x2000) else entry 0x1000 none;
}

two_blocks-IsHeap : IsHeap two_blocks blocks
unfolding region_of
two_blocks-IsHeap = record {
  head = refl;
  holds = (refl, (refl, tt));
  free = (
    record {
      gap = omega arith;
      aligned = refl;
      whole = refl;
      big = omega arith;
      small = omega arith;
      region = (0x1000, 0x4000);
      home = refl;
      fits = omega arith;
      reach = omega arith;
    },
    (
      record {
        gap = omega arith;
        aligned = refl;
        whole = refl;
        big = omega arith;
        small = omega arith;
        region = (0x1000, 0x4000);
        home = refl;
        fits = omega arith;
        reach = omega arith;
      },
      tt,
    ),
  );
  sound = single-AreRegions 0x1000 0x4000 (omega arith);
}

layout : IsLayout 100 64
layout = record { exponent = 6; power = refl; aligned = omega arith; sized = omega arith }

large : IsLayout 0x2000 16
large = record { exponent = 4; power = refl; aligned = omega arith; sized = omega arith }

-- The list when `allocate` has returned.
abbrev left_of : Ran (Option ℕ) → FreeList
left_of (done x fl) = fl
left_of out_of_fuel = two_blocks

taken : allocate 4 100 64 two_blocks ≡ done (some 0x2000) (left_of (allocate 4 100 64 two_blocks))
unfolding allocate allocate_from allocate_at node_ok header_ok region_of node_size align_up padded
    carve
taken = refl

full : allocate 4 0x2000 16 two_blocks ≡ done none two_blocks
unfolding allocate allocate_from allocate_at node_ok header_ok region_of node_size align_up padded
full = refl

allocate-first_fit_example :
    Allocates two_blocks
      (first_fit (padded 100) (max 64 granule) blocks)
      (allocate 4 100 64 two_blocks)
allocate-first_fit_example =
    allocate-first_fit 4 two_blocks blocks 100 64 (omega arith) two_blocks-IsHeap layout

deallocate-allocate_example :
    (fl : FreeList) × (deallocate 4 0x2000 100 (left_of (allocate 4 100 64 two_blocks))
      ≡ done tt fl)
    × IsHeap fl blocks
deallocate-allocate_example =
    deallocate-allocate 4 two_blocks (left_of (allocate 4 100 64 two_blocks)) blocks 100 64 0x2000
      (omega arith) two_blocks-IsHeap layout taken

allocate-is_free_example :
    (0x2000 % max 64 granule ≡ 0)
    × (inside 0x2000 (0x2000 + padded 100) two_blocks ≡ true)
    × ((left : Blocks) × IsHeap (left_of (allocate 4 100 64 two_blocks)) left
        × ((x : ℕ)
            → is_free left x
              ≡ (is_free blocks x && not (leb 0x2000 x && ltb x (0x2000 + padded 100))))
        × ((x : ℕ) → 0x2000 ≤ x → x < 0x2000 + padded 100 → is_free blocks x ≡ true))
allocate-is_free_example =
    allocate-is_free 4 two_blocks (left_of (allocate 4 100 64 two_blocks)) blocks 100 64 0x2000
      (omega arith) two_blocks-IsHeap layout taken

-- The gap behind the first block, up to the second.
gap : IsTaken two_blocks.regions 0x1040 0xfc0
unfolding region_of padded align_up
gap = record {
  above = omega arith;
  aligned = refl;
  region = (0x1000, 0x4000);
  home = refl;
  fits = omega arith;
  reach = omega arith;
  sized = omega arith;
}

gap_size : padded 0xfc0 ≡ 0xfc0
unfolding padded align_up
gap_size = refl

deallocate-give_back_example :
    (fl : FreeList) × (deallocate 3 0x1040 0xfc0 two_blocks ≡ done tt fl)
    × IsHeap fl (give_back 0x1040 (0x1040 + padded 0xfc0) blocks)
    × (fl.regions ≡ two_blocks.regions)
deallocate-give_back_example =
    deallocate-give_back 3 0x1040 0xfc0 two_blocks blocks (omega arith) two_blocks-IsHeap gap
      (inr (omega arith), (inl (omega (arith, gap_size)), tt))

-- It joins them to one.
joined : give_back 0x1040 0x2000 blocks ≡ (0x1000, 0x2000) ∷ []
unfolding give_back cons_block
joined = refl

join_regions-covered_example :
    (merged : ℕ × ℕ) × ((others : List (ℕ × ℕ)) × (join_regions 3 0x4000 0x6000
          ((0x6000, 0x8000) ∷ (0x1000, 0x4000) ∷ [])
        ≡ some (merged, others))
      × ((x : ℕ)
          → covered (merged ∷ others) x ≡ (
              leb 0x4000 x && ltb x 0x6000 || covered ((0x6000, 0x8000) ∷ (0x1000, 0x4000) ∷ []) x))
      × NoneTouches merged others)
join_regions-covered_example =
    join_regions-covered 0x4000 0x6000 ((0x6000, 0x8000) ∷ (0x1000, 0x4000) ∷ []) (omega arith)
      (omega arith, (omega arith, tt))

init-IsHeap_example :
    (fl : FreeList) × (init 1 0x10_0000 0x80_0000 two_blocks ≡ added true fl)
    × IsHeap fl ((0x10_0000, 0x80_0000) ∷ [])
    × (fl.regions ≡ (0x10_0000, 0x10_0000 + 0x80_0000) ∷ [])
    × (fl.total_bytes ≡ 0x80_0000)
init-IsHeap_example =
    init-IsHeap 1 0x10_0000 0x80_0000 two_blocks (omega arith) (omega arith) refl refl (omega arith)
      (omega arith) (omega arith)

-- A machine without free frames.
poor-IsPmm : IsPmm 264 (Pmm.init 264 [])
poor-IsPmm = (init-IsPmm 264 [] (omega arith) (omega arith) tt).0

refused :
    grow 3 264 0 (record { heap = two_blocks; pmm = Pmm.init 264 [] })
    ≡ some (false, record { heap = two_blocks; pmm = Pmm.init 264 [] })
unfolding grow grow_with or_half alloc_contiguous Pmm.init add_entries all_used
refused = refl

grow-refused_example :
    SameFrames (Pmm.init 264 []) (Pmm.init 264 [])
    × IsPmm 264 (Pmm.init 264 [])
    × (two_blocks ≡ two_blocks)
grow-refused_example =
    grow-refused 3 264 0 (record { heap = two_blocks; pmm = Pmm.init 264 [] })
      (record { heap = two_blocks; pmm = Pmm.init 264 [] }) poor-IsPmm (omega arith)
      (omega arith, tt) refused
