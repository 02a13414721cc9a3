-- ===== src/Memory/Pmm/Checks.antt =====
-- Runs of the frame allocator of kernel/src/memory/pmm.rs on 264 frames, of which three are free.
use vibra.Common.{
  ℕ, ◌+◌, ◌≤◌, ◌/◌, ◌%◌, List, [], ◌∷◌, none, some, true, false, ◌≡◌, refl, arith, ◌⊎◌,
}
use vibra.Memory.Bits.{bit_clear, lower_bit}
use vibra.Memory.Pmm.{
  Pmm, Entry, init, add_entries, add_entry, add_frames, add_frame, search_run, skip_used, run_end,
  set_frame_free, is_frame_free, alloc_frame, free_frame, alloc_contiguous, free_contiguous,
  frame_size,
}
use vibra.Memory.Pmm.Frame.{IsPmm, IsTaken, SameFrames, alloc_frame-free_frame}
use vibra.Memory.Pmm.Contiguous.{AllFree}
use vibra.Memory.Pmm.Ranges.{
  IsTakenRange, IsFreedRange, alloc_contiguous-Decides, free_contiguous_atomic,
}
use vibra.Memory.Pmm.Init.{any_covers, any_holds, is_frame_free-init, init-IsPmm}

-- A reserved entry, and twelve kilobytes behind the first megabyte with half a page more.
abbrev memory_map : List Entry
memory_map =
    record { base = 0; length = 0x10_0000; usable = false }
    ∷ record { base = 0x10_0000; length = 0x3800; usable = true }
    ∷ []

abbrev p0 : Pmm
p0 = init 264 memory_map

is_frame_free-init_example :
    is_frame_free (init 264 memory_map).bitmap 258 ≡ any_holds memory_map 258
is_frame_free-init_example =
    is_frame_free-init 264 memory_map 258 (omega arith) (omega arith)
      ((λ e. omega arith), ((λ e. omega arith), tt)) (omega arith)

p0-IsPmm : IsPmm 264 p0
unfolding any_covers
p0-IsPmm =
    (init-IsPmm 264 memory_map (omega arith) (omega arith)
      ((λ j e. ground arith), ((λ j e. refl), tt))).0

p0_free : p0.free_frames ≡ 3
unfolding init add_entries add_entry add_frames add_frame
p0_free = refl

alloc_frame-free_frame_example :
    (addr : ℕ) × (p' : Pmm) × (alloc_frame 264 p0 ≡ (some addr, p'))
    × IsTaken 264 p0 addr p'
    × SameFrames (free_frame 264 addr p') p0
alloc_frame-free_frame_example = alloc_frame-free_frame 264 p0 p0-IsPmm (omega (arith, p0_free))

alloc_contiguous-Decides_example :
    ((alloc_contiguous 264 2 p0 ≡ (none, p0))
      × (¬ ((s : ℕ) × (s + 2 ≤ 264) × AllFree p0.bitmap s 2)))
    ⊎ ((addr : ℕ) × (p' : Pmm) × (alloc_contiguous 264 2 p0 ≡ (some addr, p'))
        × IsTakenRange 264 p0 2 addr p')
alloc_contiguous-Decides_example = alloc_contiguous-Decides 264 2 p0 p0-IsPmm (omega arith)

free_contiguous_atomic_example :
    (free_contiguous 264 0x8000 2 p0 ≡ (false, p0))
    ⊎ ((p' : Pmm) × (free_contiguous 264 0x8000 2 p0 ≡ (true, p'))
        × (0x8000 % frame_size ≡ 0)
        × IsFreedRange 264 p0 2 (0x8000 / frame_size) p')
free_contiguous_atomic_example = free_contiguous_atomic 264 2 p0 p0-IsPmm 0x8000

p0_run : alloc_contiguous 264 2 p0 ≡ (some 0x10_0000, (alloc_contiguous 264 2 p0).1)
unfolding init add_entries add_entry add_frames add_frame alloc_contiguous search_run skip_used
    run_end is_frame_free set_frame_free bit_clear lower_bit
p0_run = refl
