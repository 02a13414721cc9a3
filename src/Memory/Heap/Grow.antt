-- ===== src/Memory/Heap/Grow.antt =====
-- The allocator of the kernel, `LockedHeap` and `grow` of kernel/src/memory/heap.rs: the heap with the frames
-- of kernel/src/memory/pmm.rs behind it. The lock, the interrupts and the messages are left out. `dangling`
-- is the address of `NonNull::dangling`, `hhdm` the offset of the direct map.
use vibra.Common.{
  ℕ, zero, suc, u64_mod, ◌%◌, ◌+◌, ◌*◌, ◌/◌, Option, none, some, Bool, true, false, ◌==◌, ◌||◌,
  if◌then◌else◌,
}
use vibra.Memory.Pmm.{Pmm, frame_size, alloc_contiguous, free_contiguous}
use vibra.Memory.Heap.{FreeList, allocate, deallocate, max_regions, done, out_of_fuel}
use vibra.Memory.Heap.Regions.{Added, added, unfinished, add_region, init}

pub record Allocator : Type 0 where
  pub heap : FreeList
  pub pmm : Pmm

abbrev pub initial_frames : ℕ
initial_frames = 2048

abbrev pub grow_frames : ℕ
grow_frames = 1024

-- One try at a run of frames.
unfoldable pub or_half : ℕ → ℕ → Option ℕ × Pmm → Option (ℕ × ℕ) × Pmm
or_half max_frames count (some phys, p) = (some (phys, count), p)
or_half max_frames count (none, p) =
    let (half, q) = alloc_contiguous max_frames (count / 2) p in
    elim half [ none ↦ (none, q) | some phys ↦ (some (phys, count / 2), q) ]

-- What `grow` does with the run it got: `none` if the walk over the free list has no fuel left.
unfoldable pub settle : ℕ → ℕ → ℕ → Pmm → Added → Option (Bool × Allocator)
settle max_frames phys frames p unfinished = none
settle max_frames phys frames p (added true fl) = some (true, record { heap = fl; pmm = p })
settle max_frames phys frames p (added false fl) =
    some (false, record { heap = fl; pmm = (free_contiguous max_frames phys frames p).1 })

unfoldable pub grow_with : ℕ → ℕ → ℕ → FreeList → Option (ℕ × ℕ) × Pmm → Option (Bool × Allocator)
unfolding settle
grow_with fuel max_frames hhdm fl (none, p) = some (false, record { heap = fl; pmm = p })
grow_with fuel max_frames hhdm fl (some (phys, frames), p) =
    settle max_frames phys frames p
      (add_region fuel ((hhdm + phys) % u64_mod) (frames * frame_size) fl)

unfoldable pub grow : ℕ → ℕ → ℕ → Allocator → Option (Bool × Allocator)
unfolding or_half grow_with
grow fuel max_frames hhdm m =
    grow_with fuel max_frames hhdm m.heap
      (or_half max_frames grow_frames (alloc_contiguous max_frames grow_frames m.pmm))

-- The turns of the loop of `alloc`: grow, and try again. `answer` is the pointer and the memory.
unfoldable pub retry : ℕ → ℕ → ℕ → ℕ → ℕ → ℕ → Allocator → Option (Option ℕ × Allocator)
unfolding grow
retry zero fuel max_frames hhdm size align m = some (none, m)
retry (suc turns) fuel max_frames hhdm size align m = elim (grow fuel max_frames hhdm m) [
  | none ↦ none
  | some (false, m') ↦ some (none, m')
  | some (true, m') ↦ elim (allocate fuel size align m'.heap) [
    | out_of_fuel ↦ none
    | done (some ptr) fl ↦ some (some ptr, record m' { heap = fl })
    | done none fl ↦ retry turns fuel max_frames hhdm size align (record m' { heap = fl })
  ]
]

unfoldable pub alloc : ℕ → ℕ → ℕ → ℕ → ℕ → ℕ → Allocator → Option (Option ℕ × Allocator)
unfolding retry
alloc dangling fuel max_frames hhdm size align m =
    if size == 0 then some (some dangling, m) else elim (allocate fuel size align m.heap) [
      | out_of_fuel ↦ none
      | done (some ptr) fl ↦ some (some ptr, record m { heap = fl })
      | done none fl ↦ retry max_regions fuel max_frames hhdm size align (record m { heap = fl })
    ]

unfoldable pub dealloc : ℕ → ℕ → ℕ → ℕ → Allocator → Option Allocator
dealloc dangling fuel ptr size m =
    if size == 0 || ptr == dangling then some m else elim (deallocate fuel ptr size m.heap) [
      | out_of_fuel ↦ none
      | done x fl ↦ some (record m { heap = fl })
    ]

-- `init`: 2048 frames, or half of that, or a quarter; `none` is the panic, or a lack of fuel.
unfoldable pub start_with : ℕ → ℕ → FreeList → Option (ℕ × ℕ) × Pmm → Option Allocator
start_with fuel hhdm fl (none, p) = none
start_with fuel hhdm fl (some (phys, frames), p) =
    elim (init fuel (hhdm + phys) (frames * frame_size) fl) [
      | unfinished ↦ none
      | added ok fl' ↦ some (record { heap = fl'; pmm = p })
    ]

unfoldable pub or_quarter : ℕ → ℕ → Option (ℕ × ℕ) × Pmm → Option (ℕ × ℕ) × Pmm
or_quarter max_frames count (some got, p) = (some got, p)
or_quarter max_frames count (none, p) =
    let (quarter, q) = alloc_contiguous max_frames (count / 4) p in
    elim quarter [ none ↦ (none, q) | some phys ↦ (some (phys, count / 4), q) ]

unfoldable pub init_heap : ℕ → ℕ → ℕ → Allocator → Option Allocator
unfolding or_half or_quarter start_with
init_heap fuel max_frames hhdm m = start_with fuel hhdm m.heap (
    or_quarter max_frames initial_frames
      (or_half max_frames initial_frames (alloc_contiguous max_frames initial_frames m.pmm)))
