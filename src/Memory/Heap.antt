-- ===== src/Memory/Heap.antt =====
-- The kernel heap, kernel/src/memory/heap.rs: the address-ordered list of free blocks whose nodes
-- stand in the blocks themselves. `cells` is memory read as nodes, by address; every block begins at
-- a multiple of 16, the size of a node. `regions` is the used part of the source's array. A pointer
-- is its address, null is `none`. Each loop has fuel, and says so when it is not enough.
pub mod Blocks
pub mod Pieces
pub mod First
pub mod Chain
pub mod Links
pub mod Take
pub mod Fit
pub mod Merge
pub mod Free
pub mod Contract
pub mod Release
pub mod Promise
pub mod Regions
pub mod Walk
pub mod Cover
pub mod Start
pub mod Grow
pub mod Refuse
mod Checks
pub mod Back
use vibra.Common.{
  ℕ, zero, suc, ◌+◌, ◌-◌, ◌*◌, ◌/◌, ◌%◌, ◌^◌, List, [], ◌∷◌, ◌++◌, Option, none, some, Bool, true,
  false,
}
use vibra.Common.{
  min, max, ltb, leb, ◌==◌, not, ◌&&◌, ◌||◌, if◌then◌else◌, length, u64_mod, add_u64,
  saturating_add,
}

-- SIZE_MAGIC_BITS is the word "VI" in the upper 16 bits, SIZE_MASK the lower 48 bits.
abbrev pub magic : ℕ
magic = 0x5649

abbrev pub size_span : ℕ
size_span = 0x1_0000_0000_0000

abbrev pub min_block : ℕ
min_block = 16

abbrev pub granule : ℕ
granule = 16

abbrev pub max_regions : ℕ
max_regions = 16

abbrev pub max_heap_bytes : ℕ
max_heap_bytes = 64 * 1024 * 1024

pub record FreeNode : Type 0 where
  pub size_magic : ℕ
  pub next : Option ℕ

-- `SIZE_MAGIC_BITS | (size & SIZE_MASK)`: the two have no bit in common.
unfoldable pub with_size : ℕ → FreeNode → FreeNode
with_size size n = record n { size_magic = magic * size_span + size % size_span }

unfoldable pub node_size : FreeNode → ℕ
node_size n = n.size_magic % size_span

pub record FreeList : Type 0 where
  pub head : Option ℕ
  pub regions : List (ℕ × ℕ)
  pub total_bytes : ℕ
  pub cells : ℕ → FreeNode

-- A write to the node at an address.
unfoldable pub write_node : ℕ → FreeNode → (ℕ → FreeNode) → ℕ → FreeNode
write_node a n cells x = if a == x then n else cells x

unfoldable pub set_size : ℕ → ℕ → FreeList → FreeList
unfolding write_node with_size
set_size a size fl = record fl { cells = write_node a (with_size size (fl.cells a)) fl.cells }

unfoldable pub set_next : ℕ → Option ℕ → FreeList → FreeList
unfolding write_node
set_next a next fl = record fl {
  cells = write_node a (record (fl.cells a) { next = next }) fl.cells;
}

-- `(addr + align - 1) & !(align - 1)`, for an alignment that is a power of two.
unfoldable pub align_up : ℕ → ℕ → ℕ
align_up addr align = add_u64 addr (align - 1) / align * align

unfoldable pub region_of : ℕ → List (ℕ × ℕ) → Option (ℕ × ℕ)
region_of addr [] = none
region_of addr ((start, end) ∷ rs) =
    if leb start addr && ltb addr end then some (start, end) else region_of addr rs

-- The tests on the header of a node, in a region that ends at `region_end`. A sum beyond 64 bits
-- fails, as `checked_add` does.
unfoldable pub header_ok : ℕ → ℕ → FreeNode → Bool
unfolding node_size
header_ok region_end addr n =
    ltb (addr + 16) u64_mod
    && leb (addr + 16) region_end
    && n.size_magic / size_span == magic
    && leb min_block (node_size n)
    && ltb (addr + node_size n) u64_mod
    && leb (addr + node_size n) region_end

unfoldable pub node_ok : ℕ → FreeList → Bool
unfolding region_of header_ok
node_ok addr fl = elim (region_of addr fl.regions) [
  | none ↦ false
  | some (start, end) ↦ header_ok end addr (fl.cells addr)
]

-- The link before a place of the list: a node's, or the head.
unfoldable pub link : Option ℕ → Option ℕ → FreeList → FreeList
unfolding set_next
link none to fl = record fl { head = to }
link (some p) to fl = set_next p to fl

unfoldable pub truncate_before : Option ℕ → FreeList → FreeList
unfolding link
truncate_before prev fl = link prev none fl

pub data Ran (A : Type 0) : Type 0 where
  done : A → FreeList → Ran A
  out_of_fuel : Ran A

-- Node `a` gives `size` bytes from `start` on: what is left on either side stays in the list.
unfoldable pub carve : Option ℕ → ℕ → ℕ → ℕ → FreeList → FreeList
unfolding set_size set_next link node_size
carve prev a start size fl =
    let block_end = a + node_size (fl.cells a) in
    let next = (fl.cells a).next in
    let suffix = block_end - (start + size) in
    let right : Option ℕ × FreeList =
      if leb min_block suffix
      then (some (start + size), set_next (start + size) next (set_size (start + size) suffix fl))
      else (next, fl) in
    if leb min_block (start - a)
    then set_next a right.0 (set_size a (start - a) right.1)
    else link prev right.0 right.1

-- One turn of the loop of `allocate` at a sound node, with what the loop does after it.
unfoldable pub allocate_at : ℕ → ℕ → Option ℕ → ℕ → FreeList → Ran (Option ℕ) → Ran (Option ℕ)
unfolding carve align_up node_size
allocate_at size align prev a fl rest =
    let start = align_up a align in
    if leb u64_mod (start + size)
    then done none fl
    else if leb (start + size) (a + node_size (fl.cells a))
    then done (some start) (carve prev a start size fl)
    else rest

unfoldable pub allocate_from : ℕ → ℕ → ℕ → Option ℕ → Option ℕ → FreeList → Ran (Option ℕ)
unfolding allocate_at node_ok truncate_before
allocate_from zero size align prev cur fl = out_of_fuel
allocate_from (suc fuel) size align prev none fl = done none fl
allocate_from (suc fuel) size align prev (some a) fl =
    let rest = allocate_from fuel size align (some a) (fl.cells a).next fl in
    if not (node_ok a fl)
    then done none (truncate_before prev fl)
    else allocate_at size align prev a fl rest

unfoldable pub padded : ℕ → ℕ
unfolding align_up
padded size = align_up (max size 1) granule

unfoldable pub allocate : ℕ → ℕ → ℕ → FreeList → Ran (Option ℕ)
unfolding allocate_from padded
allocate fuel size align fl = allocate_from fuel (padded size) (max align granule) none fl.head fl

-- The end of a block of `size` bytes at `start` when its right neighbour `cur` touches it, and the link behind it.
unfoldable pub absorb_right : (ℕ → ℕ → ℕ) → ℕ → Option ℕ → FreeList → Bool × Option ℕ × ℕ
unfolding node_size
absorb_right add end none fl = (false, none, end)
absorb_right add end (some c) fl =
    if c == end
    then (true, (fl.cells c).next, add end (node_size (fl.cells c)))
    else (false, some c, end)

-- A new node between `prev` and what follows.
unfoldable pub new_node : ℕ → ℕ → Option ℕ → Option ℕ → FreeList → FreeList
unfolding set_size set_next link
new_node start merged_end prev next fl =
    link prev (some start) (set_next start next (set_size start (merged_end - start) fl))

-- The part of `deallocate` and `insert_block` behind the search. `add` is the addition of each:
-- saturating in the one, plain in the other.
unfoldable pub merge_block : (ℕ → ℕ → ℕ) → ℕ → ℕ → Option ℕ → Option ℕ → FreeList → FreeList
unfolding absorb_right new_node node_size
merge_block add start end none cur fl =
    let (merged, next, merged_end) = absorb_right add end cur fl in
    new_node start merged_end none next fl
merge_block add start end (some p) cur fl =
    let (merged, next, merged_end) = absorb_right add end cur fl in
    let sized = set_size p (merged_end - p) fl in
    if add p (node_size (fl.cells p)) == start
    then (if merged then set_next p next sized else sized)
    else new_node start merged_end (some p) next fl

-- The search for the place of a block, up to the first node at `limit` or above, then the merge.
unfoldable pub merge_from :
    ℕ → (ℕ → ℕ → ℕ) → ℕ → ℕ → ℕ → Option ℕ → Option ℕ → FreeList → Ran (Unit {0})
unfolding merge_block node_ok truncate_before
merge_from zero add limit start end prev cur fl = out_of_fuel
merge_from (suc fuel) add limit start end prev none fl =
    done tt (merge_block add start end prev none fl)
merge_from (suc fuel) add limit start end prev (some c) fl =
    let rest = merge_from fuel add limit start end (some c) (fl.cells c).next fl in
    if not (node_ok c fl)
    then done tt (merge_block add start end prev none (truncate_before prev fl))
    else if leb limit c
    then done tt (merge_block add start end prev (some c) fl)
    else rest

unfoldable pub insert_block : ℕ → ℕ → ℕ → FreeList → Ran (Unit {0})
unfolding merge_from
insert_block fuel start size fl =
    merge_from fuel add_u64 start start (add_u64 start size) none fl.head fl

-- `Some((region_start, region_end)) if start >= region_start && end <= region_end`.
unfoldable pub inside : ℕ → ℕ → FreeList → Bool
unfolding region_of
inside start end fl = elim (region_of start fl.regions) [
  | none ↦ false
  | some (region_start, region_end) ↦ leb region_start start && leb end region_end
]

unfoldable pub deallocate : ℕ → ℕ → ℕ → FreeList → Ran (Unit {0})
unfolding merge_from padded inside
deallocate fuel start size fl =
    let end = start + padded size in
    if leb u64_mod end
    then done tt fl
    else if inside start end fl
    then merge_from fuel saturating_add end start end none fl.head fl
    else done tt fl
