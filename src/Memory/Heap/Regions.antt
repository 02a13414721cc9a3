-- ===== src/Memory/Heap/Regions.antt =====
-- The regions of the heap and its growth, kernel/src/memory/heap.rs: `add_region`, `init`, `region`, and the
-- walks over the free list, `free_bytes` and `check`.
use vibra.Common.{
  ℕ, zero, suc, ◌+◌, ◌-◌, ◌%◌, List, [], ◌∷◌, ◌++◌, Option, none, some, Bool, true, false, min, max,
  ltb, leb, ◌==◌, not, ◌||◌, if◌then◌else◌, length, u64_mod, saturating_add,
}
use vibra.Memory.Heap.{
  FreeList, FreeNode, min_block, max_regions, max_heap_bytes, node_size, node_ok, insert_block, Ran,
  done, out_of_fuel,
}

-- `region_end == merged_start || region_start == merged_end`.
unfoldable pub touches : ℕ → ℕ → ℕ × ℕ → Bool
touches merged_start merged_end r = r.1 == merged_start || r.0 == merged_end

-- The first region that touches the interval, and the others in their order.
unfoldable pub take_touching : ℕ → ℕ → List (ℕ × ℕ) → Option ((ℕ × ℕ) × List (ℕ × ℕ))
unfolding touches
take_touching merged_start merged_end [] = none
take_touching merged_start merged_end (r ∷ rs) =
    let rest = take_touching merged_start merged_end rs in
    if touches merged_start merged_end r
    then some (r, rs)
    else elim rest [ none ↦ none | some (t, others) ↦ some (t, r ∷ others) ]

-- The loop of `add_region`, which begins anew after each region it takes in: the interval at last, and
-- the regions that are left. `none` is a lack of fuel.
unfoldable pub join_regions : ℕ → ℕ → ℕ → List (ℕ × ℕ) → Option ((ℕ × ℕ) × List (ℕ × ℕ))
unfolding take_touching
join_regions zero merged_start merged_end rs = none
join_regions (suc fuel) merged_start merged_end rs =
    elim (take_touching merged_start merged_end rs) [
      | none ↦ some ((merged_start, merged_end), rs)
      | some ((region_start, region_end), others) ↦
          join_regions fuel (min merged_start region_start) (max merged_end region_end) others
    ]

unfoldable pub empty : (ℕ → FreeNode) → FreeList
empty cells = record { head = none; regions = []; total_bytes = 0; cells = cells }

pub data Added : Type 0 where
  added : Bool → FreeList → Added
  unfinished : Added

unfoldable pub inserted : Ran (Unit {0}) → Added
inserted (done x fl) = added true fl
inserted out_of_fuel = unfinished

-- `fuel` is for the walk over the blocks; the loop over the regions has one turn more than there are.
unfoldable pub add_region : ℕ → ℕ → ℕ → FreeList → Added
unfolding join_regions insert_block inserted
add_region fuel start size fl =
    let end = start + size in
    if ltb size min_block || leb max_regions (length fl.regions)
    then added false fl
    else if ltb max_heap_bytes (saturating_add fl.total_bytes size)
    then added false fl
    else if leb u64_mod end
    then added false fl
    else elim (join_regions (suc (length fl.regions)) start end fl.regions) [
      | none ↦ unfinished
      | some (merged, others) ↦
          if leb max_regions (length others)
          then added false (record fl { regions = others })
          else inserted (
              insert_block fuel start size (record fl {
                regions = others ++ (merged ∷ []);
                total_bytes = saturating_add fl.total_bytes size;
              }))
    ]

unfoldable pub init : ℕ → ℕ → ℕ → FreeList → Added
unfolding add_region empty
init fuel start size fl = add_region fuel start size (empty fl.cells)

abbrev pub span : ℕ → ℕ → List (ℕ × ℕ) → ℕ × ℕ
span start end [] = (start, end)
span start end ((s, e) ∷ rs) = span (min start s) (max end e) rs

-- The lowest start and the highest end of the regions; `usize::MAX` stands for no region.
unfoldable pub region : FreeList → ℕ × ℕ
region fl =
    let (start, end) = span (u64_mod - 1) 0 fl.regions in
    if start == u64_mod - 1 then (0, 0) else (start, end)

-- The blocks and the free bytes up to the end or the first bad node, and the address of that.
unfoldable pub check_from : ℕ → Option ℕ → ℕ → ℕ → FreeList → Option (ℕ × ℕ × Option ℕ)
unfolding node_ok node_size
check_from zero cur blocks bytes fl = none
check_from (suc fuel) none blocks bytes fl = some (blocks, bytes, none)
check_from (suc fuel) (some a) blocks bytes fl =
    let rest =
      check_from fuel (fl.cells a).next (suc blocks) (saturating_add bytes (node_size (fl.cells a)))
        fl in
    if not (node_ok a fl) then some (blocks, bytes, some a) else rest

unfoldable pub check : ℕ → FreeList → Option (ℕ × ℕ × Option ℕ)
unfolding check_from
check fuel fl = check_from fuel fl.head 0 0 fl

unfoldable pub free_from : ℕ → Option ℕ → ℕ → FreeList → Option ℕ
unfolding node_ok node_size
free_from zero cur sum fl = none
free_from (suc fuel) none sum fl = some sum
free_from (suc fuel) (some a) sum fl =
    let rest = free_from fuel (fl.cells a).next (saturating_add sum (node_size (fl.cells a))) fl in
    if not (node_ok a fl) then some sum else rest

unfoldable pub free_bytes : ℕ → FreeList → Option ℕ
unfolding free_from
free_bytes fuel fl = free_from fuel fl.head 0 fl

-- The bytes in use, and all of them.
unfoldable pub stats : ℕ → FreeList → Option (ℕ × ℕ)
unfolding free_bytes
stats fuel fl = elim (free_bytes fuel fl) [
  | none ↦ none
  | some free ↦ some ((u64_mod + fl.total_bytes - free) % u64_mod, fl.total_bytes)
]
