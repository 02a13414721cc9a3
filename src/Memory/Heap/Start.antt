-- ===== src/Memory/Heap/Start.antt =====
-- `init` of kernel/src/memory/heap.rs: the heap it makes is one free block.
use vibra.Common.{
  ℕ, ◌+◌, ◌-◌, ◌%◌, ◌^◌, ◌≤◌, ◌<◌, ◌≡◌, refl, sym, ap, ◌∙◌, List, [], ◌∷◌, none, some, true, false,
  ltb, leb, ◌&&◌, u64_mod, arith, Bool-cases, inl, inr, add_u64, saturating_add,
}
use native.Mathlib.Nat.{mod-eq_of_lt}
use vibra.Memory.Heap.{FreeList, min_block, max_heap_bytes, region_of, insert_block}
use vibra.Memory.Heap.Blocks.{IsBlock, give_back}
use vibra.Memory.Heap.Back.{AreRegions}
use vibra.Memory.Heap.Contract.{IsHeap}
use vibra.Memory.Heap.Free.{merge_from-give_back}
use vibra.Memory.Heap.Regions.{
  added, inserted, join_regions, take_touching, empty, add_region, init,
}

add_u64-lem : (x y : ℕ) → x + y < u64_mod → add_u64 x y ≡ x + y
add_u64-lem x y lt = mod-eq_of_lt lt

-- An address in a single region.
region_of-single :
    (x a b : ℕ) (r : ℕ × ℕ) → region_of x ((a, b) ∷ []) ≡ some r → (r ≡ (a, b)) × (a ≤ x) × (x < b)
unfolding region_of
region_of-single x a b r e = elim (Bool-cases (leb a x && ltb x b)) [
  | inl here ↦ let e' : some (a, b) ≡ some r = rw here at e in (cc, ground arith, ground arith)
  | inr out ↦ absurd (let e' : none ≡ some r = rw out at e in cc)
]

pub region_of-inside : (x a b : ℕ) → a ≤ x → x < b → region_of x ((a, b) ∷ []) ≡ some (a, b)
unfolding region_of
region_of-inside x a b le lt = ground arith

region_of-outside : (x a b : ℕ) → b ≤ x → region_of x ((a, b) ∷ []) ≡ none
unfolding region_of
region_of-outside x a b le = ground arith

pub single-AreRegions : (a b : ℕ) → b ≤ a + max_heap_bytes → AreRegions ((a, b) ∷ [])
single-AreRegions a b le = record {
  separate = λ x y r e from to.
      let (same, lo, hi) = region_of-single x a b r e in
      region_of-inside y a b (omega arith) (omega (arith, ap (λ (q : ℕ × ℕ). q.1) same))
      ∙ ap some (sym same);
  ended = λ x r e.
      let (same, lo, hi) = region_of-single x a b r e in
      region_of-outside r.1 a b (omega (arith, ap (λ (q : ℕ × ℕ). q.1) same));
  narrow = λ x r e.
      let (same, lo, hi) = region_of-single x a b r e in
      omega (arith, ap (λ (q : ℕ × ℕ). q.1) same);
}

-- For a start above 0 and a size of at least 16 and at most 64 MiB, both multiples of 16 and the
-- end 2^33 bytes below 2^64, and with some fuel, `init` leaves a sound heap of one region and one
-- free block, which are the whole range.
pub init-IsHeap :
    (fuel start size : ℕ) (fl : FreeList)
    → 0 < fuel
    → 0 < start
    → start % 16 ≡ 0
    → size % 16 ≡ 0
    → 16 ≤ size
    → size ≤ max_heap_bytes
    → start + size + 2 ^ 33 < u64_mod
    → (fl' : FreeList) × (init fuel start size fl ≡ added true fl')
      × IsHeap fl' ((start, size) ∷ [])
      × (fl'.regions ≡ (start, start + size) ∷ [])
      × (fl'.total_bytes ≡ size)
unfolding init add_region empty join_regions take_touching insert_block inserted give_back
init-IsHeap fuel start size fl pos above al whole big small reach =
    let regions : List (ℕ × ℕ) = (start, start + size) ∷ [] in
    let sound = single-AreRegions start (start + size) (omega arith) in
    let size' : start + size - start ≡ size = omega arith in
    let new : IsBlock regions 0 start (start + size - start) = rw size' record {
      gap = above;
      aligned = al;
      whole = whole;
      big = big;
      small = omega arith;
      region = (start, start + size);
      home = region_of-inside start start (start + size) (omega arith) (omega arith);
      fits = omega arith;
      reach = reach;
    } in
    let fl1 : FreeList = record {
      head = none;
      regions = regions;
      total_bytes = saturating_add 0 size;
      cells = fl.cells;
    } in
    let (fl', ran, k) =
      merge_from-give_back regions sound add_u64 add_u64-lem start start (start + size)
        (omega arith) (omega arith) (omega arith) new fuel fl1 [] (omega arith) refl refl tt tt
        tt in
    let one : give_back start (start + size) [] ≡ (start, size) ∷ [] = rw size' refl in
    let k' = rw one at k in
    let e1 : ltb size min_block ≡ false = ground arith in
    let e2 : ltb max_heap_bytes (saturating_add 0 size) ≡ false = ground arith in
    let e3 : leb u64_mod (start + size) ≡ false = ground arith in
    let e4 : (start + size) % u64_mod ≡ start + size = mod-eq_of_lt (omega arith) in
    let e5 : saturating_add 0 size ≡ size = omega arith in
    (
      fl',
      rw (e1, e2) (rw (e3, e4) (rw ran refl)),
      record {
        head = k'.linked;
        holds = k'.holds;
        free = rw k'.same_regions (rw size' at new, tt);
        sound = rw k'.same_regions sound;
      },
      k'.same_regions,
      k'.same_total ∙ e5,
    )
