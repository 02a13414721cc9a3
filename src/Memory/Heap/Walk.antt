-- ===== src/Memory/Heap/Walk.antt =====
-- The walks over the free list of kernel/src/memory/heap.rs, `check` and `free_bytes`, count its blocks.
use vibra.Common.{
  ℕ, zero, suc, ◌+◌, ◌≤◌, ◌<◌, ◌≡◌, refl, ap, ◌∙◌, [], ◌∷◌, none, some, arith, length,
  saturating_add,
}
use vibra.Memory.Heap.{FreeList}
use vibra.Memory.Heap.Blocks.{Blocks, AreFree}
use vibra.Memory.Heap.Chain.{head_of, Holds, node_size-entry, node_ok-Holds}
use vibra.Memory.Heap.Contract.{IsHeap}
use vibra.Memory.Heap.Regions.{check_from, check, free_from, free_bytes}

-- The bytes of the blocks.
abbrev pub bytes_of : Blocks → ℕ
bytes_of [] = 0
bytes_of ((a, s) ∷ bs) = s + bytes_of bs

-- The blocks before `lo` have no more than `lo` bytes, so the sum never saturates.
check_from-bytes_of :
    (fuel lo n acc : ℕ) (fl : FreeList) (bs : Blocks)
    → length bs < fuel
    → acc ≤ lo
    → AreFree fl.regions lo bs
    → Holds fl.cells bs
    → check_from fuel (head_of bs) n acc fl ≡ some (n + length bs, acc + bytes_of bs, none)
unfolding check_from
check_from-bytes_of zero lo n acc fl bs len le free h = absurd (omega arith)
check_from-bytes_of (suc fuel) lo n acc fl [] len le free h =
    let e : n + 0 ≡ n = omega arith in let f : acc + 0 ≡ acc = omega arith in rw (e, f) refl
check_from-bytes_of (suc fuel) lo n acc fl ((a, s) ∷ bs) len le (b, free) (at, h) =
    let ok = node_ok-Holds fl lo a s (head_of bs) b at in
    let size = node_size-entry s (head_of bs) b.small in
    let exact : saturating_add acc s ≡ acc + s = omega (arith, b.gap, b.fits, b.reach) in
    let rest =
      check_from-bytes_of fuel (a + s) (suc n) (acc + s) fl bs (omega arith) (omega (arith, b.gap))
        free h in
    let e : suc n + length bs ≡ n + suc (length bs) = omega arith in
    let f : acc + s + bytes_of bs ≡ acc + (s + bytes_of bs) = omega arith in
    rw ok (rw (at, size) (rw exact (rest ∙ rw (e, f) refl)))

free_from-bytes_of :
    (fuel lo acc : ℕ) (fl : FreeList) (bs : Blocks)
    → length bs < fuel
    → acc ≤ lo
    → AreFree fl.regions lo bs
    → Holds fl.cells bs
    → free_from fuel (head_of bs) acc fl ≡ some (acc + bytes_of bs)
unfolding free_from
free_from-bytes_of zero lo acc fl bs len le free h = absurd (omega arith)
free_from-bytes_of (suc fuel) lo acc fl [] len le free h =
    let f : acc + 0 ≡ acc = omega arith in rw f refl
free_from-bytes_of (suc fuel) lo acc fl ((a, s) ∷ bs) len le (b, free) (at, h) =
    let ok = node_ok-Holds fl lo a s (head_of bs) b at in
    let size = node_size-entry s (head_of bs) b.small in
    let exact : saturating_add acc s ≡ acc + s = omega (arith, b.gap, b.fits, b.reach) in
    let rest =
      free_from-bytes_of fuel (a + s) (acc + s) fl bs (omega arith) (omega (arith, b.gap)) free h in
    let f : acc + s + bytes_of bs ≡ acc + (s + bytes_of bs) = omega arith in
    rw ok (rw (at, size) (rw exact (rest ∙ rw f refl)))

-- In a sound heap and with more fuel than there are blocks, `check` reports the number of the
-- free blocks, their bytes without saturation and no bad node, and `free_bytes` gives the same
-- bytes.
pub check-free_bytes :
    (fuel : ℕ) (fl : FreeList) (bs : Blocks)
    → length bs < fuel
    → IsHeap fl bs
    → (check fuel fl ≡ some (length bs, bytes_of bs, none))
      × (free_bytes fuel fl ≡ some (bytes_of bs))
unfolding check free_bytes
check-free_bytes fuel fl bs len h =
    let z : 0 + length bs ≡ length bs = omega arith in
    let z' : 0 + bytes_of bs ≡ bytes_of bs = omega arith in
    (
      ap (λ x. check_from fuel x 0 0 fl) h.head
          ∙ rw (z, z') at (check_from-bytes_of fuel 0 0 0 fl bs len (omega arith) h.free h.holds),
      ap (λ x. free_from fuel x 0 fl) h.head
          ∙ rw z' at (free_from-bytes_of fuel 0 0 fl bs len (omega arith) h.free h.holds),
    )
