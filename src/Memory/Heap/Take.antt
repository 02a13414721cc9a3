-- ===== src/Memory/Heap/Take.antt =====
-- `allocate` of kernel/src/memory/heap.rs on the nodes in memory does first fit on the blocks.
use vibra.Common.{
  ℕ, ◌+◌, ◌-◌, ◌≤◌, ◌<◌, ◌≡◌, refl, ◌∙◌, List, ◌∷◌, Option, some, leb, if◌then◌else◌, arith,
  Bool-cases, inl, inr,
}
use vibra.Memory.Heap.{FreeList, min_block, set_next, set_size, link, carve}
use vibra.Memory.Heap.Blocks.{Blocks, IsBlock, AreFree, right_piece, left_piece}
use vibra.Memory.Heap.Pieces.{AreFree-lower}
use vibra.Memory.Heap.Chain.{head_of, Holds, node_size-entry, Becomes}
use vibra.Memory.Heap.Links.{
  put, put-other, put-same, IsBelow, link-Becomes, Becomes-after, put-Holds, Leads, Becomes-kept,
}

-- The part of the list that begins with node `a`, carved.
module _ (prev : Option ℕ) (lo a s start end : ℕ) (regions : List (ℕ × ℕ)) (fl : FreeList)
    (bs : Blocks) (b : IsBlock regions lo a s) (free : AreFree regions (a + s) bs)
    (holds : Holds fl.cells ((a, s) ∷ bs)) (under : IsBelow prev lo)
    (leads : Leads prev fl (some a)) (le : a ≤ start) (lt : start < end) (fits : end ≤ a + s)
    (right_free : AreFree regions start (right_piece end (a + s) bs)) where
  -- With a piece on the right, or none.
  right_fl : FreeList
  right_fl = if leb min_block (a + s - end) then put end (a + s - end) (head_of bs) fl else fl

  right : Blocks
  unfolding right_piece
  right = right_piece end (a + s) bs

  right-Holds : Holds right_fl.cells right
  unfolding right_fl right_piece right
  right-Holds = elim (Bool-cases (leb min_block (a + s - end))) [
    | inl r ↦ rw r (
        put-Holds end (a + s - end) regions fl bs (omega (arith, b.small))
          (AreFree-lower regions (a + s) end bs fits free) holds.1)
    | inr r ↦ rw r holds.1
  ]

  right-below : (x : ℕ) → x < end → right_fl.cells x ≡ fl.cells x
  unfolding right_fl
  right-below x lt' = elim (Bool-cases (leb min_block (a + s - end))) [
    | inl r ↦ rw r (put-other end (a + s - end) (head_of bs) fl x (omega arith))
    | inr r ↦ rw r refl
  ]

  right-same :
      (right_fl.head ≡ fl.head)
      × (right_fl.regions ≡ fl.regions)
      × (right_fl.total_bytes ≡ fl.total_bytes)
  unfolding right_fl
  right-same = elim (Bool-cases (leb min_block (a + s - end))) [
    | inl r ↦ rw r (put-same end (a + s - end) (head_of bs) fl)
    | inr r ↦ rw r (refl, refl, refl)
  ]

  carved : FreeList
  unfolding right_fl right
  carved =
      if leb min_block (start - a)
      then put a (start - a) (head_of right) right_fl
      else link prev (head_of right) right_fl

  carve-carved : carve prev a start (end - start) fl ≡ carved
  unfolding carve carved right_fl right right_piece
  carve-carved =
      let size = node_size-entry s (head_of bs) b.small in
      let e : start + (end - start) ≡ end = omega arith in
      elim (Bool-cases (leb min_block (a + s - end))) [
        | inl r ↦ rw (holds.0, size, e, r) refl
        | inr r ↦ rw (holds.0, size, e, r) refl
      ]

  carved-Becomes : Becomes prev lo fl (left_piece a start right) carved
  unfolding carved left_piece right set_next set_size
  carved-Becomes = elim (Bool-cases (leb min_block (start - a))) [
    | inl l ↦ rw l (
        Becomes-kept prev lo a fl (put a (start - a) (head_of right) right_fl)
          ((a, start - a) ∷ right) under leads refl
          (put-Holds a (start - a) regions right_fl right (omega (arith, b.small))
            (AreFree-lower regions start a right le right_free) right-Holds)
          (λ x le'.
            let g = b.gap in
            put-other a (start - a) (head_of right) right_fl x (omega arith)
            ∙ right-below x (omega arith))
          right-same.0 right-same.1 right-same.2)
    | inr l ↦ rw l (
        Becomes-after prev lo fl right_fl _ right under
          (λ x le'. right-below x (let g = b.gap in omega arith)) right-same.0 right-same.1
          right-same.2
          (link-Becomes prev lo regions right_fl right under
            (AreFree-lower regions start lo right (let g = b.gap in omega arith) right_free)
            right-Holds))
  ]

  pub carve-Becomes :
      Becomes prev lo fl
        (left_piece a start (right_piece end (a + s) bs))
        (carve prev a start (end - start) fl)
  unfolding right
  carve-Becomes = rw carve-carved carved-Becomes
