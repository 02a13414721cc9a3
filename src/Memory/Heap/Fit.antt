-- ===== src/Memory/Heap/Fit.antt =====
-- The loop of `allocate` of kernel/src/memory/heap.rs over the nodes in memory does first fit on the blocks.
use vibra.Common.{
  ℕ, zero, suc, ◌+◌, ◌-◌, ◌*◌, ◌%◌, ◌^◌, ◌≤◌, ◌<◌, ◌≡◌, refl, ap, ◌∙◌, List, [], ◌∷◌, Option, none,
  some, true, false, leb, u64_mod, arith, length, Bool-cases, inl, inr,
}
use vibra.Memory.Heap.{
  FreeNode, FreeList, node_size, align_up, carve, allocate_at, allocate_from, Ran, done,
}
use vibra.Memory.Heap.Blocks.{Blocks, IsBlock, AreFree, first_fit, keep_block}
use vibra.Memory.Heap.First.{AreSeparate, right-AreFree}
use vibra.Memory.Heap.Pieces.{align_up-lem}
use vibra.Memory.Heap.Chain.{head_of, entry, Holds, node_size-entry, node_ok-Holds, Becomes}
use vibra.Memory.Heap.Links.{IsBelow, Leads, Becomes-kept}
use vibra.Memory.Heap.Take.{carve-Becomes}

-- What a run of the loop returns, and what has become of the list, as first fit says.
abbrev pub Took : Option ℕ → ℕ → FreeList → Option (ℕ × Blocks) → Ran (Option ℕ) → Type 0
Took prev lo fl none r = r ≡ done none fl
Took prev lo fl (some (start, left)) r =
    (fl' : FreeList) × (r ≡ done (some start) fl') × Becomes prev lo fl left fl'

module _ (regions : List (ℕ × ℕ)) (separate : AreSeparate regions) (size m : ℕ) (pos : 0 < size)
    (whole : size % 16 ≡ 0) (mpos : 0 < m) (reach : 16 * m ≤ 2 ^ 32) (room : size ≤ 2 ^ 32) where
  -- A node that is passed keeps its size; its link may change.
  pass-Took :
      (prev : Option ℕ) (lo a s : ℕ) (fl : FreeList) (bs : Blocks) (o : Option (ℕ × Blocks))
      (r : Ran (Option ℕ))
      → IsBlock regions lo a s
      → IsBelow prev lo
      → Leads prev fl (some a)
      → fl.cells a ≡ entry s (head_of bs)
      → Took (some a) (a + s) fl o r
      → Took prev lo fl (keep_block a s o) r
  pass-Took prev lo a s fl bs none r b under leads at took = took
  pass-Took prev lo a s fl bs (some (start, left)) r b under leads at (fl', ran, k) =
      let here : fl'.cells a ≡ entry s (head_of left) =
        k.linked.0
        ∙ ap (λ (n : FreeNode). record { size_magic = n.size_magic; next = head_of left }) at in
      (
        fl',
        ran,
        Becomes-kept prev lo a fl fl' ((a, s) ∷ left) under leads refl (here, k.holds)
            (λ x le.
              let g = b.gap in k.below x (omega arith) (λ e. let e' : a ≡ x = cc in omega arith))
            k.linked.1 k.same_regions k.same_total,
      )

  pub allocate_from-first_fit :
      (fuel : ℕ) (prev : Option ℕ) (lo : ℕ) (fl : FreeList) (bs : Blocks)
      → length bs < fuel
      → fl.regions ≡ regions
      → IsBelow prev lo
      → Leads prev fl (head_of bs)
      → AreFree regions lo bs
      → Holds fl.cells bs
      → Took prev lo fl
          (first_fit size (16 * m) bs)
          (allocate_from fuel size (16 * m) prev (head_of bs) fl)
  unfolding allocate_from allocate_at first_fit
  allocate_from-first_fit zero prev lo fl bs lt same under leads free holds = absurd (omega arith)
  allocate_from-first_fit (suc fuel) prev lo fl [] lt same under leads free holds = refl
  allocate_from-first_fit (suc fuel) prev lo fl ((a, s) ∷ bs) lt same under leads (b, free)
        (at, holds) =
      let up = align_up-lem a m mpos (omega (arith, b.fits, b.reach)) in
      let start = align_up a (16 * m) in
      let ok = node_ok-Holds fl lo a s (head_of bs) (rw same b) at in
      let n = node_size-entry s (head_of bs) b.small in
      let near : leb u64_mod (start + size) ≡ false =
        let f = b.fits in let r = b.reach in let u = up.1 in ground arith in
      rw ok elim (Bool-cases (leb (start + size) (a + s))) [
        | inl fit ↦
            let room' : start + size ≤ a + s = ground arith in
            let right_free =
              right-AreFree regions separate size m pos whole mpos reach lo a s start bs b free up.0
                up.2 room' in
            let e : start + size - start ≡ size = omega arith in
            let taken =
              carve-Becomes prev lo a s start (start + size) regions fl bs b free (at, holds) under
                leads up.0 (omega arith) room' right_free in
            let fit' : leb (start + size) (a + node_size (fl.cells a)) ≡ true = rw (at, n) fit in
            rw (near, fit) (rw fit' (carve prev a start size fl, refl, rw e at taken))
        | inr tight ↦
            let rest =
              allocate_from-first_fit fuel (some a) (a + s) fl bs (omega arith) same (omega arith)
                (ap FreeNode.next at) free holds in
            rw (at, n) (rw (near, tight) (pass-Took prev lo a s fl bs _ _ b under leads at rest))
      ]
