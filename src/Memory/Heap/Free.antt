-- ===== src/Memory/Heap/Free.antt =====
-- The search of `deallocate` and `insert_block` of kernel/src/memory/heap.rs: it ends, and what memory holds
-- afterwards are the blocks with the new one given back.
use vibra.Common.{
  ℕ, zero, suc, ◌+◌, ◌-◌, ◌≤◌, ◌<◌, ◌≡◌, refl, sym, ◌∙◌, List, [], ◌∷◌, none, some, true, false,
  leb, ◌==◌, u64_mod, arith, length, Bool-cases, inl, inr, ◌⊎◌,
}
use vibra.Memory.Heap.{FreeList, merge_block, merge_from, Ran, done}
use vibra.Memory.Heap.Blocks.{Blocks, cons_block, give_back, IsBlock, AreFree, regap}
use vibra.Memory.Heap.Back.{AreRegions, IsClear, give_back-AreFree}
use vibra.Memory.Heap.Chain.{head_of, entry, Holds, node_ok-Holds, Becomes}
use vibra.Memory.Heap.Merge.{Kept, merge_block-none, merge_block-some}

module _ (regions : List (ℕ × ℕ)) (sound : AreRegions regions) (add : ℕ → ℕ → ℕ)
    (sums : (x y : ℕ) → x + y < u64_mod → add x y ≡ x + y) (limit start end : ℕ)
    (from : start ≤ limit) (to : limit ≤ end) (lt : start < end)
    (new : IsBlock regions 0 start (end - start)) where
  give_back-stop :
      (c t : ℕ) (bs : Blocks)
      → end ≤ c
      → give_back start end ((c, t) ∷ bs) ≡ cons_block start (end - start) ((c, t) ∷ bs)
  unfolding give_back
  give_back-stop c t bs le = let e : leb end c ≡ true = ground arith in rw e refl

  give_back-pass :
      (c t : ℕ) (bs : Blocks)
      → c < end
      → give_back start end ((c, t) ∷ bs) ≡ cons_block c t (give_back start end bs)
  unfolding give_back
  give_back-pass c t bs le = let e : leb end c ≡ false = ground arith in rw e refl

  give_back-none : give_back start end [] ≡ cons_block start (end - start) []
  unfolding give_back cons_block
  give_back-none = refl

  -- Two blocks with a gap between them are not joined, whatever follows the second.
  cons_block-gap :
      (p ps c t : ℕ) (bs : Blocks)
      → p + ps < c
      → cons_block p ps (cons_block c t bs) ≡ (p, ps) ∷ cons_block c t bs
  unfolding cons_block
  cons_block-gap p ps c t [] gap = let e : (p + ps == c) ≡ false = ground arith in rw e refl
  cons_block-gap p ps c t ((d, u) ∷ bs) gap =
      let e : (p + ps == c) ≡ false = ground arith in
      elim (Bool-cases (c + t == d)) [ inl f ↦ rw (f, e) refl | inr f ↦ rw (f, e) refl ]

  head-cons_block : (c t : ℕ) (bs : Blocks) → head_of (cons_block c t bs) ≡ some c
  unfolding cons_block
  head-cons_block c t [] = refl
  head-cons_block c t ((d, u) ∷ bs) = elim (Bool-cases (c + t == d)) [
    | inl e ↦ rw e refl
    | inr e ↦ rw e refl
  ]

  whole_list :
      (lo : ℕ) (bs : Blocks)
      → lo < start
      → AreFree regions lo bs
      → IsClear start end bs
      → AreFree regions lo (give_back start end bs)
  whole_list lo bs above free clear =
      give_back-AreFree regions sound lo start end bs (regap lo new above) lt free clear

  -- The rest of the search behind the node of a block.
  abbrev Passed : ℕ → ℕ → FreeList → Blocks → Ran (Unit {0}) → Type 0
  Passed p ps fl bs r =
      (fl' : FreeList) × (r ≡ done tt fl')
      × Kept p fl (cons_block p ps (give_back start end bs)) fl'

  pass-Passed :
      (p ps c t : ℕ) (fl : FreeList) (bs : Blocks) (r : Ran (Unit {0}))
      → IsBlock regions (p + ps) c t
      → c < end
      → fl.cells p ≡ entry ps (some c)
      → Passed c t fl bs r
      → Passed p ps fl ((c, t) ∷ bs) r
  pass-Passed p ps c t fl bs r b before at (fl', ran, k) =
      let left = give_back start end bs in
      let g = b.gap in
      let first = head-cons_block c t left in
      (
        fl',
        ran,
        rw (give_back-pass c t bs before) (
            rw (cons_block-gap p ps c t left b.gap) (record {
              holds = (rw first (k.below p (omega arith) ∙ at), k.holds);
              below = λ x less. k.below x (omega arith);
              same_head = k.same_head;
              same_regions = k.same_regions;
              same_total = k.same_total;
            })),
      )

  stop-Passed :
      (lo p ps : ℕ) (fl : FreeList) (bs : Blocks)
      → IsBlock regions lo p ps
      → AreFree regions (p + ps) bs
      → p + ps ≤ start
      → IsClear start end bs
      → fl.cells p ≡ entry ps (head_of bs)
      → Holds fl.cells bs
      → give_back start end bs ≡ cons_block start (end - start) bs
      → Passed p ps fl bs (done tt (merge_block add start end (some p) (head_of bs) fl))
  stop-Passed lo p ps fl bs b free below clear at h stop =
      let g = b.gap in
      let big = b.big in
      let ok = whole_list lo ((p, ps) ∷ bs) (omega arith) (b, free) (inr below, clear) in
      let ok' = rw stop at rw (give_back-pass p ps bs (omega arith)) at ok in
      (
        _,
        refl,
        rw stop
            (merge_block-some regions add sums start end lt fl lo p ps bs below b free ok' at h),
      )

  -- A block that overlaps no other lies before the end, or behind it.
  behind :
      (lo c t : ℕ)
      → IsBlock regions lo c t
      → (end ≤ c) ⊎ (c + t ≤ start)
      → leb limit c ≡ true
      → end ≤ c
  behind lo c t b apart stop =
      let big = b.big in
      elim apart [ inl le ↦ le | inr le ↦ absurd (let l : limit ≤ c = ground arith in omega arith) ]

  before : (c t : ℕ) → (end ≤ c) ⊎ (c + t ≤ start) → leb limit c ≡ false → c + t ≤ start
  before c t apart stop = elim apart [
    | inl le ↦ absurd (let l : c < limit = ground arith in omega arith)
    | inr le ↦ le
  ]

  merge_from-some :
      (fuel lo p ps : ℕ) (fl : FreeList) (bs : Blocks)
      → length bs < fuel
      → fl.regions ≡ regions
      → IsBlock regions lo p ps
      → AreFree regions (p + ps) bs
      → p + ps ≤ start
      → IsClear start end bs
      → fl.cells p ≡ entry ps (head_of bs)
      → Holds fl.cells bs
      → Passed p ps fl bs (merge_from fuel add limit start end (some p) (head_of bs) fl)
  unfolding merge_from
  merge_from-some zero lo p ps fl bs len same b free below clear at h = absurd (omega arith)
  merge_from-some (suc fuel) lo p ps fl [] len same b free below clear at h =
      stop-Passed lo p ps fl [] b free below clear at h give_back-none
  merge_from-some (suc fuel) lo p ps fl ((c, t) ∷ bs) len same b (k, free) below (apart, clear) at
        (at', h) =
      let ok = node_ok-Holds fl (p + ps) c t (head_of bs) (rw same k) at' in
      elim (Bool-cases (leb limit c)) [
        | inl stop ↦
            rw (ok, stop)
              (stop-Passed lo p ps fl ((c, t) ∷ bs) b (k, free) below (apart, clear) at (at', h)
                (give_back-stop c t bs (behind (p + ps) c t k apart stop)))
        | inr go ↦
            let less = before c t apart go in
            let big = k.big in
            let rest =
              merge_from-some fuel (p + ps) c t fl bs (omega arith) same k free less clear at' h in
            rw (ok, go) (pass-Passed p ps c t fl bs _ k (omega arith) at (rw at' rest))
      ]

  -- Enough fuel for a list is one more than its blocks.
  pub merge_from-give_back :
      (fuel : ℕ) (fl : FreeList) (bs : Blocks)
      → length bs < fuel
      → fl.regions ≡ regions
      → fl.head ≡ head_of bs
      → AreFree regions 0 bs
      → IsClear start end bs
      → Holds fl.cells bs
      → (fl' : FreeList) × (merge_from fuel add limit start end none (head_of bs) fl ≡ done tt fl')
        × Becomes none 0 fl (give_back start end bs) fl'
  unfolding merge_from
  merge_from-give_back zero fl bs len same head free clear h = absurd (omega arith)
  merge_from-give_back (suc fuel) fl [] len same head free clear h =
      let ok = whole_list 0 [] new.gap tt tt in
      (
        _,
        refl,
        rw give_back-none (
            merge_block-none regions add sums start end lt fl 0 [] tt (rw give_back-none at ok) tt),
      )
  merge_from-give_back (suc fuel) fl ((c, t) ∷ bs) len same head (k, free) (apart, clear) (at, h) =
      let ok = node_ok-Holds fl 0 c t (head_of bs) (rw same k) at in
      elim (Bool-cases (leb limit c)) [
        | inl stop ↦
            let at_stop = give_back-stop c t bs (behind 0 c t k apart stop) in
            let sound' = whole_list 0 ((c, t) ∷ bs) new.gap (k, free) (apart, clear) in
            (rw (ok, stop)
              (
                _,
                refl,
                rw at_stop (
                    merge_block-none regions add sums start end lt fl 0 ((c, t) ∷ bs) (k, free)
                      (rw at_stop at sound') (at, h)),
              ))
        | inr go ↦
            let less = before c t apart go in
            let big = k.big in
            let (fl', ran, kept) =
              merge_from-some fuel 0 c t fl bs (omega arith) same k free less clear at h in
            (rw (ok, go)
              (
                fl',
                rw at ran,
                rw (give_back-pass c t bs (omega arith)) (record {
                  holds = kept.holds;
                  linked =
                      kept.same_head ∙ head ∙ sym (head-cons_block c t (give_back start end bs));
                  below = λ x le ne. kept.below x (let g = k.gap in omega arith);
                  same_regions = kept.same_regions;
                  same_total = kept.same_total;
                }),
              ))
      ]
