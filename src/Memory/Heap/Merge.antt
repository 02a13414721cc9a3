-- ===== src/Memory/Heap/Merge.antt =====
-- The part of `deallocate` and `insert_block` of kernel/src/memory/heap.rs behind the search: the new block is
-- joined with its neighbours in memory as it is in the list of blocks.
use vibra.Common.{
  ℕ, ◌+◌, ◌-◌, ◌≤◌, ◌<◌, ◌≡◌, ◌≢◌, refl, sym, ap, ◌∙◌, List, [], ◌∷◌, none, some, Bool, true, false,
  ◌==◌, u64_mod, arith, Bool-cases, inl, inr,
}
use vibra.Memory.Heap.{
  FreeNode, FreeList, node_size, set_size, link, absorb_right, new_node, merge_block,
}
use vibra.Memory.Heap.Blocks.{Blocks, cons_block, IsBlock, AreFree}
use vibra.Memory.Heap.Pieces.{AreFree-lower}
use vibra.Memory.Heap.Chain.{
  head_of, entry, Holds, node_size-entry, with_size-entry, Holds-frame, Becomes,
}
use vibra.Memory.Heap.Links.{put, put-other, put-same, put-Holds, link-Becomes, Becomes-after}

-- The blocks from `p` on have become `bs`; nothing below `p` has changed.
pub record Kept (p : ℕ) (fl : FreeList) (bs : Blocks) (fl' : FreeList) : Type 0 where
  pub holds : Holds fl'.cells bs
  pub below : (x : ℕ) → x < p → fl'.cells x ≡ fl.cells x
  pub same_head : fl'.head ≡ fl.head
  pub same_regions : fl'.regions ≡ fl.regions
  pub same_total : fl'.total_bytes ≡ fl.total_bytes

-- The new block with its right neighbour: where it ends, and the blocks behind it.
record Absorbed (add : ℕ → ℕ → ℕ) (start end : ℕ) (fl : FreeList) (bs : Blocks) : Type 0 where
  merged : Bool
  merged_end : ℕ
  rest : Blocks
  found : absorb_right add end (head_of bs) fl ≡ (merged, head_of rest, merged_end)
  joined : cons_block start (end - start) bs ≡ (start, merged_end - start) ∷ rest
  holds : Holds fl.cells rest
  longer : end ≤ merged_end
  alone : merged ≡ false → head_of rest ≡ head_of bs

module _ (regions : List (ℕ × ℕ)) (add : ℕ → ℕ → ℕ)
    (sums : (x y : ℕ) → x + y < u64_mod → add x y ≡ x + y) (start end : ℕ) (lt : start < end)
    (fl : FreeList) where
  absorb :
      (lo : ℕ) (bs : Blocks)
      → AreFree regions lo bs
      → Holds fl.cells bs
      → Absorbed add start end fl bs
  unfolding absorb_right cons_block
  absorb lo [] free h = record {
    merged = false;
    merged_end = end;
    rest = [];
    found = refl;
    joined = refl;
    holds = tt;
    longer = omega arith;
    alone = λ e. refl;
  }
  absorb lo ((c, t) ∷ bs) (b, free) (at, h) =
      let e : start + (end - start) ≡ end = omega arith in
      elim (Bool-cases (c == end)) [
        | inl touch ↦
            let same : end ≡ c = ground arith in
            let n = node_size-entry t (head_of bs) b.small in
            record {
              merged = true;
              merged_end = end + t;
              rest = bs;
              found = rw touch (rw (at, n) (rw (sums end t (omega (arith, b.fits, b.reach))) refl));
              joined =
                  let eq : (start + (end - start) == c) ≡ true = ground arith in
                  let size : end - start + t ≡ end + t - start = omega arith in
                  rw eq (rw size refl);
              holds = h;
              longer = omega arith;
              alone = λ e'. cc;
            }
        | inr apart ↦ record {
          merged = false;
          merged_end = end;
          rest = (c, t) ∷ bs;
          found = rw apart refl;
          joined = let ne : (start + (end - start) == c) ≡ false = ground arith in rw ne refl;
          holds = (at, h);
          longer = omega arith;
          alone = λ e'. refl;
        }
      ]

  -- No block before the new one.
  pub merge_block-none :
      (lo : ℕ) (bs : Blocks)
      → AreFree regions lo bs
      → AreFree regions lo (cons_block start (end - start) bs)
      → Holds fl.cells bs
      → Becomes none lo fl
          (cons_block start (end - start) bs)
          (merge_block add start end none (head_of bs) fl)
  unfolding merge_block new_node
  merge_block-none lo bs free ok h =
      let k = absorb lo bs free h in
      let size = k.merged_end - start in
      let (b, behind) : AreFree regions lo ((start, size) ∷ k.rest) = rw k.joined at ok in
      let fl1 = put start size (head_of k.rest) fl in
      let holds =
        put-Holds start size regions fl k.rest b.small
          (AreFree-lower regions (start + size) start k.rest (omega arith) behind) k.holds in
      rw k.joined (
        rw k.found (
          Becomes-after none lo fl fl1 (link none (some start) fl1) ((start, size) ∷ k.rest) tt
            (λ x le. put-other start size (head_of k.rest) fl x (omega (arith, b.gap))) refl refl
            refl (link-Becomes none lo regions fl1 ((start, size) ∷ k.rest) tt (b, behind) holds)))

  module _ (lo p ps : ℕ) (bs : Blocks) (below : p + ps ≤ start) (small : IsBlock regions lo p ps)
      (free : AreFree regions (p + ps) bs)
      (ok : AreFree regions lo (cons_block p ps (cons_block start (end - start) bs)))
      (at : fl.cells p ≡ entry ps (head_of bs)) (h : Holds fl.cells bs) where
    grown-Kept :
        (rest : Blocks) (s : ℕ)
        → AreFree regions lo ((p, s) ∷ rest)
        → Holds fl.cells rest
        → Kept p fl ((p, s) ∷ rest) (put p s (head_of rest) fl)
    grown-Kept rest s (b, behind) holds =
        let (one, two, three) = put-same p s (head_of rest) fl in
        record {
          holds =
              put-Holds p s regions fl rest b.small
                (AreFree-lower regions (p + s) p rest (omega arith) behind) holds;
          below = λ x less. put-other p s (head_of rest) fl x (omega arith);
          same_head = one;
          same_regions = two;
          same_total = three;
        }

    resized-Kept :
        (rest : Blocks) (s : ℕ)
        → AreFree regions lo ((p, s) ∷ rest)
        → Holds fl.cells rest
        → head_of rest ≡ head_of bs
        → Kept p fl ((p, s) ∷ rest) (set_size p s fl)
    unfolding set_size
    resized-Kept rest s (b, behind) holds same =
        let here = with_size-entry s (fl.cells p) b.small in
        let next : (fl.cells p).next ≡ head_of rest = ap FreeNode.next at ∙ sym same in
        record {
          holds = (
            rw (← next) (ground arith),
            Holds-frame regions (p + s) fl.cells _ rest behind
                (λ x above. let ne : p ≢ x = omega arith in ground arith) holds,
          );
          below = λ x less. let ne : p ≢ x = omega arith in ground arith;
          same_head = refl;
          same_regions = refl;
          same_total = refl;
        }

    linked-Kept :
        (rest : Blocks) (s : ℕ)
        → AreFree regions lo ((p, ps) ∷ (start, s) ∷ rest)
        → Holds fl.cells rest
        → Kept p fl
            ((p, ps) ∷ (start, s) ∷ rest)
            (link (some p) (some start) (put start s (head_of rest) fl))
    linked-Kept rest s (b, (new, behind)) holds =
        let fl1 = put start s (head_of rest) fl in
        let big = small.big in
        let holds1 =
          put-Holds start s regions fl rest new.small
            (AreFree-lower regions (start + s) start rest (omega arith) behind) holds in
        let k =
          link-Becomes (some p) p regions fl1 ((start, s) ∷ rest) (omega arith)
            (AreFree-lower regions (p + ps) p ((start, s) ∷ rest) (omega arith) (new, behind))
            holds1 in
        let kept = put-other start s (head_of rest) fl p (omega arith) ∙ at in
        let (one, two, three) = put-same start s (head_of rest) fl in
        record {
          holds = (
            k.linked.0
                ∙ ap (λ (n : FreeNode). record { size_magic = n.size_magic; next = some start })
                    kept,
            k.holds,
          );
          below = λ x less.
              k.below x (omega arith) (λ e. let e' : p ≡ x = cc in omega arith)
              ∙ put-other start s (head_of rest) fl x (omega arith);
          same_head = k.linked.1 ∙ one;
          same_regions = k.same_regions ∙ two;
          same_total = k.same_total ∙ three;
        }

    -- A block that ends where the new one begins takes it in.
    merge_block-left :
        p + ps ≡ start
        → Kept p fl
            (cons_block p ps (cons_block start (end - start) bs))
            (merge_block add start end (some p) (head_of bs) fl)
    unfolding merge_block cons_block
    merge_block-left touch =
        let k = absorb (p + ps) bs free h in
        let n = node_size-entry ps (head_of bs) small.small in
        let sum : add p (node_size (fl.cells p)) ≡ p + ps =
          rw (at, n) (sums p ps (omega (arith, small.fits, small.reach))) in
        let yes : (p + ps == start) ≡ true = ground arith in
        let yes' : (add p (node_size (fl.cells p)) == start) ≡ true = rw sum yes in
        let size : ps + (k.merged_end - start) ≡ k.merged_end - p = omega (arith, k.longer) in
        let ok' : AreFree regions lo ((p, k.merged_end - p) ∷ k.rest) =
          rw size at rw yes at rw k.joined at ok in
        elim (Bool-cases k.merged) [
          | inl m ↦ rw k.joined (
              rw yes (
                rw size
                  (rw (k.found) (rw (yes', m) (grown-Kept k.rest (k.merged_end - p) ok' k.holds)))))
          | inr m ↦ rw k.joined (
              rw yes (
                rw size (
                  rw (k.found) (
                    rw (yes', m)
                      (resized-Kept k.rest (k.merged_end - p) ok' k.holds (k.alone m))))))
        ]

    merge_block-apart :
        (p + ps == start) ≡ false
        → Kept p fl
            (cons_block p ps (cons_block start (end - start) bs))
            (merge_block add start end (some p) (head_of bs) fl)
    unfolding merge_block new_node cons_block
    merge_block-apart touch =
        let k = absorb (p + ps) bs free h in
        let size = k.merged_end - start in
        let n = node_size-entry ps (head_of bs) small.small in
        let sum : add p (node_size (fl.cells p)) ≡ p + ps =
          rw (at, n) (sums p ps (omega (arith, small.fits, small.reach))) in
        let apart : (add p (node_size (fl.cells p)) == start) ≡ false = rw sum touch in
        rw k.joined (
          rw (k.found, touch)
            (rw apart (linked-Kept k.rest size (rw (touch) at rw k.joined at ok) k.holds)))

    pub merge_block-some :
        Kept p fl
          (cons_block p ps (cons_block start (end - start) bs))
          (merge_block add start end (some p) (head_of bs) fl)
    merge_block-some = elim (Bool-cases (p + ps == start)) [
      | inl touch ↦ merge_block-left (ground arith)
      | inr apart ↦ merge_block-apart apart
    ]
