-- ===== src/Memory/Heap/Back.antt =====
-- A block given back to the free blocks of kernel/src/memory/heap.rs: they stay sorted, apart and inside
-- their regions, and exactly the bytes of the block are free as well.
use vibra.Common.{
  ℕ, ◌+◌, ◌-◌, ◌≤◌, ◌<◌, ◌≡◌, ◌≢◌, refl, sym, ap, ◌∙◌, List, [], ◌∷◌, none, some, leb, ltb, ◌==◌,
  ◌&&◌, ◌||◌, arith, Bool-cases, inl, inr, ◌⊎◌,
}
use native.Mathlib.Decide.{dec_lt}
use vibra.Memory.Heap.{size_span, region_of}
use vibra.Memory.Heap.Blocks.{Blocks, cons_block, give_back, is_free, IsBlock, AreFree, regap}
use vibra.Memory.Heap.First.{AreSeparate}
use vibra.Memory.Heap.Pieces.{AreFree-lower}

-- No region begins where another ends, and each is small enough for the size field of a node.
pub record AreRegions (regions : List (ℕ × ℕ)) : Type 0 where
  pub separate : AreSeparate regions
  pub ended : (x : ℕ) (r : ℕ × ℕ) → region_of x regions ≡ some r → region_of r.1 regions ≡ none
  pub narrow : (x : ℕ) (r : ℕ × ℕ) → region_of x regions ≡ some r → r.1 < x + size_span

-- The block `start` to `end` overlaps no free block.
abbrev pub IsClear : ℕ → ℕ → Blocks → Type 0
IsClear start end [] = Unit
IsClear start end ((a, s) ∷ bs) = ((end ≤ a) ⊎ (a + s ≤ start)) × IsClear start end bs

module _ (regions : List (ℕ × ℕ)) (h : AreRegions regions) where
  -- Two blocks that touch lie in one region.
  same_region :
      (a s t lo lo' : ℕ)
      → (k : IsBlock regions lo a s) → (l : IsBlock regions lo' (a + s) t) → a + s + t ≤ k.region.1
  same_region a s t lo lo' k l = elim (dec_lt (a + s) k.region.1) [
    | yes within ↦
        let e : some k.region ≡ some l.region =
          sym (h.separate a (a + s) k.region k.home (omega arith) within) ∙ l.home in
        let one : k.region ≡ l.region = cc in omega (arith, l.fits, ap (λ (r : ℕ × ℕ). r.1) one)
    | no beyond ↦
        let at_end : a + s ≡ k.region.1 = omega (arith, k.fits) in
        let e : region_of (a + s) regions ≡ none = rw at_end (h.ended a k.region k.home) in
        absurd (cc (sym e ∙ l.home))
  ]

  cons_block-AreFree :
      (lo a s : ℕ) (bs : Blocks)
      → IsBlock regions lo a s
      → AreFree regions (a + s - 1) bs
      → AreFree regions lo (cons_block a s bs)
  unfolding cons_block
  cons_block-AreFree lo a s [] k rest = (k, tt)
  cons_block-AreFree lo a s ((b, t) ∷ bs) k (l, rest) = elim (Bool-cases (a + s == b)) [
    | inl touch ↦
        let at : b ≡ a + s = ground arith in
        let l' = rw at at l in
        let joined = same_region a s t lo (a + s - 1) k l' in
        rw touch (
          record {
            gap = k.gap;
            aligned = k.aligned;
            whole = omega (arith, k.whole, l.whole);
            big = omega (arith, k.big);
            small = omega (arith, joined, h.narrow a k.region k.home);
            region = k.region;
            home = k.home;
            fits = omega (arith, joined);
            reach = k.reach;
          },
          (let e : b + t ≡ a + (s + t) = omega arith in rw e at rest),
        )
    | inr apart ↦ rw apart (
      k,
      (
        regap (a + s) l
            (let g = l.gap in let ne : a + s ≢ b = ground arith in let big = k.big in omega arith),
        rest,
      ),
    )
  ]

  pub give_back-AreFree :
      (lo start end : ℕ) (bs : Blocks)
      → IsBlock regions lo start (end - start)
      → start < end
      → AreFree regions lo bs
      → IsClear start end bs
      → AreFree regions lo (give_back start end bs)
  unfolding give_back
  give_back-AreFree lo start end [] k lt free clear = (k, tt)
  give_back-AreFree lo start end ((a, s) ∷ bs) k lt (b, free) (c, clear) =
      elim (Bool-cases (leb end a)) [
        | inl before ↦ rw before (
            cons_block-AreFree lo start (end - start) ((a, s) ∷ bs) k
              (regap (start + (end - start) - 1) b (ground arith), free))
        | inr after ↦
            let below : a + s ≤ start = elim c [
              | inl before ↦ ground arith
              | inr behind ↦ behind
            ] in
            rw after (
              cons_block-AreFree lo a s _ b (
                give_back-AreFree (a + s - 1) start end bs
                  (regap (a + s - 1) k (let big = b.big in omega arith)) lt
                  (AreFree-lower regions (a + s) (a + s - 1) bs (omega arith) free) clear))
      ]

is_free-cons_block :
    (a s : ℕ) (bs : Blocks) (x : ℕ)
    → is_free (cons_block a s bs) x ≡ (leb a x && ltb x (a + s) || is_free bs x)
unfolding is_free cons_block
is_free-cons_block a s [] x = refl
is_free-cons_block a s ((b, t) ∷ bs) x = elim (Bool-cases (a + s == b)) [
  | inl touch ↦ rw touch (ground arith)
  | inr apart ↦ rw apart refl
]

-- Afterwards exactly the bytes of the block are free as well.
pub is_free-give_back :
    (start end : ℕ) (bs : Blocks) (x : ℕ)
    → start < end
    → is_free (give_back start end bs) x ≡ (leb start x && ltb x end || is_free bs x)
unfolding is_free give_back
is_free-give_back start end [] x lt = let e : start + (end - start) ≡ end = omega arith in rw e refl
is_free-give_back start end ((a, s) ∷ bs) x lt =
    let e : start + (end - start) ≡ end = omega arith in
    elim (Bool-cases (leb end a)) [
      | inl before ↦ rw before (rw (is_free-cons_block, e) refl)
      | inr after ↦
          rw after (
            rw (is_free-cons_block)
              (let rest = is_free-give_back start end bs x lt in ground arith))
    ]
