-- ===== src/Memory/Heap/Pieces.antt =====
-- A block of the heap of kernel/src/memory/heap.rs that is split in pieces, and given back.
use vibra.Common.{
  ℕ, ◌+◌, ◌-◌, ◌*◌, ◌/◌, ◌%◌, ◌≤◌, ◌<◌, ◌≡◌, refl, ◌∙◌, List, [], ◌∷◌, true, false, leb, ◌==◌,
  u64_mod, arith, Bool-cases, inl, inr,
}
use native.Mathlib.Nat.{mod-eq_of_lt, mod-lt, mod-add-div', mul_left_comm, mul-mod_left}
use vibra.Memory.Heap.{min_block, align_up}
use vibra.Memory.Heap.Blocks.{
  Blocks, cons_block, give_back, right_piece, left_piece, is_free, AreFree, regap,
}

pub AreFree-lower :
    (regions : List (ℕ × ℕ)) (lo lo' : ℕ) (bs : Blocks)
    → lo' ≤ lo
    → AreFree regions lo bs
    → AreFree regions lo' bs
AreFree-lower regions lo lo' [] le h = h
AreFree-lower regions lo lo' ((a, s) ∷ bs) le (b, h) = (regap lo' b (omega (arith, b.gap)), h)

-- A block of the list begins behind `lo`, so `lo` is no neighbour.
pub cons_block-apart :
    (regions : List (ℕ × ℕ)) (a s : ℕ) (bs : Blocks)
    → AreFree regions (a + s) bs
    → cons_block a s bs ≡ (a, s) ∷ bs
unfolding cons_block
cons_block-apart regions a s [] h = refl
cons_block-apart regions a s ((b, t) ∷ bs) (k, h) = let g = k.gap in ground arith

-- Blocks behind the block that is given back stay as they are.
give_back-behind :
    (regions : List (ℕ × ℕ)) (start end : ℕ) (bs : Blocks)
    → start < end
    → AreFree regions end bs
    → give_back start end bs ≡ (start, end - start) ∷ bs
unfolding give_back cons_block
give_back-behind regions start end [] lt h = refl
give_back-behind regions start end ((b, t) ∷ bs) lt (k, h) = let g = k.gap in ground arith

give_back-right :
    (regions : List (ℕ × ℕ)) (start end block_end : ℕ) (bs : Blocks)
    → start < end
    → end ≤ block_end
    → (block_end - end) % 16 ≡ 0
    → AreFree regions block_end bs
    → give_back start end (right_piece end block_end bs) ≡ (start, block_end - start) ∷ bs
unfolding give_back right_piece cons_block
give_back-right regions start end block_end bs lt le whole h =
    elim (Bool-cases (leb min_block (block_end - end))) [
      | inl some_left ↦
          let touch : (start + (end - start) == end) ≡ true = ground arith in
          let behind : leb end end ≡ true = ground arith in
          let size : (end - start) + (block_end - end) ≡ block_end - start = omega arith in
          rw (some_left) (rw (behind) (rw touch (rw size refl)))
      | inr none_left ↦
          let same : end ≡ block_end = ground arith in
          rw none_left (rw (← same) (give_back-behind regions start end bs lt (rw (← same) at h)))
    ]

-- A block that has been split in up to three pieces is whole again.
pub give_back-pieces :
    (regions : List (ℕ × ℕ)) (a s start end : ℕ) (bs : Blocks)
    → a ≤ start
    → start < end
    → end ≤ a + s
    → (start - a) % 16 ≡ 0
    → (a + s - end) % 16 ≡ 0
    → AreFree regions (a + s) bs
    → give_back start end (left_piece a start (right_piece end (a + s) bs)) ≡ (a, s) ∷ bs
unfolding give_back left_piece cons_block
give_back-pieces regions a s start end bs le lt fits l r h =
    elim (Bool-cases (leb min_block (start - a))) [
      | inl some_left ↦
          let past : leb end a ≡ false = ground arith in
          let touch : (a + (start - a) == start) ≡ true = ground arith in
          let size : (start - a) + (a + s - start) ≡ s = omega arith in
          rw some_left (
            rw past (
              rw (give_back-right regions start end (a + s) bs lt fits r h)
                (rw touch (rw size refl))))
      | inr none_left ↦
          let same : start ≡ a = ground arith in
          let size : a + s - start ≡ s = omega arith in
          rw none_left
            (give_back-right regions start end (a + s) bs lt fits r h ∙ rw (size, same) refl)
    ]

-- The address that `align_up` gives, for an alignment `16 * m`.
pub align_up-lem :
    (addr m : ℕ)
    → 0 < m
    → addr + 16 * m < u64_mod
    → (addr ≤ align_up addr (16 * m))
      × (align_up addr (16 * m) < addr + 16 * m)
      × (align_up addr (16 * m) % 16 ≡ 0)
      × (align_up addr (16 * m) % (16 * m) ≡ 0)
unfolding align_up
align_up-lem addr m pos room =
    let n = addr + (16 * m - 1) in
    let al = 16 * m in
    let low : n % u64_mod ≡ n = mod-eq_of_lt (omega arith) in
    let parts = mod-add-div' n al in
    let rest = mod-lt n {m = al} (omega arith) in
    let sixteen = mul_left_comm (n / al) 16 m in
    rw low (
      omega (arith, parts, rest),
      omega (arith, parts, rest),
      omega (arith, sixteen),
      mul-mod_left (n / al) al,
    )

pub is_free-below :
    (regions : List (ℕ × ℕ)) (lo : ℕ) (bs : Blocks) (x : ℕ)
    → AreFree regions lo bs
    → x ≤ lo
    → is_free bs x ≡ false
unfolding is_free
is_free-below regions lo [] x h le = refl
is_free-below regions lo ((a, s) ∷ bs) x (b, h) le =
    let g = b.gap in let rest = is_free-below regions (a + s) bs x h (omega arith) in ground arith

-- The two pieces of a block keep clear of what was taken.
pub pieces-apart :
    (regions : List (ℕ × ℕ)) (a s start end x : ℕ) (bs : Blocks)
    → start ≤ x
    → x < end
    → end ≤ a + s
    → AreFree regions (a + s) bs
    → is_free (left_piece a start (right_piece end (a + s) bs)) x ≡ false
unfolding is_free left_piece right_piece
pieces-apart regions a s start end x bs lo hi fits h =
    let behind = is_free-below regions (a + s) bs x h (omega arith) in
    elim (Bool-cases (leb min_block (start - a))) [
      | inl l ↦ elim (Bool-cases (leb min_block (a + s - end))) [
        | inl r ↦ rw (l, r) (ground arith)
        | inr r ↦ rw (l, r) (ground arith)
      ]
      | inr l ↦ elim (Bool-cases (leb min_block (a + s - end))) [
        | inl r ↦ rw (l, r) (ground arith)
        | inr r ↦ rw (l, r) (ground arith)
      ]
    ]
