-- ===== src/Memory/Heap/First.antt =====
-- First fit on the free blocks of kernel/src/memory/heap.rs: what is taken, what is left, and that giving
-- it back restores the blocks.
use vibra.Common.{
  ℕ, ◌+◌, ◌-◌, ◌*◌, ◌%◌, ◌^◌, ◌≤◌, ◌<◌, ◌≡◌, List, [], ◌∷◌, Option, none, some, false, leb, u64_mod,
  arith, Bool-cases, inl, inr,
}
use vibra.Memory.Heap.{min_block, region_of, align_up}
use vibra.Memory.Heap.Blocks.{
  Blocks, give_back, right_piece, left_piece, keep_block, first_fit, is_free, IsBlock, AreFree,
}
use vibra.Memory.Heap.Pieces.{
  AreFree-lower, cons_block-apart, give_back-pieces, align_up-lem, pieces-apart,
}

-- An address inside the region of another one has that region.
abbrev pub AreSeparate : List (ℕ × ℕ) → Type 0
AreSeparate regions =
    (x y : ℕ) (r : ℕ × ℕ)
    → region_of x regions ≡ some r
    → x ≤ y
    → y < r.1
    → region_of y regions ≡ some r

-- What first fit takes: an aligned address in a free block; giving the bytes back restores the blocks.
pub record IsFit (regions : List (ℕ × ℕ)) (lo size align : ℕ) (bs : Blocks) (start : ℕ)
    (left : Blocks) : Type 0 where
  pub aligned : start % align ≡ 0
  pub above : lo < start
  pub sound : AreFree regions lo left
  pub restores : give_back start (start + size) left ≡ bs
  pub apart : (x : ℕ) → start ≤ x → x < start + size → is_free left x ≡ false
  pub region : ℕ × ℕ
  pub home : region_of start regions ≡ some region
  pub fits : start + size ≤ region.1
  pub reach : region.1 + 2 ^ 33 < u64_mod

-- No block has room for `size` bytes at an aligned address.
abbrev pub NoRoom : ℕ → ℕ → Blocks → Type 0
NoRoom size align [] = Unit
NoRoom size align ((a, s) ∷ bs) = (a + s < align_up a align + size) × NoRoom size align bs

abbrev pub Fits : List (ℕ × ℕ) → ℕ → ℕ → ℕ → Blocks → Option (ℕ × Blocks) → Type 0
Fits regions lo size align bs none = NoRoom size align bs
Fits regions lo size align bs (some (start, left)) = IsFit regions lo size align bs start left

module _ (regions : List (ℕ × ℕ)) (separate : AreSeparate regions) (size m : ℕ) (pos : 0 < size)
    (whole : size % 16 ≡ 0) (mpos : 0 < m) (reach : 16 * m ≤ 2 ^ 32) where
  pub right-AreFree :
      (lo a s start : ℕ) (bs : Blocks)
      → IsBlock regions lo a s
      → AreFree regions (a + s) bs
      → a ≤ start
      → start % 16 ≡ 0
      → start + size ≤ a + s
      → AreFree regions start (right_piece (start + size) (a + s) bs)
  unfolding right_piece
  right-AreFree lo a s start bs b h le al fits =
      elim (Bool-cases (leb min_block (a + s - (start + size)))) [
        | inl r ↦ rw r (
          record {
            gap = omega arith;
            aligned = omega arith;
            whole = omega (arith, b.aligned, b.whole);
            big = ground arith;
            small = omega (arith, b.small);
            region = b.region;
            home =
                separate a (start + size) b.region b.home (omega arith)
                  (let big : 16 ≤ a + s - (start + size) = ground arith in omega (arith, b.fits));
            fits = omega (arith, b.fits);
            reach = b.reach;
          },
          (let e : start + size + (a + s - (start + size)) ≡ a + s = omega arith in rw e h),
        )
        | inr r ↦ rw r (AreFree-lower regions (a + s) start bs (omega arith) h)
      ]

  left-AreFree :
      (lo a s start : ℕ) (bs : Blocks)
      → IsBlock regions lo a s
      → a ≤ start
      → start % 16 ≡ 0
      → start ≤ a + s
      → AreFree regions start bs
      → AreFree regions lo (left_piece a start bs)
  unfolding left_piece
  left-AreFree lo a s start bs b le al fits h = elim (Bool-cases (leb min_block (start - a))) [
    | inl l ↦ rw l (
      record {
        gap = b.gap;
        aligned = b.aligned;
        whole = omega (arith, b.aligned);
        big = ground arith;
        small = omega (arith, b.small);
        region = b.region;
        home = b.home;
        fits = omega (arith, b.fits);
        reach = b.reach;
      },
      (let e : a + (start - a) ≡ start = omega arith in rw e h),
    )
    | inr l ↦ rw l (AreFree-lower regions start lo bs (omega (arith, b.gap)) h)
  ]

  keep-Fits :
      (lo a s : ℕ) (bs : Blocks) (r : Option (ℕ × Blocks))
      → IsBlock regions lo a s
      → AreFree regions (a + s) bs
      → a + s < align_up a (16 * m) + size
      → Fits regions (a + s) size (16 * m) bs r
      → Fits regions lo size (16 * m) ((a, s) ∷ bs) (keep_block a s r)
  unfolding give_back is_free
  keep-Fits lo a s bs none b h tight it = (tight, it)
  keep-Fits lo a s bs (some (start, left)) b h tight it =
      let up = it.above in
      let g = b.gap in
      let past : leb (start + size) a ≡ false = ground arith in
      record {
        aligned = it.aligned;
        above = omega arith;
        sound = (b, it.sound);
        restores = rw past (rw it.restores (cons_block-apart regions a s bs h));
        apart = λ x from to. let clear = it.apart x from to in ground arith;
        region = it.region;
        home = it.home;
        fits = it.fits;
        reach = it.reach;
      }

  pub first_fit-Fits :
      (lo : ℕ) (bs : Blocks)
      → AreFree regions lo bs
      → Fits regions lo size (16 * m) bs (first_fit size (16 * m) bs)
  unfolding first_fit
  first_fit-Fits lo [] h = tt
  first_fit-Fits lo ((a, s) ∷ bs) (b, h) =
      let up = align_up-lem a m mpos (omega (arith, b.fits, b.reach)) in
      elim (Bool-cases (leb (align_up a (16 * m) + size) (a + s))) [
        | inl fit ↦
            let start = align_up a (16 * m) in
            let room : start + size ≤ a + s = ground arith in
            rw fit record {
              aligned = up.3;
              above = omega (arith, b.gap, up.0);
              sound =
                  left-AreFree lo a s start _ b up.0 up.2 (omega arith)
                    (right-AreFree lo a s start bs b h up.0 up.2 room);
              restores =
                  give_back-pieces regions a s start (start + size) bs up.0 (omega arith) room
                    (omega (arith, b.aligned, up.2)) (omega (arith, b.aligned, b.whole, up.2)) h;
              apart =
                  λ x from to. pieces-apart regions a s start (start + size) x bs from to room h;
              region = b.region;
              home = separate a start b.region b.home up.0 (omega (arith, b.fits));
              fits = omega (arith, b.fits);
              reach = b.reach;
            }
        | inr tight ↦
            rw tight (keep-Fits lo a s bs _ b h (ground arith) (first_fit-Fits (a + s) bs h))
      ]
