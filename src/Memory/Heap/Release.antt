-- ===== src/Memory/Heap/Release.antt =====
-- `deallocate` of kernel/src/memory/heap.rs against the list of free blocks, and after `allocate`.
use vibra.Common.{
  ℕ, ◌+◌, ◌-◌, ◌%◌, ◌^◌, ◌≤◌, ◌<◌, ◌≡◌, refl, ap, ◌∙◌, List, [], ◌∷◌, none, some, true, false, leb,
  ltb, ◌&&◌, max, u64_mod, arith, length, Bool-cases, inl, inr, saturating_add,
}
use native.Mathlib.Decide.{dec_lt}
use vibra.Memory.Heap.{FreeList, region_of, align_up, padded, inside, deallocate, merge_from, done}
use vibra.Memory.Heap.Blocks.{Blocks, give_back, is_free, IsBlock, AreFree}
use vibra.Memory.Heap.Back.{IsClear, give_back-AreFree}
use vibra.Memory.Heap.Free.{merge_from-give_back}
use vibra.Memory.Heap.Contract.{IsHeap, padded-lem}

region_of-start :
    (addr : ℕ) (regions : List (ℕ × ℕ)) (r : ℕ × ℕ) → region_of addr regions ≡ some r → r.0 ≤ addr
unfolding region_of
region_of-start addr [] r e = absurd (cc)
region_of-start addr ((a, b) ∷ rs) r e = elim (Bool-cases (leb a addr && ltb addr b)) [
  | inl here ↦ let e' : some (a, b) ≡ some r = rw here at e in let s : a ≡ r.0 = cc in ground arith
  | inr on ↦ region_of-start addr rs r (rw on at e)
]

saturating_add-lem : (x y : ℕ) → x + y < u64_mod → saturating_add x y ≡ x + y
saturating_add-lem x y lt = omega arith

-- A range of addresses that `allocate` may have returned: it lies in a region.
pub record IsTaken (regions : List (ℕ × ℕ)) (start size : ℕ) : Type 0 where
  pub above : 0 < start
  pub aligned : start % 16 ≡ 0
  pub region : ℕ × ℕ
  pub home : region_of start regions ≡ some region
  pub fits : start + padded size ≤ region.1
  pub reach : region.1 + 2 ^ 33 < u64_mod
  pub sized : size ≤ 2 ^ 32 - 16

-- It is a block.
taken-IsBlock :
    (regions : List (ℕ × ℕ)) (start size : ℕ)
    → IsTaken regions start size
    → IsBlock regions 0 start (start + padded size - start)
taken-IsBlock regions start size t =
    let pad = padded-lem size t.sized in
    let e : start + padded size - start ≡ padded size = omega arith in
    rw e record {
      gap = t.above;
      aligned = t.aligned;
      whole = pad.2;
      big = omega (arith, pad.0, pad.2);
      small = omega (arith, pad.3);
      region = t.region;
      home = t.home;
      fits = t.fits;
      reach = t.reach;
    }

-- The two tests of `deallocate` pass.
pub within :
    (start size : ℕ) (fl : FreeList)
    → IsTaken fl.regions start size
    → inside start (start + padded size) fl ≡ true
unfolding inside
within start size fl t =
    let lo = region_of-start start fl.regions t.region t.home in
    let f = t.fits in rw (t.home, inside) (ground arith)

passes :
    (fuel start size : ℕ) (fl : FreeList)
    → IsTaken fl.regions start size
    → deallocate fuel start size fl
      ≡ merge_from fuel saturating_add
          (start + padded size)
          start
          (start + padded size)
          none
          fl.head
          fl
unfolding deallocate padded align_up
passes fuel start size fl t =
    let f = t.fits in
    let r = t.reach in
    let small : leb u64_mod (start + padded size) ≡ false = ground arith in
    let ok = within start size fl t in rw (small, ok) refl

-- In a sound heap, with more fuel than there are blocks, for a size up to 2^32 - 16 and an
-- address above 0 that is a multiple of 16, when the bytes from there on, the size rounded up to
-- 16 of them, lie in one region that ends 2^33 bytes below 2^64 and overlap no free block:
-- `deallocate` returns, and memory then holds the nodes of the sorted blocks with those bytes
-- given back, joined with the neighbours they touch, again a sound heap with the same regions.
pub deallocate-give_back :
    (fuel start size : ℕ) (fl : FreeList) (bs : Blocks)
    → length bs < fuel
    → IsHeap fl bs
    → IsTaken fl.regions start size
    → IsClear start (start + padded size) bs
    → (fl' : FreeList) × (deallocate fuel start size fl ≡ done tt fl')
      × IsHeap fl' (give_back start (start + padded size) bs)
      × (fl'.regions ≡ fl.regions)
deallocate-give_back fuel start size fl bs len h t clear =
    let end = start + padded size in
    let pad = padded-lem size t.sized in
    let new = taken-IsBlock fl.regions start size t in
    let (fl', ran, k) =
      merge_from-give_back fl.regions h.sound saturating_add saturating_add-lem end start end
        (omega arith) (omega arith) (omega (arith, pad.0)) new fuel fl bs len refl h.head h.free
        clear h.holds in
    (
      fl',
      passes fuel start size fl t
          ∙ ap (λ x. merge_from fuel saturating_add end start end none x fl) h.head
          ∙ ran,
      record {
        head = k.linked;
        holds = k.holds;
        free = rw k.same_regions (
            give_back-AreFree fl.regions h.sound 0 start end bs new (omega (arith, pad.0)) h.free
              clear);
        sound = rw k.same_regions h.sound;
      },
      k.same_regions,
    )

-- A range of which no byte is free overlaps no free block.
pub taken-IsClear :
    (regions : List (ℕ × ℕ)) (lo start end : ℕ) (bs : Blocks)
    → start < end
    → AreFree regions lo bs
    → ((x : ℕ) → start ≤ x → x < end → is_free bs x ≡ false)
    → IsClear start end bs
unfolding is_free
taken-IsClear regions lo start end [] lt free apart = tt
taken-IsClear regions lo start end ((a, s) ∷ bs) lt (b, free) apart =
    let big = b.big in
    (
      elim (dec_lt a end) [
        | no beyond ↦ inl (omega arith)
        | yes before ↦ elim (dec_lt start (a + s)) [
          | no below ↦ inr (omega arith)
          | yes overlap ↦
              absurd (let clear = apart (max a start) (omega arith) (omega arith) in ground arith)
        ]
      ],
      taken-IsClear regions (a + s) start end bs lt free
          (λ x from to. let clear = apart x from to in ground arith),
    )
