-- ===== src/Memory/Heap/Promise.antt =====
-- What `allocate` of kernel/src/memory/heap.rs promises about the bytes it returns, and what giving them
-- back restores.
use vibra.Common.{
  ℕ, suc, ◌+◌, ◌-◌, ◌*◌, ◌/◌, ◌%◌, ◌≤◌, ◌<◌, ◌≡◌, sym, ◌∙◌, [], ◌∷◌, Option, none, some, Bool, true,
  false, not, leb, ltb, ◌&&◌, ◌||◌, max, arith, length, Bool-cases, inl, inr,
}
use native.Mathlib.Nat.{mod-add-div', mul_left_comm}
use vibra.Memory.Heap.{
  FreeList, granule, min_block, align_up, padded, inside, allocate, deallocate, Ran, done,
}
use vibra.Memory.Heap.Blocks.{Blocks, right_piece, left_piece, keep_block, first_fit, is_free}
use vibra.Memory.Heap.First.{IsFit, Fits, NoRoom}
use vibra.Memory.Heap.Back.{is_free-give_back}
use vibra.Memory.Heap.Contract.{
  IsHeap, IsLayout, Allocates, padded-lem, sixteens, first_fit-layout, allocate-first_fit,
}
use vibra.Memory.Heap.Release.{IsTaken, within, taken-IsClear, deallocate-give_back}

-- First fit splits one block at most.
abbrev IsShort : ℕ → Option (ℕ × Blocks) → Type 0
IsShort n none = Unit
IsShort n (some (start, left)) = length left ≤ suc n

length-pieces :
    (a start end block_end : ℕ) (bs : Blocks)
    → length (left_piece a start (right_piece end block_end bs)) ≤ suc (suc (length bs))
unfolding left_piece right_piece
length-pieces a start end block_end bs = elim (Bool-cases (leb min_block (start - a))) [
  | inl l ↦ elim (Bool-cases (leb min_block (block_end - end))) [
    | inl r ↦ rw (l, r) (omega arith)
    | inr r ↦ rw (l, r) (omega arith)
  ]
  | inr l ↦ elim (Bool-cases (leb min_block (block_end - end))) [
    | inl r ↦ rw (l, r) (omega arith)
    | inr r ↦ rw (l, r) (omega arith)
  ]
]

keep_block-IsShort :
    (a s n : ℕ) (o : Option (ℕ × Blocks)) → IsShort n o → IsShort (suc n) (keep_block a s o)
keep_block-IsShort a s n none h = tt
keep_block-IsShort a s n (some (start, left)) h = omega arith

first_fit-IsShort : (size align : ℕ) (bs : Blocks) → IsShort (length bs) (first_fit size align bs)
unfolding first_fit
first_fit-IsShort size align [] = tt
first_fit-IsShort size align ((a, s) ∷ bs) =
    elim (Bool-cases (leb (align_up a align + size) (a + s))) [
      | inl fit ↦ rw fit (length-pieces a (align_up a align) (align_up a align + size) (a + s) bs)
      | inr tight ↦
          rw tight (keep_block-IsShort a s (length bs) _ (first_fit-IsShort size align bs))
    ]

-- What holds when `allocate` has returned `start`: which blocks are left.
record Taking (fl : FreeList) (bs : Blocks) (size align start : ℕ) (fl' : FreeList) : Type 0 where
  left : Blocks
  heap : IsHeap fl' left
  fit : IsFit fl.regions 0 (padded size) (max align granule) bs start left
  short : length left ≤ suc (length bs)
  same_regions : fl'.regions ≡ fl.regions

took_block :
    (fl fl' : FreeList) (bs : Blocks) (size align start : ℕ) (o : Option (ℕ × Blocks))
    (r : Ran (Option ℕ))
    → Fits fl.regions 0 (padded size) (max align granule) bs o
    → IsShort (length bs) o
    → Allocates fl o r
    → r ≡ done (some start) fl'
    → Taking fl bs size align start fl'
took_block fl fl' bs size align start none r fits short took got =
    absurd (let e : done none fl ≡ done (some start) fl' = sym took ∙ got in cc)
took_block fl fl' bs size align start (some (at, left)) r fits short (fl1, ran, heap, same, total)
      got =
    let e : done (some at) fl1 ≡ done (some start) fl' = sym ran ∙ got in
    let here : at ≡ start = cc in
    let now : fl1 ≡ fl' = cc in
    record {
      left = left;
      heap = rw now at heap;
      fit = rw here at fits;
      short = short;
      same_regions = rw now at same;
    }

taking :
    (fuel : ℕ) (fl fl' : FreeList) (bs : Blocks) (size align start : ℕ)
    → length bs < fuel
    → IsHeap fl bs
    → IsLayout size align
    → allocate fuel size align fl ≡ done (some start) fl'
    → Taking fl bs size align start fl'
taking fuel fl fl' bs size align start len h l got =
    took_block fl fl' bs size align start _ _ (first_fit-layout fl bs size align h l)
      (first_fit-IsShort (padded size) (max align granule) bs)
      (allocate-first_fit fuel fl bs size align len h l) got

sixteenth : (x m : ℕ) → x % (16 * m) ≡ 0 → x % 16 ≡ 0
sixteenth x m e =
    let parts = mod-add-div' x (16 * m) in
    let sixteen = mul_left_comm (x / (16 * m)) 16 m in omega (arith, parts, sixteen)

-- What `allocate` has returned is a range that `deallocate` takes.
Taking-IsTaken :
    (fl fl' : FreeList) (bs : Blocks) (size align start : ℕ)
    → IsLayout size align
    → Taking fl bs size align start fl'
    → IsTaken fl'.regions start size
Taking-IsTaken fl fl' bs size align start l k = rw k.same_regions (record {
  above = k.fit.above;
  aligned =
      let (m, e, pos, reach) = sixteens size align l in sixteenth start m (rw e at k.fit.aligned);
  region = k.fit.region;
  home = k.fit.home;
  fits = k.fit.fits;
  reach = k.fit.reach;
  sized = l.sized;
})

refused :
    (fl fl' : FreeList) (bs : Blocks) (size align : ℕ) (o : Option (ℕ × Blocks))
    (r : Ran (Option ℕ))
    → Fits fl.regions 0 (padded size) (max align granule) bs o
    → Allocates fl o r
    → r ≡ done none fl'
    → NoRoom (padded size) (max align granule) bs × (fl' ≡ fl)
refused fl fl' bs size align none r fits took got =
    let e : done none fl ≡ done none fl' = sym took ∙ got in (fits, cc)
refused fl fl' bs size align (some (at, left)) r fits (fl1, ran, heap, same, total) got =
    absurd (let e : done (some at) fl1 ≡ done none fl' = sym ran ∙ got in cc)

split_free :
    (b c : Bool) (start end x : ℕ)
    → b ≡ (leb start x && ltb x end || c)
    → (start ≤ x → x < end → c ≡ false)
    → c ≡ (b && not (leb start x && ltb x end))
split_free b c start end x e apart = elim (Bool-cases (leb start x && ltb x end)) [
  | inl inside ↦ let clear = apart (ground arith) (ground arith) in rw (e, inside) clear
  | inr outside ↦ rw (e, outside) (ground arith)
]

-- In a sound heap, with more fuel than there are blocks, for a size up to 2^32 - 16 and an
-- alignment that is a power of two up to 2^32, when `allocate` returns an address: it is a
-- multiple of the alignment, raised to 16 at least; the bytes from there on, the size rounded up
-- to 16 of them, lie in one region; all of them were free; and the heap afterwards is sound, with
-- exactly those bytes no longer free.
pub allocate-is_free :
    (fuel : ℕ) (fl fl' : FreeList) (bs : Blocks) (size align start : ℕ)
    → length bs < fuel
    → IsHeap fl bs
    → IsLayout size align
    → allocate fuel size align fl ≡ done (some start) fl'
    → (start % max align granule ≡ 0)
      × (inside start (start + padded size) fl ≡ true)
      × ((left : Blocks) × IsHeap fl' left
          × ((x : ℕ)
              → is_free left x ≡ (is_free bs x && not (leb start x && ltb x (start + padded size))))
          × ((x : ℕ) → start ≤ x → x < start + padded size → is_free bs x ≡ true))
allocate-is_free fuel fl fl' bs size align start len h l got =
    let k = taking fuel fl fl' bs size align start len h l got in
    let pad = padded-lem size l.sized in
    let end = start + padded size in
    let before : (x : ℕ) → is_free bs x ≡ (leb start x && ltb x end || is_free k.left x) =
      (λ x. rw k.fit.restores at (is_free-give_back start end k.left x (omega (arith, pad.0)))) in
    let taken = Taking-IsTaken fl fl' bs size align start l k in
    (
      k.fit.aligned,
      within start size fl (rw k.same_regions at taken),
      (
        k.left,
        k.heap,
        (λ x. split_free (is_free bs x) (is_free k.left x) start end x (before x) (k.fit.apart x)),
        (λ x from to. let e = before x in ground arith),
      ),
    )

-- In a sound heap, with fuel for two more than there are blocks, for a size up to 2^32 - 16 and
-- an alignment that is a power of two up to 2^32: what `allocate` has returned, `deallocate`
-- takes back with the same size, and the free blocks are exactly those before, whatever pieces
-- were split off.
pub deallocate-allocate :
    (fuel : ℕ) (fl fl' : FreeList) (bs : Blocks) (size align start : ℕ)
    → suc (length bs) < fuel
    → IsHeap fl bs
    → IsLayout size align
    → allocate fuel size align fl ≡ done (some start) fl'
    → (fl'' : FreeList) × (deallocate fuel start size fl' ≡ done tt fl'') × IsHeap fl'' bs
deallocate-allocate fuel fl fl' bs size align start len h l got =
    let k = taking fuel fl fl' bs size align start (omega arith) h l got in
    let pad = padded-lem size l.sized in
    let clear =
      taken-IsClear fl'.regions 0 start (start + padded size) k.left (omega (arith, pad.0))
        k.heap.free k.fit.apart in
    let (fl'', ran, heap, same) =
      deallocate-give_back fuel start size fl' k.left (omega (arith, k.short)) k.heap
        (Taking-IsTaken fl fl' bs size align start l k) clear in
    (fl'', ran, rw k.fit.restores at heap)

-- In a sound heap, with more fuel than there are blocks, for a size up to 2^32 - 16 and an
-- alignment that is a power of two up to 2^32, null from `allocate` means that no free block has
-- room for the size, rounded up to 16, at an aligned address, and then nothing has changed.
pub allocate-NoRoom :
    (fuel : ℕ) (fl fl' : FreeList) (bs : Blocks) (size align : ℕ)
    → length bs < fuel
    → IsHeap fl bs
    → IsLayout size align
    → allocate fuel size align fl ≡ done none fl'
    → NoRoom (padded size) (max align granule) bs × (fl' ≡ fl)
allocate-NoRoom fuel fl fl' bs size align len h l got =
    refused fl fl' bs size align _ _ (first_fit-layout fl bs size align h l)
      (allocate-first_fit fuel fl bs size align len h l) got
