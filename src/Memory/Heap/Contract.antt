-- ===== src/Memory/Heap/Contract.antt =====
-- `allocate` and `deallocate` of kernel/src/memory/heap.rs against the list of free blocks.
use vibra.Common.{
  ℕ, suc, ◌-◌, ◌*◌, ◌%◌, ◌^◌, ◌≤◌, ◌<◌, ◌≡◌, refl, ap, ◌∙◌, Option, none, some, max, arith, length,
}
use native.Mathlib.Decide.{dec_lt}
use native.Mathlib.Nat.{pow-le-pow_right, pow-succ'}
use vibra.Memory.Heap.{FreeList, granule, padded, allocate, allocate_from, Ran, done}
use vibra.Memory.Heap.Blocks.{Blocks, first_fit, AreFree}
use vibra.Memory.Heap.First.{Fits, first_fit-Fits}
use vibra.Memory.Heap.Pieces.{align_up-lem}
use vibra.Memory.Heap.Back.{AreRegions}
use vibra.Memory.Heap.Chain.{head_of, Holds}
use vibra.Memory.Heap.Fit.{Took, allocate_from-first_fit}

-- Memory stands for the free blocks `bs`.
pub record IsHeap (fl : FreeList) (bs : Blocks) : Type 0 where
  pub head : fl.head ≡ head_of bs
  pub holds : Holds fl.cells bs
  pub free : AreFree fl.regions 0 bs
  pub sound : AreRegions fl.regions

-- A layout: its size, and its alignment, a power of two.
pub record IsLayout (size align : ℕ) : Type 0 where
  pub exponent : ℕ
  pub power : align ≡ 2 ^ exponent
  pub aligned : exponent ≤ 32
  pub sized : size ≤ 2 ^ 32 - 16

pub padded-lem :
    (size : ℕ)
    → size ≤ 2 ^ 32 - 16
    → (0 < padded size) × (size ≤ padded size) × (padded size % 16 ≡ 0) × (padded size ≤ 2 ^ 32)
unfolding padded
padded-lem size le =
    let up = align_up-lem (max size 1) 1 (omega arith) (ground arith) in
    (omega (arith, up.0), omega (arith, up.0), up.2, omega (arith, up.1))

two_pow : (i j : ℕ) → i ≤ j → 2 ^ i ≤ 2 ^ j
two_pow i j le = pow-le-pow_right {n = 2} (omega arith) {i = i} {j = j} le

sixteen_pow : (k : ℕ) → 2 ^ suc (suc (suc (suc k))) ≡ 16 * 2 ^ k
sixteen_pow k = omega (
  arith,
  pow-succ' 2 k,
  pow-succ' 2 (suc k),
  pow-succ' 2 (suc (suc k)),
  pow-succ' 2 (suc (suc (suc k))),
)

-- The alignment that is used is a multiple of 16.
pub sixteens :
    (size align : ℕ)
    → IsLayout size align
    → (m : ℕ) × (max align granule ≡ 16 * m) × (0 < m) × (16 * m ≤ 2 ^ 32)
sixteens size align l = elim (dec_lt l.exponent 4) [
  | yes small ↦
      let p : 2 ^ l.exponent ≤ 2 ^ 3 = two_pow l.exponent 3 (omega arith) in
      (1, omega (arith, l.power), omega arith, omega arith)
  | no large ↦
      let from_four : l.exponent ≡ suc (suc (suc (suc (l.exponent - 4)))) = omega arith in
      let split : 2 ^ l.exponent ≡ 16 * 2 ^ (l.exponent - 4) =
        ap (λ e. 2 ^ e) from_four ∙ sixteen_pow (l.exponent - 4) in
      let p : 2 ^ 0 ≤ 2 ^ (l.exponent - 4) = two_pow 0 (l.exponent - 4) (omega arith) in
      let q : 2 ^ l.exponent ≤ 2 ^ 32 = two_pow l.exponent 32 l.aligned in
      (2 ^ (l.exponent - 4), omega (arith, l.power), omega arith, omega arith)
]

-- What has become of the heap when `allocate` has returned, as first fit says.
abbrev pub Allocates : FreeList → Option (ℕ × Blocks) → Ran (Option ℕ) → Type 0
Allocates fl none r = r ≡ done none fl
Allocates fl (some (start, left)) r =
    (fl' : FreeList) × (r ≡ done (some start) fl')
    × IsHeap fl' left
    × (fl'.regions ≡ fl.regions)
    × (fl'.total_bytes ≡ fl.total_bytes)

Took-Allocates :
    (fl : FreeList) (bs : Blocks) (size m : ℕ) (o : Option (ℕ × Blocks)) (r : Ran (Option ℕ))
    → IsHeap fl bs
    → Fits fl.regions 0 size m bs o
    → Took none 0 fl o r
    → Allocates fl o r
Took-Allocates fl bs size m none r h fits took = took
Took-Allocates fl bs size m (some (start, left)) r h fits (fl', ran, k) = (
  fl',
  ran,
  record {
    head = k.linked;
    holds = k.holds;
    free = rw k.same_regions fits.sound;
    sound = rw k.same_regions h.sound;
  },
  k.same_regions,
  k.same_total,
)

pub first_fit-layout :
    (fl : FreeList) (bs : Blocks) (size align : ℕ)
    → IsHeap fl bs
    → IsLayout size align
    → Fits fl.regions 0
        (padded size)
        (max align granule)
        bs
        (first_fit (padded size) (max align granule) bs)
first_fit-layout fl bs size align h l =
    let pad = padded-lem size l.sized in
    let (m, same, pos, reach) = sixteens size align l in
    rw same
      (first_fit-Fits fl.regions h.sound.separate (padded size) m pad.0 pad.2 pos reach 0 bs h.free)

from_head :
    (fuel size align n : ℕ) (fl : FreeList) (first : Option ℕ)
    → fl.head ≡ first
    → max align granule ≡ n
    → allocate fuel size align fl ≡ allocate_from fuel (padded size) n none first fl
unfolding allocate
from_head fuel size align n fl first head same =
    ap (λ x. allocate_from fuel (padded size) (max align granule) none x fl) head
    ∙ ap (λ x. allocate_from fuel (padded size) x none first fl) same

-- In a sound heap whose memory holds the nodes of the sorted free blocks, with more fuel than
-- there are blocks, a size up to 2^32 - 16 and an alignment that is a power of two up to 2^32:
-- `allocate` does on the linked nodes what first fit does on the list of blocks. It returns the
-- same address, and memory then holds the nodes of the blocks that first fit leaves, again a
-- sound heap with the same regions; or first fit finds nothing, and `allocate` returns null and
-- changes nothing.
pub allocate-first_fit :
    (fuel : ℕ) (fl : FreeList) (bs : Blocks) (size align : ℕ)
    → length bs < fuel
    → IsHeap fl bs
    → IsLayout size align
    → Allocates fl (first_fit (padded size) (max align granule) bs) (allocate fuel size align fl)
allocate-first_fit fuel fl bs size align len h l =
    let pad = padded-lem size l.sized in
    let (m, same, pos, reach) = sixteens size align l in
    let fits = first_fit-layout fl bs size align h l in
    let took =
      allocate_from-first_fit fl.regions h.sound.separate (padded size) m pad.0 pad.2 pos reach
        pad.3 fuel none 0 fl bs len refl tt h.head h.free h.holds in
    Took-Allocates fl bs (padded size) (max align granule) _ _ h fits
      (rw (from_head fuel size align (16 * m) fl (head_of bs) h.head same, same) took)
