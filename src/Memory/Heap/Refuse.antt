-- ===== src/Memory/Heap/Refuse.antt =====
-- `grow` of kernel/src/memory/heap.rs when it fails: no frame is lost, and the heap is as before.
use vibra.Common.{
  ℕ, suc, ◌+◌, ◌%◌, ◌*◌, ◌/◌, ◌<◌, ◌≡◌, refl, sym, ap, ◌∙◌, Option, none, some, Bool, true, false,
  leb, ltb, ◌||◌, length, u64_mod, arith, Bool-cases, inl, inr, saturating_add,
}
use vibra.Memory.Pmm.{Pmm, frame_size, alloc_contiguous, free_contiguous}
use vibra.Memory.Pmm.Frame.{IsPmm, SameFrames}
use vibra.Memory.Pmm.Ranges.{alloc_contiguous-Decides, alloc_contiguous-free_contiguous}
use vibra.Memory.Heap.{FreeList, max_regions, max_heap_bytes, min_block, Ran, done, out_of_fuel}
use vibra.Memory.Heap.Regions.{Added, added, unfinished, inserted, add_region}
use vibra.Memory.Heap.Cover.{AreOrdered, join_regions-Joined}
use vibra.Memory.Heap.Grow.{Allocator, grow_frames, or_half, settle, grow_with, grow}

inserted-true : (r : Ran (Unit {0})) (fl : FreeList) → inserted r ≡ added false fl → ⊥
unfolding inserted
inserted-true (done x fl') fl e = cc
inserted-true out_of_fuel fl e = cc

-- A region that is refused leaves the list as it was.
add_region-refused :
    (fuel start size : ℕ) (fl fl' : FreeList)
    → AreOrdered fl.regions
    → add_region fuel start size fl ≡ added false fl'
    → fl' ≡ fl
unfolding add_region
add_region-refused fuel start size fl fl' ordered e =
    elim (Bool-cases (ltb size min_block || leb max_regions (length fl.regions))) [
      | inl bad ↦ let e' : added false fl ≡ added false fl' = rw bad at e in cc
      | inr ok ↦ elim (Bool-cases (ltb max_heap_bytes (saturating_add fl.total_bytes size))) [
        | inl bad ↦ let e' : added false fl ≡ added false fl' = rw (ok, bad) at e in cc
        | inr small ↦ elim (Bool-cases (leb u64_mod (start + size))) [
          | inl bad ↦ let e' : added false fl ≡ added false fl' = rw (ok, small, bad) at e in cc
          | inr room ↦
              let j =
                join_regions-Joined (suc (length fl.regions)) start (start + size) fl.regions
                  (omega arith) (omega arith) ordered in
              let few : leb max_regions (length j.others) ≡ false =
                let le = j.fewer in ground arith in
              absurd (inserted-true _ fl' (rw few at rw j.result at rw (ok, small, room) at e))
        ]
      ]
    ]

-- What the tries for frames have got.
abbrev Got : ℕ → Pmm → Option (ℕ × ℕ) × Pmm → Type 0
Got max_frames p (none, q) = q ≡ p
Got max_frames p (some (phys, n), q) = (0 < n) × (alloc_contiguous max_frames n p ≡ (some phys, q))

untouched :
    (max_frames n : ℕ) (p q : Pmm)
    → IsPmm max_frames p
    → 0 < n
    → alloc_contiguous max_frames n p ≡ (none, q)
    → q ≡ p
untouched max_frames n p q h pos e = elim (alloc_contiguous-Decides max_frames n p h pos) [
  | inl (same, none_fits) ↦ ap (λ (r : Option ℕ × Pmm). r.1) (sym e ∙ same)
  | inr (addr, p', found, taken) ↦ absurd (cc (ap (λ (r : Option ℕ × Pmm). r.0) (sym e ∙ found)))
]

or_half-Got :
    (max_frames count : ℕ) (p : Pmm) (r : Option ℕ × Pmm)
    → IsPmm max_frames p
    → 1 < count
    → alloc_contiguous max_frames count p ≡ r
    → Got max_frames p (or_half max_frames count r)
unfolding or_half
or_half-Got max_frames count p (some phys, q) h pos e = (omega arith, e)
or_half-Got max_frames count p (none, q) h pos e =
    rw (untouched max_frames count p q h (omega arith) e)
      (half_Got (alloc_contiguous max_frames (count / 2) p) refl)
  where
    half_Got :
        (r : Option ℕ × Pmm)
        → alloc_contiguous max_frames (count / 2) p ≡ r
        → Got max_frames p
            (elim r.0 [ none ↦ (none, r.1) | some phys ↦ (some (phys, count / 2), r.1) ])
    half_Got (none, q') e' = untouched max_frames (count / 2) p q' h (omega arith) e'
    half_Got (some phys, q') e' = (omega arith, e')

settle-refused :
    (max_frames n phys : ℕ) (p q : Pmm) (fl : FreeList) (r : Added) (m' : Allocator)
    → IsPmm max_frames p
    → max_frames < u64_mod
    → 0 < n
    → alloc_contiguous max_frames n p ≡ (some phys, q)
    → ((fl' : FreeList) → r ≡ added false fl' → fl' ≡ fl)
    → settle max_frames phys n q r ≡ some (false, m')
    → SameFrames m'.pmm p × IsPmm max_frames m'.pmm × (m'.heap ≡ fl)
unfolding settle
settle-refused max_frames n phys p q fl unfinished m' h small pos got same e = absurd (cc)
settle-refused max_frames n phys p q fl (added true fl') m' h small pos got same e = absurd (cc)
settle-refused max_frames n phys p q fl (added false fl') m' h small pos got same e =
    let (p', back, frames, sound) =
      alloc_contiguous-free_contiguous max_frames n phys p q h pos small got in
    let e' : record { heap = fl'; pmm = (free_contiguous max_frames phys n q).1 } ≡ m' = cc in
    let pmm : m'.pmm ≡ p' = ap Allocator.pmm (sym e') ∙ ap (λ (r : Bool × Pmm). r.1) back in
    (rw pmm frames, rw pmm sound, ap Allocator.heap (sym e') ∙ same fl' refl)

-- In a consistent frame allocator of fewer than 2^64 frames and with regions whose ends are not
-- below their starts, a `grow` that reports failure has given back every frame it took, the frame
-- allocator staying consistent, and has left the heap as it was.
pub grow-refused :
    (fuel max_frames hhdm : ℕ) (m m' : Allocator)
    → IsPmm max_frames m.pmm
    → max_frames < u64_mod
    → AreOrdered m.heap.regions
    → grow fuel max_frames hhdm m ≡ some (false, m')
    → SameFrames m'.pmm m.pmm × IsPmm max_frames m'.pmm × (m'.heap ≡ m.heap)
unfolding grow grow_with
grow-refused fuel max_frames hhdm m m' h small ordered e =
    refused (or_half max_frames grow_frames (alloc_contiguous max_frames grow_frames m.pmm))
      (or_half-Got max_frames grow_frames m.pmm _ h (omega arith) refl) e
  where
    refused :
        (r : Option (ℕ × ℕ) × Pmm)
        → Got max_frames m.pmm r
        → grow_with fuel max_frames hhdm m.heap r ≡ some (false, m')
        → SameFrames m'.pmm m.pmm × IsPmm max_frames m'.pmm × (m'.heap ≡ m.heap)
    refused (none, q) got e =
        let e' : record { heap = m.heap; pmm = q } ≡ m' = cc in
        let pmm : m'.pmm ≡ m.pmm = ap Allocator.pmm (sym e') ∙ got in
        (
          rw pmm record { frames = λ j. refl; free = refl; total = refl },
          rw pmm h,
          ap Allocator.heap (sym e'),
        )
    refused (some (phys, n), q) (pos, got) e =
        settle-refused max_frames n phys m.pmm q m.heap _ m' h small pos got
          (λ fl'.
            add_region-refused fuel ((hhdm + phys) % u64_mod) (n * frame_size) m.heap fl' ordered)
          e
