-- ===== src/Memory/Pmm/Contiguous.antt =====
-- `alloc_contiguous` and `free_contiguous` of kernel/src/memory/pmm.rs.
use vibra.Common.{ℕ, zero, suc, ◌+◌, ◌-◌, ◌≤◌, ◌<◌, ◌≡◌, List, Bool, true, false}
use vibra.Common.{arith, ◌==◌, ltb, leb, ◌&&◌, if◌then◌else◌, Bool-cases, inl, inr}
use vibra.Memory.Pmm.{
  is_frame_free, set_frame_used, set_frame_free, mark_used, mark_free, skip_used, run_end,
}
use vibra.Memory.Pmm.View.{
  IsBitmap, set_frame_used-IsBitmap, set_frame_free-IsBitmap, is_frame_free-set_used,
  is_frame_free-set_free,
}
use vibra.Memory.Pmm.Count.{count, count_less}

abbrev pub in_range : ℕ → ℕ → ℕ → Bool
in_range start n j = leb start j && ltb j (start + n)

-- All frames of `start..start + n` are free.
abbrev pub AllFree : List ℕ → ℕ → ℕ → Type 0
AllFree bitmap start n = (j : ℕ) → start ≤ j → j < start + n → is_frame_free bitmap j ≡ true

abbrev pub AllUsed : List ℕ → ℕ → ℕ → Type 0
AllUsed bitmap start n = (j : ℕ) → start ≤ j → j < start + n → is_frame_free bitmap j ≡ false

-- What marking a range does to the bitmap, and to the number of free frames if all were free.
pub mark_used-lem :
    (max_frames n start : ℕ) (bitmap : List ℕ)
    → IsBitmap max_frames bitmap
    → start + n ≤ max_frames
    → IsBitmap max_frames (mark_used n start bitmap)
      × ((j : ℕ)
          → is_frame_free (mark_used n start bitmap) j
            ≡ (if in_range start n j then false else is_frame_free bitmap j))
      × (AllFree bitmap start n
          → count (is_frame_free bitmap) max_frames
            ≡ count (is_frame_free (mark_used n start bitmap)) max_frames + n)
unfolding mark_used
mark_used-lem max_frames zero start bitmap h fits = (h, λ j. ground arith, λ all. omega arith)
mark_used-lem max_frames (suc n) start bitmap h fits =
    let below : start < max_frames = omega arith in
    let one = λ (j : ℕ). is_frame_free-set_used max_frames bitmap h start j below in
    let rest =
      mark_used-lem max_frames n (start + 1) (set_frame_used bitmap start)
        (set_frame_used-IsBitmap max_frames bitmap h start) (omega arith) in
    (
      rest.0,
      λ j. ground (arith, rest.1 j, one j),
      λ all.
          let less =
            count_less (is_frame_free bitmap) (is_frame_free (set_frame_used bitmap start)) start
              max_frames below (all start (omega arith) (omega arith)) one in
          omega (
            arith,
            rest.2 (λ j lo hi. let up = all j (omega arith) (omega arith) in ground (arith, one j)),
          ),
    )

pub mark_free-lem :
    (max_frames n start : ℕ) (bitmap : List ℕ)
    → IsBitmap max_frames bitmap
    → start + n ≤ max_frames
    → IsBitmap max_frames (mark_free n start bitmap)
      × ((j : ℕ)
          → is_frame_free (mark_free n start bitmap) j
            ≡ (if in_range start n j then true else is_frame_free bitmap j))
      × (AllUsed bitmap start n
          → count (is_frame_free (mark_free n start bitmap)) max_frames
            ≡ count (is_frame_free bitmap) max_frames + n)
unfolding mark_free
mark_free-lem max_frames zero start bitmap h fits = (h, λ j. ground arith, λ all. omega arith)
mark_free-lem max_frames (suc n) start bitmap h fits =
    let below : start < max_frames = omega arith in
    let one = λ (j : ℕ). is_frame_free-set_free max_frames bitmap h start j below in
    let rest =
      mark_free-lem max_frames n (start + 1) (set_frame_free bitmap start)
        (set_frame_free-IsBitmap max_frames bitmap h start) (omega arith) in
    (
      rest.0,
      λ j. ground (arith, rest.1 j, one j),
      λ all.
          let down = all start (omega arith) (omega arith) in
          let less =
            count_less (is_frame_free (set_frame_free bitmap start)) (is_frame_free bitmap) start
              max_frames below (ground (arith, one start)) (λ j. ground (arith, one j)) in
          omega (
            arith,
            rest.2 (λ j lo hi. let dn = all j (omega arith) (omega arith) in ground (arith, one j)),
          ),
    )

-- The first free frame from `start` on.
pub skip_used-lem :
    (bitmap : List ℕ) (left start : ℕ)
    → (start ≤ skip_used bitmap left start)
      × (skip_used bitmap left start ≤ start + left)
      × AllUsed bitmap start (skip_used bitmap left start - start)
      × (skip_used bitmap left start < start + left
          → is_frame_free bitmap (skip_used bitmap left start) ≡ true)
unfolding skip_used
skip_used-lem bitmap zero start =
    (omega arith, omega arith, λ j lo hi. absurd (omega arith), λ h. absurd (omega arith))
skip_used-lem bitmap (suc left) start = elim (Bool-cases (is_frame_free bitmap start)) [
  | inl up ↦ rw up (omega arith, omega arith, (λ j lo hi. absurd (omega arith)), λ h. up)
  | inr down ↦ rw down (
      let r = skip_used-lem bitmap left (start + 1) in
      (
        omega (arith, r.0),
        omega (arith, r.1),
        (λ j lo hi. elim (Bool-cases (j == start)) [
          | inl e ↦ let e' : j ≡ start = ground arith in rw e' down
          | inr ne ↦ r.2 j (ground arith) (omega (arith, r.0))
        ]),
        λ h. r.3 (omega arith),
      ))
]

-- The end of a free run.
pub run_end-lem :
    (bitmap : List ℕ) (left end : ℕ)
    → (end ≤ run_end bitmap left end)
      × (run_end bitmap left end ≤ end + left)
      × AllFree bitmap end (run_end bitmap left end - end)
      × (run_end bitmap left end < end + left
          → is_frame_free bitmap (run_end bitmap left end) ≡ false)
unfolding run_end
run_end-lem bitmap zero end =
    (omega arith, omega arith, λ j lo hi. absurd (omega arith), λ h. absurd (omega arith))
run_end-lem bitmap (suc left) end = elim (Bool-cases (is_frame_free bitmap end)) [
  | inr down ↦ rw down (omega arith, omega arith, (λ j lo hi. absurd (omega arith)), λ h. down)
  | inl up ↦ rw up (
      let r = run_end-lem bitmap left (end + 1) in
      (
        omega (arith, r.0),
        omega (arith, r.1),
        (λ j lo hi. elim (Bool-cases (j == end)) [
          | inl e ↦ let e' : j ≡ end = ground arith in rw e' up
          | inr ne ↦ r.2 j (ground arith) (omega (arith, r.0))
        ]),
        λ h. r.3 (omega arith),
      ))
]
