-- ===== src/Memory/Pmm/Frame.antt =====
-- `alloc_frame` and `free_frame` of kernel/src/memory/pmm.rs.
use native.Mathlib.Nat.{mod-lt, mod-add-mod}
use vibra.Common.{
  ℕ, zero, suc, ◌+◌, ◌-◌, ◌*◌, ◌/◌, ◌%◌, ◌≤◌, ◌<◌, ◌≡◌, refl, sym, ◌∙◌, List, Option, none, some,
  true, false,
}
use vibra.Common.{
  arith, ◌==◌, leb, not, ◌||◌, if◌then◌else◌, Bool-cases, inl, inr, steps_to, Option-cases,
}
use vibra.Memory.Pmm.{
  Pmm, is_frame_free, set_frame_used, set_frame_free, find_free, alloc_frame, free_frame,
  frame_size,
}
use vibra.Memory.Pmm.View.{
  IsBitmap, set_frame_used-IsBitmap, set_frame_free-IsBitmap, is_frame_free-set_used,
  is_frame_free-set_free,
}
use vibra.Memory.Pmm.Count.{count, count_less, count-eq-zero, count_pos}

-- The counter is the number of clear bits, and the search starts inside the bitmap.
pub record IsPmm (max_frames : ℕ) (p : Pmm) : Type 0 where
  pub map : IsBitmap max_frames p.bitmap
  pub counted : p.free_frames ≡ count (is_frame_free p.bitmap) max_frames
  pub hinted : p.next_hint ≤ max_frames

abbrev Found : ℕ → List ℕ → ℕ → ℕ → ℕ → Option ℕ → Type 0
Found max_frames bitmap start left offset (some f) =
    (f < max_frames) × (is_frame_free bitmap f ≡ true)
Found max_frames bitmap start left offset none =
    (j : ℕ)
    → offset ≤ j
    → j < offset + left
    → is_frame_free bitmap ((start + j) % max_frames) ≡ false

find_free-Found :
    (max_frames : ℕ) (bitmap : List ℕ) (start left offset : ℕ)
    → 0 < max_frames
    → Found max_frames bitmap start left offset (find_free max_frames bitmap start left offset)
unfolding find_free
find_free-Found max_frames bitmap start zero offset pos = λ j lo hi. absurd (omega arith)
find_free-Found max_frames bitmap start (suc left) offset pos =
    elim (Bool-cases (is_frame_free bitmap ((start + offset) % max_frames))) [
      | inl up ↦ rw up (mod-lt _ pos, up)
      | inr down ↦
          rw down (onward _ down (find_free-Found max_frames bitmap start left (offset + 1) pos))
    ]
  where
    onward :
        (r : Option ℕ)
        → is_frame_free bitmap ((start + offset) % max_frames) ≡ false
        → Found max_frames bitmap start left (offset + 1) r
        → Found max_frames bitmap start (suc left) offset r
    onward (some f) down h = h
    onward none down h = λ j lo hi. elim (Bool-cases (j == offset)) [
      | inl e ↦ let e' : j ≡ offset = ground arith in rw e' down
      | inr ne ↦ h j (ground arith) (omega arith)
    ]

-- A whole turn that finds nothing has seen every frame.
find_free-none :
    (max_frames : ℕ) (bitmap : List ℕ) (start : ℕ)
    → find_free max_frames bitmap start max_frames 0 ≡ none
    → (f : ℕ) → f < max_frames
    → is_frame_free bitmap f ≡ false
find_free-none max_frames bitmap start e f lt =
    let pos : 0 < max_frames = omega arith in
    let (j, below, at) = steps_to (start % max_frames) f max_frames (mod-lt start pos) lt in
    let seen = rw e at (find_free-Found max_frames bitmap start max_frames 0 pos) in
    let same : (start + j) % max_frames ≡ f = sym (mod-add-mod start max_frames j) ∙ at in
    rw same at (seen j (omega arith) (omega (arith, below)))

-- `p'` is `p` with one frame taken, at address `addr`: the frame was free, it is used now, no other
-- frame has changed, and the counter is one less.
pub record IsTaken (max_frames : ℕ) (p : Pmm) (addr : ℕ) (p' : Pmm) : Type 0 where
  pub frame : ℕ
  pub address : addr ≡ frame * frame_size
  pub below : frame < max_frames
  pub was_free : is_frame_free p.bitmap frame ≡ true
  pub now :
      (j : ℕ) → is_frame_free p'.bitmap j ≡ (if frame == j then false else is_frame_free p.bitmap j)
  pub fewer : p.free_frames ≡ p'.free_frames + 1
  pub same_total : p'.total_frames ≡ p.total_frames
  pub sound : IsPmm max_frames p'

module _ (max_frames : ℕ) (p : Pmm) (h : IsPmm max_frames p) where
  taken :
      (f : ℕ)
      → f < max_frames
      → is_frame_free p.bitmap f ≡ true
      → IsTaken max_frames p (f * frame_size) (record p {
        bitmap = set_frame_used p.bitmap f;
        free_frames = p.free_frames - 1;
        next_hint = f + 1;
      })
  taken f below up =
      let now = λ (j : ℕ). is_frame_free-set_used max_frames p.bitmap h.map f j below in
      let less =
        count_less (is_frame_free p.bitmap) (is_frame_free (set_frame_used p.bitmap f)) f max_frames
          below up now in
      record {
        frame = f;
        address = refl;
        below = below;
        was_free = up;
        now = now;
        same_total = refl;
        fewer = omega (arith, h.counted);
        sound = record {
          map = set_frame_used-IsBitmap max_frames p.bitmap h.map f;
          counted = omega (arith, h.counted);
          hinted = omega arith;
        };
      }

  all_used : find_free max_frames p.bitmap p.next_hint max_frames 0 ≡ none → p.free_frames ≡ 0
  all_used e =
      h.counted ∙ count-eq-zero _ max_frames (find_free-none max_frames p.bitmap p.next_hint e)

  -- With a free frame left, `alloc_frame` takes one.
  pub alloc_frame-IsTaken :
      0 < p.free_frames
      → (addr : ℕ) × (p' : Pmm) × (alloc_frame max_frames p ≡ (some addr, p'))
        × IsTaken max_frames p addr p'
  unfolding alloc_frame
  alloc_frame-IsTaken pos =
      let some_left : (p.free_frames == 0) ≡ false = ground arith in
      elim (Option-cases (find_free max_frames p.bitmap p.next_hint max_frames 0)) [
        | inl e ↦ absurd (omega (arith, all_used e))
        | inr f ↦
            let inside : 0 < max_frames =
              count_pos (is_frame_free p.bitmap) max_frames (omega (arith, h.counted)) in
            let it =
              rw f.1 at (find_free-Found max_frames p.bitmap p.next_hint max_frames 0 inside) in
            (
              f.0 * frame_size,
              record p {
                bitmap = set_frame_used p.bitmap f.0;
                free_frames = p.free_frames - 1;
                next_hint = f.0 + 1;
              },
              rw some_left (rw (f.1) refl),
              taken f.0 it.0 it.1,
            )
      ]

  -- Without one, it returns nothing and changes nothing.
  pub alloc_frame-none : p.free_frames ≡ 0 → alloc_frame max_frames p ≡ (none, p)
  unfolding alloc_frame
  alloc_frame-none e = ground arith

  free_frame-used :
      (f : ℕ)
      → f < max_frames
      → is_frame_free p.bitmap f ≡ false
      → free_frame max_frames (f * frame_size) p
        ≡ record p { bitmap = set_frame_free p.bitmap f; free_frames = p.free_frames + 1 }
  unfolding free_frame
  free_frame-used f below down =
      let same : f * frame_size / frame_size ≡ f = omega arith in
      let fits : (not (f * frame_size % frame_size == 0) || leb max_frames f) ≡ false =
        ground arith in
      rw same (rw fits (rw down refl))

  free_frame-free :
      (f : ℕ) → is_frame_free p.bitmap f ≡ true → free_frame max_frames (f * frame_size) p ≡ p
  unfolding free_frame
  free_frame-free f up =
      let same : f * frame_size / frame_size ≡ f = omega arith in rw same (rw up (ground arith))

  freed-IsPmm :
      (f : ℕ)
      → f < max_frames
      → is_frame_free p.bitmap f ≡ false
      → IsPmm max_frames
          (record p { bitmap = set_frame_free p.bitmap f; free_frames = p.free_frames + 1 })
  freed-IsPmm f below down =
      let now = λ (j : ℕ). is_frame_free-set_free max_frames p.bitmap h.map f j below in
      let less =
        count_less (is_frame_free (set_frame_free p.bitmap f)) (is_frame_free p.bitmap) f max_frames
          below (ground (arith, now f)) (λ j. ground (arith, now j, down)) in
      record {
        map = set_frame_free-IsBitmap max_frames p.bitmap h.map f;
        counted = omega (arith, h.counted);
        hinted = h.hinted;
      }

  -- In a consistent allocator, `free_frame` of any address leaves a consistent allocator, also
  -- for an address of no frame and for a frame that is free already.
  pub free_frame-IsPmm : (addr : ℕ) → IsPmm max_frames (free_frame max_frames addr p)
  unfolding free_frame
  free_frame-IsPmm addr =
      elim (Bool-cases (not (addr % frame_size == 0) || leb max_frames (addr / frame_size))) [
        | inl bad ↦ rw bad h
        | inr good ↦ rw good (elim (Bool-cases (is_frame_free p.bitmap (addr / frame_size))) [
          | inl up ↦ rw up h
          | inr down ↦ rw down (freed-IsPmm (addr / frame_size) (ground arith) down)
        ])
      ]

-- Two states that no caller can tell apart but by which frame the next search tries first.
pub record SameFrames (p q : Pmm) : Type 0 where
  pub frames : (j : ℕ) → is_frame_free p.bitmap j ≡ is_frame_free q.bitmap j
  pub free : p.free_frames ≡ q.free_frames
  pub total : p.total_frames ≡ q.total_frames

-- In a consistent allocator with a free frame left, `alloc_frame` returns the address of a frame
-- below the end of memory that was free and takes that frame alone, the allocator staying
-- consistent; `free_frame` of that address gives all frames and counters back as they were.
pub alloc_frame-free_frame :
    (max_frames : ℕ) (p : Pmm)
    → IsPmm max_frames p
    → 0 < p.free_frames
    → (addr : ℕ) × (p' : Pmm) × (alloc_frame max_frames p ≡ (some addr, p'))
      × IsTaken max_frames p addr p'
      × SameFrames (free_frame max_frames addr p') p
alloc_frame-free_frame max_frames p h pos =
    let (addr, p', e, it) = alloc_frame-IsTaken max_frames p h pos in
    (
      addr,
      p',
      e,
      it,
      rw it.address (
          rw
            (free_frame-used max_frames p' it.sound it.frame it.below
              (ground (arith, it.now it.frame)))
            record {
              frames = λ j. ground (
                arith,
                is_frame_free-set_free max_frames p'.bitmap it.sound.map it.frame j it.below,
                it.now j,
                it.was_free,
              );
              free = omega (arith, it.fewer);
              total = it.same_total;
            }),
    )
