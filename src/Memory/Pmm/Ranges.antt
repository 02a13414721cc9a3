-- ===== src/Memory/Pmm/Ranges.antt =====
-- What `alloc_contiguous` and `free_contiguous` of kernel/src/memory/pmm.rs promise a caller.
use vibra.Common.{
  ℕ, zero, suc, ◌+◌, ◌-◌, ◌*◌, ◌/◌, ◌%◌, ◌≤◌, ◌<◌, ◌≡◌, refl, sym, ap, ◌∙◌, List, Option, none,
  some, true, false,
}
use vibra.Common.{
  arith, ◌==◌, ltb, leb, not, ◌||◌, if◌then◌else◌, min, Bool-cases, inl, inr, ◌⊎◌, u64_mod,
}
use vibra.Memory.Pmm.{
  Pmm, is_frame_free, mark_used, mark_free, search_run, Run, run, exhausted, out_of_fuel, any_free,
  search_fuel, take_run, alloc_contiguous, free_contiguous, frame_size,
}
use vibra.Memory.Pmm.Frame.{IsPmm, SameFrames}
use vibra.Memory.Pmm.Count.{count_witness}
use vibra.Memory.Pmm.Contiguous.{AllFree, AllUsed, in_range, mark_used-lem, mark_free-lem}
use vibra.Memory.Pmm.Search.{Ends, search_run-total, search_run-found}

-- `p'` is `p` with the `n` frames from address `addr` on taken.
pub record IsTakenRange (max_frames : ℕ) (p : Pmm) (n addr : ℕ) (p' : Pmm) : Type 0 where
  pub start : ℕ
  pub address : addr ≡ start * frame_size
  pub fits : start + n ≤ max_frames
  pub were_free : AllFree p.bitmap start n
  pub now :
      (j : ℕ)
      → is_frame_free p'.bitmap j ≡ (if in_range start n j then false else is_frame_free p.bitmap j)
  pub fewer : p.free_frames ≡ p'.free_frames + n
  pub same_total : p'.total_frames ≡ p.total_frames
  pub sound : IsPmm max_frames p'

module _ (max_frames n : ℕ) (p : Pmm) (h : IsPmm max_frames p) where
  taken_range :
      (s : ℕ)
      → s + n ≤ max_frames
      → AllFree p.bitmap s n
      → IsTakenRange max_frames p n (s * frame_size) (record p {
        bitmap = mark_used n s p.bitmap;
        free_frames = p.free_frames - n;
        next_hint = s + n;
      })
  taken_range s fits free =
      let m = mark_used-lem max_frames n s p.bitmap h.map fits in
      let c = m.2 free in
      record {
        start = s;
        address = refl;
        fits = fits;
        were_free = free;
        now = m.1;
        same_total = refl;
        fewer = omega (arith, h.counted);
        sound = record { map = m.0; counted = omega (arith, h.counted); hinted = fits };
      }

  -- A run of `n` free frames is counted.
  run-le-free : (r : ℕ) → r + n ≤ max_frames → AllFree p.bitmap r n → n ≤ p.free_frames
  run-le-free r fits free =
      omega (arith, h.counted, (mark_used-lem max_frames n r p.bitmap h.map fits).2 free)

  abbrev Decides : Option ℕ × Pmm → Type 0
  Decides r =
      ((r ≡ (none, p)) × (¬ ((s : ℕ) × (s + n ≤ max_frames) × AllFree p.bitmap s n)))
      ⊎ ((addr : ℕ) × (p' : Pmm) × (r ≡ (some addr, p')) × IsTakenRange max_frames p n addr p')

  take_run-Decides :
      (i : ℕ) (below : i < max_frames) (up : is_frame_free p.bitmap i ≡ true)
      → 0 < n
      → (r : Run) → search_run max_frames p.bitmap n (search_fuel max_frames) 0 p.next_hint ≡ r
      → Ends max_frames p.bitmap n i below up r
      → Decides (take_run n p r)
  unfolding take_run
  take_run-Decides i below up pos (run s) e it =
      inr (s * frame_size, _, refl, taken_range s it.0 it.1)
  take_run-Decides i below up pos exhausted e it = inl (
    refl,
    λ it. rw e at (search_run-found max_frames p.bitmap n it.0 pos it.1 it.2 p.next_hint h.hinted),
  )
  take_run-Decides i below up pos out_of_fuel e it = absurd it

  -- In a consistent allocator and for a count above 0, `alloc_contiguous` returns the address of
  -- that many adjacent free frames and takes exactly those, the allocator staying consistent, or
  -- there is no such run anywhere in memory and it changes nothing.
  pub alloc_contiguous-Decides : 0 < n → Decides (alloc_contiguous max_frames n p)
  unfolding alloc_contiguous
  alloc_contiguous-Decides pos = elim (Bool-cases (n == 0 || ltb p.free_frames n)) [
    | inl few ↦ rw few (inl (refl, λ it. let le = run-le-free it.0 it.1 it.2 in ground arith))
    | inr enough ↦
        let (i, below, up) =
          count_witness (is_frame_free p.bitmap) max_frames (let c = h.counted in ground arith) in
        rw enough (
          take_run-Decides i below up pos _ refl
            (search_run-total max_frames p.bitmap n i below up p.next_hint h.hinted))
  ]

any_free-lem :
    (bitmap : List ℕ) (n start : ℕ)
    → (any_free n start bitmap ≡ false → AllUsed bitmap start n)
      × (AllUsed bitmap start n → any_free n start bitmap ≡ false)
unfolding any_free
any_free-lem bitmap zero start = (λ e j lo hi. absurd (omega arith), λ used. refl)
any_free-lem bitmap (suc n) start =
    let rest = any_free-lem bitmap n (start + 1) in
    (
      (λ e j lo hi. elim (Bool-cases (j == start)) [
        | inl same ↦ let at : j ≡ start = ground arith in rw at (ground arith)
        | inr other ↦ rest.0 (ground arith) j (ground arith) (omega arith)
      ]),
      λ used.
          let first = used start (omega arith) (omega arith) in
          let others = rest.1 (λ j lo hi. used j (omega arith) (omega arith)) in ground arith,
    )

-- `p'` is `p` with the `n` frames from `start` on given back: all of them were in use.
pub record IsFreedRange (max_frames : ℕ) (p : Pmm) (n start : ℕ) (p' : Pmm) : Type 0 where
  pub fits : start + n ≤ max_frames
  pub were_used : AllUsed p.bitmap start n
  pub now :
      (j : ℕ)
      → is_frame_free p'.bitmap j ≡ (if in_range start n j then true else is_frame_free p.bitmap j)
  pub more : p'.free_frames ≡ p.free_frames + n
  pub same_total : p'.total_frames ≡ p.total_frames
  pub sound : IsPmm max_frames p'

module _ (max_frames n : ℕ) (p : Pmm) (h : IsPmm max_frames p) where
  freed_range :
      (s : ℕ)
      → s + n ≤ max_frames
      → AllUsed p.bitmap s n
      → IsFreedRange max_frames p n s (record p {
        bitmap = mark_free n s p.bitmap;
        free_frames = p.free_frames + n;
        next_hint = min p.next_hint s;
      })
  freed_range s fits used =
      let m = mark_free-lem max_frames n s p.bitmap h.map fits in
      let c = m.2 used in
      record {
        fits = fits;
        were_used = used;
        now = m.1;
        same_total = refl;
        more = refl;
        sound = record {
          map = m.0;
          counted = omega (arith, h.counted);
          hinted = omega (arith, h.hinted);
        };
      }

  -- In a consistent allocator `free_contiguous` is all or nothing: it gives back a whole range of
  -- frames that were all in use, at an aligned address inside memory, the allocator staying
  -- consistent, or reports failure and changes nothing.
  pub free_contiguous_atomic :
      (addr : ℕ)
      → (free_contiguous max_frames addr n p ≡ (false, p))
        ⊎ ((p' : Pmm) × (free_contiguous max_frames addr n p ≡ (true, p'))
            × (addr % frame_size ≡ 0)
            × IsFreedRange max_frames p n (addr / frame_size) p')
  unfolding free_contiguous
  free_contiguous_atomic addr = elim (Bool-cases (n == 0 || not (addr % frame_size == 0))) [
    | inl bad ↦ rw bad (inl refl)
    | inr good ↦
        rw good
          (elim (Bool-cases
            (leb u64_mod (addr / frame_size + n) || ltb max_frames (addr / frame_size + n))) [
              | inl out ↦ rw out (inl refl)
              | inr inside ↦
                  rw inside (elim (Bool-cases (any_free n (addr / frame_size) p.bitmap)) [
                    | inl mixed ↦ rw mixed (inl refl)
                    | inr used ↦ rw used (
                        inr (
                          _,
                          refl,
                          ground arith,
                          freed_range (addr / frame_size) (ground arith)
                              ((any_free-lem p.bitmap n _).0 used),
                        ))
                  ])
            ])
  ]

  free_contiguous-used :
      (s : ℕ)
      → 0 < n
      → s + n ≤ max_frames
      → max_frames < u64_mod
      → AllUsed p.bitmap s n
      → (p' : Pmm) × (free_contiguous max_frames (s * frame_size) n p ≡ (true, p'))
        × IsFreedRange max_frames p n s p'
  unfolding free_contiguous
  free_contiguous-used s pos fits small used =
      let same : s * frame_size / frame_size ≡ s = omega arith in
      let good : (n == 0 || not (s * frame_size % frame_size == 0)) ≡ false = ground arith in
      let inside : (leb u64_mod (s + n) || ltb max_frames (s + n)) ≡ false = ground arith in
      (
        _,
        rw same (rw good (rw inside (rw ((any_free-lem p.bitmap n s).1 used) refl))),
        freed_range s fits used,
      )

-- In a consistent allocator of fewer than 2^64 frames, what `alloc_contiguous` has taken for a
-- count above 0, `free_contiguous` accepts, and all frames and counters are back as they were,
-- the allocator staying consistent.
pub alloc_contiguous-free_contiguous :
    (max_frames n addr : ℕ) (p p' : Pmm)
    → IsPmm max_frames p
    → 0 < n
    → max_frames < u64_mod
    → alloc_contiguous max_frames n p ≡ (some addr, p')
    → (q : Pmm) × (free_contiguous max_frames addr n p' ≡ (true, q))
      × SameFrames q p
      × IsPmm max_frames q
alloc_contiguous-free_contiguous max_frames n addr p p' h pos small e =
    elim (alloc_contiguous-Decides max_frames n p h pos) [
      | inl fail ↦
          absurd (let (bad, _) = fail in cc (ap (λ (r : Option ℕ × Pmm). r.0) (sym e ∙ bad)))
      | inr (addr', p'', e', it) ↦
          back addr' p'' it (ap (λ (r : Option ℕ × Pmm). r.0) (sym e ∙ e'))
            (ap (λ (r : Option ℕ × Pmm). r.1) (sym e ∙ e'))
    ]
  where
    back :
        (addr' : ℕ) (p'' : Pmm)
        → IsTakenRange max_frames p n addr' p''
        → some addr ≡ some addr'
        → p' ≡ p''
        → (q : Pmm) × (free_contiguous max_frames addr n p' ≡ (true, q))
          × SameFrames q p
          × IsPmm max_frames q
    back addr' p'' it a b =
        let at : addr ≡ it.start * frame_size = cc (it.address) in
        let (q, eq, freed) =
          free_contiguous-used max_frames n p'' it.sound it.start pos it.fits small
            (λ j lo hi. let nw = it.now j in ground arith) in
        rw (b, at)
          (
            q,
            eq,
            record {
              frames = λ j. ground (arith, freed.now j, it.now j, it.were_free j);
              free = omega (arith, freed.more, it.fewer);
              total = freed.same_total ∙ it.same_total;
            },
            freed.sound,
          )
