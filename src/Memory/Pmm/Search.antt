-- ===== src/Memory/Pmm/Search.antt =====
-- The search of `alloc_contiguous`, kernel/src/memory/pmm.rs, ends, and what it returns.
use vibra.Common.{ℕ, zero, suc, ◌+◌, ◌-◌, ◌*◌, ◌≤◌, ◌<◌, ◌≡◌, sym, ◌∙◌, List, true, false}
use vibra.Common.{arith, ltb→lt, leb→le, ltb, leb, if◌then◌else◌, min, Bool-cases, inl, inr, ◌⊎◌}
use native.Mathlib.Decide.{dec_lt}
use vibra.Memory.Pmm.{
  is_frame_free, skip_used, run_end, search_run, Run, run, exhausted, out_of_fuel, search_fuel,
}
use vibra.Memory.Pmm.Contiguous.{AllFree, skip_used-lem, run_end-lem}

module _ (max_frames : ℕ) (bitmap : List ℕ) (n : ℕ) (some_free : ℕ) (below : some_free < max_frames)
    (up : is_frame_free bitmap some_free ≡ true) where
  -- A run of `n` free frames inside the bitmap, or none was found.
  abbrev pub Ends : Run → Type 0
  Ends (run s) = (s + n ≤ max_frames) × AllFree bitmap s n
  Ends exhausted = Unit {0}
  Ends out_of_fuel = ⊥

  -- From 0 a free frame is found.
  skip_used-below : skip_used bitmap (max_frames - 0) 0 < max_frames
  skip_used-below = elim (dec_lt (skip_used bitmap (max_frames - 0) 0) max_frames) [
    | yes p ↦ p
    | no p ↦
        let r = skip_used-lem bitmap (max_frames - 0) 0 in
        absurd (cc (sym up ∙ r.2 some_free (omega arith) (omega (arith, r.1))))
  ]

  hit : (s : ℕ) → s < max_frames → n ≤ run_end bitmap (min (max_frames - s) n) s - s → Ends (run s)
  hit s lt long =
      let r = run_end-lem bitmap (min (max_frames - s) n) s in
      (omega (arith, r.0, r.1), λ j lo hi. r.2 j lo (omega (arith, r.0)))

  search_run-Ends :
      (fuel checked start : ℕ)
      → start ≤ max_frames
      → (2 * (max_frames * 2 - checked) + 2 ≤ fuel)
        ⊎ ((2 * (max_frames * 2 - checked) + 1 ≤ fuel)
            × (skip_used bitmap (max_frames - start) start < max_frames))
      → Ends (search_run max_frames bitmap n fuel checked start)
  unfolding search_run
  search_run-Ends zero checked start inside m = absurd (omega arith)
  search_run-Ends (suc fuel) checked start inside m =
      let first = skip_used bitmap (max_frames - start) start in
      let end = run_end bitmap (min (max_frames - first) n) first in
      elim (Bool-cases (ltb checked (max_frames * 2))) [
        | inr over ↦ rw over tt
        | inl more ↦ rw more (elim (Bool-cases (leb max_frames first)) [
          | inl wrap ↦
              rw wrap
                (search_run-Ends fuel checked 0 (omega arith) (inr (ground arith, skip_used-below)))
          | inr found ↦ rw found (elim (Bool-cases (leb n (end - first))) [
            | inl long ↦ rw long (hit first (ground arith) (ground arith))
            | inr short ↦ rw short (
                search_run-Ends fuel (checked + 1) (if leb max_frames end then 0 else end)
                  (ground arith) (inl (ground arith)))
          ])
        ])
      ]

  -- The fuel is enough: a turn that starts again at 0 is followed by one that counts.
  pub search_run-total :
      (start : ℕ)
      → start ≤ max_frames
      → Ends (search_run max_frames bitmap n (search_fuel max_frames) 0 start)
  search_run-total start inside =
      search_run-Ends (search_fuel max_frames) 0 start inside (inl (omega arith))

-- Where there is a run of `n` free frames at `r`, the search does not give up before it finds one.
module _ (max_frames : ℕ) (bitmap : List ℕ) (n r : ℕ) (pos : 0 < n) (fits : r + n ≤ max_frames)
    (free : AllFree bitmap r n) where
  abbrev pub Hits : Run → Type 0
  Hits (run s) = (s + n ≤ max_frames) × AllFree bitmap s n
  Hits exhausted = ⊥
  Hits out_of_fuel = ⊥

  -- From a place up to `r`, the search for a free frame stops at `r` or before.
  skip_used-le : (start : ℕ) → start ≤ r → skip_used bitmap (max_frames - start) start ≤ r
  skip_used-le start le = elim (dec_lt r (skip_used bitmap (max_frames - start) start)) [
    | no p ↦ omega arith
    | yes p ↦
        let s = skip_used-lem bitmap (max_frames - start) start in
        absurd (cc (sym (free r (omega arith) (omega arith)) ∙ s.2 r le (omega (arith, s.0))))
  ]

  -- A run that is too short and begins up to `r` ends up to `r`.
  short-le :
      (first : ℕ)
      → first ≤ r
      → run_end bitmap (min (max_frames - first) n) first < first + n
      → run_end bitmap (min (max_frames - first) n) first ≤ r
  short-le first le short = elim (dec_lt r (run_end bitmap (min (max_frames - first) n) first)) [
    | no p ↦ omega arith
    | yes p ↦
        let e = run_end-lem bitmap (min (max_frames - first) n) first in
        absurd (
          cc (
            sym
              (free (run_end bitmap (min (max_frames - first) n) first) (omega arith) (omega arith))
            ∙ e.3 (omega arith)))
  ]

  -- The place moves on by at least one frame.
  moves :
      (first : ℕ)
      → first < max_frames
      → is_frame_free bitmap first ≡ true
      → first + 1 ≤ run_end bitmap (min (max_frames - first) n) first
  moves first lt up = elim (dec_lt first (run_end bitmap (min (max_frames - first) n) first)) [
    | yes p ↦ omega arith
    | no p ↦
        let e = run_end-lem bitmap (min (max_frames - first) n) first in
        let same : run_end bitmap (min (max_frames - first) n) first ≡ first = omega (arith, e.0) in
        absurd (cc (sym up ∙ (rw same at (e.3 (omega (arith, e.0))))))
  ]

  -- Before the first turn from 0, `checked` is at most the place; after it, at most one turn more.
  abbrev Budget : ℕ → ℕ → ℕ → Type 0
  Budget fuel checked start =
      ((checked ≤ start) × (start ≤ max_frames) × (2 * (max_frames * 2 - checked) + 2 ≤ fuel))
      ⊎ ((checked ≤ max_frames + start) × (start ≤ r) × (2 * (max_frames * 2 - checked) + 1 ≤ fuel))

  Budget-next :
      (fuel checked start first end : ℕ)
      → checked < max_frames * 2
      → start ≤ first
      → first + 1 ≤ end
      → end ≤ max_frames
      → (start ≤ r → first ≤ r)
      → (first ≤ r → end ≤ r)
      → Budget (suc fuel) checked start
      → Budget fuel (checked + 1) (if leb max_frames end then 0 else end)
  Budget-next fuel checked start first end more s f e near near' (inl b) =
      elim (Bool-cases (leb max_frames end)) [
        | inl at_end ↦ rw at_end (inr (omega arith))
        | inr inside ↦ rw inside (inl (omega arith))
      ]
  Budget-next fuel checked start first end more s f e near near' (inr b) =
      let le : end ≤ r = near' (near b.1) in
      let inside : leb max_frames end ≡ false = ground arith in rw inside (inr (omega arith))

  search_run-Hits :
      (fuel checked start : ℕ)
      → Budget fuel checked start
      → Hits (search_run max_frames bitmap n fuel checked start)
  unfolding search_run
  search_run-Hits zero checked start b = absurd (omega arith)
  search_run-Hits (suc fuel) checked start b =
      let first = skip_used bitmap (max_frames - start) start in
      let end = run_end bitmap (min (max_frames - first) n) first in
      let s = skip_used-lem bitmap (max_frames - start) start in
      let e = run_end-lem bitmap (min (max_frames - first) n) first in
      elim (Bool-cases (ltb checked (max_frames * 2))) [
        | inr over ↦ absurd (ground arith)
        | inl more ↦ rw more (elim (Bool-cases (leb max_frames first)) [
          | inl wrap ↦
              rw wrap (search_run-Hits fuel checked 0 (inr (ground (arith, skip_used-le start))))
          | inr found ↦ rw found (elim (Bool-cases (leb n (end - first))) [
            | inl long ↦ rw long (
              omega (arith, e.0, e.1, leb→le n (end - first) long),
              λ j lo hi. e.2 j lo (omega (arith, e.0, leb→le n (end - first) long)),
            )
            | inr short ↦ rw short (
                search_run-Hits fuel (checked + 1) (if leb max_frames end then 0 else end) (
                  Budget-next fuel checked start first end (ltb→lt _ _ more) s.0
                    (moves first (ground arith) (s.3 (ground arith)))
                    (omega (arith, e.1, s.1, leb→le max_frames first)) (skip_used-le start)
                    (λ le. short-le first le (ground arith)) b))
          ])
        ])
      ]

  pub search_run-found :
      (start : ℕ)
      → start ≤ max_frames
      → Hits (search_run max_frames bitmap n (search_fuel max_frames) 0 start)
  search_run-found start inside =
      search_run-Hits (search_fuel max_frames) 0 start (inl (omega arith))
