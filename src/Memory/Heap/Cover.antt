-- ===== src/Memory/Heap/Cover.antt =====
-- The regions of kernel/src/memory/heap.rs after `add_region` has joined those that touch: its loop ends, no
-- address is lost or gained, and no region touches the new one.
use vibra.Common.{
  ℕ, zero, suc, ◌≤◌, ◌<◌, ◌≡◌, refl, ◌∙◌, List, [], ◌∷◌, Option, none, some, Bool, true, false, min,
  max, ltb, leb, ◌&&◌, ◌||◌, arith, length, Bool-cases, Option-cases, inl, inr,
}
use vibra.Memory.Heap.Regions.{touches, take_touching, join_regions}

-- Whether an address lies in a region.
unfoldable pub covered : List (ℕ × ℕ) → ℕ → Bool
covered [] x = false
covered (r ∷ rs) x = leb r.0 x && ltb x r.1 || covered rs x

abbrev pub AreOrdered : List (ℕ × ℕ) → Type 0
AreOrdered [] = Unit
AreOrdered (r ∷ rs) = (r.0 ≤ r.1) × AreOrdered rs

abbrev pub NoneTouches : ℕ × ℕ → List (ℕ × ℕ) → Type 0
NoneTouches m [] = Unit
NoneTouches m (r ∷ rs) = (touches m.0 m.1 r ≡ false) × NoneTouches m rs

-- What the search for a region that touches finds.
abbrev Finds : ℕ → ℕ → List (ℕ × ℕ) → Option ((ℕ × ℕ) × List (ℕ × ℕ)) → Type 0
Finds ms me rs none = NoneTouches (ms, me) rs
Finds ms me rs (some (r, others)) =
    (touches ms me r ≡ true)
    × (r.0 ≤ r.1)
    × AreOrdered others
    × (length rs ≡ suc (length others))
    × ((x : ℕ) → covered rs x ≡ (leb r.0 x && ltb x r.1 || covered others x))

skip-Finds :
    (ms me : ℕ) (r : ℕ × ℕ) (rs : List (ℕ × ℕ)) (o : Option ((ℕ × ℕ) × List (ℕ × ℕ)))
    → r.0 ≤ r.1
    → touches ms me r ≡ false
    → Finds ms me rs o
    → Finds ms me (r ∷ rs) (elim o [ none ↦ none | some (t, others) ↦ some (t, r ∷ others) ])
unfolding covered
skip-Finds ms me r rs none le apart h = (apart, h)
skip-Finds ms me r rs (some (t, others)) le apart (touch, le', ordered, len, same) =
    (touch, le', (le, ordered), omega arith, (λ x. let e = same x in ground arith))

covered_cons :
    (r : ℕ × ℕ) (rs : List (ℕ × ℕ)) (x : ℕ)
    → covered (r ∷ rs) x ≡ (leb r.0 x && ltb x r.1 || covered rs x)
unfolding covered
covered_cons r rs x = refl

take_touching-Finds :
    (ms me : ℕ) (rs : List (ℕ × ℕ)) → AreOrdered rs → Finds ms me rs (take_touching ms me rs)
unfolding take_touching
take_touching-Finds ms me [] ordered = tt
take_touching-Finds ms me (r ∷ rs) (le, ordered) = elim (Bool-cases (touches ms me r)) [
  | inl touch ↦ rw touch (touch, le, ordered, refl, covered_cons r rs)
  | inr apart ↦ rw apart (skip-Finds ms me r rs _ le apart (take_touching-Finds ms me rs ordered))
]

-- An interval with a region that touches it covers both.
union :
    (ms me s e x : ℕ)
    → ms ≤ me
    → s ≤ e
    → touches ms me (s, e) ≡ true
    → (leb (min ms s) x && ltb x (max me e)) ≡ (leb s x && ltb x e || leb ms x && ltb x me)
unfolding touches
union ms me s e x le le' touch = ground arith

pub record Joined (ms me : ℕ) (rs : List (ℕ × ℕ)) (o : Option ((ℕ × ℕ) × List (ℕ × ℕ)))
    : Type 0 where
  pub merged : ℕ × ℕ
  pub others : List (ℕ × ℕ)
  pub result : o ≡ some (merged, others)
  pub covers : (x : ℕ) → covered (merged ∷ others) x ≡ (leb ms x && ltb x me || covered rs x)
  pub apart : NoneTouches merged others
  pub low : merged.0 ≤ ms
  pub high : me ≤ merged.1
  pub fewer : length others ≤ length rs

swap_or : (u a m c f : Bool) → u ≡ (a || m) → f ≡ (a || c) → (u || c) ≡ (m || f)
swap_or u a m c f e e' = ground arith

step-Joined :
    (ms me s e : ℕ) (rs others : List (ℕ × ℕ)) (o : Option ((ℕ × ℕ) × List (ℕ × ℕ)))
    → ms ≤ me
    → Finds ms me rs (some ((s, e), others))
    → Joined (min ms s) (max me e) others o
    → Joined ms me rs o
step-Joined ms me s e rs others o le (touch, le', ordered, len, same) j = record {
  merged = j.merged;
  others = j.others;
  result = j.result;
  covers = λ x.
      let u = union ms me s e x le le' touch in
      let f = same x in
      let c = j.covers x in
      c
      ∙ swap_or (leb (min ms s) x && ltb x (max me e)) (leb s x && ltb x e) (leb ms x && ltb x me)
          (covered others x) (covered rs x) u f;
  apart = j.apart;
  low = omega (arith, j.low);
  high = omega (arith, j.high);
  fewer = omega (arith, j.fewer);
}

pub join_regions-Joined :
    (fuel ms me : ℕ) (rs : List (ℕ × ℕ))
    → length rs < fuel
    → ms ≤ me
    → AreOrdered rs
    → Joined ms me rs (join_regions fuel ms me rs)
unfolding join_regions
join_regions-Joined zero ms me rs len le ordered = absurd (omega arith)
join_regions-Joined (suc fuel) ms me rs len le ordered =
    let found = take_touching-Finds ms me rs ordered in
    elim (Option-cases (take_touching ms me rs)) [
      | inl nothing ↦
          rw (nothing, join_regions)
            record {
              merged = (ms, me);
              others = rs;
              result = refl;
              covers = covered_cons (ms, me) rs;
              apart = rw nothing at found;
              low = omega arith;
              high = omega arith;
              fewer = omega arith;
            }
      | inr (((s, e), others), touching) ↦
          let finds : Finds ms me rs (some ((s, e), others)) = rw touching at found in
          rw (touching, join_regions)
            (step-Joined ms me s e rs others _ le finds (
              join_regions-Joined fuel (min ms s) (max me e) others (omega (arith, finds.3))
                (omega (arith, finds.1)) finds.2))
    ]

-- For an interval and regions whose ends are not below their starts, one turn more than there are
-- regions is enough for the loop of `add_region` that joins them. The joined region and the
-- others then cover exactly the addresses of the interval and of the regions before, and none of
-- the others touches the joined one.
pub join_regions-covered :
    (start end : ℕ) (regions : List (ℕ × ℕ))
    → start ≤ end
    → AreOrdered regions
    → (merged : ℕ × ℕ) × ((others : List (ℕ × ℕ)) × (join_regions
            (suc (length regions))
            start
            end
            regions
          ≡ some (merged, others))
        × ((x : ℕ) → covered (merged ∷ others) x ≡ (leb start x && ltb x end || covered regions x))
        × NoneTouches merged others)
join_regions-covered start end regions le ordered =
    let j = join_regions-Joined (suc (length regions)) start end regions (omega arith) le ordered in
    (j.merged, (j.others, j.result, j.covers, j.apart))
