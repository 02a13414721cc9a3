-- ===== src/Task/Search.antt =====
-- The round-robin loop of kernel/src/task/mod.rs ends within one turn of the table.
use vibra.Common.{ℕ, zero, suc, ◌+◌, ◌%◌, ◌<◌, ◌≡◌, refl, sym, List, some}
use vibra.Common.{
  true, false, arith, mod_step, turn_done, turn_open, ◌==◌, length, get_elem?, get_elem?-some,
  Bool-cases, inl, inr, ==_iff,
}
use native.Mathlib.Nat.{mod-lt, mod-eq_of_lt, add_assoc}
use native.Mathlib.Numerals.{add-one}
use native.Mathlib.Decide.{dec_lt}
use vibra.Common.{ap, ◌∙◌}
use vibra.Task.{Task, is_ready}
use vibra.Task.Switch.{Search, found, wrapped, out_of_fuel, out_of_bounds, search_ready}

abbrev pub NotReady : List Task → ℕ → Type 0
NotReady ts i = (t : Task) → get_elem? ts i ≡ some t → is_ready t.state ≡ false

-- `n` holds a ready task, and none of the places from `start` on that come before it does.
pub record IsFirst (ts : List Task) (start n : ℕ) : Type 0 where
  pub steps : ℕ
  pub task : Task
  pub below : steps < length ts
  pub place : n ≡ (start + steps) % length ts
  pub there : get_elem? ts n ≡ some task
  pub is_up : is_ready task.state ≡ true
  pub before : (j : ℕ) → j < steps → NotReady ts ((start + j) % length ts)

abbrev pub Finds : List Task → ℕ → Search → Type 0
Finds ts start (found n) = IsFirst ts start n
Finds ts start wrapped = (j : ℕ) → j < length ts → NotReady ts ((start + j) % length ts)
Finds ts start out_of_fuel = ⊥
Finds ts start out_of_bounds = ⊥

module _ (fuel : ℕ) (ts : List Task) (start n : ℕ) (t : Task)
    (there : get_elem? ts n ≡ some t) where
  search_ready-up : is_ready t.state ≡ true → search_ready (suc fuel) ts start n ≡ found n
  unfolding search_ready
  search_ready-up up = ground arith

  search_ready-back :
      is_ready t.state ≡ false
      → (n + 1) % length ts ≡ start
      → search_ready (suc fuel) ts start n ≡ wrapped
  unfolding search_ready
  search_ready-back down back = rw (there, search_ready) (rw down (rw ((==_iff _ _).1 back)))

  search_ready-on :
      is_ready t.state ≡ false
      → ((n + 1) % length ts == start) ≡ false
      → search_ready (suc fuel) ts start n ≡ search_ready fuel ts start ((n + 1) % length ts)
  unfolding search_ready
  search_ready-on down away = rw (there, search_ready) (rw down (rw away))

not_whole : (s k m : ℕ) → s < m → k < m → (((s + k) % m + 1) % m == s) ≡ false → k + 1 < m
not_whole s k m h h' away = elim (dec_lt (k + 1) m) [
  | yes p ↦ p
  | no p ↦
      let back : ((s + k) % m + 1) % m ≡ s = mod_step (s + k) m ∙ turn_open s k m h (omega arith) in
      absurd (cc (sym ((==_iff _ _).1 back) ∙ away))
]

module _ (ts : List Task) (start : ℕ) (inside : start < length ts) where
  Seen : ℕ → Type 0
  Seen k = (j : ℕ) → j < k → NotReady ts ((start + j) % length ts)

  Seen-suc :
      (k : ℕ) (t : Task)
      → Seen k
      → get_elem? ts ((start + k) % length ts) ≡ some t
      → is_ready t.state ≡ false
      → Seen (suc k)
  unfolding Seen
  Seen-suc k t seen e r j h u g = elim (dec_lt j k) [
    | yes p ↦ seen j p u g
    | no p ↦
        let same : j ≡ k = omega arith in
        cc (sym e ∙ ap (λ i. get_elem? ts ((start + i) % length ts)) (sym same) ∙ g, r)
  ]

  -- With the rounds left and the rounds made adding up to one turn, the loop finds the first ready
  -- place or has seen them all.
  search_ready-Finds :
      (fuel k : ℕ)
      → fuel + k ≡ length ts
      → k < length ts
      → Seen k
      → Finds ts start (search_ready fuel ts start ((start + k) % length ts))
  unfolding Seen
  search_ready-Finds zero k e h seen = absurd (omega arith)
  search_ready-Finds (suc fuel) k e h seen =
      let (t, there) =
        get_elem?-some ts ((start + k) % length ts) (mod-lt (start + k) (omega arith)) in
      let turn : ((start + k) % length ts + 1) % length ts ≡ (start + k + 1) % length ts =
        mod_step (start + k) (length ts) in
      elim (Bool-cases (is_ready t.state)) [
        | inl up ↦ rw (search_ready-up fuel ts start ((start + k) % length ts) t there up) (record {
          steps = k;
          task = t;
          below = h;
          place = refl;
          there = there;
          is_up = up;
          before = seen;
        })
        | inr down ↦ elim (Bool-cases (((start + k) % length ts + 1) % length ts == start)) [
          | inl back ↦
              let e' = (==_iff _ _).0 back in
              rw (search_ready-back fuel ts start ((start + k) % length ts) t there down e')
                (λ j below.
                  Seen-suc k t seen there down j
                    (omega (arith, turn_done start k (length ts) inside h (sym turn ∙ e'))))
          | inr away ↦
              rw (search_ready-on fuel ts start ((start + k) % length ts) t there down away) (
                rw turn (
                  rw (add_assoc start k 1) (
                    search_ready-Finds fuel (k + 1) (omega arith)
                      (not_whole start k (length ts) inside h away)
                      (rw add-one (Seen-suc k t seen there down)))))
        ]
      ]

  -- Fuel for one turn is enough: from `start` the loop ends, and finds the first ready place.
  pub search_ready-total : Finds ts start (search_ready (length ts) ts start start)
  unfolding Seen
  search_ready-total =
      rw begin at
        (search_ready-Finds (length ts) 0 (omega arith) (omega arith) (λ j h. absurd (omega arith)))
    where
      begin : (start + 0) % length ts ≡ start
      begin = omega (arith, mod-eq_of_lt {n = start + 0} {m = length ts} (omega arith))
