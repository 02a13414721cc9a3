-- ===== src/Task/Timing.antt =====
-- How long a task sleeps: `sleep_task` of kernel/src/task/mod.rs and the ticks that follow it.
use vibra.Common.{ℕ, zero, suc, ◌+◌, ◌≤◌, ◌<◌, ◌≡◌, refl, ap, List, [], ◌∷◌, some}
use vibra.Common.{
  false, arith, get_elem?, AllAt, ltb, if◌then◌else◌, ◌⊎◌, inl, inr, u64_mod, add_u64, ◌==◌, ==_iff,
}
use native.Mathlib.Nat.{mod-eq_of_lt}
use vibra.Task.{Task, Scheduler, ready, sleeping, wake_due, advance_tick}
use vibra.Task.Api.{sleep_task, update_first, has_id, make_sleeping}
use vibra.Task.Lists.{get_elem?-wake_all}
use vibra.Task.Invariant.{IsConsistent}

-- `n` timer ticks with no other call between them.
abbrev pub ticks_on : ℕ → Scheduler → Scheduler
ticks_on zero s = s
ticks_on (suc n) s = advance_tick (ticks_on n s)

-- Where ids are places, counted from `o`, the task with the id of a place is at that place.
get_elem?-update_first :
    (change : Task → Task) (id o i : ℕ) (ts : List Task) (t : Task)
    → id ≡ o + i
    → AllAt (λ j u. u.id ≡ o + j) ts
    → get_elem? ts i ≡ some t
    → get_elem? (update_first (has_id id) change ts) i ≡ some (change t)
unfolding update_first has_id
get_elem?-update_first change id o i [] t e ids h = absurd (cc h)
get_elem?-update_first change id o zero (u ∷ ts) t e ids h =
    let same : u.id ≡ id = omega (arith, ids 0 u refl) in
    let one : u ≡ t = cc in rw ((==_iff u.id id).1 same) (rw one refl)
get_elem?-update_first change id o (suc i) (u ∷ ts) t e ids h =
    let other : (u.id == id) ≡ false = let first : u.id ≡ o + 0 = ids 0 u refl in ground arith in
    rw other (
      get_elem?-update_first change id (o + 1) i ts t (omega arith)
        (λ j v g. omega (arith, ids (suc j) v g)) h)

-- A task `k` ticks after it was put to sleep for `n` ticks at tick `start`.
abbrev Phase : ℕ → ℕ → ℕ → Task → Type 0
Phase start n k t =
    ((t.state ≡ sleeping) × (t.wake_time ≡ some (start + n)) × ((k ≡ 0) ⊎ (k < n)))
    ⊎ ((t.state ≡ ready) × (0 < k) × (n ≤ k))

record IsDozing (start n k : ℕ) (s : Scheduler) (i : ℕ) : Type 0 where
  task : Task
  there : get_elem? s.tasks i ≡ some task
  clock : s.tick_count ≡ start + k
  phase : Phase start n k task

wake_due-Phase :
    (start n k now : ℕ) (t : Task)
    → now ≡ start + suc k
    → Phase start n k t
    → Phase start n (suc k) (wake_due now t)
unfolding wake_due
wake_due-Phase start n k now t e (inl h) = ground arith
wake_due-Phase start n k now t e (inr h) = ground arith

IsDozing-suc :
    (start n k : ℕ) (s : Scheduler) (i : ℕ)
    → start + suc k < u64_mod
    → IsDozing start n k s i
    → IsDozing start n (suc k) (advance_tick s) i
unfolding advance_tick
IsDozing-suc start n k s i room h =
    let now : add_u64 s.tick_count 1 ≡ start + suc k = let c = h.clock in omega arith in
    record {
      task = wake_due (add_u64 s.tick_count 1) h.task;
      there = get_elem?-wake_all _ s.tasks i h.task h.there;
      clock = now;
      phase = wake_due-Phase start n k _ h.task now h.phase;
    }

IsDozing-ticks_on :
    (start n k : ℕ) (s : Scheduler) (i : ℕ)
    → start + k < u64_mod
    → IsDozing start n 0 s i
    → IsDozing start n k (ticks_on k s) i
IsDozing-ticks_on start n zero s i room h = h
IsDozing-ticks_on start n (suc k) s i room h =
    IsDozing-suc start n k (ticks_on k s) i room (IsDozing-ticks_on start n k s i (omega arith) h)

Phase-state :
    (start n k : ℕ) (t : Task)
    → Phase start n (suc k) t
    → t.state ≡ (if ltb (suc k) n then sleeping else ready)
Phase-state start n k t (inl h) = ground arith
Phase-state start n k t (inr h) = ground arith

-- In a consistent scheduler whose tick counter does not wrap, a task put to sleep for `n` ticks
-- is asleep after each later tick before the `n`-th, and ready after each from then on (a sleep
-- for no ticks ends with the first), when only ticks follow.
pub sleep_task-ticks_on :
    (s : Scheduler) (i n k : ℕ) (t : Task)
    → IsConsistent s
    → get_elem? s.tasks i ≡ some t
    → s.tick_count + n < u64_mod
    → s.tick_count + suc k < u64_mod
    → (u : Task) × (get_elem? (ticks_on (suc k) (sleep_task i n s)).tasks i ≡ some u)
      × (u.state ≡ (if ltb (suc k) n then sleeping else ready))
sleep_task-ticks_on s i n k t h there fits room =
    let d = IsDozing-ticks_on s.tick_count n (suc k) (sleep_task i n s) i room begin in
    (d.task, d.there, Phase-state s.tick_count n k d.task d.phase)
  where
    ids : AllAt (λ j u. u.id ≡ 0 + j) s.tasks
    ids j u g = omega (arith, (h.every j u g).named)

    alarm : add_u64 s.tick_count n ≡ s.tick_count + n
    alarm = mod-eq_of_lt fits

    begin : IsDozing s.tick_count n 0 (sleep_task i n s) i
    begin =
        unfold sleep_task in
        record {
          task = make_sleeping (add_u64 s.tick_count n) t;
          there = get_elem?-update_first _ i 0 i s.tasks t (omega arith) ids there;
          clock = omega arith;
          phase = unfold make_sleeping in inl (refl, ap some alarm, inl refl);
        }
