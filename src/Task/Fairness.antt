-- ===== src/Task/Fairness.antt =====
-- Which task the round robin of kernel/src/task/mod.rs enters, and what becomes of the one it left.
use vibra.Common.{ℕ, ◌+◌, ◌%◌, ◌<◌, ◌≡◌, refl, sym, ap, ◌∙◌, List, steps_to}
use vibra.Common.{
  some, true, false, arith, length, get_elem?, set, get_elem?-lt, get_elem?-set_self, set-at,
  length-set, inl, inr, ◌==◌, leb, ◌||◌, not,
}
use native.Mathlib.Nat.{mod-lt}
use vibra.Task.{Task, Scheduler, Kernel, returned, running, is_ready, is_running, is_zombie}
use vibra.Task.Switch.{
  rotate, choose_next, enter_found, Choice, switch_to, stay, fault, Search, found, wrapped,
  out_of_fuel, out_of_bounds, search_ready, leave_slice, tick_sched, finish, load_cpu, enter,
}
use vibra.Task.Search.{NotReady, IsFirst, Finds, search_ready-total}

-- The choice among `ts` after place `cur`: either the first ready place in cyclic order is entered
-- and made current, or no place is ready.
abbrev pub Elects : List Task → ℕ → Choice → Type 0
Elects ts cur (switch_to s u) =
    (n : ℕ) × (s.current ≡ some n)
    × (get_elem? s.tasks n ≡ some u)
    × (is_running u.state ≡ true)
    × IsFirst ts ((cur + 1) % length ts) n
Elects ts cur (stay s) = (i : ℕ) → i < length ts → NotReady ts i
Elects ts cur fault = ⊥

module _ (now idle cur : ℕ) (t : Task) (ts : List Task) (s : Scheduler)
    (inside : 0 < length ts) where
  enter_found-Elects :
      (n : ℕ) → IsFirst ts ((cur + 1) % length ts) n → Elects ts cur (enter_found now idle n ts s)
  unfolding enter_found enter
  enter_found-Elects n first =
      rw (first.there, enter_found)
        (n, refl, get_elem?-set_self ts n _ (get_elem?-lt ts n first.there), refl, first)

  all_seen :
      ((j : ℕ) → j < length ts → NotReady ts (((cur + 1) % length ts + j) % length ts))
      → (i : ℕ) → i < length ts
      → NotReady ts i
  all_seen seen i below =
      let (k, lt, e) = steps_to ((cur + 1) % length ts) i (length ts) (mod-lt _ inside) below in
      rw e at (seen k lt)

  choose_next-Elects : Elects ts cur (choose_next now idle cur t ts s)
  unfolding choose_next
  choose_next-Elects =
      split _ (search_ready-total ts ((cur + 1) % length ts) (mod-lt _ inside)) refl
    where
      split :
          (r : Search)
          → Finds ts ((cur + 1) % length ts) r
          → search_ready (length ts) ts ((cur + 1) % length ts) ((cur + 1) % length ts) ≡ r
          → Elects ts cur (choose_next now idle cur t ts s)
      split (found n) first e = rw (e, choose_next) (enter_found-Elects n first)
      split wrapped seen e = rw (e, choose_next) (all_seen seen)
      split out_of_fuel bad e = absurd bad
      split out_of_bounds bad e = absurd bad

-- Leaving the task at the current place, the scheduler enters the first ready task after it in
-- cyclic order, which becomes current and running, and stays only if no task is ready.
pub rotate-Elects :
    (leaving : Task → Task) (now idle cur : ℕ) (t : Task) (s : Scheduler)
    → get_elem? s.tasks cur ≡ some t
    → Elects (set s.tasks cur (leaving t)) cur (rotate leaving now idle cur s)
unfolding rotate
rotate-Elects leaving now idle cur t s there =
    rw (there, rotate)
      (choose_next-Elects now idle cur (leaving t) (set s.tasks cur (leaving t)) s
        (rw length-set (omega (arith, get_elem?-lt s.tasks cur there))))

-- Where no task is ready, the task that is left is set running again, whatever its state is.
module _ (leaving : Task → Task) (now idle cur : ℕ) (t : Task) (s : Scheduler)
    (there : get_elem? s.tasks cur ≡ some t)
    (down : (i : ℕ) → NotReady (set s.tasks cur (leaving t)) i) where
  rotate-stay :
      rotate leaving now idle cur s
      ≡ stay (record s {
        tasks = set (set s.tasks cur (leaving t)) cur (record (leaving t) { state = running });
        current = some cur;
      })
  unfolding rotate choose_next
  rotate-stay =
      rw (there, rotate)
        (split _ (search_ready-total (set s.tasks cur (leaving t)) first (mod-lt _ inside)) refl)
    where
      inside : 0 < length (set s.tasks cur (leaving t))
      inside = rw length-set (omega (arith, get_elem?-lt s.tasks cur there))

      first : ℕ
      first = (cur + 1) % length (set s.tasks cur (leaving t))

      split :
          (r : Search)
          → Finds (set s.tasks cur (leaving t)) first r
          → search_ready
              (length (set s.tasks cur (leaving t)))
              (set s.tasks cur (leaving t))
              first
              first
            ≡ r
          → choose_next now idle cur (leaving t) (set s.tasks cur (leaving t)) s
            ≡ stay (record s {
              tasks =
                  set (set s.tasks cur (leaving t)) cur (record (leaving t) { state = running });
              current = some cur;
            })
      split (found n) it e = absurd (cc (sym it.is_up ∙ down n it.task it.there))
      split wrapped seen e = rw (e, choose_next) refl
      split out_of_fuel bad e = absurd bad
      split out_of_bounds bad e = absurd bad

zombie-leave_slice :
    (ctx now idle : ℕ) (t : Task)
    → is_zombie t.state ≡ true
    → is_ready (leave_slice ctx now idle t).state ≡ false
unfolding leave_slice
zombie-leave_slice ctx now idle t z = ground arith

left-NotReady :
    (ctx now idle cur : ℕ) (t : Task) (ts : List Task)
    → is_zombie t.state ≡ true
    → ((i : ℕ) → NotReady ts i)
    → (i : ℕ) → NotReady (set ts cur (leave_slice ctx now idle t)) i
left-NotReady ctx now idle cur t ts z down i u h = elim (set-at ts cur _ i h) [
  | inl old ↦ down i u old.1
  | inr new ↦ rw new.1 (zombie-leave_slice ctx now idle t z)
]

tick_sched-due :
    (now idle ctx cur : ℕ) (k : Kernel) (s : Scheduler)
    → s.current ≡ some cur
    → 0 < s.quantum
    → s.tick_count % s.quantum ≡ 0
    → 1 < length s.tasks
    → tick_sched now idle ctx k s
      ≡ finish load_cpu ctx k (rotate (leave_slice ctx now idle) now idle cur s)
unfolding tick_sched
tick_sched-due now idle ctx cur k s at paced due many =
    let moving : (s.quantum == 0) ≡ false = ground arith in
    let ends : (not (s.tick_count % s.quantum == 0) || leb (length s.tasks) 1) ≡ false =
      ground arith in
    rw moving (rw ends (rw at refl))

-- At the end of a quantum, with at least two tasks and none of them ready, a current task that is
-- a zombie is set running again and its context resumed.
pub tick_sched-revives :
    (now idle ctx cur : ℕ) (t : Task) (k : Kernel) (s : Scheduler)
    → s.current ≡ some cur
    → get_elem? s.tasks cur ≡ some t
    → is_zombie t.state ≡ true
    → ((i : ℕ) → NotReady s.tasks i)
    → 0 < s.quantum
    → s.tick_count % s.quantum ≡ 0
    → 1 < length s.tasks
    → (s' : Scheduler) × (u : Task) × (tick_sched now idle ctx k s
        ≡ returned (record k { sched = some s' }) ctx)
      × (get_elem? s'.tasks cur ≡ some u)
      × (is_running u.state ≡ true)
unfolding finish
tick_sched-revives now idle ctx cur t k s at there z down paced due many =
    let left = leave_slice ctx now idle t in
    let same =
      rotate-stay (leave_slice ctx now idle) now idle cur t s there
        (left-NotReady ctx now idle cur t s.tasks z down) in
    (
      record s {
        tasks = set (set s.tasks cur left) cur (record left { state = running });
        current = some cur;
      },
      record left { state = running },
      tick_sched-due now idle ctx cur k s at paced due many ∙ ap (finish load_cpu ctx k) same,
      get_elem?-set_self (set s.tasks cur left) cur _
          (rw length-set (get_elem?-lt s.tasks cur there)),
      refl,
    )
