-- ===== src/Task/Invariant.antt =====
-- The scheduler's invariant, kept by every operation of kernel/src/task/mod.rs.
use vibra.Common.{ℕ, zero, suc, ◌+◌, ◌%◌, ◌<◌, ◌≡◌, ◌≢◌, refl, sym, ◌∙◌, List}
use vibra.Common.{
  Option, none, some, Bool, true, false, arith, length, get_elem?, set, AllAt, AllAt-set,
}
use vibra.Common.{
  AllAt-push, get_elem?-set_self, get_elem?-some, get_elem?-lt, ◌==◌, length-set, length-append,
  u32_mod, Bool-cases, inl, inr, ==_iff,
}
use native.Mathlib.Nat.{mod-lt}
use vibra.Task.{
  Task, Priority, running, Scheduler, is_running, is_sleeping, is_zombie, wake_due, advance_tick,
}
use vibra.Task.Switch.{
  leave, leave_slice, enter, enter_found, choose_next, rotate, Choice, switch_to, stay, fault,
  search_ready, Search, found, wrapped, out_of_fuel, out_of_bounds,
}
use vibra.Task.Api.{
  Stack, new_task, started, push_task, update_first, exit_task, sleep_task, wake_task, has_id,
  is_asleep, make_zombie, make_sleeping, make_ready,
}
use vibra.Task.Lists.{length-wake_all, length-update_first, AllAt-wake_all, AllAt-update_first}
use vibra.Task.Search.{Finds, search_ready-total}

abbrev pub is_some : Option ℕ → Bool
is_some none = false
is_some (some a) = true

-- The task at place `i` of a scheduler whose current place is `cur`.
pub record IsTask (cur : Option ℕ) (i : ℕ) (t : Task) : Type 0 where
  -- Ids are places.
  pub named : t.id ≡ i
  -- Only the current task runs.
  pub alone : is_running t.state ≡ true → cur ≡ some i
  -- A sleeper has an alarm.
  pub alarmed : is_sleeping t.state ≡ true → is_some t.wake_time ≡ true
  -- The shell, task 0, is never a zombie.
  pub shell : i ≡ 0 → is_zombie t.state ≡ false

pub record IsConsistent (s : Scheduler) : Type 0 where
  pub every : AllAt (IsTask s.current) s.tasks
  pub inside : (c : ℕ) → s.current ≡ some c → c < length s.tasks
  pub counted : s.next_id ≡ length s.tasks
  pub paced : 0 < s.quantum
  pub peopled : 0 < length s.tasks

wake_due-IsTask :
    (now : ℕ) (cur : Option ℕ) (i : ℕ) (t : Task) → IsTask cur i t → IsTask cur i (wake_due now t)
unfolding wake_due
wake_due-IsTask now cur i t h = ground arith

make_zombie-IsTask :
    (cur : Option ℕ) (id i : ℕ) (t : Task)
    → id ≢ 0
    → has_id id t ≡ true
    → IsTask cur i t
    → IsTask cur i (make_zombie t)
unfolding make_zombie has_id
make_zombie-IsTask cur id i t ne e h = ground arith

make_sleeping-IsTask :
    (cur : Option ℕ) (at i : ℕ) (t : Task) → IsTask cur i t → IsTask cur i (make_sleeping at t)
unfolding make_sleeping
make_sleeping-IsTask cur at i t h = ground arith

make_ready-IsTask :
    (cur : Option ℕ) (i : ℕ) (t : Task) → IsTask cur i t → IsTask cur i (make_ready t)
unfolding make_ready
make_ready-IsTask cur i t h = ground arith

pub leave-IsTask :
    (ctx now idle : ℕ) (cur : Option ℕ) (i : ℕ) (t : Task)
    → IsTask cur i t
    → IsTask none i (leave ctx now idle t)
unfolding leave
leave-IsTask ctx now idle cur i t h = ground arith

pub leave_slice-IsTask :
    (ctx now idle : ℕ) (cur : Option ℕ) (i : ℕ) (t : Task)
    → IsTask cur i t
    → IsTask none i (leave_slice ctx now idle t)
unfolding leave_slice
leave_slice-IsTask ctx now idle cur i t h = ground arith

enter-IsTask : (now idle i : ℕ) (t : Task) → IsTask none i t → IsTask (some i) i (enter now idle t)
unfolding enter
enter-IsTask now idle i t h = ground arith

-- A task of a scheduler that runs none.
idle-IsTask : (cur : Option ℕ) (i : ℕ) (t : Task) → IsTask none i t → IsTask cur i t
idle-IsTask cur i t h = ground arith

pub advance_tick-IsConsistent : (s : Scheduler) → IsConsistent s → IsConsistent (advance_tick s)
unfolding advance_tick
advance_tick-IsConsistent s h = record {
  every = AllAt-wake_all (IsTask s.current) _ s.tasks (wake_due-IsTask _ s.current) h.every;
  inside = λ c e. rw length-wake_all (h.inside c e);
  counted = rw length-wake_all h.counted;
  paced = h.paced;
  peopled = rw length-wake_all h.peopled;
}

-- An update of the first task that passes a test.
update-IsConsistent :
    (test : Task → Bool) (change : Task → Task) (s : Scheduler)
    → ((i : ℕ) (t : Task) → test t ≡ true → IsTask s.current i t → IsTask s.current i (change t))
    → IsConsistent s
    → IsConsistent (record s { tasks = update_first test change s.tasks })
update-IsConsistent test change s keep h = record {
  every = AllAt-update_first (IsTask s.current) test change s.tasks keep h.every;
  inside = λ c e. rw length-update_first (h.inside c e);
  counted = rw length-update_first h.counted;
  paced = h.paced;
  peopled = rw length-update_first h.peopled;
}

pub exit_task-IsConsistent :
    (id : ℕ) (s : Scheduler) → IsConsistent s → IsConsistent (exit_task id s)
unfolding exit_task
exit_task-IsConsistent id s h = elim (Bool-cases (id == 0)) [
  | inl shell ↦ rw shell h
  | inr other ↦ rw other (
      update-IsConsistent (has_id id) make_zombie s
        (λ i t. make_zombie-IsTask s.current id i t (λ e. cc (sym other ∙ (==_iff id 0).1 e))) h)
]

pub sleep_task-IsConsistent :
    (id ticks : ℕ) (s : Scheduler) → IsConsistent s → IsConsistent (sleep_task id ticks s)
unfolding sleep_task
sleep_task-IsConsistent id ticks s h =
    update-IsConsistent (has_id id) _ s (λ i t _. make_sleeping-IsTask s.current _ i t) h

pub wake_task-IsConsistent :
    (id : ℕ) (s : Scheduler) → IsConsistent s → IsConsistent (wake_task id s)
unfolding wake_task
wake_task-IsConsistent id s h =
    update-IsConsistent (is_asleep id) make_ready s (λ i t _. make_ready-IsTask s.current i t) h

pub push_task-IsConsistent :
    (name : List ℕ) (entry : ℕ) (priority : Priority) (stack : Stack) (s : Scheduler)
    → length s.tasks + 1 < u32_mod
    → IsConsistent s
    → IsConsistent (push_task name entry priority stack s)
unfolding push_task
push_task-IsConsistent name entry priority stack s room h = record {
  every =
      AllAt-push (IsTask s.current) s.tasks _
        (unfold new_task in ground (arith, h.counted, h.peopled)) h.every;
  inside = λ c e. rw (length-append s.tasks) (omega (arith, h.inside c e));
  counted = rw (length-append s.tasks) (omega (arith, h.counted));
  paced = h.paced;
  peopled = rw (length-append s.tasks) (omega arith);
}

started-every :
    (idle_entry : ℕ) (stack0 stack1 : Stack)
    → AllAt (IsTask (some 0)) (started idle_entry stack0 stack1).tasks
unfolding started
started-every idle_entry stack0 stack1 zero t h = ground arith
started-every idle_entry stack0 stack1 (suc zero) t h = ground arith
started-every idle_entry stack0 stack1 (suc (suc i)) t h = cc

pub started-IsConsistent :
    (idle_entry : ℕ) (stack0 stack1 : Stack) → IsConsistent (started idle_entry stack0 stack1)
unfolding started
started-IsConsistent idle_entry stack0 stack1 = record {
  every = started-every idle_entry stack0 stack1;
  inside = λ c e. ground arith;
  counted = refl;
  paced = omega arith;
  peopled = omega arith;
}

-- A choice that did not panic, of a scheduler that is consistent.
abbrev pub Chooses : Choice → Type 0
Chooses (switch_to s t) = IsConsistent s
Chooses (stay s) = IsConsistent s
Chooses fault = ⊥

module _ (now idle : ℕ) (s : Scheduler) (cur : ℕ) (t : Task) (ts : List Task)
    (same : length ts ≡ length s.tasks) (here : get_elem? ts cur ≡ some t)
    (none_runs : AllAt (IsTask none) ts) (h : IsConsistent s) where
  enter_found-Chooses :
      (n : ℕ) (u : Task) → get_elem? ts n ≡ some u → Chooses (enter_found now idle n ts s)
  unfolding enter_found
  enter_found-Chooses n u there =
      rw (there, enter_found)
        (record {
          every =
              AllAt-set (IsTask (some n)) ts n _ (enter-IsTask now idle n u (none_runs n u there))
                (λ i x _ e. idle-IsTask (some n) i x (none_runs i x e));
          inside =
              λ c e. let e' : n ≡ c = cc in rw length-set (rw (← e') (get_elem?-lt ts n there));
          counted = rw length-set (h.counted ∙ sym same);
          paced = h.paced;
          peopled = rw length-set (omega (arith, h.peopled));
        })

  wrapped-Chooses :
      Chooses
        (stay (record s { tasks = set ts cur (record t { state = running }); current = some cur }))
  wrapped-Chooses = record {
    every =
        AllAt-set (IsTask (some cur)) ts cur _ (let old = none_runs cur t here in ground arith)
          (λ i x _ e. idle-IsTask (some cur) i x (none_runs i x e));
    inside = λ c e. let e' : cur ≡ c = cc in rw length-set (rw (← e') (get_elem?-lt ts cur here));
    counted = rw length-set (h.counted ∙ sym same);
    paced = h.paced;
    peopled = rw length-set (omega (arith, h.peopled));
  }

  choose_next-Chooses : Chooses (choose_next now idle cur t ts s)
  unfolding choose_next
  choose_next-Chooses =
      let inside : 0 < length ts = omega (arith, get_elem?-lt ts cur here) in
      decide _ (search_ready-total ts ((cur + 1) % length ts) (mod-lt _ inside)) refl
    where
      decide :
          (r : Search)
          → Finds ts ((cur + 1) % length ts) r
          → search_ready (length ts) ts ((cur + 1) % length ts) ((cur + 1) % length ts) ≡ r
          → Chooses (choose_next now idle cur t ts s)
      decide (found n) first e = rw (e, choose_next) (enter_found-Chooses n first.task first.there)
      decide wrapped none_up e = rw (e, choose_next) (wrapped-Chooses)
      decide out_of_fuel bad e = absurd bad
      decide out_of_bounds bad e = absurd bad

-- Leaving the current task and choosing the next keeps the invariant, and never panics.
pub rotate-Chooses :
    (leaving : Task → Task) (now idle cur : ℕ) (s : Scheduler)
    → ((i : ℕ) (t : Task) → IsTask s.current i t → IsTask none i (leaving t))
    → s.current ≡ some cur
    → IsConsistent s
    → Chooses (rotate leaving now idle cur s)
unfolding rotate
rotate-Chooses leaving now idle cur s leaves at h =
    let (t, there) = get_elem?-some s.tasks cur (h.inside cur at) in
    rw (there, rotate)
      (choose_next-Chooses now idle s cur (leaving t) (set s.tasks cur (leaving t))
        (length-set s.tasks cur (leaving t))
        (get_elem?-set_self s.tasks cur (leaving t) (h.inside cur at))
        (AllAt-set (IsTask none) s.tasks cur (leaving t) (leaves cur t (h.every cur t there))
          (others))
        h)
  where
    others : (i : ℕ) (x : Task) → cur ≢ i → get_elem? s.tasks i ≡ some x → IsTask none i x
    others i x ne e = let old = h.every i x e in ground (arith, at)
