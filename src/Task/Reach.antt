-- ===== src/Task/Reach.antt =====
-- What the handlers of kernel/src/task/mod.rs return, and every state that the kernel can reach.
use vibra.Common.{Option-cases}
use vibra.Common.{ℕ, ◌+◌, ◌%◌, ◌<◌, ◌≡◌, sym, ◌∙◌, List}
use vibra.Common.{
  Option, none, some, Bool, true, false, arith, length, u32_mod, Bool-cases, inl, inr, ◌==◌, leb,
  ◌||◌, not,
}
use vibra.Task.{Task, Priority, Scheduler, Kernel, Cpu, Outcome, returned, panicked}
use vibra.Task.Switch.{
  Choice, switch_to, stay, fault, finish, load_cpu, load_tss, tick_sched, tick_and_switch,
  softirq_sched, softirq_handler, acknowledge, note_tick,
}
use vibra.Task.Api.{Stack, spawn, init, exit_task, sleep_task, wake_task, started}
use vibra.Task.Invariant.{
  IsConsistent, Chooses, rotate-Chooses, leave-IsTask, leave_slice-IsTask,
  advance_tick-IsConsistent, exit_task-IsConsistent, sleep_task-IsConsistent,
  wake_task-IsConsistent, push_task-IsConsistent, started-IsConsistent,
}

-- A kernel whose scheduler, if it has been set up, is consistent.
abbrev pub IsSound : Kernel → Type 0
IsSound k = (s : Scheduler) → k.sched ≡ some s → IsConsistent s

-- The handler returned, to a sound kernel, and counted `n` ticks.
abbrev pub Returns : Outcome → Type 0
Returns (returned k rsp) = IsSound k
Returns panicked = ⊥

finish-Returns :
    (load : Task → Cpu → Cpu) (ctx : ℕ) (k : Kernel) (c : Choice)
    → Chooses c
    → Returns (finish load ctx k c)
unfolding finish
finish-Returns load ctx k (switch_to s t) h = λ u e. let e' : s ≡ u = cc in rw e' at h
finish-Returns load ctx k (stay s) h = λ u e. let e' : s ≡ u = cc in rw e' at h
finish-Returns load ctx k fault h = absurd h

with_sched-IsSound :
    (k : Kernel) (s : Scheduler) → IsConsistent s → IsSound (record k { sched = some s })
with_sched-IsSound k s h u e = let e' : s ≡ u = cc in rw e' at h

tick_sched-Returns :
    (now idle ctx : ℕ) (k : Kernel) (s : Scheduler)
    → IsConsistent s
    → Returns (tick_sched now idle ctx k s)
unfolding tick_sched
tick_sched-Returns now idle ctx k s h = elim (Bool-cases (s.quantum == 0)) [
  | inl stuck ↦ absurd (let p = h.paced in ground arith)
  | inr paced ↦
      rw paced (elim (Bool-cases (not (s.tick_count % s.quantum == 0) || leb (length s.tasks) 1)) [
        | inl early ↦ rw early (with_sched-IsSound k s h)
        | inr due ↦ rw due (elim (Option-cases s.current) [
          | inl idle_cpu ↦ rw idle_cpu (with_sched-IsSound k s h)
          | inr cur ↦ rw cur.1 (
              finish-Returns load_cpu ctx k _ (
                rotate-Chooses _ now idle cur.0 s (leave_slice-IsTask ctx now idle s.current) cur.1
                  h))
        ])
      ])
]

softirq_sched-Returns :
    (now idle ctx : ℕ) (k : Kernel) (s : Scheduler)
    → IsSound k
    → IsConsistent s
    → Returns (softirq_sched now idle ctx k s)
unfolding softirq_sched
softirq_sched-Returns now idle ctx k s sound h = elim (Option-cases s.current) [
  | inl idle_cpu ↦ rw idle_cpu sound
  | inr cur ↦ rw cur.1 (elim (Bool-cases (leb (length s.tasks) 1)) [
    | inl alone ↦ rw alone sound
    | inr more ↦ rw more (
        finish-Returns load_tss ctx k _
          (rotate-Chooses _ now idle cur.0 s (leave-IsTask ctx now idle s.current) cur.1 h))
  ])
]

-- On a kernel whose scheduler, if it is set up, is consistent, the timer interrupt returns, and
-- to such a kernel: no index is out of bounds, no division is by zero, and the search for the
-- next task ends, whatever the clocks, the lock and the interrupted context.
pub tick_and_switch-Returns :
    (apic locked : Bool) (now idle ctx : ℕ) (k : Kernel)
    → IsSound k
    → Returns (tick_and_switch apic locked now idle ctx k)
unfolding tick_and_switch
tick_and_switch-Returns apic true now idle ctx k sound = sound
tick_and_switch-Returns apic false now idle ctx k sound = elim (Option-cases k.sched) [
  | inl unset ↦ rw unset (λ s e. sound s e)
  | inr s ↦ rw s.1 (
      tick_sched-Returns now idle ctx (acknowledge apic k) _
        (advance_tick-IsConsistent s.0 (sound s.0 s.1)))
]

-- On a kernel whose scheduler, if it is set up, is consistent, the soft interrupt of a yield
-- returns, and to such a kernel, whatever the clocks, the lock and the interrupted context.
pub softirq_handler-Returns :
    (locked : Bool) (now idle ctx : ℕ) (k : Kernel)
    → IsSound k
    → Returns (softirq_handler locked now idle ctx k)
unfolding softirq_handler
softirq_handler-Returns true now idle ctx k sound = sound
softirq_handler-Returns false now idle ctx k sound = elim (Option-cases k.sched) [
  | inl unset ↦ rw unset sound
  | inr s ↦ rw s.1 (softirq_sched-Returns now idle ctx k s.0 sound (sound s.0 s.1))
]

note_tick-IsSound : (locked : Bool) (k : Kernel) → IsSound k → IsSound (note_tick locked k)
unfolding note_tick
note_tick-IsSound true k sound = sound
note_tick-IsSound false k sound = elim (Option-cases k.sched) [
  | inl unset ↦ rw unset (λ s e. sound s e)
  | inr s ↦ rw s.1 (with_sched-IsSound k _ (advance_tick-IsConsistent s.0 (sound s.0 s.1)))
]

-- One thing that happens to the kernel: an interrupt, or a call of the scheduler's interface. Ids
-- are `u32`, so a spawn is a step as long as they have not run out.
pub data Step (k : Kernel) : Kernel → Type 0 where
  tick :
      (apic locked : Bool) (now idle ctx rsp : ℕ) (k' : Kernel)
      → tick_and_switch apic locked now idle ctx k ≡ returned k' rsp
      → Step k k'
  soft :
      (locked : Bool) (now idle ctx rsp : ℕ) (k' : Kernel)
      → softirq_handler locked now idle ctx k ≡ returned k' rsp
      → Step k k'
  note : (locked : Bool) → Step k (note_tick locked k)
  start :
      (name : List ℕ) (entry : ℕ) (priority : Priority) (stack : Option Stack) (s : Scheduler)
      → k.sched ≡ some s
      → length s.tasks + 1 < u32_mod
      → Step k (record k { sched = (spawn name entry priority stack k.sched).0 })
  exit :
      (id : ℕ) (s : Scheduler)
      → k.sched ≡ some s
      → Step k (record k { sched = some (exit_task id s) })
  sleep :
      (id ticks : ℕ) (s : Scheduler)
      → k.sched ≡ some s
      → Step k (record k { sched = some (sleep_task id ticks s) })
  wake :
      (id : ℕ) (s : Scheduler)
      → k.sched ≡ some s
      → Step k (record k { sched = some (wake_task id s) })

pub data Reach (k : Kernel) : Kernel → Type 0 where
  here : Reach k k
  next : {l m : Kernel} → Reach k l → Step l m → Reach k m

spawn-IsSound :
    (name : List ℕ) (entry : ℕ) (priority : Priority) (stack : Option Stack) (k : Kernel)
    (s : Scheduler)
    → k.sched ≡ some s
    → length s.tasks + 1 < u32_mod
    → IsSound k
    → IsSound (record k { sched = (spawn name entry priority stack k.sched).0 })
unfolding spawn
spawn-IsSound name entry priority none k s e room sound = rw e (with_sched-IsSound k s (sound s e))
spawn-IsSound name entry priority (some stack) k s e room sound =
    rw e
      (with_sched-IsSound k _ (push_task-IsConsistent name entry priority stack s room (sound s e)))

pub Step-IsSound : {k k' : Kernel} → Step k k' → IsSound k → IsSound k'
Step-IsSound {k} (tick apic locked now idle ctx rsp k' e) sound =
    rw e at (tick_and_switch-Returns apic locked now idle ctx k sound)
Step-IsSound {k} (soft locked now idle ctx rsp k' e) sound =
    rw e at (softirq_handler-Returns locked now idle ctx k sound)
Step-IsSound {k} (note locked) sound = note_tick-IsSound locked k sound
Step-IsSound {k} (start name entry priority stack s e room) sound =
    spawn-IsSound name entry priority stack k s e room sound
Step-IsSound {k} (exit id s e) sound =
    with_sched-IsSound k _ (exit_task-IsConsistent id s (sound s e))
Step-IsSound {k} (sleep id ticks s e) sound =
    with_sched-IsSound k _ (sleep_task-IsConsistent id ticks s (sound s e))
Step-IsSound {k} (wake id s e) sound =
    with_sched-IsSound k _ (wake_task-IsConsistent id s (sound s e))

pub Reach-IsSound : {k k' : Kernel} → Reach k k' → IsSound k → IsSound k'
Reach-IsSound here sound = sound
Reach-IsSound (next r step) sound = Step-IsSound step (Reach-IsSound r sound)

-- From the scheduler that `init` makes with both stacks allocated, whatever timer ticks, soft
-- interrupts and calls of `spawn` (while ids last), `exit_task`, `sleep_task` and `wake_task`
-- follow, in every order: ids are places, only the current task runs, every sleeper has an alarm,
-- task 0 is never a zombie, the current place lies in the table, the next id is the table's
-- length and the quantum is not zero.
pub reachable-IsConsistent :
    (idle_entry : ℕ) (stack0 stack1 : Stack) (k k' : Kernel) (s : Scheduler)
    → k.sched ≡ init idle_entry (some stack0) (some stack1)
    → Reach k k'
    → k'.sched ≡ some s
    → IsConsistent s
unfolding init
reachable-IsConsistent idle_entry stack0 stack1 k k' s boot r e =
    Reach-IsSound r
      (λ u at.
        let same : started idle_entry stack0 stack1 ≡ u = cc (sym boot ∙ at) in
        rw same at (started-IsConsistent idle_entry stack0 stack1))
      s e
