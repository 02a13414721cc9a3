-- ===== src/Task/Checks.antt =====
-- Runs of the scheduler of kernel/src/task/mod.rs on a machine with the shell and the idle task.
use vibra.Common.{ℕ, zero, suc, [], ◌∷◌, none, some, true, false, ◌≡◌, refl, set}
use vibra.Task.{Task, TaskState, Priority, ready, Scheduler, Kernel, advance_tick}
use vibra.Task.Api.{Stack, started, init, sleep_task, make_zombie, make_sleeping, new_task}
use vibra.Task.Switch.{leave, rotate, tick_and_switch, softirq_handler, note_tick}
use vibra.Task.Search.{NotReady}
use vibra.Task.Invariant.{IsConsistent}
use vibra.Task.Reach.{
  IsSound, Returns, here, next, note, sleep, Reach-IsSound, reachable-IsConsistent,
  tick_and_switch-Returns,
}
use vibra.Task.Percpu.{KeepsWords, softirq_handler-KeepsWords}
use vibra.Task.Fairness.{Elects, rotate-Elects}

abbrev stack0 : Stack
stack0 = record { ptr = 0x1000; top = 0x5000; rsp = 0 }

abbrev stack1 : Stack
stack1 = record { ptr = 0x6000; top = 0xa000; rsp = 0x9f00 }

abbrev s0 : Scheduler
s0 = started 7 stack0 stack1

abbrev k0 : Kernel
k0 = record {
  sched = init 7 (some stack0) (some stack1);
  ticks = 0;
  cpu = record { tss_rsp0 = 0; kernel_rsp = 0; user_rsp = 0; user_rflags = 0; eois = [] };
}

-- Three ticks on, the next tick ends the quantum.
abbrev k3 : Kernel
k3 = note_tick false (note_tick false (note_tick false k0))

k0_sched : k0.sched ≡ some s0
unfolding init
k0_sched = refl

k3-IsSound : IsSound k3
k3-IsSound =
    Reach-IsSound (next (next (next here (note false)) (note false)) (note false))
      (λ s e. reachable-IsConsistent 7 stack0 stack1 k0 k0 s refl here e)

reachable-IsConsistent_example : IsConsistent (advance_tick (sleep_task 1 5 s0))
unfolding note_tick
reachable-IsConsistent_example =
    reachable-IsConsistent 7 stack0 stack1 k0
      (note_tick false (record k0 { sched = some (sleep_task 1 5 s0) }))
      (advance_tick (sleep_task 1 5 s0)) refl
      (next (next here (sleep 1 5 s0 k0_sched)) (note false)) refl

tick_and_switch-Returns_example : Returns (tick_and_switch true false 100 10 0x9000 k3)
tick_and_switch-Returns_example = tick_and_switch-Returns true false 100 10 0x9000 k3 k3-IsSound

abbrev shell : Task
shell =
    new_task 0 (b'k' ∷ b's' ∷ b'h' ∷ b'e' ∷ b'l' ∷ b'l' ∷ []) TaskState.running Priority.high none 0
      stack0

rotate-Elects_example :
    Elects (set s0.tasks 0 (leave 0x9000 100 10 shell)) 0 (rotate (leave 0x9000 100 10) 100 10 0 s0)
unfolding started
rotate-Elects_example = rotate-Elects (leave 0x9000 100 10) 100 10 0 shell s0 refl

-- A zombie runs while the only other task sleeps.
abbrev last : Scheduler
last = record {
  tasks =
      make_zombie shell
      ∷ make_sleeping 99 (new_task 1 [] ready Priority.low (some 7) 0 stack1)
      ∷ [];
  current = some 0;
  tick_count = 8;
  quantum = 4;
  next_id = 2;
  switches = 3;
}

last-NotReady : (i : ℕ) → NotReady last.tasks i
unfolding make_zombie make_sleeping
last-NotReady zero t e = cc
last-NotReady (suc zero) t e = cc
last-NotReady (suc (suc i)) t e = cc

softirq_handler-KeepsWords_example : KeepsWords k3.cpu (softirq_handler false 100 10 0x9000 k3)
softirq_handler-KeepsWords_example = softirq_handler-KeepsWords false 100 10 0x9000 k3
