-- ===== src/Task/Percpu.antt =====
-- The per-CPU words of kernel/src/syscall/mod.rs after a soft interrupt of kernel/src/task/mod.rs.
use vibra.Common.{ℕ, Bool, true, false, ◌≡◌, refl, leb, length, Bool-cases, Option-cases, inl, inr}
use vibra.Task.{Scheduler, Cpu, Kernel, Outcome, returned, panicked}
use vibra.Task.Switch.{
  Choice, switch_to, stay, fault, finish, load_tss, softirq_sched, softirq_handler,
}

-- A handler that returns leaves the words that a system call reads as they were in `c`.
abbrev pub KeepsWords : Cpu → Outcome → Type 0
KeepsWords c (returned k rsp) =
    (k.cpu.kernel_rsp ≡ c.kernel_rsp)
    × (k.cpu.user_rsp ≡ c.user_rsp)
    × (k.cpu.user_rflags ≡ c.user_rflags)
KeepsWords c panicked = Unit {0}

finish-KeepsWords : (ctx : ℕ) (k : Kernel) (c : Choice) → KeepsWords k.cpu (finish load_tss ctx k c)
unfolding finish load_tss
finish-KeepsWords ctx k (switch_to s t) = elim (Option-cases t.kstack_top) [
  | inl no_stack ↦ rw no_stack (refl, refl, refl)
  | inr top ↦ rw top.1 (refl, refl, refl)
]
finish-KeepsWords ctx k (stay s) = (refl, refl, refl)
finish-KeepsWords ctx k fault = tt

softirq_sched-KeepsWords :
    (now idle ctx : ℕ) (k : Kernel) (s : Scheduler)
    → KeepsWords k.cpu (softirq_sched now idle ctx k s)
unfolding softirq_sched
softirq_sched-KeepsWords now idle ctx k s = elim (Option-cases s.current) [
  | inl idle_cpu ↦ rw idle_cpu (refl, refl, refl)
  | inr cur ↦ elim (Bool-cases (leb (length s.tasks) 1)) [
    | inl alone ↦ rw (cur.1, alone) (refl, refl, refl)
    | inr more ↦ rw (cur.1, more) (finish-KeepsWords ctx k _)
  ]
]

-- A soft interrupt that returns leaves the per-CPU kernel stack and the saved user stack and
-- flags, which a system call reads, as they were, also when it has switched to another task.
pub softirq_handler-KeepsWords :
    (locked : Bool) (now idle ctx : ℕ) (k : Kernel)
    → KeepsWords k.cpu (softirq_handler locked now idle ctx k)
unfolding softirq_handler
softirq_handler-KeepsWords true now idle ctx k = (refl, refl, refl)
softirq_handler-KeepsWords false now idle ctx k = elim (Option-cases k.sched) [
  | inl unset ↦ rw unset (refl, refl, refl)
  | inr s ↦ rw s.1 (softirq_sched-KeepsWords now idle ctx k s.0)
]
