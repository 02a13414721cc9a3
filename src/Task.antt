-- ===== src/Task.antt =====
-- The preemptive scheduler, kernel/src/task/mod.rs: its state, and what its handlers are made of.
-- The serial log lines are left out; the TSS and the per-CPU words of kernel/src/syscall/mod.rs
-- that a context switch writes are `Cpu`. `kstack_layout` is one constant and has no field.
pub mod Switch
pub mod Api
pub mod Search
pub mod Lists
pub mod Invariant
pub mod Reach
pub mod Timing
pub mod Fairness
pub mod Percpu
mod Checks
use vibra.Common.{ℕ, ◌+◌, ◌%◌, ◌^◌, List, Option, none, some, Bool, true, false, leb, if◌then◌else◌}
use vibra.Common.{add_u64}

pub data TaskState : Type 0 where
  ready running sleeping zombie blocked : TaskState

pub data Priority : Type 0 where
  low normal high critical : Priority

pub record Task : Type 0 where
  pub id : ℕ
  pub name : List ℕ
  pub state : TaskState
  pub priority : Priority
  pub time_slices : ℕ
  pub wake_time : Option ℕ
  pub entry : Option ℕ
  pub saved_rsp : ℕ
  pub kstack_ptr : ℕ
  pub kstack_top : Option ℕ
  pub user_rsp : ℕ
  pub user_rflags : ℕ
  pub cpu_ns : ℕ
  pub last_start_ns : ℕ
  pub last_idle_ns : ℕ

pub record Scheduler : Type 0 where
  pub tasks : List Task
  pub current : Option ℕ
  pub tick_count : ℕ
  pub quantum : ℕ
  pub next_id : ℕ
  pub switches : ℕ

-- The interrupt controller that was acknowledged.
pub data Eoi : Type 0 where
  apic_eoi pic_eoi : Eoi

-- What the handlers write outside the scheduler: TSS.rsp0, the words of PERCPU, the EOIs sent.
pub record Cpu : Type 0 where
  pub tss_rsp0 : ℕ
  pub kernel_rsp : ℕ
  pub user_rsp : ℕ
  pub user_rflags : ℕ
  pub eois : List Eoi

-- `sched` is the content of SCHEDULER, `ticks` is `idt::TICKS`.
pub record Kernel : Type 0 where
  pub sched : Option Scheduler
  pub ticks : ℕ
  pub cpu : Cpu

-- A handler returns the stack pointer to load; an index out of bounds or `% 0` panics.
pub data Outcome : Type 0 where
  returned : Kernel → ℕ → Outcome
  panicked : Outcome

abbrev pub is_ready : TaskState → Bool
is_ready ready = true
is_ready _ = false

abbrev pub is_running : TaskState → Bool
is_running running = true
is_running _ = false

abbrev pub is_sleeping : TaskState → Bool
is_sleeping sleeping = true
is_sleeping _ = false

abbrev pub is_zombie : TaskState → Bool
is_zombie zombie = true
is_zombie _ = false

-- The body of the loop that wakes sleepers.
unfoldable pub wake_due : ℕ → Task → Task
wake_due now t =
    if is_sleeping t.state
    then elim t.wake_time [
      | none ↦ t
      | some at ↦ if leb at now then record t { state = ready; wake_time = none } else t
    ]
    else t

unfoldable pub wake_all : ℕ → List Task → List Task
unfolding wake_due
wake_all now List.[] = List.[]
wake_all now (List.◌∷◌ t ts) = List.◌∷◌ (wake_due now t) (wake_all now ts)

unfoldable pub advance_tick : Scheduler → Scheduler
unfolding wake_all
advance_tick s =
    let now = add_u64 s.tick_count 1 in record s { tick_count = now; tasks = wake_all now s.tasks }
