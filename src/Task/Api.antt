-- ===== src/Task/Api.antt =====
-- The scheduler's interface to the rest of the kernel: `init`, `spawn`, `exit_task`, `sleep_task`,
-- `wake_task` and the readers of kernel/src/task/mod.rs. The result of `alloc_kstack`, with the
-- stack pointer that `prepare_task_stack` returns for it, is an argument.
use vibra.Common.{ℕ, ◌+◌, ◌%◌, List, [], ◌∷◌, ◌++◌, Option, none, some, Bool, ◌&&◌}
use vibra.Common.{◌==◌, if◌then◌else◌, get_elem?, add_u64, u32_mod}
use vibra.Task.{
  Task, TaskState, Priority, ready, running, sleeping, zombie, high, low, Scheduler, is_sleeping,
}

-- What a new task gets from the allocator and `prepare_task_stack`.
pub record Stack : Type 0 where
  pub ptr : ℕ
  pub top : ℕ
  pub rsp : ℕ

unfoldable pub new_task : ℕ → List ℕ → TaskState → Priority → Option ℕ → ℕ → Stack → Task
new_task id name state priority entry rsp stack = record {
  id = id;
  name = name;
  state = state;
  priority = priority;
  time_slices = 0;
  wake_time = none;
  entry = entry;
  saved_rsp = rsp;
  kstack_ptr = stack.ptr;
  kstack_top = some stack.top;
  user_rsp = 0;
  user_rflags = 0x200;
  cpu_ns = 0;
  last_start_ns = 0;
  last_idle_ns = 0;
}

-- Task 0 is the running shell, task 1 the idle task; `idle_entry` is `idle_task_entry`.
unfoldable pub started : ℕ → Stack → Stack → Scheduler
unfolding new_task
started idle_entry stack0 stack1 = record {
  tasks =
      new_task 0 (b'k' ∷ b's' ∷ b'h' ∷ b'e' ∷ b'l' ∷ b'l' ∷ []) running high none 0 stack0
      ∷ new_task 1 (b'i' ∷ b'd' ∷ b'l' ∷ b'e' ∷ []) ready low (some idle_entry) stack1.rsp stack1
      ∷ [];
  current = some 0;
  tick_count = 0;
  quantum = 4;
  next_id = 2;
  switches = 0;
}

unfoldable pub init : ℕ → Option Stack → Option Stack → Option Scheduler
unfolding started
init idle_entry none stack1 = none
init idle_entry (some stack0) none = none
init idle_entry (some stack0) (some stack1) = some (started idle_entry stack0 stack1)

unfoldable pub push_task : List ℕ → ℕ → Priority → Stack → Scheduler → Scheduler
unfolding new_task
push_task name entry priority stack s = record s {
  next_id = (s.next_id + 1) % u32_mod;
  tasks = s.tasks ++ new_task s.next_id name ready priority (some entry) stack.rsp stack ∷ [];
}

-- The new scheduler, and the id of the task if it was made.
unfoldable pub spawn :
    List ℕ → ℕ → Priority → Option Stack → Option Scheduler → Option Scheduler × Option ℕ
unfolding push_task
spawn name entry priority stack none = (none, none)
spawn name entry priority none (some s) = (some s, none)
spawn name entry priority (some stack) (some s) =
    (some (push_task name entry priority stack s), some s.next_id)

-- `for task in &mut tasks { if test { change; break } }`.
unfoldable pub update_first : (Task → Bool) → (Task → Task) → List Task → List Task
update_first test change [] = []
update_first test change (t ∷ ts) =
    if test t then change t ∷ ts else t ∷ update_first test change ts

unfoldable pub has_id : ℕ → Task → Bool
has_id id t = t.id == id

unfoldable pub is_asleep : ℕ → Task → Bool
is_asleep id t = t.id == id && is_sleeping t.state

unfoldable pub make_zombie : Task → Task
make_zombie t = record t { state = zombie }

unfoldable pub make_sleeping : ℕ → Task → Task
make_sleeping at t = record t { state = sleeping; wake_time = some at }

unfoldable pub make_ready : Task → Task
make_ready t = record t { state = ready; wake_time = none }

unfoldable pub exit_task : ℕ → Scheduler → Scheduler
unfolding update_first has_id make_zombie
exit_task id s =
    if id == 0 then s else record s { tasks = update_first (has_id id) make_zombie s.tasks }

unfoldable pub sleep_task : ℕ → ℕ → Scheduler → Scheduler
unfolding update_first has_id make_sleeping
sleep_task id ticks s = record s {
  tasks = update_first (has_id id) (make_sleeping (add_u64 s.tick_count ticks)) s.tasks;
}

unfoldable pub wake_task : ℕ → Scheduler → Scheduler
unfolding update_first is_asleep make_ready
wake_task id s = record s { tasks = update_first (is_asleep id) make_ready s.tasks }

-- `tasks.get(i)` of the current task.
unfoldable pub current_task : Scheduler → Option Task
current_task s = elim s.current [ none ↦ none | some i ↦ get_elem? s.tasks i ]

unfoldable pub current_task_id : Scheduler → Option ℕ
unfolding current_task
current_task_id s = elim (current_task s) [ none ↦ none | some t ↦ some t.id ]

unfoldable pub get_kstack_top : Scheduler → Option ℕ
unfolding current_task
get_kstack_top s = elim (current_task s) [ none ↦ none | some t ↦ t.kstack_top ]
