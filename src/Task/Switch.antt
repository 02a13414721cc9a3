-- ===== src/Task/Switch.antt =====
-- The two context-switch handlers of kernel/src/task/mod.rs, `tick_and_switch` and
-- `softirq_handler`, and `note_tick`. `locked` is the outcome of `SCHEDULER.try_lock()`; `now` and
-- `idle` are the readings of `timer::uptime_ns()` and `timer::idle_ns()`.
use vibra.Common.{ℕ, zero, suc, ◌+◌, ◌-◌, ◌%◌, List, ◌∷◌, none, some, Bool}
use vibra.Common.{
  leb, ◌==◌, ◌||◌, not, if◌then◌else◌, length, get_elem?, set, add_u64, saturating_add,
}
use vibra.Task.{
  Task, ready, running, Scheduler, Cpu, Kernel, Outcome, returned, panicked, apic_eoi, pic_eoi,
  is_ready, is_running, advance_tick,
}

-- CPU time since the task was last entered, less the time spent in `hlt`.
unfoldable pub charge : ℕ → ℕ → Task → Task
charge now idle t = if t.last_start_ns == 0 then t else record t {
  cpu_ns = saturating_add t.cpu_ns ((now - t.last_start_ns) - (idle - t.last_idle_ns));
}

unfoldable pub demote : Task → Task
demote t = if is_running t.state then record t { state = ready } else t

-- What `softirq_handler` does to the task that it leaves.
unfoldable pub leave : ℕ → ℕ → ℕ → Task → Task
unfolding charge demote
leave ctx now idle t = demote (charge now idle (record t { saved_rsp = ctx }))

-- `tick_and_switch` also counts the slice.
unfoldable pub leave_slice : ℕ → ℕ → ℕ → Task → Task
unfolding leave
leave_slice ctx now idle t =
    let u = leave ctx now idle t in record u { time_slices = add_u64 u.time_slices 1 }

unfoldable pub enter : ℕ → ℕ → Task → Task
enter now idle t = record t { state = running; last_start_ns = now; last_idle_ns = idle }

pub data Search : Type 0 where
  found : ℕ → Search
  wrapped out_of_fuel out_of_bounds : Search

-- The round-robin loop: `next` moves on cyclically until a ready task or back to `start`.
unfoldable pub search_ready : ℕ → List Task → ℕ → ℕ → Search
search_ready zero ts start next = out_of_fuel
search_ready (suc fuel) ts start next =
    let rest = search_ready fuel ts start ((next + 1) % length ts) in
    elim (get_elem? ts next) [
      | none ↦ out_of_bounds
      | some t ↦
          if is_ready t.state
          then found next
          else if (next + 1) % length ts == start
          then wrapped
          else rest
    ]

-- The scheduler after the choice, and the task that was entered, if any.
pub data Choice : Type 0 where
  switch_to : Scheduler → Task → Choice
  stay : Scheduler → Choice
  fault : Choice

unfoldable pub enter_found : ℕ → ℕ → ℕ → List Task → Scheduler → Choice
unfolding enter
enter_found now idle next ts s = elim (get_elem? ts next) [
  | none ↦ fault
  | some u ↦
      switch_to
        (record s {
          tasks = set ts next (enter now idle u);
          current = some next;
          switches = add_u64 s.switches 1;
        })
        (enter now idle u)
]

-- The choice among the tasks `ts`, where `t` is the task `cur` that has just been left.
unfoldable pub choose_next : ℕ → ℕ → ℕ → Task → List Task → Scheduler → Choice
unfolding enter_found search_ready
choose_next now idle cur t ts s =
    let first = (cur + 1) % length ts in
    elim (search_ready (length ts) ts first first) [
      | found next ↦ enter_found now idle next ts s
      | wrapped ↦
          stay (record s { tasks = set ts cur (record t { state = running }); current = some cur })
      | _ ↦ fault
    ]

unfoldable pub rotate : (Task → Task) → ℕ → ℕ → ℕ → Scheduler → Choice
unfolding choose_next
rotate leaving now idle cur s = elim (get_elem? s.tasks cur) [
  | none ↦ fault
  | some t ↦ choose_next now idle cur (leaving t) (set s.tasks cur (leaving t)) s
]

-- `set_kernel_stack` and `update_kernel_stack`, then the user words of the TCB.
unfoldable pub load_cpu : Task → Cpu → Cpu
load_cpu t c =
    let c' : Cpu = elim t.kstack_top [
      | none ↦ c
      | some top ↦ record c { tss_rsp0 = top; kernel_rsp = top }
    ] in
    record c' { user_rsp = t.user_rsp; user_rflags = t.user_rflags }

-- The soft interrupt writes the TSS alone.
unfoldable pub load_tss : Task → Cpu → Cpu
load_tss t c = elim t.kstack_top [ none ↦ c | some top ↦ record c { tss_rsp0 = top } ]

unfoldable pub finish : (Task → Cpu → Cpu) → ℕ → Kernel → Choice → Outcome
finish load ctx k (switch_to s t) =
    returned (record k { sched = some s; cpu = load t k.cpu }) t.saved_rsp
finish load ctx k (stay s) = returned (record k { sched = some s }) ctx
finish load ctx k fault = panicked

unfoldable pub acknowledge : Bool → Kernel → Kernel
acknowledge apic k = record k {
  ticks = add_u64 k.ticks 1;
  cpu = record k.cpu { eois = (if apic then apic_eoi else pic_eoi) ∷ k.cpu.eois };
}

-- The part of `tick_and_switch` behind the quantum test, on the advanced scheduler.
unfoldable pub tick_sched : ℕ → ℕ → ℕ → Kernel → Scheduler → Outcome
unfolding rotate leave_slice finish load_cpu
tick_sched now idle ctx k s =
    if s.quantum == 0
    then panicked
    else if not (s.tick_count % s.quantum == 0) || leb (length s.tasks) 1
    then returned (record k { sched = some s }) ctx
    else elim s.current [
      | none ↦ returned (record k { sched = some s }) ctx
      | some cur ↦ finish load_cpu ctx k (rotate (leave_slice ctx now idle) now idle cur s)
    ]

unfoldable pub tick_and_switch : Bool → Bool → ℕ → ℕ → ℕ → Kernel → Outcome
unfolding tick_sched acknowledge advance_tick
tick_and_switch apic locked now idle ctx k =
    let k' = acknowledge apic k in
    if locked then returned k' ctx else elim k.sched [
      | none ↦ returned k' ctx
      | some s ↦ tick_sched now idle ctx k' (advance_tick s)
    ]

unfoldable pub softirq_sched : ℕ → ℕ → ℕ → Kernel → Scheduler → Outcome
unfolding rotate leave finish load_tss
softirq_sched now idle ctx k s = elim s.current [
  | none ↦ returned k ctx
  | some cur ↦
      if leb (length s.tasks) 1
      then returned k ctx
      else finish load_tss ctx k (rotate (leave ctx now idle) now idle cur s)
]

unfoldable pub softirq_handler : Bool → ℕ → ℕ → ℕ → Kernel → Outcome
unfolding softirq_sched
softirq_handler locked now idle ctx k =
    if locked
    then returned k ctx
    else elim k.sched [ none ↦ returned k ctx | some s ↦ softirq_sched now idle ctx k s ]

-- The LAPIC timer's tick, which switches nothing.
unfoldable pub note_tick : Bool → Kernel → Kernel
unfolding advance_tick
note_tick locked k =
    let k' = record k { ticks = add_u64 k.ticks 1 } in
    if locked
    then k'
    else elim k.sched [ none ↦ k' | some s ↦ record k' { sched = some (advance_tick s) } ]
