-- ===== src/Sched/Enqueue.antt =====
-- libs/scheduler.c: the insertion policies, their router, the registration of a process and the
-- change of its parameters.
pub mod Params
use demo_os.Base.{
  ℕ, ◌+◌, ◌-◌, Bool, true, false, ◌||◌, not, ◌==◌, ltb, leb, if◌then◌else◌, update, Option, none,
  some,
}
use demo_os.Base.Int.{ℤ, pos, negsuc, eqb_ℤ, ltb_ℤ, to_ℕ}
use demo_os.Process.{Ptr, null, init_process, n_processes_max, Pcb, is_ready}
use demo_os.Queue.{is_ignored}
use demo_os.Kernel.{
  Algorithm, MultilevelPolicy, ml_policy, ml_max_levels, Kernel, QueueRef, set_pcb, enqueue_to,
  enqueue_sorted_into, preempt_enable, preempt_disable,
}

unfoldable pub enqueue_fifo : Ptr → Kernel → Kernel
enqueue_fifo p k = enqueue_to QueueRef.ready_queue p k

unfoldable pub enqueue_sjf : Ptr → Kernel → Option Kernel
enqueue_sjf p k = enqueue_sorted_into QueueRef.ready_queue p k

unfoldable pub enqueue_multilevel : Ptr → Kernel → Kernel
enqueue_multilevel p k = enqueue_to (QueueRef.ml_queue (k.queue_level (k.pcb p).pid)) p k

-- `active_algorithm->enqueue`.
unfoldable pub enqueue_callback : Algorithm → Ptr → Kernel → Option Kernel
enqueue_callback Algorithm.sjf p k = enqueue_sjf p k
enqueue_callback Algorithm.mlq p k = some (enqueue_multilevel p k)
enqueue_callback Algorithm.mlfq p k = some (enqueue_multilevel p k)
enqueue_callback _ p k = some (enqueue_fifo p k)

unfoldable pub enqueue_process : Ptr → Kernel → Option Kernel
enqueue_process p k = if is_ignored p then some k else enqueue_callback k.active_algorithm p k

-- The clamp to the levels of the active multilevel policy, if there is one.
unfoldable pub clamp_to_policy : Algorithm → ℕ → ℕ
clamp_to_policy algorithm level = elim (ml_policy algorithm) [
  | none ↦ level
  | some policy ↦ if leb policy.n_levels level then policy.n_levels - 1 else level
]

-- The starting level of a process of the given queue priority.
unfoldable pub start_level : Algorithm → ℤ → ℕ
unfolding clamp_to_policy
start_level algorithm queue_priority =
    let level = to_ℕ queue_priority in
    let level' = if leb ml_max_levels level then ml_max_levels - 1 else level in
    clamp_to_policy algorithm level'

-- The return code and the kernel; -1 if the table is full or the PID is out of bounds.
unfoldable pub add_process_to_scheduler : Ptr → Kernel → Option (ℤ × Kernel)
unfolding start_level
add_process_to_scheduler process k =
    let c = k.pcb process in
    let registered = record k {
      processes = update k.processes c.pid process;
      queue_level = update k.queue_level c.pid (start_level k.active_algorithm c.queue_priority);
    } in
    let enqueued =
      if is_ready c.state then enqueue_process process registered else some registered in
    if leb n_processes_max k.n_processes || leb n_processes_max c.pid
    then some (negsuc 0, k)
    else elim enqueued [
      | none ↦ none
      | some k' ↦ some (pos 0, record k' { n_processes = k'.n_processes + 1 })
    ]

-- The selectors of common/syscalls_types.h.
abbrev pub sched_param_priority : ℤ
sched_param_priority = pos 0

abbrev pub sched_param_tickets : ℤ
sched_param_tickets = pos 1

abbrev pub sched_param_queue_priority : ℤ
sched_param_queue_priority = pos 2

-- The two writes of the third selector, under the preemption guard.
unfoldable pub set_queue_priority : Ptr → ℕ → Kernel → Kernel
set_queue_priority process level k =
    let k1 = preempt_disable k in
    let c = k1.pcb process in
    let k2 = record (set_pcb k1 process (record c { queue_priority = pos level })) {
      queue_level = update k1.queue_level c.pid level;
    } in
    preempt_enable k2

unfoldable pub sched_set_param : Ptr → (param value : ℤ) → Kernel → ℤ × Kernel
unfolding set_queue_priority clamp_to_policy
sched_set_param process param value k =
    let c = k.pcb process in
    if is_ignored process
    then (negsuc 0, k)
    else if eqb_ℤ param sched_param_priority
    then if ltb_ℤ value (pos 1)
      then (negsuc 0, k)
      else (pos 0, set_pcb k process (record c { priority = value }))
    else if eqb_ℤ param sched_param_tickets
    then if ltb_ℤ value (pos 1)
      then (negsuc 0, k)
      else (pos 0, set_pcb k process (record c { tickets = value }))
    else if eqb_ℤ param sched_param_queue_priority
    then if ltb_ℤ value (pos 0) || not (ltb_ℤ value (pos ml_max_levels))
      then (negsuc 0, k)
      else (pos 0, set_queue_priority process (clamp_to_policy k.active_algorithm (to_ℕ value)) k)
    else (negsuc 0, k)
