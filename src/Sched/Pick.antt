-- ===== src/Sched/Pick.antt =====
-- libs/scheduler.c: the selection by the head of a queue, with which Round Robin, FCFS and SJF
-- choose. The loop that drops stopped and killed processes runs on fuel, one round for each slot
-- of the process table and one to find the queue empty.
pub mod Drain
pub mod QueueHead
pub mod RoundRobin
use demo_os.Base.{
  ℕ, zero, suc, ◌+◌, Bool, true, false, not, ◌&&◌, ◌==◌, if◌then◌else◌, Option, none, some, ◌>>=◌,
}
use demo_os.Base.Int.{ℤ, pos}
use demo_os.Process.{Ptr, null, init_process, n_processes_max, Pcb, is_running, is_ready}
use demo_os.Kernel.{
  Algorithm, Kernel, QueueRef, set_pcb, enqueue_to, dequeue_from, preempt_enable, preempt_disable,
}
use demo_os.Sched.Enqueue.{enqueue_callback}
use demo_os.Sched.Signals.{handle_process_signals, switch_to_process}

-- `current_process != &init_process && current_process->state == PROCESS_RUNNING`.
abbrev pub current_runnable : Kernel → Bool
current_runnable k =
    not (k.current_process == init_process) && is_running (k.pcb k.current_process).state

-- The insertion at the tail with which the preemptive algorithms put the outgoing process back.
unfoldable pub requeue_current : QueueRef → Kernel → Kernel
requeue_current r k = if current_runnable k then enqueue_to r k.current_process k else k

abbrev pub queue_fuel : ℕ
queue_fuel = n_processes_max + 1

-- The first process that is still READY after its signals, or NULL.
unfoldable pub dequeue_ready : ℕ → QueueRef → Kernel → Option (Ptr × Kernel)
dequeue_ready zero r k = none
dequeue_ready (suc fuel) r k =
    let (process, k1) = dequeue_from r k in
    let handled = handle_process_signals process k1 in
    if process == null then some (null, k1) else do
      k2 ← handled
      let rest = dequeue_ready fuel r k2
      if is_ready (k2.pcb process).state then some (process, k2) else rest

-- `next_process->counter = quantum`.
unfoldable pub recharge : Ptr → ℕ → Kernel → Kernel
recharge process quantum k = set_pcb k process (record (k.pcb process) { counter = pos quantum })

-- The end of every selection: dispatch the process, or the idle task if there is none.
unfoldable pub dispatch : Ptr → Kernel → Kernel
dispatch next k = preempt_enable (switch_to_process (if next == null then init_process else next) k)

unfoldable pub schedule_round_robin : Kernel → Option Kernel
schedule_round_robin k = do
  (next, k1) ←
      dequeue_ready queue_fuel QueueRef.ready_queue
        (requeue_current QueueRef.ready_queue (preempt_disable k))
  some (dispatch next (if next == null then k1 else recharge next 10 k1))

unfoldable pub schedule_queue_head : Kernel → Option Kernel
schedule_queue_head k = do
  let k0 = preempt_disable k
  let requeued = enqueue_callback k0.active_algorithm k0.current_process k0
  k1 ← if current_runnable k0 then requeued else some k0
  (next, k2) ← dequeue_ready queue_fuel QueueRef.ready_queue k1
  some (dispatch next k2)
