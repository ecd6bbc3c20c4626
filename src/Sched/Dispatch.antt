-- ===== src/Sched/Dispatch.antt =====
-- libs/scheduler.c: the central dispatcher, the timer tick and the end of a process.
pub mod Wake
pub mod Tick
pub mod Switch
use demo_os.Base.{
  ℕ, zero, suc, ◌+◌, ◌/◌, Bool, true, false, not, ◌&&◌, ◌||◌, ◌==◌, if◌then◌else◌, Option, none,
  some, ◌>>=◌,
}
use demo_os.Base.Int.{ℤ, pos, negsuc, pred, is_pos, eqb_ℤ}
use demo_os.Process.{
  Ptr, null, init_process, n_processes_max, Pcb, State, is_running, is_ready,
  is_waiting_another_process,
}
use demo_os.Kernel.{
  Algorithm, Kernel, is_preemptive, ml_policy_mlq, ml_policy_mlfq, set_pcb, preempt_enable,
  preempt_disable,
}
use demo_os.Sched.Enqueue.{enqueue_process}
use demo_os.Sched.Pick.{schedule_round_robin, schedule_queue_head}
use demo_os.Sched.Lottery.{schedule_lottery}
use demo_os.Sched.Aging.{schedule_priority_aging}
use demo_os.Sched.Multilevel.{schedule_multilevel, multilevel_on_tick}

-- The fuel of the epochs: a process that is not below zero by more than 2 ^ 62 is recharged above
-- zero in as many epochs.
abbrev pub epoch_fuel : ℕ
epoch_fuel = 64

-- `active_algorithm->pick_next`.
unfoldable pub pick_next : Algorithm → Kernel → Option Kernel
pick_next Algorithm.round_robin k = schedule_round_robin k
pick_next Algorithm.fcfs k = schedule_queue_head k
pick_next Algorithm.sjf k = schedule_queue_head k
pick_next Algorithm.lottery k = schedule_lottery k
pick_next Algorithm.priority_aging k = schedule_priority_aging epoch_fuel k
pick_next Algorithm.mlq k = schedule_multilevel ml_policy_mlq k
pick_next Algorithm.mlfq k = schedule_multilevel ml_policy_mlfq k

-- `active_algorithm->on_tick`, if there is one.
unfoldable pub on_tick : Algorithm → Kernel → Option Kernel
on_tick Algorithm.mlq k = multilevel_on_tick ml_policy_mlq k
on_tick Algorithm.mlfq k = multilevel_on_tick ml_policy_mlfq k
on_tick _ k = some k

-- The end of the burst of a process that blocked or ended.
unfoldable pub end_burst : Kernel → Kernel
end_burst k =
    let c = k.pcb k.current_process in
    if not (k.current_process == init_process) && not (is_running c.state) && not (is_ready c.state)
    then set_pcb k k.current_process
        (record c { est_burst = (c.burst_ticks + c.est_burst) / 2; burst_ticks = 0 })
    else k

unfoldable pub schedule : Kernel → Option Kernel
schedule k =
    let k1 = end_burst k in
    let k2 =
      set_pcb k1 k1.current_process (record (k1.pcb k1.current_process) { counter = pos 0 }) in
    pick_next k2.active_algorithm k2

-- The accounting at the start of a tick.
unfoldable pub account_tick : Kernel → Kernel
account_tick k =
    let c = k.pcb k.current_process in
    set_pcb k k.current_process
      (record c { counter = pred c.counter; burst_ticks = c.burst_ticks + 1 })

unfoldable pub handle_timer_tick : Kernel → Option Kernel
handle_timer_tick k = do
  k1 ← on_tick k.active_algorithm (account_tick k)
  let c = k1.pcb k1.current_process
  let expired = set_pcb k1 k1.current_process (record c { counter = pos 0 })
  let switched = pick_next expired.active_algorithm expired
  if is_pos c.counter || is_pos c.preempt_disabled
      then some k1
      else if is_preemptive k1.active_algorithm
      then switched
      else some expired

-- Wakes the process at slot `i` if it waits for the process with the given PID.
unfoldable pub wake_waiter : ℕ → ℕ → Kernel → Option Kernel
wake_waiter pid i k =
    let p = k.processes i in
    let c = k.pcb p in
    let woken =
      enqueue_process p (set_pcb k p (record c { state = State.ready; pid_to_wait = negsuc 0 })) in
    if p == null
    then some k
    else if is_waiting_another_process c.state && eqb_ℤ c.pid_to_wait (pos pid)
    then woken
    else some k

-- The `n` slots from `i` on.
unfoldable pub wake_waiters : ℕ → ℕ → ℕ → Kernel → Option Kernel
wake_waiters zero pid i k = some k
wake_waiters (suc n) pid i k = do k1 ← wake_waiter pid i k; wake_waiters n pid (i + 1) k1

unfoldable pub exit_process : Kernel → Option Kernel
exit_process k = do
  let k0 = preempt_disable k
  let c = k0.pcb k0.current_process
  k1 ←
      wake_waiters n_processes_max c.pid 0
        (set_pcb k0 k0.current_process (record c { state = State.zombie }))
  schedule (preempt_enable k1)

-- The end of a switch, which a new process runs first.
unfoldable pub schedule_tail : Kernel → Kernel
schedule_tail k = preempt_enable k
