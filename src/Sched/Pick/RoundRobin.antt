-- ===== src/Sched/Pick/RoundRobin.antt =====
-- Round Robin, FCFS and SJF as selections from a list.
use demo_os.Base.{
  ℕ, ◌+◌, ◌<◌, ◌≤◌, ◌≡◌, ◌∙◌, false, ◌==◌, if◌then◌else◌, List, [], ◌∷◌, arith, length,
  length-append, Returns, returns, Returns-bind,
}
use demo_os.Base.Int.{pos}
use demo_os.Process.{Ptr, null, init_process, n_processes_max}
use demo_os.Kernel.{Kernel, QueueRef, preempt_disable}
use demo_os.Sched.Pick.{requeue_current, queue_fuel, schedule_round_robin, recharge, dispatch}
use demo_os.Sched.Signals.Effect.{survives, survives_of_pending}
use demo_os.Sched.Pick.Drain.{survivors, survivors-cong, dequeue_ready-survivors, Outcome}
use demo_os.Sched.Invariant.{Inv, Parked}
use demo_os.Sched.Steps.{
  preempt_disable-Inv, requeued, requeue_current-Parked, recharge-Chosen, Runs, dispatch-Runs,
  dispatch-idle, counter-dispatch, requeued-preempt_disable, pending-requeue_current,
  pending-preempt_disable,
}

-- The first of the list runs with the quantum, and the queue holds the others; if there is none,
-- the idle task runs.
abbrev pub RunsFirst : ℕ → List Ptr → Kernel → Type 0
RunsFirst quantum [] k = Runs k init_process []
RunsFirst quantum (z ∷ zs) k = Runs k z zs × ((k.pcb z).counter ≡ pos quantum)

dispatched_recharged :
    (quantum : ℕ) (p : Ptr) (k : Kernel) (zs : List Ptr)
    → Outcome zs (p, k)
    → RunsFirst quantum zs (dispatch p (if p == null then k else recharge p quantum k))
unfolding recharge
dispatched_recharged quantum p k [] o = rw o.0 (dispatch-idle k o.1)
dispatched_recharged quantum p k (z ∷ zs) o =
    let not_null : (z == null) ≡ false = ground (arith, o.1.ne_null) in
    rw (o.0, not_null)
      (
        dispatch-Runs (recharge z quantum k) z zs (recharge-Chosen k quantum z zs o.1),
        counter-dispatch z (recharge z quantum k) z ∙ ground arith,
      )

-- The list that a selection by Round Robin starts from, and its survivors.
pub parked :
    (k : Kernel) (xs : List Ptr)
    → Inv k xs
    → Parked (requeue_current QueueRef.ready_queue (preempt_disable k)) (requeued k xs)
parked k xs i =
    rw (← requeued-preempt_disable k xs)
      (requeue_current-Parked (preempt_disable k) xs (preempt_disable-Inv i))

pub survives_parked :
    (k : Kernel) (xs : List Ptr)
    → Inv k xs
    → (a : Ptr)
    → survives ((requeue_current QueueRef.ready_queue (preempt_disable k)).pcb a)
      ≡ survives (k.pcb a)
survives_parked k xs i a = survives_of_pending _ _ (
    pending-requeue_current (preempt_disable k) xs a (preempt_disable-Inv i)
    ∙ pending-preempt_disable k a)

survivors_parked :
    (k : Kernel) (xs ys : List Ptr)
    → Inv k xs
    → survivors (requeue_current QueueRef.ready_queue (preempt_disable k)).pcb ys
      ≡ survivors k.pcb ys
survivors_parked k xs ys i = survivors-cong _ k.pcb ys (λ a m. survives_parked k xs i a)

pub length-requeued : (k : Kernel) (xs : List Ptr) → length (requeued k xs) ≤ length xs + 1
length-requeued k xs = ground (arith, length-append xs (k.current_process ∷ []))

-- Round Robin, from a kernel that satisfies the ready-queue invariant with fewer than 64 queued
-- processes, ends and dispatches the first process of the queue (the outgoing one put last)
-- that neither KILL nor STOP is pending for, with a quantum of 10 ticks. The queue keeps the
-- processes behind it in order, and the invariant holds again: exactly the chosen process is
-- RUNNING. With no such process the idle task runs.
pub schedule_round_robin-picks :
    (k : Kernel) (xs : List Ptr)
    → Inv k xs
    → length xs < n_processes_max
    → Returns (RunsFirst 10 (survivors k.pcb (requeued k xs))) (schedule_round_robin k)
unfolding schedule_round_robin
schedule_round_robin-picks k xs i l = rw (← survivors_parked k xs (requeued k xs) i) (
    Returns-bind
      (dequeue_ready-survivors queue_fuel _ (requeued k xs) (parked k xs i)
        (omega (arith, length-requeued k xs)))
      λ (p, k1) o. returns (dispatched_recharged 10 p k1 _ o))
