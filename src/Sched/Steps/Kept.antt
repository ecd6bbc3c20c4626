-- ===== src/Sched/Steps/Kept.antt =====
-- What the steps of a selection leave alone.
use demo_os.Base.{◌≡◌, refl, List, arith, Bool-cases, inl, inr}
use demo_os.Process.{Ptr}
use demo_os.Queue.Fifo.{enqueued_at, enqueue-append}
use demo_os.Kernel.{Kernel, QueueRef, preempt_disable, preempt_enable}
use demo_os.Sched.Signals.{switch_to_process}
use demo_os.Sched.Pick.{requeue_current, current_runnable, dispatch}
use demo_os.Sched.Invariant.{Inv}
use demo_os.Sched.Steps.Requeue.{requeued}

pub counter-dispatch :
    (p : Ptr) (k : Kernel) (a : Ptr) → ((dispatch p k).pcb a).counter ≡ (k.pcb a).counter
unfolding dispatch preempt_enable switch_to_process
counter-dispatch p k a = ground arith

pub runnable-preempt_disable :
    (k : Kernel) → current_runnable (preempt_disable k) ≡ current_runnable k
unfolding preempt_disable
runnable-preempt_disable k = ground arith

pub current-preempt_disable : (k : Kernel) → (preempt_disable k).current_process ≡ k.current_process
unfolding preempt_disable
current-preempt_disable k = refl

pub algorithm-preempt_disable :
    (k : Kernel) → (preempt_disable k).active_algorithm ≡ k.active_algorithm
unfolding preempt_disable
algorithm-preempt_disable k = refl

pub requeued-preempt_disable :
    (k : Kernel) (xs : List Ptr) → requeued (preempt_disable k) xs ≡ requeued k xs
requeued-preempt_disable k xs = rw (runnable-preempt_disable k, current-preempt_disable k)

pub pending-preempt_disable :
    (k : Kernel) (a : Ptr) → ((preempt_disable k).pcb a).pending_signals ≡ (k.pcb a).pending_signals
unfolding preempt_disable
pending-preempt_disable k a = ground arith

pub pending-requeue_current :
    (k : Kernel) (xs : List Ptr) (a : Ptr)
    → Inv k xs
    → ((requeue_current QueueRef.ready_queue k).pcb a).pending_signals ≡ (k.pcb a).pending_signals
unfolding requeue_current
pending-requeue_current k xs a i = elim (Bool-cases (current_runnable k)) [
  | inl runnable ↦ rw runnable (
      ground (
        arith,
        enqueue-append k.pcb k.ready_queue xs k.current_process i.queue
            (ground (arith, i.current_ne)) (ground (arith, i.ready k.current_process)),
        enqueued_at k.pcb xs k.current_process a,
      ))
  | inr idle ↦ rw idle
]
