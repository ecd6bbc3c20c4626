-- ===== src/Sched/Frame/Selection.antt =====
-- The selection by Round Robin (`_schedule_round_robin`), step by step, in this respect.
use demo_os.Base.{
  ℕ, zero, suc, ◌≡◌, refl, ◌∙◌, ◌==◌, if◌then◌else◌, Option, none, some, arith, inl, inr,
  Bool-cases, ◌>>=◌,
}
use demo_os.Base.Bits.{test_bit}
use demo_os.Process.{Ptr, null, is_ready, is_stopped}
use demo_os.Queue.{is_ignored, enqueue_process_to, dequeue_process_from}
use demo_os.Kernel.{
  Algorithm, Kernel, QueueRef, enqueue_to, dequeue_from, preempt_enable, preempt_disable,
}
use demo_os.Sched.Enqueue.{enqueue_process, enqueue_callback, enqueue_fifo}
use demo_os.Sched.Signals.{
  signal_kill, signal_stop, signal_resume, handle_process_signals, switch_to_process,
}
use demo_os.Sched.Signals.Effect.{survives}
use demo_os.Sched.Pick.{
  current_runnable, queue_fuel, requeue_current, dequeue_ready, recharge, dispatch,
  schedule_round_robin,
}
use demo_os.Sched.Frame.{
  Kept, Kept-refl, Kept-trans, Keeps, KeepsWith, Keeps-trans, KeepsWith-trans, KeepsWith-bind,
  set_pcb-Kept,
}

preempt_disable-Kept : (k : Kernel) → Kept k (preempt_disable k)
unfolding preempt_disable survives
preempt_disable-Kept k = record {
  processes = refl;
  n_processes = refl;
  algorithm = refl;
  pages = refl;
  awake = λ a h. ground arith;
  calm = λ a h. ground arith;
  est_burst = λ a. ground arith;
  burst_ticks = λ a. ground arith;
}

enqueue_to-Kept : (p : Ptr) (k : Kernel) → Kept k (enqueue_to QueueRef.ready_queue p k)
unfolding survives enqueue_process_to
enqueue_to-Kept p k = record {
  processes = refl;
  n_processes = refl;
  algorithm = refl;
  pages = refl;
  awake = λ a h. ground arith;
  calm = λ a h. ground arith;
  est_burst = λ a. ground arith;
  burst_ticks = λ a. ground arith;
}

requeue_current-Kept : (k : Kernel) → Kept k (requeue_current QueueRef.ready_queue k)
unfolding requeue_current
requeue_current-Kept k = elim (Bool-cases (current_runnable k)) [
  | inl e ↦ rw e (enqueue_to-Kept k.current_process k)
  | inr e ↦ rw e (Kept-refl k)
]

dequeue_from-Kept : (k : Kernel) → Kept k (dequeue_from QueueRef.ready_queue k).1
unfolding survives dequeue_process_from
dequeue_from-Kept k = record {
  processes = refl;
  n_processes = refl;
  algorithm = refl;
  pages = refl;
  awake = λ a h. ground arith;
  calm = λ a h. ground arith;
  est_burst = λ a. ground arith;
  burst_ticks = λ a. ground arith;
}

dispatch-Kept : (p : Ptr) (k : Kernel) → Kept k (dispatch p k)
unfolding dispatch switch_to_process preempt_enable survives
dispatch-Kept p k = record {
  processes = ground arith;
  n_processes = ground arith;
  algorithm = ground arith;
  pages = ground arith;
  awake = λ a h. ground arith;
  calm = λ a h. ground arith;
  est_burst = λ a. ground arith;
  burst_ticks = λ a. ground arith;
}

recharge-Kept : (p : Ptr) (q : ℕ) (k : Kernel) → Kept k (recharge p q k)
unfolding recharge survives
recharge-Kept p q k = record {
  processes = refl;
  n_processes = refl;
  algorithm = refl;
  pages = refl;
  awake = λ a h. ground arith;
  calm = λ a h. ground arith;
  est_burst = λ a. ground arith;
  burst_ticks = λ a. ground arith;
}

enqueue_callback-Kept :
    (algorithm : Algorithm) (p : Ptr) (k : Kernel)
    → algorithm ≡ Algorithm.round_robin
    → Keeps k (enqueue_callback algorithm p k)
unfolding enqueue_callback enqueue_fifo
enqueue_callback-Kept algorithm p k rr = rw rr (enqueue_to-Kept p k)

enqueue_process-Keeps :
    (p : Ptr) (k : Kernel)
    → k.active_algorithm ≡ Algorithm.round_robin
    → Keeps k (enqueue_process p k)
unfolding enqueue_process
enqueue_process-Keeps p k rr = elim (Bool-cases (is_ignored p)) [
  | inl e ↦ rw e (Kept-refl k)
  | inr e ↦ rw e (enqueue_callback-Kept k.active_algorithm p k rr)
]

handle_process_signals-Keeps :
    (p : Ptr) (k : Kernel)
    → k.active_algorithm ≡ Algorithm.round_robin
    → Keeps k (handle_process_signals p k)
unfolding handle_process_signals survives
handle_process_signals-Keeps p k rr = elim (Bool-cases ((k.pcb p).pending_signals == 0)) [
  | inl e ↦ rw e (Kept-refl k)
  | inr e ↦ rw e (elim (Bool-cases (test_bit (k.pcb p).pending_signals signal_kill)) [
    | inl kill ↦ rw kill (set_pcb-Kept p _ k (λ h. refl) (λ h. ground arith) refl refl)
    | inr k0 ↦ rw k0 (elim (Bool-cases (test_bit (k.pcb p).pending_signals signal_stop)) [
      | inl stop ↦ rw stop (set_pcb-Kept p _ k (λ h. refl) (λ h. ground arith) refl refl)
      | inr s0 ↦ rw s0 (elim (Bool-cases (test_bit (k.pcb p).pending_signals signal_resume)) [
        | inl resume ↦ rw resume (elim (Bool-cases (is_stopped (k.pcb p).state)) [
          | inl st ↦ rw st (
              Keeps-trans k _ _ (set_pcb-Kept p _ k (λ h. refl) (λ h. ground arith) refl refl)
                (enqueue_process-Keeps p _ rr))
          | inr st ↦ rw st (set_pcb-Kept p _ k (λ h. h) (λ h. ground arith) refl refl)
        ])
        | inr r0 ↦ rw r0 (Kept-refl k)
      ])
    ])
  ])
]

dequeue_ready-Keeps :
    (fuel : ℕ) (k : Kernel)
    → k.active_algorithm ≡ Algorithm.round_robin
    → KeepsWith k (dequeue_ready fuel QueueRef.ready_queue k)
unfolding dequeue_ready
dequeue_ready-Keeps zero k rr = tt
dequeue_ready-Keeps (suc fuel) k rr =
    let p : Ptr = (dequeue_from QueueRef.ready_queue k).0 in
    let k1 : Kernel = (dequeue_from QueueRef.ready_queue k).1 in
    elim (Bool-cases (p == null)) [
      | inl e ↦ rw e (dequeue_from-Kept k)
      | inr e ↦ rw e (
          KeepsWith-trans k k1 _ (dequeue_from-Kept k) (
            KeepsWith-bind k1 (handle_process_signals p k1) _ (handle_process_signals-Keeps p k1 rr)
              λ k2 h. elim (Bool-cases (is_ready (k2.pcb p).state)) [
                | inl still ↦ rw still (Kept-refl k2)
                | inr gone ↦ rw gone (dequeue_ready-Keeps fuel k2 (h.algorithm ∙ rr))
              ]))
    ]

pub schedule_round_robin-Keeps :
    (k : Kernel) → k.active_algorithm ≡ Algorithm.round_robin → Keeps k (schedule_round_robin k)
unfolding schedule_round_robin
schedule_round_robin-Keeps k rr =
    let k0 : Kernel = requeue_current QueueRef.ready_queue (preempt_disable k) in
    let h : Kept k k0 =
      Kept-trans (preempt_disable-Kept k) (requeue_current-Kept (preempt_disable k)) in
    dispatched k (dequeue_ready queue_fuel QueueRef.ready_queue k0)
      (KeepsWith-trans k k0 _ h (dequeue_ready-Keeps queue_fuel k0 (h.algorithm ∙ rr)))
  where
    dispatched :
        (k : Kernel) (m : Option (Ptr × Kernel))
        → KeepsWith k m
        → Keeps k (
            m >>= λ (next, k1).
            some (dispatch next (if next == null then k1 else recharge next 10 k1)))
    dispatched k none h = tt
    dispatched k (some (p, k1)) h = elim (Bool-cases (p == null)) [
      | inl e ↦ rw e (Kept-trans h (dispatch-Kept _ k1))
      | inr e ↦ rw e (Kept-trans h (Kept-trans (recharge-Kept p 10 k1) (dispatch-Kept p _)))
    ]
