-- ===== src/Sched/Pick/QueueHead.antt =====
-- FCFS and SJF as selections from a list.
use demo_os.Base.{
  ℕ, ◌+◌, ◌<◌, ◌≤◌, ◌≡◌, refl, ap, ◌∙◌, fun_ext, true, ◌==◌, if◌then◌else◌, some, List, [], ◌∷◌,
  arith, has, length, Bool-cases, ==_iff, inl, inr, Returns, returns, Returns-bind, ◌>>=◌,
}
use demo_os.Process.{Ptr, init_process, n_processes_max, Pcb, State, Store}
use demo_os.Queue.{ProcessQueue}
use demo_os.Queue.Sorted.{
  insert_by, Inserted, enqueue_sorted-insert_by, has-insert_by, length-insert_by,
}
use demo_os.Kernel.{Algorithm, Kernel, QueueRef, preempt_disable, put_queue}
use demo_os.Sched.Enqueue.{enqueue_callback, enqueue_fifo, enqueue_sjf}
use demo_os.Sched.Signals.Effect.{survives, survives_of_pending}
use demo_os.Sched.Pick.{
  requeue_current, current_runnable, queue_fuel, dequeue_ready, schedule_queue_head, dispatch,
}
use demo_os.Sched.Pick.Drain.{survivors, survivors-cong, dequeue_ready-survivors, Outcome}
use demo_os.Sched.Pick.RoundRobin.{parked, survives_parked, length-requeued}
use demo_os.Sched.Invariant.{Inv, Parked}
use demo_os.Sched.Steps.{
  preempt_disable-Inv, requeued, runnable-preempt_disable, current-preempt_disable,
  algorithm-preempt_disable, pending-preempt_disable, Runs, dispatch-Runs, dispatch-idle,
}

-- The first of the list runs, and the queue holds the others.
abbrev pub RunsHead : List Ptr → Kernel → Type 0
RunsHead [] k = Runs k init_process []
RunsHead (z ∷ zs) k = Runs k z zs

dispatched_head :
    (p : Ptr) (k : Kernel) (zs : List Ptr) → Outcome zs (p, k) → RunsHead zs (dispatch p k)
dispatched_head p k [] o = rw o.0 (dispatch-idle k o.1)
dispatched_head p k (z ∷ zs) o = rw o.0 (dispatch-Runs k z zs o.1)

-- The selection behind the insertion of the outgoing process.
queue_head_tail :
    (k1 : Kernel) (ys : List Ptr) (h : Store)
    → Parked k1 ys
    → ((a : Ptr) → survives (k1.pcb a) ≡ survives (h a))
    → length ys < queue_fuel
    → Returns
        (RunsHead (survivors h ys))
        (dequeue_ready queue_fuel QueueRef.ready_queue k1 >>= λ (next, k2). some (dispatch next k2))
queue_head_tail k1 ys h p same l = rw (← survivors-cong k1.pcb h ys (λ a m. same a)) (
    Returns-bind (dequeue_ready-survivors queue_fuel k1 ys p l)
      λ (q, k2) o. returns (dispatched_head q k2 _ o))

-- The queue after SJF put the outgoing process back.
abbrev pub sorted_requeued : Kernel → List Ptr → List Ptr
sorted_requeued k xs =
    if current_runnable k then insert_by (λ a. (k.pcb a).est_burst) k.current_process xs else xs

-- What the insertion of SJF comes to in the kernel.
record SortedParked (k : Kernel) (ys : List Ptr) (k1 : Kernel) : Type 0 where
  parked : Parked k1 ys
  pending : (a : Ptr) → (k1.pcb a).pending_signals ≡ (k.pcb a).pending_signals

module _ (k : Kernel) (xs : List Ptr) (i : Inv k xs) (q : ProcessQueue) (h : Store)
    (ins : Inserted k.pcb
      (insert_by (λ a. (k.pcb a).est_burst) k.current_process xs)
      k.current_process
      (q, h)) where
  inserted_state :
      (a : Ptr) → (h a).state ≡ (if a == k.current_process then State.ready else (k.pcb a).state)
  inserted_state a = elim (Bool-cases (a == k.current_process)) [
    | inl e ↦ rw (e, (==_iff a k.current_process).0 e) (ap (λ (c : Pcb). c.state) ins.ready)
    | inr e ↦ rw e (ap (λ (c : Pcb). c.state) (ins.others a (ground arith)))
  ]

  inserted_pending : (a : Ptr) → (h a).pending_signals ≡ (k.pcb a).pending_signals
  inserted_pending a = elim (Bool-cases (a == k.current_process)) [
    | inl e ↦ rw ((==_iff a k.current_process).0 e) (ap (λ (c : Pcb). c.pending_signals) ins.ready)
    | inr e ↦ ap (λ (c : Pcb). c.pending_signals) (ins.others a (ground arith))
  ]

  inserted_members :
      (a : Ptr)
      → has a (insert_by (λ a. (k.pcb a).est_burst) k.current_process xs)
        ≡ has a (k.current_process ∷ xs)
  inserted_members a = has-insert_by (λ a. (k.pcb a).est_burst) k.current_process a xs

  inserted-Parked :
      current_runnable k ≡ true
      → Parked
          (put_queue k QueueRef.ready_queue q h)
          (insert_by (λ a. (k.pcb a).est_burst) k.current_process xs)
  inserted-Parked runnable = record {
    queue = ins.queue;
    ready = λ a m. ground (arith, inserted_state a, inserted_members a, i.ready a);
    complete = λ a e ne. ground (arith, inserted_state a, inserted_members a, i.complete a);
    running = λ a e. ground (arith, inserted_state a, i.running a);
    idle_out = ground (arith, inserted_members init_process, i.idle_out);
  }

sorted_insertion :
    (k : Kernel) (xs : List Ptr)
    → Inv k xs
    → length xs < n_processes_max
    → current_runnable k ≡ true
    → Returns
        (SortedParked k (insert_by (λ a. (k.pcb a).est_burst) k.current_process xs))
        (enqueue_sjf k.current_process k)
unfolding enqueue_sjf
sorted_insertion k xs i l runnable =
    Returns-bind
      (enqueue_sorted-insert_by k.pcb k.ready_queue xs k.current_process i.queue
        (ground (arith, i.current_ne)) (ground (arith, i.ready k.current_process)) (omega arith))
      λ (q, h) ins. returns (record {
        parked = inserted-Parked k xs i q h ins runnable;
        pending = inserted_pending k xs i q h ins;
      })

-- The insertion step of the selection under SJF.
sjf_requeue :
    (algorithm : Algorithm) (k : Kernel) (xs : List Ptr)
    → Inv k xs
    → length xs < n_processes_max
    → algorithm ≡ Algorithm.sjf
    → Returns
        (SortedParked k (sorted_requeued k xs))
        (if current_runnable k then enqueue_callback algorithm k.current_process k else some k)
unfolding enqueue_callback
sjf_requeue algorithm k xs i l e = elim (Bool-cases (current_runnable k)) [
  | inl runnable ↦ rw (e, runnable) (sorted_insertion k xs i l runnable)
  | inr idle ↦ rw idle (
      returns (record {
        parked = record {
          queue = i.queue;
          ready = i.ready;
          complete = i.complete;
          running = λ a r. ground (arith, i.running a r);
          idle_out = i.idle_out;
        };
        pending = λ a. refl;
      }))
]

length-sorted_requeued :
    (k : Kernel) (xs : List Ptr) → length (sorted_requeued k xs) ≤ length xs + 1
length-sorted_requeued k xs =
    ground (arith, length-insert_by (λ a. (k.pcb a).est_burst) k.current_process xs)

keys-preempt_disable :
    (k : Kernel)
    → ◌≡◌ {A = Ptr → ℕ} (λ a. ((preempt_disable k).pcb a).est_burst) (λ a. (k.pcb a).est_burst)
unfolding preempt_disable
keys-preempt_disable k = fun_ext λ a. ground arith

disabled :
    (k : Kernel) (xs : List Ptr) → sorted_requeued (preempt_disable k) xs ≡ sorted_requeued k xs
disabled k xs = rw (keys-preempt_disable k, runnable-preempt_disable k, current-preempt_disable k)

-- SJF, from a kernel that satisfies the ready-queue invariant with fewer than 64 queued
-- processes, ends and dispatches the first process, in the queue into which the outgoing one
-- was sorted by its estimate, that neither KILL nor STOP is pending for. The queue keeps the
-- processes behind it, and the invariant holds again. With no such process the idle task runs.
pub schedule_sjf-picks :
    (k : Kernel) (xs : List Ptr)
    → Inv k xs
    → length xs < n_processes_max
    → k.active_algorithm ≡ Algorithm.sjf
    → Returns (RunsHead (survivors k.pcb (sorted_requeued k xs))) (schedule_queue_head k)
unfolding schedule_queue_head
schedule_sjf-picks k xs i l e = rw (← disabled k xs) (
    Returns-bind
      (sjf_requeue (preempt_disable k).active_algorithm (preempt_disable k) xs
        (preempt_disable-Inv i) l (algorithm-preempt_disable k ∙ e))
      λ k1 p.
        queue_head_tail k1 (sorted_requeued (preempt_disable k) xs) k.pcb p.parked
          (λ a. survives_of_pending _ _ (p.pending a ∙ pending-preempt_disable k a))
          (omega (arith, length-sorted_requeued (preempt_disable k) xs)))

fcfs_requeue :
    (algorithm : Algorithm) (k : Kernel)
    → algorithm ≡ Algorithm.fcfs
    → (if current_runnable k then enqueue_callback algorithm k.current_process k else some k)
      ≡ some (requeue_current QueueRef.ready_queue k)
unfolding enqueue_callback enqueue_fifo requeue_current
fcfs_requeue algorithm k e = elim (Bool-cases (current_runnable k)) [
  | inl runnable ↦ rw (e, runnable)
  | inr idle ↦ rw idle
]

-- FCFS, from a kernel that satisfies the ready-queue invariant with fewer than 64 queued
-- processes, ends and dispatches the first process of the queue, the outgoing one put last,
-- that neither KILL nor STOP is pending for. The queue keeps the processes behind it, and the
-- invariant holds again. With no such process the idle task runs.
pub schedule_fcfs-picks :
    (k : Kernel) (xs : List Ptr)
    → Inv k xs
    → length xs < n_processes_max
    → k.active_algorithm ≡ Algorithm.fcfs
    → Returns (RunsHead (survivors k.pcb (requeued k xs))) (schedule_queue_head k)
unfolding schedule_queue_head
schedule_fcfs-picks k xs i l e =
    rw
      (fcfs_requeue (preempt_disable k).active_algorithm (preempt_disable k)
        (algorithm-preempt_disable k ∙ e))
      (queue_head_tail _ (requeued k xs) k.pcb (parked k xs i) (survives_parked k xs i)
        (omega (arith, length-requeued k xs)))
