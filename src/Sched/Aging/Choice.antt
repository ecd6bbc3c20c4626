-- ===== src/Sched/Aging/Choice.antt =====
-- libs/scheduler.c: what `_schedule_priority_aging` dispatches.
use demo_os.Base.{
  ℕ, zero, suc, ◌<◌, ◌≤◌, ◌≡◌, ◌⊎◌, refl, ap, ◌∙◌, true, Bool-cases, inl, inr, List, [], ◌∷◌, ◌++◌,
  arith, ◌∈◌, length, Returns, returns, Returns-bind,
}
use demo_os.Base.Int.{pos, ltb_ℤ}
use demo_os.Process.{Ptr, init_process, n_processes_max, Pcb, State, Store}
use demo_os.Queue.Fifo.{enqueued_at, enqueue-append}
use demo_os.Kernel.{Kernel, QueueRef, preempt_disable}
use demo_os.Sched.Pick.{requeue_current, current_runnable, dispatch}
use demo_os.Sched.Pick.RoundRobin.{parked, survives_parked, length-requeued}
use demo_os.Sched.Invariant.{Inv}
use demo_os.Sched.Steps.{Runs, dispatch-Runs, dispatch-idle, requeued, preempt_disable-Inv}
use demo_os.Sched.Signals.Effect.{survives, survives_of_pending}
use demo_os.Sched.Aging.{new_epoch, schedule_priority_aging}
use demo_os.Sched.Aging.Epoch.{InRange}
use demo_os.Sched.Aging.Scan.{surviving, surviving-cong, Largest}
use demo_os.Sched.Aging.Walk.{Quiet, Quiet-trans}
use demo_os.Sched.Aging.Select.{
  InSlots, InRange-cong, Picked, nobody, picked, Spent, Largest-cong, select_best-Picked,
  counter-new_epoch,
}

preempt_disable-Quiet : (k : Kernel) → Quiet k (preempt_disable k)
unfolding preempt_disable survives
preempt_disable-Quiet k = record {
  counter = λ a. ground arith;
  priority = λ a. ground arith;
  survive = λ a s. ground arith;
  table = refl;
}

-- What the insertion of the outgoing process keeps of every control block.
requeue_current-keeps :
    {A : Type 0} (f : Pcb → A) (k : Kernel) (xs : List Ptr)
    → Inv k xs
    → ((c : Pcb) (n : Ptr) (s : State) → f (record c { next_ready = n; state = s }) ≡ f c)
    → (a : Ptr) → f ((requeue_current QueueRef.ready_queue k).pcb a) ≡ f (k.pcb a)
unfolding requeue_current
requeue_current-keeps f k xs i same a = elim (Bool-cases (current_runnable k)) [
  | inl runnable ↦
      let e =
        enqueue-append k.pcb k.ready_queue xs k.current_process i.queue
          (ground (arith, i.current_ne)) (ground (arith, i.ready k.current_process)) in
      rw runnable (
        ap (λ (h : Store). f (h a)) e.store
        ∙ ap f (enqueued_at k.pcb xs k.current_process a)
        ∙ same (k.pcb a) _ _)
  | inr idle ↦ rw idle refl
]

table-requeue_current :
    (k : Kernel) → (requeue_current QueueRef.ready_queue k).processes ≡ k.processes
unfolding requeue_current
table-requeue_current k = ground arith

requeue_current-Quiet :
    (k : Kernel) (xs : List Ptr) → Inv k xs → Quiet k (requeue_current QueueRef.ready_queue k)
requeue_current-Quiet k xs i = record {
  counter = requeue_current-keeps (λ c. c.counter) k xs i (λ c n s. refl);
  priority = requeue_current-keeps (λ c. c.priority) k xs i (λ c n s. refl);
  survive = λ a s.
      survives_of_pending _ _
        (requeue_current-keeps (λ c. c.pending_signals) k xs i (λ c n t. refl) a)
      ∙ s;
  table = table-requeue_current k;
}

-- The kernel in which the selection starts.
abbrev started : Kernel → Kernel
started k = requeue_current QueueRef.ready_queue (preempt_disable k)

started-Quiet : (k : Kernel) (xs : List Ptr) → Inv k xs → Quiet k (started k)
started-Quiet k xs i =
    Quiet-trans k (preempt_disable k) (started k) (preempt_disable-Quiet k)
      (requeue_current-Quiet (preempt_disable k) xs (preempt_disable-Inv i))

-- The choice of Priority Aging among the processes `ys` that may run: the first one with the largest
-- counter, if that is above zero, else the first one with the largest counter in the next epoch; the
-- idle task, if there is none.
pub data AgingRuns (k : Kernel) (ys : List Ptr) (k' : Kernel) : Type 0 where
  idle : ys ≡ [] → Runs k' init_process [] → AgingRuns k ys k'
  largest :
      (front : List Ptr) (p : Ptr) (back : List Ptr)
      → ys ≡ front ++ (p ∷ back)
      → ((ltb_ℤ (pos 0) (k.pcb p).counter ≡ true) × Largest k.pcb front p back)
        ⊎ (Spent k.pcb ys × Largest (new_epoch k).pcb front p back)
      → Runs k' p (front ++ back)
      → AgingRuns k ys k'

dispatched_picked :
    (k k0 : Kernel) (ys : List Ptr)
    → Quiet k k0
    → (r : Ptr × Kernel) → Picked k0.pcb (new_epoch k0).pcb ys r
    → AgingRuns k ys (dispatch r.0 r.1)
dispatched_picked k k0 ys q r (nobody nil i) = idle nil (dispatch-idle _ i)
dispatched_picked k k0 ys q r (picked front p back parts large c) =
    largest front p back parts (counted large) (dispatch-Runs _ p (front ++ back) c)
  where
    counted :
        ((ltb_ℤ (pos 0) (k0.pcb p).counter ≡ true) × Largest k0.pcb front p back)
          ⊎ (Spent k0.pcb ys × Largest (new_epoch k0).pcb front p back)
        → ((ltb_ℤ (pos 0) (k.pcb p).counter ≡ true) × Largest k.pcb front p back)
          ⊎ (Spent k.pcb ys × Largest (new_epoch k).pcb front p back)
    counted (inl (up, l)) =
        inl (rw (← q.counter p) up, Largest-cong k0.pcb k.pcb front p back q.counter l)
    counted (inr (low, l)) = inr (
      (λ a m. rw (← q.counter a) (low a m)),
      Largest-cong (new_epoch k0).pcb (new_epoch k).pcb front p back (counter-new_epoch k k0 q) l,
    )

-- Priority Aging, from a kernel that satisfies the ready-queue invariant with fewer than 64
-- queued processes, in which each process that may be chosen (the queued ones and the outgoing
-- one) has a positive priority, a counter from 0 to twice its priority, and a slot of the
-- table, ends with two epochs or more. Of these processes, without those that KILL or STOP is
-- pending for, it runs the first one with the largest counter if that is positive, else the
-- first one with the largest counter after the recharge; the others stay queued in order, and
-- the invariant holds again. With no such process the idle task runs.
pub schedule_priority_aging-AgingRuns :
    (epochs : ℕ) (k : Kernel) (xs : List Ptr)
    → Inv k xs
    → length xs < n_processes_max
    → ((a : Ptr) → a ∈ requeued k xs → InRange (k.pcb a))
    → InSlots k (requeued k xs)
    → 2 ≤ epochs
    → Returns (AgingRuns k (surviving k.pcb (requeued k xs))) (schedule_priority_aging epochs k)
unfolding schedule_priority_aging
schedule_priority_aging-AgingRuns zero k xs i l range slots two = absurd (omega arith)
schedule_priority_aging-AgingRuns (suc zero) k xs i l range slots two = absurd (omega arith)
schedule_priority_aging-AgingRuns (suc (suc epochs)) k xs i l range slots two =
    let q = started-Quiet k xs i in
    let ys = requeued k xs in
    let same : surviving (started k).pcb ys ≡ surviving k.pcb ys =
      surviving-cong (started k).pcb k.pcb ys (λ a m. survives_parked k xs i a) in
    rw (← same) (
      Returns-bind
        (select_best-Picked epochs (started k) ys (parked k xs i)
          (let longer = length-requeued k xs in omega arith)
          (λ a m.
            InRange-cong (k.pcb a) ((started k).pcb a) (q.counter a) (q.priority a) (range a m))
          (λ a m.
            let slot = slots a m in
            (slot.0, slot.1, ap (λ (f : ℕ → Ptr). f slot.0) q.table ∙ slot.2)))
        (λ r c. returns (dispatched_picked k (started k) _ q r c)))
