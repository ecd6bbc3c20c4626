-- ===== src/Sched/Steps/Requeue.antt =====
-- Changes that keep the ready-queue invariant, and the outgoing process put back.
use demo_os.Base.{
  ◌≡◌, false, ◌==◌, if◌then◌else◌, List, [], ◌∷◌, ◌++◌, arith, ◌∉◌, has-append, Bool-cases, inl,
  inr, ap,
}
use demo_os.Process.{Ptr, init_process, Pcb, State, Store}
use demo_os.Queue.{enqueue_process_to}
use demo_os.Queue.Chain.{IsQueue-frame}
use demo_os.Queue.Fifo.{Enqueued, enqueued_at, enqueue-append}
use demo_os.Kernel.{Kernel, QueueRef, enqueue_to, preempt_disable, preempt_enable}
use demo_os.Sched.Pick.{requeue_current, current_runnable}
use demo_os.Sched.Invariant.{Inv, Parked}

-- A change of PCBs that keeps states and links keeps the invariant.
pub Inv-frame :
    {k : Kernel} {xs : List Ptr} (g : Store)
    → ((a : Ptr) → (g a).state ≡ (k.pcb a).state)
    → ((a : Ptr) → (g a).next_ready ≡ (k.pcb a).next_ready)
    → Inv k xs
    → Inv (record k { pcb = g }) xs
Inv-frame g states links i = record {
  queue = IsQueue-frame g (λ a _. links a) i.queue;
  ready = λ a m. rw (states a) (i.ready a m);
  complete = λ a e. i.complete a (rw (states a) at e);
  running = λ a e. i.running a (rw (states a) at e);
  idle_out = i.idle_out;
  current_ne = i.current_ne;
}

pub preempt_disable-Inv : {k : Kernel} {xs : List Ptr} → Inv k xs → Inv (preempt_disable k) xs
unfolding preempt_disable
preempt_disable-Inv {k} i =
    Inv-frame (preempt_disable k).pcb (λ a. ground arith) (λ a. ground arith) i

pub preempt_enable-Inv : {k : Kernel} {xs : List Ptr} → Inv k xs → Inv (preempt_enable k) xs
unfolding preempt_enable
preempt_enable-Inv {k} i =
    Inv-frame (preempt_enable k).pcb (λ a. ground arith) (λ a. ground arith) i

-- The queue after the outgoing process was put back.
abbrev pub requeued : Kernel → List Ptr → List Ptr
requeued k xs = if current_runnable k then xs ++ (k.current_process ∷ []) else xs

-- The kernel after an insertion into the ready queue.
enqueue_current-Parked :
    (k : Kernel) (xs : List Ptr)
    → Inv k xs
    → (k.current_process == init_process) ≡ false
    → k.current_process ∉ xs
    → Parked (enqueue_to QueueRef.ready_queue k.current_process k) (xs ++ (k.current_process ∷ []))
enqueue_current-Parked k xs i not_idle out = record {
  queue = e.queue;
  ready = λ a m. ground (arith, state a, i.ready a, has-append a xs (c ∷ []));
  complete = λ a r ne. ground (arith, state a, i.complete a, has-append a xs (c ∷ []));
  running = λ a r. ground (arith, state a, i.running a);
  idle_out = ground (arith, i.idle_out, has-append init_process xs (c ∷ []));
}
  where
    c : Ptr
    c = k.current_process

    e : Enqueued k.pcb xs c (enqueue_process_to k.ready_queue c k.pcb)
    e = enqueue-append k.pcb k.ready_queue xs c i.queue (ground (arith, i.current_ne)) out

    state :
        (a : Ptr)
        → ((enqueue_process_to k.ready_queue c k.pcb).1 a).state
          ≡ (if c == a then State.ready else (k.pcb a).state)
    state a = rw e.store (ap (λ (p : Pcb). p.state) (enqueued_at k.pcb xs c a))

-- Putting the outgoing process back leaves no process but the idle task RUNNING, and loses none.
pub requeue_current-Parked :
    (k : Kernel) (xs : List Ptr)
    → Inv k xs
    → Parked (requeue_current QueueRef.ready_queue k) (requeued k xs)
unfolding requeue_current
requeue_current-Parked k xs i = elim (Bool-cases (current_runnable k)) [
  | inl runnable ↦
      rw runnable
        (enqueue_current-Parked k xs i (ground arith) (ground (arith, i.ready k.current_process)))
  | inr idle ↦ rw idle (record {
    queue = i.queue;
    ready = i.ready;
    complete = i.complete;
    running = λ a e. ground (arith, i.running a e);
    idle_out = i.idle_out;
  })
]
