-- ===== src/Sched/Dispatch/Wake.antt =====
-- The end of a process wakes those that wait for it.
use demo_os.Base.{
  ne_of_mem, ℕ, zero, suc, ◌+◌, ◌<◌, ◌≤◌, ◌≡◌, ◌≢◌, refl, ap, ◌∙◌, Bool, true, false, ◌==◌, ◌&&◌,
  if◌then◌else◌, some, List, [], ◌∷◌, ◌++◌, arith, ◌∉◌, has-append, Bool-cases, ==_iff, inl, inr,
  Returns, returns, Returns-bind, Returns-mono,
}
use demo_os.Base.Int.{pos, negsuc, eqb_ℤ}
use demo_os.Process.{Ptr, null, init_process, Pcb, State, is_waiting_another_process}
use demo_os.Queue.{is_ignored, enqueue_process_to}
use demo_os.Queue.Chain.{IsQueue-frame}
use demo_os.Queue.Fifo.{Enqueued, enqueued_at, enqueue-append}
use demo_os.Kernel.{Algorithm, Kernel, QueueRef, set_pcb, enqueue_to}
use demo_os.Sched.Enqueue.{enqueue_process, enqueue_callback, enqueue_fifo}
use demo_os.Sched.Dispatch.{wake_waiter, wake_waiters}
use demo_os.Sched.Invariant.{Inv}

-- The algorithms that share the FIFO queue.
abbrev pub is_fifo : Algorithm → Bool
is_fifo Algorithm.sjf = false
is_fifo Algorithm.mlq = false
is_fifo Algorithm.mlfq = false
is_fifo _ = true

-- The process waits for the one with the given PID.
abbrev pub waits : Pcb → ℕ → Bool
waits c pid = is_waiting_another_process c.state && eqb_ℤ c.pid_to_wait (pos pid)

callback-fifo :
    (a : Algorithm) (p : Ptr) (k : Kernel)
    → is_fifo a ≡ true
    → enqueue_callback a p k ≡ some (enqueue_to QueueRef.ready_queue p k)
unfolding enqueue_callback enqueue_fifo
callback-fifo Algorithm.sjf p k e = cc
callback-fifo Algorithm.mlq p k e = cc
callback-fifo Algorithm.mlfq p k e = cc
callback-fifo _ p k e = refl

pub enqueue_process-fifo :
    (p : Ptr) (k : Kernel)
    → is_fifo k.active_algorithm ≡ true
    → is_ignored p ≡ false
    → enqueue_process p k ≡ some (enqueue_to QueueRef.ready_queue p k)
unfolding enqueue_process
enqueue_process-fifo p k f ok = rw ok (callback-fifo k.active_algorithm p k f)

-- What waking the `n` slots from `i` on comes to: nobody in these slots waits for `pid` any more,
-- a process that did not wait is as blocked or runnable as before, one that stopped waiting is READY, so in
-- the queue, and a process that stands in none of the slots has the state that it had.
pub record Woke (pid n i : ℕ) (k k' : Kernel) : Type 0 where
  pub queued : List Ptr
  pub inv : Inv k' queued
  pub woken_slots :
      (j : ℕ)
      → i ≤ j
      → j < i + n
      → k.processes j ≢ null
      → waits (k'.pcb (k.processes j)) pid ≡ false
  pub kept :
      (a : Ptr)
      → waits (k.pcb a) pid ≡ false
      → ((k'.pcb a).state ≡ (k.pcb a).state) × ((k'.pcb a).pid_to_wait ≡ (k.pcb a).pid_to_wait)
  pub now_ready :
      (a : Ptr)
      → waits (k.pcb a) pid ≡ true
      → waits (k'.pcb a) pid ≡ false
      → (k'.pcb a).state ≡ State.ready
  pub elsewhere :
      (a : Ptr)
      → ((j : ℕ) → i ≤ j → j < i + n → k.processes j ≢ a)
      → (k'.pcb a).state ≡ (k.pcb a).state
  pub current : k'.current_process ≡ k.current_process
  pub processes : k'.processes ≡ k.processes
  pub n_processes : k'.n_processes ≡ k.n_processes
  pub algorithm : k'.active_algorithm ≡ k.active_algorithm
  pub pages : k'.memory.memory_pages ≡ k.memory.memory_pages

Woke-none :
    (pid n i : ℕ) (k : Kernel) (xs : List Ptr)
    → Inv k xs
    → ((j : ℕ)
        → i ≤ j
        → j < i + n
        → k.processes j ≢ null
        → waits (k.pcb (k.processes j)) pid ≡ false)
    → Woke pid n i k k
Woke-none pid n i k xs v none_waits = record {
  queued = xs;
  inv = v;
  woken_slots = none_waits;
  kept = λ a w. (refl, refl);
  now_ready = λ a w nw. cc;
  elsewhere = λ a h. refl;
  current = refl;
  processes = refl;
  n_processes = refl;
  algorithm = refl;
  pages = refl;
}

-- A process that is not queued becomes READY with the PCB `c`, and enters the queue.
module _ (p : Ptr) (c : Pcb) (k : Kernel) (xs : List Ptr) (v : Inv k xs) (ok : is_ignored p ≡ false)
    (out : p ∉ xs) where
  entered :
      Enqueued (set_pcb k p c).pcb xs p (enqueue_process_to k.ready_queue p (set_pcb k p c).pcb)
  entered =
      enqueue-append (set_pcb k p c).pcb k.ready_queue xs p
        (IsQueue-frame (set_pcb k p c).pcb (λ a m. ground (arith, ne_of_mem a p xs m out)) v.queue)
        ok out

  pub entered_at :
      (a : Ptr)
      → let d = (enqueue_process_to k.ready_queue p (set_pcb k p c).pcb).1 a in
        (d.state ≡ (if p == a then State.ready else (k.pcb a).state))
        × (d.pid_to_wait ≡ (if p == a then c.pid_to_wait else (k.pcb a).pid_to_wait))
  entered_at a = rw entered.store (ground (arith, enqueued_at (set_pcb k p c).pcb xs p a))

  pub entered-Inv : Inv (enqueue_to QueueRef.ready_queue p (set_pcb k p c)) (xs ++ (p ∷ []))
  entered-Inv = record {
    queue = entered.queue;
    ready = λ a m. ground (arith, entered_at a, v.ready a, has-append a xs (p ∷ []));
    complete = λ a e ne. ground (arith, entered_at a, v.complete a, has-append a xs (p ∷ []));
    running = λ a e. ground (arith, entered_at a, v.running a);
    idle_out = ground (arith, v.idle_out, has-append init_process xs (p ∷ []));
    current_ne = v.current_ne;
  }

module _ (pid : ℕ) (p : Ptr) (k : Kernel) (xs : List Ptr) (v : Inv k xs) (ok : is_ignored p ≡ false)
    (w : waits (k.pcb p) pid ≡ true) where
  abbrev woken : Pcb
  woken = record (k.pcb p) { state = State.ready; pid_to_wait = negsuc 0 }

  abbrev marked : Kernel
  marked = set_pcb k p woken

  out : p ∉ xs
  out = ground (arith, v.ready p)

  woken_at :
      (a : Ptr)
      → let c = (enqueue_process_to k.ready_queue p marked.pcb).1 a in
        (c.state ≡ (if p == a then State.ready else (k.pcb a).state))
        × (c.pid_to_wait ≡ (if p == a then negsuc 0 else (k.pcb a).pid_to_wait))
  woken_at a = entered_at p woken k xs v ok out a

  Woke-one : (i : ℕ) → k.processes i ≡ p → Woke pid 1 i k (enqueue_to QueueRef.ready_queue p marked)
  Woke-one i slot = record {
    queued = xs ++ (p ∷ []);
    inv = entered-Inv p woken k xs v ok out;
    woken_slots = λ j lo hi ne.
        let same : j ≡ i = omega arith in rw (same, slot) (ground (arith, woken_at p));
    kept = λ a nw. ground (arith, woken_at a);
    now_ready = λ a wa nw. ground (arith, woken_at a);
    elsewhere = λ a h. ground (arith, woken_at a, h i (omega arith) (omega arith));
    current = refl;
    processes = refl;
    n_processes = refl;
    algorithm = refl;
    pages = refl;
  }

-- One slot.
wake_waiter-Woke :
    (pid i : ℕ) (k : Kernel) (xs : List Ptr)
    → Inv k xs
    → is_fifo k.active_algorithm ≡ true
    → is_waiting_another_process (k.pcb init_process).state ≡ false
    → Returns (Woke pid 1 i k) (wake_waiter pid i k)
unfolding wake_waiter
wake_waiter-Woke pid i k xs v f idle = elim (Bool-cases (k.processes i == null)) [
  | inl e ↦ rw e (
      returns (
        Woke-none pid 1 i k xs v (λ j lo hi ne.
          let same : j ≡ i = omega arith in
          absurd (ne (rw same ((==_iff (k.processes i) null).0 e))))))
  | inr e ↦ rw e (elim (Bool-cases (waits (k.pcb (k.processes i)) pid)) [
    | inl w ↦
        let ok : is_ignored (k.processes i) ≡ false = ground arith in
        rw (w, enqueue_process-fifo (k.processes i) (marked pid (k.processes i) k xs v ok w) f ok)
          (returns (Woke-one pid (k.processes i) k xs v ok w i refl))
    | inr w ↦ rw w (
        returns
          (Woke-none pid 1 i k xs v (λ j lo hi ne. let same : j ≡ i = omega arith in rw same w)))
  ])
]

Woke-compose :
    (pid n i : ℕ) (k k1 k2 : Kernel)
    → Woke pid 1 i k k1
    → Woke pid n (i + 1) k1 k2
    → Woke pid (suc n) i k k2
Woke-compose pid n i k k1 k2 a b = record {
  queued = b.queued;
  inv = b.inv;
  woken_slots = λ j lo hi ne. elim (Bool-cases (j == i)) [
    | inl e ↦
        let done = a.woken_slots j lo (ground arith) ne in
        let same = b.kept (k.processes j) done in rw (same.0, same.1) done
    | inr e ↦
        let slot : k1.processes j ≡ k.processes j = ap (λ (f : ℕ → Ptr). f j) a.processes in
        rw (← slot) (b.woken_slots j (ground arith) (ground arith) (rw slot ne))
  ];
  kept = λ c w. ground (arith, a.kept c, b.kept c);
  now_ready = λ c w nw. ground (arith, a.kept c, b.kept c, a.now_ready c, b.now_ready c);
  elsewhere = λ c h.
      b.elsewhere c (λ j lo hi. rw (a.processes) (h j (omega arith) (omega arith)))
      ∙ a.elsewhere c (λ j lo hi. h j (omega arith) (omega arith));
  current = b.current ∙ a.current;
  processes = b.processes ∙ a.processes;
  n_processes = b.n_processes ∙ a.n_processes;
  algorithm = b.algorithm ∙ a.algorithm;
  pages = b.pages ∙ a.pages;
}

-- For an algorithm with the FIFO queue, and from a kernel that satisfies the ready-queue
-- invariant and in which the idle task waits for no process, the scan of the table at the end
-- of a process succeeds and keeps the invariant. Afterwards no process in the scanned slots
-- waits for that PID, those that did are READY, and every other process has the state and the
-- awaited PID that it had.
pub wake_waiters-Woke :
    (n pid i : ℕ) (k : Kernel) (xs : List Ptr)
    → Inv k xs
    → is_fifo k.active_algorithm ≡ true
    → is_waiting_another_process (k.pcb init_process).state ≡ false
    → Returns (Woke pid n i k) (wake_waiters n pid i k)
unfolding wake_waiters
wake_waiters-Woke zero pid i k xs v f idle =
    returns (Woke-none pid 0 i k xs v (λ j lo hi ne. absurd (omega arith)))
wake_waiters-Woke (suc n) pid i k xs v f idle =
    Returns-bind (wake_waiter-Woke pid i k xs v f idle) λ k1 a.
      Returns-mono
        (wake_waiters-Woke n pid (i + 1) k1 a.queued a.inv (rw a.algorithm f)
          (ground (arith, a.kept init_process)))
        λ k2 b. Woke-compose pid n i k k1 k2 a b
