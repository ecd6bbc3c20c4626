-- ===== src/Sched/Pick/Drain.antt =====
-- The selection at the head of the ready queue: what is chosen, what is dropped, and that it ends.
use demo_os.Base.{
  ℕ, zero, suc, ◌<◌, ◌≡◌, ◌≢◌, refl, ap, ◌∙◌, true, false, ◌==◌, if◌then◌else◌, List, [], ◌∷◌,
  arith, ◌∈◌, length, Bool-cases, inl, inr, Returns, returns, Returns-bind, ne_of_mem,
}
use demo_os.Process.{Ptr, null, Store, is_ready, is_stopped, set_next_ready}
use demo_os.Queue.{dequeue_process_from}
use demo_os.Queue.Fifo.{Dequeued, dequeue-nil, dequeue-cons}
use demo_os.Kernel.{Kernel, QueueRef, dequeue_from}
use demo_os.Sched.Signals.Effect.{survives, is_ready-after_signals, Handled, handle-after_signals}
use demo_os.Sched.Pick.{dequeue_ready}
use demo_os.Sched.Invariant.{Parked, Chosen}
use demo_os.Sched.Steps.{Removed, dropped-Parked, Chosen-unlinked}

-- The queue from the first process on that neither KILL nor STOP is pending for.
unfoldable pub survivors : Store → List Ptr → List Ptr
survivors h [] = []
survivors h (x ∷ xs) = if survives (h x) then x ∷ xs else survivors h xs

pub survivors-cong :
    (g h : Store) (xs : List Ptr)
    → ((a : Ptr) → a ∈ xs → survives (g a) ≡ survives (h a))
    → survivors g xs ≡ survivors h xs
unfolding survivors
survivors-cong g h [] same = refl
survivors-cong g h (x ∷ xs) same =
    rw (same x (ground arith), survivors-cong g h xs (λ a m. same a (ground arith)))

-- What the selection returns for a queue with the survivors `zs`.
abbrev pub Outcome : List Ptr → Ptr × Kernel → Type 0
Outcome [] (p, k) = (p ≡ null) × Parked k []
Outcome (z ∷ zs) (p, k) = (p ≡ z) × Chosen k z zs × (is_ready (k.pcb z).state ≡ true)

module _ (k : Kernel) (x : Ptr) (xs : List Ptr) (p : Parked k (x ∷ xs)) where
  dequeued : Dequeued k.pcb x xs (dequeue_process_from k.ready_queue k.pcb)
  dequeued = dequeue-cons k.pcb k.ready_queue x xs p.queue

  dequeued-Removed : Removed k (dequeue_from QueueRef.ready_queue k).1 x (x ∷ xs) xs
  dequeued-Removed = record {
    queue = dequeued.queue;
    members = λ a. refl;
    out = p.queue.distinct.0;
    states = λ a. rw (ap (λ (h : Store). h a) dequeued.store) (ground arith);
    current = refl;
  }

  dequeued_at :
      (a : Ptr) → (dequeue_from QueueRef.ready_queue k).1.pcb a ≡ set_next_ready k.pcb x null a
  dequeued_at a = ap (λ (h : Store). h a) dequeued.store

  not_stopped : is_stopped ((dequeue_from QueueRef.ready_queue k).1.pcb x).state ≡ false
  not_stopped = rw (dequeued_at x) (ground (arith, p.ready x))

  module _ (k2 : Kernel) (h : Handled x (dequeue_from QueueRef.ready_queue k).1 k2) where
    same_verdict : is_ready (k2.pcb x).state ≡ survives (k.pcb x)
    same_verdict =
        rw (h.self, dequeued_at x)
          (ground (arith, is_ready-after_signals (k.pcb x) null, p.ready x))

    untouched : (a : Ptr) → a ∈ xs → k2.pcb a ≡ k.pcb a
    untouched a m =
        let ne : a ≢ x = ne_of_mem a x xs m p.queue.distinct.0 in
        h.others a ne ∙ dequeued_at a ∙ ground arith

-- With more fuel than processes the selection ends, returns the first process that stays READY or
-- NULL if there is none, and keeps the queue.
pub dequeue_ready-survivors :
    (fuel : ℕ) (k : Kernel) (xs : List Ptr)
    → Parked k xs
    → length xs < fuel
    → Returns (Outcome (survivors k.pcb xs)) (dequeue_ready fuel QueueRef.ready_queue k)
unfolding dequeue_ready survivors
dequeue_ready-survivors zero k xs p l = elim l [ ]
dequeue_ready-survivors (suc fuel) k [] p l =
    rw (dequeue-nil k.pcb k.ready_queue p.queue) (returns (refl, p))
dequeue_ready-survivors (suc fuel) k (x ∷ xs) p l =
    let not_null : (x == null) ≡ false = ground (arith, p.queue.chain.1) in
    let removed = dequeued-Removed k x xs p in
    rw ((dequeued k x xs p).process, not_null)
      (Returns-bind
        (handle-after_signals x (dequeue_from QueueRef.ready_queue k).1 (not_stopped k x xs p))
        λ k2 h. elim (Bool-cases (is_ready (k2.pcb x).state)) [
          | inl still ↦
              rw (still, ← same_verdict k x xs p k2 h, still)
                (returns (refl, Chosen-unlinked p removed h still, still))
          | inr gone ↦
              rw
                (
                  gone,
                  ← same_verdict k x xs p k2 h,
                  gone,
                  ← survivors-cong k2.pcb k.pcb xs
                      (λ a m. ap survives (untouched k x xs p k2 h a m)),
                )
                (dequeue_ready-survivors fuel k2 xs (dropped-Parked p removed h gone) (omega arith))
        ])
