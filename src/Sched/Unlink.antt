-- ===== src/Sched/Unlink.antt =====
-- Taking a process out of the middle of the ready queue, as the lottery and the priority selection
-- do.
use demo_os.Base.{
  ◌≡◌, ◌≢◌, refl, ap, ◌∙◌, false, List, [], ◌∷◌, ◌++◌, arith, has, has-append, last_or,
  not_mem_of_distinct,
}
use demo_os.Process.{Ptr, null, Pcb, State, is_ready, is_stopped}
use demo_os.Queue.Chain.{IsQueue}
use demo_os.Queue.Remove.{remove-head, remove-behind, remove_at}
use demo_os.Kernel.{Kernel, QueueRef, remove_from}
use demo_os.Sched.Signals.Effect.{Handled, survives, is_ready-after_signals, survives_of_pending}
use demo_os.Sched.Invariant.{Parked}
use demo_os.Sched.Steps.{Removed}

module _ (k : Kernel) (x : Ptr) where
  removed_queue :
      (front back : List Ptr)
      → IsQueue k.pcb k.ready_queue (front ++ (x ∷ back))
      → let k1 = remove_from QueueRef.ready_queue (last_or null front) x k in
        IsQueue k1.pcb k1.ready_queue (front ++ back)
  removed_queue [] back q = (remove-head k.pcb k.ready_queue x back q).0
  removed_queue (y ∷ front) back q = (remove-behind k.pcb k.ready_queue y front x back q).0

  -- Every PCB is as before but for its link.
  pub removed_at :
      (previous a : Ptr)
      → let k1 = remove_from QueueRef.ready_queue previous x k in
        k1.pcb a ≡ record (k.pcb a) { next_ready = (k1.pcb a).next_ready }
  removed_at previous a = remove_at k.ready_queue previous x k.pcb a

  members_behind :
      (front back : List Ptr) (a : Ptr) → has a (front ++ (x ∷ back)) ≡ has a (x ∷ (front ++ back))
  members_behind front back a =
      ground (arith, has-append a front (x ∷ back), has-append a front back)

  pub queue-Removed :
      (front back : List Ptr)
      → IsQueue k.pcb k.ready_queue (front ++ (x ∷ back))
      → Removed k
          (remove_from QueueRef.ready_queue (last_or null front) x k)
          x
          (front ++ (x ∷ back))
          (front ++ back)
  queue-Removed front back q = record {
    queue = removed_queue front back q;
    members = members_behind front back;
    out = not_mem_of_distinct front x back q.distinct;
    states = λ a. ap (λ (c : Pcb). c.state) (removed_at (last_or null front) a);
    current = refl;
  }

  pub remove-Removed :
      (front back : List Ptr)
      → Parked k (front ++ (x ∷ back))
      → Removed k
          (remove_from QueueRef.ready_queue (last_or null front) x k)
          x
          (front ++ (x ∷ back))
          (front ++ back)
  remove-Removed front back p = queue-Removed front back p.queue

-- After the signals of a process that was unlinked.
module _ (k k1 k2 : Kernel) (x : Ptr) (h : Handled x k1 k2)
    (same : (a : Ptr) → k1.pcb a ≡ record (k.pcb a) { next_ready = (k1.pcb a).next_ready }) where
  pub verdict : (k.pcb x).state ≡ State.ready → is_ready (k2.pcb x).state ≡ survives (k.pcb x)
  verdict e = rw (h.self, same x) (is_ready-after_signals (k.pcb x) (k1.pcb x).next_ready e)

  pub survives_other : (a : Ptr) → a ≢ x → survives (k2.pcb a) ≡ survives (k.pcb a)
  survives_other a ne = survives_of_pending (k2.pcb a) (k.pcb a) (
      ap (λ (c : Pcb). c.pending_signals) (h.others a ne)
      ∙ ap (λ (c : Pcb). c.pending_signals) (same a))

-- A process of the queue is READY, so its signals do not wake it a second time.
pub unlinked_not_stopped :
    (k k1 : Kernel) (x : Ptr) {xs ys : List Ptr}
    → Parked k xs
    → Removed k k1 x xs ys
    → is_stopped (k1.pcb x).state ≡ false
unlinked_not_stopped k k1 x p r = ground (arith, r.states x, p.ready x, r.members x)
