-- ===== src/Sched/Steps/Removal.antt =====
-- A process taken out of the ready queue, and what its signals make of it.
use demo_os.Base.{
  ◌≡◌, ◌≢◌, true, false, ◌==◌, List, ◌∷◌, arith, has, ◌∈◌, ◌∉◌, Bool-cases, ==_iff, ne_of_mem, inl,
  inr, ap, ◌∙◌,
}
use demo_os.Process.{Ptr, null, init_process, Pcb, State, is_ready}
use demo_os.Queue.Chain.{IsQueue, IsQueue-frame, ne-null_of_mem}
use demo_os.Kernel.{Kernel}
use demo_os.Sched.Signals.Effect.{Handled, after_signals-ne-running}
use demo_os.Sched.Invariant.{Parked, Chosen}

-- `x` was taken out of the queue `xs`, which leaves `ys`; only links changed.
pub record Removed (k k1 : Kernel) (x : Ptr) (xs ys : List Ptr) : Type 0 where
  pub queue : IsQueue k1.pcb k1.ready_queue ys
  pub members : (a : Ptr) → has a xs ≡ has a (x ∷ ys)
  pub out : x ∉ ys
  pub states : (a : Ptr) → (k1.pcb a).state ≡ (k.pcb a).state
  pub current : k1.current_process ≡ k.current_process

-- After its signals, it is dropped or chosen.
module _ {k k1 k2 : Kernel} {x : Ptr} {xs ys : List Ptr} (p : Parked k xs)
    (r : Removed k k1 x xs ys) (h : Handled x k1 k2) where
  in_queue : x ∈ xs
  in_queue = ground (arith, r.members x)

  queue_after : IsQueue k2.pcb k2.ready_queue ys
  queue_after = rw (ap (λ (c : Kernel). c.ready_queue) h.rest) (
      IsQueue-frame k2.pcb
        (λ a m. ap (λ (c : Pcb). c.next_ready) (h.others a (ne_of_mem a x ys m r.out))) r.queue)

  state_after : (a : Ptr) → a ≢ x → (k2.pcb a).state ≡ (k.pcb a).state
  state_after a ne = rw (h.others a ne) (r.states a)

  ne_running : (k2.pcb x).state ≢ State.running
  ne_running = rw h.self (after_signals-ne-running (k1.pcb x) (r.states x ∙ p.ready x in_queue))

  current_after : k2.current_process ≡ k.current_process
  current_after = ap (λ (c : Kernel). c.current_process) h.rest ∙ r.current

  running_after :
      (a : Ptr) → (k2.pcb a).state ≡ State.running → (a ≡ init_process) × (a ≡ k2.current_process)
  running_after a e = elim (Bool-cases (a == x)) [
    | inl same ↦ absurd (ne_running (rw ((==_iff a x).0 same) at e))
    | inr other ↦ ground (arith, p.running a, state_after a, current_after)
  ]

  complete_after : (a : Ptr) → (k2.pcb a).state ≡ State.ready → a ≢ init_process → a ∈ x ∷ ys
  complete_after a e ne = elim (Bool-cases (a == x)) [
    | inl same ↦ rw same
    | inr other ↦ ground (arith, p.complete a, state_after a, r.members a)
  ]

  pub dropped-Parked : is_ready (k2.pcb x).state ≡ false → Parked k2 ys
  dropped-Parked gone = record {
    queue = queue_after;
    ready = λ a m. ground (arith, state_after a, ne_of_mem a x ys m r.out, p.ready a, r.members a);
    complete = λ a e ne. ground (arith, complete_after a e ne);
    running = running_after;
    idle_out = ground (arith, r.members init_process, p.idle_out);
  }

  pub Chosen-unlinked : is_ready (k2.pcb x).state ≡ true → Chosen k2 x ys
  Chosen-unlinked still = record {
    queue = queue_after;
    ready = λ a m. elim (Bool-cases (a == x)) [
      | inl same ↦ rw ((==_iff a x).0 same) (ground arith)
      | inr other ↦ ground (arith, state_after a, p.ready a, r.members a)
    ];
    complete = complete_after;
    running = running_after;
    idle_out = ground (arith, r.members init_process, p.idle_out);
    ne_null = ne-null_of_mem k.pcb k.ready_queue.head xs null x p.queue.chain in_queue;
    out = r.out;
  }
