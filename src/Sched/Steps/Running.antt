-- ===== src/Sched/Steps/Running.antt =====
-- The dispatch of the chosen process.
use demo_os.Base.{
  ℕ, ◌≡◌, ◌≢◌, refl, false, ◌==◌, List, [], ◌∷◌, arith, ◌∈◌, ◌∉◌, Bool-cases, ne_of_mem, inl, inr,
}
use demo_os.Process.{Ptr, null, init_process, State}
use demo_os.Queue.Chain.{IsQueue, IsQueue-frame}
use demo_os.Kernel.{Kernel, preempt_enable}
use demo_os.Sched.Signals.{switch_to_process}
use demo_os.Sched.Pick.{dispatch, recharge}
use demo_os.Sched.Invariant.{Inv, Parked, Chosen}
use demo_os.Sched.Steps.Requeue.{preempt_enable-Inv}

pub recharge-Chosen :
    (k : Kernel) (q : ℕ) (x : Ptr) (xs : List Ptr) → Chosen k x xs → Chosen (recharge x q k) x xs
unfolding recharge
recharge-Chosen k q x xs c = record {
  queue = IsQueue-frame (recharge x q k).pcb (λ a m. ground arith) c.queue;
  ready = λ a m. ground (arith, c.ready a);
  complete = λ a e ne. ground (arith, c.complete a);
  running = λ a e. ground (arith, c.running a);
  idle_out = c.idle_out;
  ne_null = c.ne_null;
  out = c.out;
}

-- The invariant, and which process runs.
pub record Runs (k : Kernel) (p : Ptr) (xs : List Ptr) : Type 0 where
  pub inv : Inv k xs
  pub current : k.current_process ≡ p
  pub state : (k.pcb p).state ≡ State.running

-- Dispatching the chosen process re-establishes the invariant, and makes it the RUNNING one.
switch-Runs :
    (k : Kernel) (p : Ptr) (xs : List Ptr)
    → IsQueue k.pcb k.ready_queue xs
    → ((a : Ptr) → a ∈ xs → (k.pcb a).state ≡ State.ready)
    → ((a : Ptr) → (k.pcb a).state ≡ State.ready → a ≢ init_process → a ∈ p ∷ xs)
    → ((a : Ptr) → (k.pcb a).state ≡ State.running → (a ≡ init_process) × (a ≡ k.current_process))
    → init_process ∉ xs
    → p ∉ xs
    → p ≢ null
    → Runs (switch_to_process p k) p xs
unfolding switch_to_process
switch-Runs k p xs queue ready complete running idle_out out ne =
    elim (Bool-cases (k.current_process == p)) [
      | inl same ↦ rw same (record {
        inv = record {
          queue = IsQueue-frame _ (λ a m. ground arith) queue;
          ready = λ a m. ground (arith, ready a, ne_of_mem a p xs m out);
          complete = λ a e i. ground (arith, complete a);
          running = λ a e. ground (arith, running a);
          idle_out = idle_out;
          current_ne = ground arith;
        };
        current = ground arith;
        state = ground arith;
      })
      | inr other ↦ rw other (record {
        inv = record {
          queue = IsQueue-frame _ (λ a m. ground arith) queue;
          ready = λ a m. ground (arith, ready a, ne_of_mem a p xs m out);
          complete = λ a e i. ground (arith, complete a, running k.current_process);
          running = λ a e. ground (arith, running a);
          idle_out = idle_out;
          current_ne = ne;
        };
        current = refl;
        state = ground arith;
      })
    ]

preempt_enable-Runs :
    (k : Kernel) (p : Ptr) (xs : List Ptr) → Runs k p xs → Runs (preempt_enable k) p xs
unfolding preempt_enable
preempt_enable-Runs k p xs r = record {
  inv = preempt_enable-Inv r.inv;
  current = r.current;
  state = ground (arith, r.state);
}

pub dispatch-Runs :
    (k : Kernel) (p : Ptr) (xs : List Ptr) → Chosen k p xs → Runs (dispatch p k) p xs
unfolding dispatch
dispatch-Runs k p xs c =
    let not_null : (p == null) ≡ false = ground (arith, c.ne_null) in
    rw not_null (
      preempt_enable-Runs (switch_to_process p k) p xs (
        switch-Runs k p xs c.queue (λ a m. ground (arith, c.ready a)) c.complete c.running
          (ground (arith, c.idle_out)) c.out c.ne_null))

-- With an empty queue the idle task runs.
pub dispatch-idle : (k : Kernel) → Parked k [] → Runs (dispatch null k) init_process []
unfolding dispatch
dispatch-idle k p = preempt_enable-Runs (switch_to_process init_process k) init_process [] (
    switch-Runs k init_process [] p.queue p.ready (λ a e ne. ground (arith, p.complete a)) p.running
      refl refl (ground arith))
