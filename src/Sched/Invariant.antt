-- ===== src/Sched/Invariant.antt =====
-- The invariant of the shared ready queue, and its forms between the steps of a selection.
use demo_os.Base.{◌≡◌, ◌≢◌, List, ◌∷◌, ◌∈◌, ◌∉◌}
use demo_os.Process.{Ptr, null, init_process, State}
use demo_os.Queue.Chain.{IsQueue}
use demo_os.Kernel.{Kernel}

-- The queue holds exactly the READY processes but for the idle task, and only the current process
-- may be RUNNING.
pub record Inv (k : Kernel) (xs : List Ptr) : Type 0 where
  pub queue : IsQueue k.pcb k.ready_queue xs
  pub ready : (a : Ptr) → a ∈ xs → (k.pcb a).state ≡ State.ready
  pub complete : (a : Ptr) → (k.pcb a).state ≡ State.ready → a ≢ init_process → a ∈ xs
  pub running : (a : Ptr) → (k.pcb a).state ≡ State.running → a ≡ k.current_process
  pub idle_out : init_process ∉ xs
  pub current_ne : k.current_process ≢ null

-- Between the removal of the outgoing process and the dispatch: no process but the idle task is
-- RUNNING.
pub record Parked (k : Kernel) (xs : List Ptr) : Type 0 where
  pub queue : IsQueue k.pcb k.ready_queue xs
  pub ready : (a : Ptr) → a ∈ xs → (k.pcb a).state ≡ State.ready
  pub complete : (a : Ptr) → (k.pcb a).state ≡ State.ready → a ≢ init_process → a ∈ xs
  pub running :
      (a : Ptr) → (k.pcb a).state ≡ State.running → (a ≡ init_process) × (a ≡ k.current_process)
  pub idle_out : init_process ∉ xs

-- The process `p` is taken out of the queue and may be dispatched.
pub record Chosen (k : Kernel) (p : Ptr) (xs : List Ptr) : Type 0 where
  pub queue : IsQueue k.pcb k.ready_queue xs
  pub ready : (a : Ptr) → a ∈ p ∷ xs → (k.pcb a).state ≡ State.ready
  pub complete : (a : Ptr) → (k.pcb a).state ≡ State.ready → a ≢ init_process → a ∈ p ∷ xs
  pub running :
      (a : Ptr) → (k.pcb a).state ≡ State.running → (a ≡ init_process) × (a ≡ k.current_process)
  pub idle_out : init_process ∉ p ∷ xs
  pub ne_null : p ≢ null
  pub out : p ∉ xs
