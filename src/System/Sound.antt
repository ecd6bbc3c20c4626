-- ===== src/System/Sound.antt =====
-- What is to hold between two entries into the kernel.
use demo_os.Base.{
  ℕ, ◌≤◌, ◌<◌, ◌≡◌, ◌≢◌, ◌∙◌, sym, true, false, ◌==◌, ◌||◌, List, [], ◌∷◌, arith, inl, inr,
  Bool-cases, length, has, has-append, ◌∈◌, length-le_of_Distinct,
}
use demo_os.Process.{
  Ptr, null, init_process, Store, is_running, is_waiting_another_process, n_processes_max,
}
use demo_os.Queue.Chain.{IsQueue-frame}
use demo_os.Kernel.{Algorithm, Kernel}
use demo_os.Sched.Signals.Effect.{survives}
use demo_os.Sched.Pick.Drain.{survivors}
use demo_os.Sched.Invariant.{Inv}
use demo_os.Sched.Steps.{Inv-frame, requeued}
use demo_os.System.Tidy.{Tidy, Tidy-marks}
use demo_os.Sched.Table.{slots, length-slots}

-- The PCBs of the table behind the first slot, which is that of the idle task.
abbrev pub table : Kernel → List Ptr
table k = slots 63 1 k.processes

-- The ready queue holds `xs`, all of them and the current process stand in the table, and the idle
-- task waits for nobody.
pub record Queued (k : Kernel) (xs : List Ptr) : Type 0 where
  pub inv : Inv k xs
  pub in_table : (a : Ptr) → a ∈ xs → a ∈ table k
  pub current : (k.current_process == init_process || has k.current_process (table k)) ≡ true
  pub first_slot : k.processes 0 ≡ init_process
  pub idle_awake : is_waiting_another_process (k.pcb init_process).state ≡ false
  pub algorithm : k.active_algorithm ≡ Algorithm.round_robin
  pub tidy : Tidy k.memory.memory_pages k.processes
  pub counted : 0 < k.n_processes
  pub bounded : k.n_processes ≤ n_processes_max
  pub filled : (j : ℕ) → j < k.n_processes → k.processes j ≢ null
  pub free_slots : (j : ℕ) → k.n_processes ≤ j → j < n_processes_max → k.processes j ≡ null

-- Between two entries the current process is RUNNING, unless it is the idle task.
pub record Sound (k : Kernel) : Type 0 where
  pub queue : List Ptr
  pub queued : Queued k queue
  pub running :
      (k.current_process == init_process || is_running (k.pcb k.current_process).state) ≡ true

pub length-lt_max : {k : Kernel} {xs : List Ptr} → Queued k xs → length xs < n_processes_max
length-lt_max {k} {xs} q =
    let short = length-le_of_Distinct xs (table k) q.inv.queue.distinct q.in_table in
    let n = length-slots 63 1 k.processes in omega arith

-- Changes of PCBs that keep states and links.
pub Queued-frame :
    {k : Kernel} {xs : List Ptr} (g : Store)
    → ((a : Ptr) → (g a).state ≡ (k.pcb a).state)
    → ((a : Ptr) → (g a).next_ready ≡ (k.pcb a).next_ready)
    → Queued k xs
    → Queued (record k { pcb = g }) xs
Queued-frame g states links q = record {
  inv = Inv-frame g states links q.inv;
  in_table = q.in_table;
  current = q.current;
  first_slot = q.first_slot;
  idle_awake = rw (states init_process) q.idle_awake;
  algorithm = q.algorithm;
  tidy = q.tidy;
  counted = q.counted;
  bounded = q.bounded;
  filled = q.filled;
  free_slots = q.free_slots;
}

-- Two kernels that differ in nothing that the soundness speaks of.
pub record Alike (k k' : Kernel) : Type 0 where
  pub states : (a : Ptr) → (k'.pcb a).state ≡ (k.pcb a).state
  pub links : (a : Ptr) → (k'.pcb a).next_ready ≡ (k.pcb a).next_ready
  pub queue : k'.ready_queue ≡ k.ready_queue
  pub current : k'.current_process ≡ k.current_process
  pub processes : k'.processes ≡ k.processes
  pub n_processes : k'.n_processes ≡ k.n_processes
  pub algorithm : k'.active_algorithm ≡ k.active_algorithm
  pub marks : (i : ℕ) → k'.memory.memory_pages i ≡ 0 → k.memory.memory_pages i ≡ 0

Queued-Alike : {k k' : Kernel} {xs : List Ptr} → Alike k k' → Queued k xs → Queued k' xs
Queued-Alike {k} {k'} s q = record {
  inv = record {
    queue = rw (s.queue) (IsQueue-frame k'.pcb (λ a m. s.links a) q.inv.queue);
    ready = λ a m. s.states a ∙ q.inv.ready a m;
    complete = λ a e. q.inv.complete a (sym (s.states a) ∙ e);
    running = λ a e. q.inv.running a (sym (s.states a) ∙ e) ∙ sym s.current;
    idle_out = q.inv.idle_out;
    current_ne = rw (s.current) q.inv.current_ne;
  };
  in_table = λ a m. rw (s.processes) (q.in_table a m);
  current = rw (s.current, s.processes) q.current;
  first_slot = rw (s.processes) q.first_slot;
  idle_awake = rw (s.states init_process) q.idle_awake;
  algorithm = s.algorithm ∙ q.algorithm;
  tidy = rw (s.processes) (Tidy-marks s.marks q.tidy);
  counted = rw (s.n_processes) q.counted;
  bounded = rw (s.n_processes) q.bounded;
  filled = λ j hi. rw (s.processes) (q.filled j (rw (s.n_processes) at hi));
  free_slots = λ j lo hi. rw (s.processes) (q.free_slots j (rw (s.n_processes) at lo) hi);
}

pub Sound-Alike : (k k' : Kernel) → Alike k k' → Sound k → Sound k'
Sound-Alike k k' a s = record {
  queue = s.queue;
  queued = Queued-Alike a s.queued;
  running = rw (a.current, a.states k.current_process) s.running;
}

pub Sound-frame :
    (k : Kernel) (g : Store)
    → ((a : Ptr) → (g a).state ≡ (k.pcb a).state)
    → ((a : Ptr) → (g a).next_ready ≡ (k.pcb a).next_ready)
    → Sound k
    → Sound (record k { pcb = g })
Sound-frame k g states links s = record {
  queue = s.queue;
  queued = Queued-frame g states links s.queued;
  running = rw (states k.current_process) s.running;
}

mem-survivors : (h : Store) (xs : List Ptr) (a : Ptr) → a ∈ survivors h xs → a ∈ xs
unfolding survivors
mem-survivors h [] a m = m
mem-survivors h (x ∷ xs) a m = elim (Bool-cases (survives (h x))) [
  | inl e ↦ rw e at m
  | inr e ↦ let rest = mem-survivors h xs a (rw e at m) in ground arith
]

-- Every process that a selection may choose stands in the table.
pub mem-table :
    {k : Kernel} {xs : List Ptr} (h : Store) (a : Ptr)
    → Queued k xs
    → a ∈ survivors h (requeued k xs)
    → a ∈ table k
mem-table {k} {xs} h a q m =
    let m' = mem-survivors h (requeued k xs) a m in
    ground (arith, has-append a xs (k.current_process ∷ []), q.in_table a, q.current)
