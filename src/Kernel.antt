-- ===== src/Kernel.antt =====
-- libs/scheduler.c and libs/scheduler.h: the scheduler's global state and the descriptors of the
-- algorithms. `active_algorithm` is a configuration point of the source, here a field; the function
-- pointers of a descriptor are dispatched on its name in `Sched`. The memory manager's state
-- stands beside the scheduler's, and what the hardware delivers comes in as `timer_clo`.
use demo_os.Base.{ℕ, Bool, true, false, update, Option, none, some, List, [], ◌∷◌, ◌>>=◌}
use demo_os.Base.Int.{succ, pred}
use demo_os.Process.{Ptr, null, init_process, Pcb, Store, init_pcb, zero_pcb}
use demo_os.Queue.{
  ProcessQueue, empty_queue, enqueue_process_to, dequeue_process_from, remove_process_from,
  enqueue_sorted_to,
}

pub data Algorithm : Type 0 where
  round_robin fcfs sjf lottery priority_aging mlq mlfq : Algorithm

abbrev pub ml_max_levels : ℕ
ml_max_levels = 5

pub record MultilevelPolicy : Type 0 where
  pub n_levels : ℕ
  pub quantum : List ℕ
  pub demote_on_expiry : Bool
  pub boost_period : ℕ

abbrev pub mlfq_boost_period : ℕ
mlfq_boost_period = 300

abbrev pub ml_policy_mlq : MultilevelPolicy
ml_policy_mlq = record {
  n_levels = 5;
  quantum = 10 ∷ 12 ∷ 14 ∷ 16 ∷ 20 ∷ [];
  demote_on_expiry = false;
  boost_period = 0;
}

abbrev pub ml_policy_mlfq : MultilevelPolicy
ml_policy_mlfq = record {
  n_levels = 5;
  quantum = 5 ∷ 8 ∷ 10 ∷ 15 ∷ 20 ∷ [];
  demote_on_expiry = true;
  boost_period = mlfq_boost_period;
}

-- The data fields of the descriptors.
abbrev pub is_preemptive : Algorithm → Bool
is_preemptive Algorithm.fcfs = false
is_preemptive Algorithm.sjf = false
is_preemptive _ = true

abbrev pub ml_policy : Algorithm → Option MultilevelPolicy
ml_policy Algorithm.mlq = some ml_policy_mlq
ml_policy Algorithm.mlfq = some ml_policy_mlfq
ml_policy _ = none

-- The page table of libs/mm.c (`memory_pages`) and the words of the physical memory, by address.
pub record Memory : Type 0 where
  pub memory_pages : ℕ → ℕ
  pub ram : ℕ → ℕ

-- `processes` and `queue_level` have N_PROCESSES cells, `ml_queues` has ML_MAX_LEVELS.
-- `timer_clo n` is what the n-th read of the free-running timer returns, and `timer_reads` counts
-- the reads; `active_pgd` is the table that `set_pgd` installed.
pub record Kernel : Type 0 where
  pub pcb : Store
  pub current_process : Ptr
  pub processes : ℕ → Ptr
  pub n_processes : ℕ
  pub ready_queue : ProcessQueue
  pub ml_queues : ℕ → ProcessQueue
  pub queue_level : ℕ → ℕ
  pub active_algorithm : Algorithm
  pub lottery_rng_state : ℕ
  pub ml_ticks_since_boost : ℕ
  pub active_pgd : ℕ
  pub timer_clo : ℕ → ℕ
  pub timer_reads : ℕ
  pub memory : Memory

-- The state at boot.
abbrev pub boot : Algorithm → (ℕ → ℕ) → Kernel
boot algorithm clock = record {
  pcb = update (λ _. zero_pcb) init_process init_pcb;
  current_process = init_process;
  processes = update (λ _. null) 0 init_process;
  n_processes = 1;
  ready_queue = empty_queue;
  ml_queues = λ _. empty_queue;
  queue_level = λ _. 0;
  active_algorithm = algorithm;
  lottery_rng_state = 88172645463325252;
  ml_ticks_since_boost = 0;
  active_pgd = 0;
  timer_clo = clock;
  timer_reads = 0;
  memory = record { memory_pages = λ _. 0; ram = λ _. 0 };
}

-- The pointer to a queue: the shared ready queue, or one level of the multilevel queues.
pub data QueueRef : Type 0 where
  ready_queue : QueueRef
  ml_queue : ℕ → QueueRef

abbrev pub get_queue : Kernel → QueueRef → ProcessQueue
get_queue k QueueRef.ready_queue = k.ready_queue
get_queue k (QueueRef.ml_queue l) = k.ml_queues l

abbrev pub put_queue : Kernel → QueueRef → ProcessQueue → Store → Kernel
put_queue k QueueRef.ready_queue q h = record k { ready_queue = q; pcb = h }
put_queue k (QueueRef.ml_queue l) q h = record k { ml_queues = update k.ml_queues l q; pcb = h }

-- Assignment to the PCB at `p`.
abbrev pub set_pcb : Kernel → Ptr → Pcb → Kernel
set_pcb k p c = record k { pcb = update k.pcb p c }

-- The queue operations on a queue of the kernel.
abbrev pub enqueue_to : QueueRef → Ptr → Kernel → Kernel
enqueue_to r p k = let (q, h) = enqueue_process_to (get_queue k r) p k.pcb in put_queue k r q h

abbrev pub dequeue_from : QueueRef → Kernel → Ptr × Kernel
dequeue_from r k =
    let (p, q, h) = dequeue_process_from (get_queue k r) k.pcb in (p, put_queue k r q h)

abbrev pub remove_from : QueueRef → (previous process : Ptr) → Kernel → Kernel
remove_from r previous p k =
    let (q, h) = remove_process_from (get_queue k r) previous p k.pcb in put_queue k r q h

abbrev pub enqueue_sorted_into : QueueRef → Ptr → Kernel → Option Kernel
enqueue_sorted_into r p k =
    enqueue_sorted_to (get_queue k r) p k.pcb >>= λ (q, h). some (put_queue k r q h)

-- `preempt_enable` and `preempt_disable`: the nesting counter of the current process.
unfoldable pub preempt_enable : Kernel → Kernel
preempt_enable k =
    let c = k.pcb k.current_process in
    set_pcb k k.current_process (record c { preempt_disabled = pred c.preempt_disabled })

unfoldable pub preempt_disable : Kernel → Kernel
preempt_disable k =
    let c = k.pcb k.current_process in
    set_pcb k k.current_process (record c { preempt_disabled = succ c.preempt_disabled })
