-- ===== src/Sched/Enqueue/Params.antt =====
-- The change of scheduling parameters, on every branch.
use demo_os.Base.{
  ◌⊎◌, ℕ, ◌-◌, ◌<◌, ◌≡◌, true, false, not, if◌then◌else◌, arith, leb, ◌≢◌, Option, some, none, ◌&&◌,
  Bool,
}
use demo_os.Base.Int.{ℤ, pos, negsuc, is_pos, ltb_ℤ, eqb_ℤ, to_ℕ}
use demo_os.Process.{Ptr}
use demo_os.Queue.{is_ignored}
use demo_os.Kernel.{Algorithm, Kernel, ml_max_levels}
use demo_os.Sched.Enqueue.{
  clamp_to_policy, sched_param_priority, sched_param_tickets, sched_param_queue_priority,
  start_level,
}

-- The parameters of the process at `a` are in range.
pub record HasValidParams (k : Kernel) (a : Ptr) : Type 0 where
  pub priority : is_pos (k.pcb a).priority ≡ true
  pub tickets : is_pos (k.pcb a).tickets ≡ true
  pub level : k.queue_level (k.pcb a).pid < ml_max_levels

clamp-lt :
    (algorithm : Algorithm) (level : ℕ)
    → level < ml_max_levels
    → clamp_to_policy algorithm level < ml_max_levels
unfolding clamp_to_policy
clamp-lt Algorithm.mlq level h = ground arith
clamp-lt Algorithm.mlfq level h = ground arith
clamp-lt _ level h = h

-- The level at which a process starts is one of the queues.
pub start_level-lt :
    (algorithm : Algorithm) (queue_priority : ℤ)
    → start_level algorithm queue_priority < ml_max_levels
unfolding start_level
start_level-lt algorithm queue_priority =
    clamp-lt algorithm
      (if leb ml_max_levels (to_ℕ queue_priority) then ml_max_levels - 1 else to_ℕ queue_priority)
      (ground arith)

pub data Selector : Type 0 where
  of_priority of_tickets of_level : Selector

abbrev pub selected : ℤ → Option Selector
selected param =
    if eqb_ℤ param sched_param_priority
    then some Selector.of_priority
    else if eqb_ℤ param sched_param_tickets
    then some Selector.of_tickets
    else if eqb_ℤ param sched_param_queue_priority
    then some Selector.of_level
    else none

-- The parameter of the process at `a`.
abbrev pub parameter : Selector → Ptr → Kernel → ℤ
parameter Selector.of_priority a k = (k.pcb a).priority
parameter Selector.of_tickets a k = (k.pcb a).tickets
parameter Selector.of_level a k = pos (k.queue_level (k.pcb a).pid)

abbrev pub is_allowed : Selector → ℤ → Bool
is_allowed Selector.of_level value = not (ltb_ℤ value (pos 0)) && ltb_ℤ value (pos ml_max_levels)
is_allowed _ value = not (ltb_ℤ value (pos 1))

-- A level is clamped to the levels of the active policy.
abbrev pub taken_value : Algorithm → Selector → ℤ → ℤ
taken_value algorithm Selector.of_level value = pos (clamp_to_policy algorithm (to_ℕ value))
taken_value algorithm _ value = value

-- What is kept for parameter `q` of the process at `a`.
abbrev pub Same : Selector → Ptr → Kernel → Kernel → Type 0
Same q a k k' = parameter q a k' ≡ parameter q a k

-- What a call comes to.
pub data ParamSet (process : Ptr) (param value : ℤ) (k : Kernel) : ℤ × Kernel → Type 0 where
  refused :
      (is_ignored process ≡ true)
        ⊎ (selected param ≡ none)
        ⊎ ((q : Selector) × (selected param ≡ some q) × (is_allowed q value ≡ false))
      → ParamSet process param value k (negsuc 0, k)
  changed :
      {k' : Kernel} (q : Selector)
      → is_ignored process ≡ false
      → selected param ≡ some q
      → is_allowed q value ≡ true
      → parameter q process k' ≡ taken_value k.active_algorithm q value
      → ((q' : Selector) → q' ≢ q → Same q' process k k')
      → ((q' : Selector) (a : Ptr)
          → a ≢ process
          → (k.pcb a).pid ≢ (k.pcb process).pid
          → Same q' a k k')
      → ((a : Ptr) → HasValidParams k a → HasValidParams k' a)
      → ParamSet process param value k (pos 0, k')
