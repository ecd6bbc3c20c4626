-- ===== src/Sched/Aging.antt =====
-- libs/scheduler.c, `_schedule_priority_aging`: the walk for the largest counter, the recharge at
-- the end of an epoch, and their repetition. The walk runs on fuel over the queue; the repetition
-- has fuel of its own, which the caller gives.
pub mod Epoch
pub mod Scan
pub mod Walk
pub mod Select
pub mod Choice
use demo_os.Base.{ℕ, zero, suc, ◌+◌, ◌==◌, if◌then◌else◌, update, Option, none, some, ◌>>=◌}
use demo_os.Base.Int.{ℤ, pos, half, ltb_ℤ, ◌+ℤ◌}
use demo_os.Process.{Ptr, null, n_processes_max, Store, is_ready}
use demo_os.Kernel.{Kernel, QueueRef, remove_from, preempt_disable}
use demo_os.Sched.Signals.{handle_process_signals}
use demo_os.Sched.Pick.{queue_fuel, requeue_current, dispatch}

-- The candidate so far: it, its predecessor, and the largest counter seen.
pub record Best : Type 0 where
  pub best : Ptr
  pub best_previous : Ptr
  pub max_counter : ℤ

abbrev pub no_best : Best
no_best = record { best = null; best_previous = null; max_counter = pos 0 }

-- The comparison of one node that stays in the queue.
abbrev pub consider : Ptr → Ptr → ℤ → Best → Best
consider previous node counter b =
    if ltb_ℤ b.max_counter counter
    then record { best = node; best_previous = previous; max_counter = counter }
    else b

-- One pass over the queue.
unfoldable pub walk : ℕ → (previous node : Ptr) → Best → Kernel → Option (Best × Kernel)
walk zero previous node b k = none
walk (suc fuel) previous node b k =
    let next = (k.pcb node).next_ready in
    let handled = handle_process_signals node k in
    let step = (do
      k1 ← handled
      let kept = walk fuel node next (consider previous node (k1.pcb node).counter b) k1
      let dropped = walk fuel previous next b (remove_from QueueRef.ready_queue previous node k1)
      if is_ready (k1.pcb node).state then kept else dropped) in
    if node == null then some (b, k) else step

-- `counter = (counter >> 1) + priority` for the process at slot `i`.
abbrev pub recharge_slot : (ℕ → Ptr) → ℕ → Store → Store
recharge_slot processes i h =
    let p = processes i in
    if p == null
    then h
    else update h p (record (h p) { counter = half (h p).counter +ℤ (h p).priority })

-- The slots `i`, `i + 1`, ... , `n` of them.
unfoldable pub recharge_slots : ℕ → (ℕ → Ptr) → ℕ → Store → Store
recharge_slots zero processes i h = h
recharge_slots (suc n) processes i h =
    recharge_slots n processes (i + 1) (recharge_slot processes i h)

unfoldable pub new_epoch : Kernel → Kernel
new_epoch k = record k { pcb = recharge_slots n_processes_max k.processes 0 k.pcb }

-- The loop: the process to dispatch, or NULL if the queue is empty.
unfoldable pub select_best : ℕ → Kernel → Option (Ptr × Kernel)
select_best zero k = none
select_best (suc epochs) k = do
  (b, k1) ← walk queue_fuel null k.ready_queue.head no_best k
  let again = select_best epochs (new_epoch k1)
  if b.best == null
      then (if k1.ready_queue.head == null then some (null, k1) else again)
      else some (b.best, remove_from QueueRef.ready_queue b.best_previous b.best k1)

unfoldable pub schedule_priority_aging : (epochs : ℕ) → Kernel → Option Kernel
schedule_priority_aging epochs k = do
  (next, k1) ← select_best epochs (requeue_current QueueRef.ready_queue (preempt_disable k))
  some (dispatch next k1)
