-- ===== src/Sched/Multilevel.antt =====
-- libs/scheduler.c: the multilevel selection shared by MLQ and MLFQ, and its work at each tick.
pub mod Boost
pub mod Level
pub mod Cascade
use demo_os.Base.{
  ℕ, zero, suc, ◌+◌, ◌-◌, not, ◌&&◌, ◌==◌, ltb, leb, if◌then◌else◌, update, Option, none, some,
  get_or, ◌>>=◌,
}
use demo_os.Base.Int.{pos, is_pos, eqb_ℤ}
use demo_os.Process.{Ptr, null, init_process, n_processes_max}
use demo_os.Kernel.{Kernel, QueueRef, MultilevelPolicy, enqueue_to, dequeue_from, preempt_disable}
use demo_os.Sched.Enqueue.{enqueue_multilevel}
use demo_os.Sched.Pick.{queue_fuel, current_runnable, dequeue_ready, recharge, dispatch}

-- The cascade over `n` levels from level `q` down: the process and the level that it came from.
unfoldable pub cascade : ℕ → ℕ → Kernel → Option (Ptr × ℕ × Kernel)
cascade zero q k = some (null, q, k)
cascade (suc n) q k = do
  (process, k1) ← dequeue_ready queue_fuel (QueueRef.ml_queue q) k
  let rest = cascade n (q + 1) k1
  if process == null then rest else some (process, q, k1)

unfoldable pub schedule_multilevel : MultilevelPolicy → Kernel → Option Kernel
schedule_multilevel policy k = do
  let k0 = preempt_disable k
  let k1 = if current_runnable k0 then enqueue_multilevel k0.current_process k0 else k0
  (next, level, k2) ← cascade policy.n_levels 0 k1
  some (
      dispatch next (if next == null then k2 else recharge next (get_or policy.quantum level 0) k2))

-- Moves every process of level `q` to level 0.
unfoldable pub boost_queue : ℕ → ℕ → Kernel → Option Kernel
boost_queue zero q k = none
boost_queue (suc fuel) q k =
    let (p, k1) = dequeue_from (QueueRef.ml_queue q) k in
    let moved =
      enqueue_to (QueueRef.ml_queue 0) p
        (record k1 { queue_level = update k1.queue_level (k1.pcb p).pid 0 }) in
    let rest = boost_queue fuel q moved in if p == null then some k1 else rest

-- The `n` levels from `q` on.
unfoldable pub boost_levels : ℕ → ℕ → Kernel → Option Kernel
boost_levels zero q k = some k
boost_levels (suc n) q k = do k1 ← boost_queue queue_fuel q k; boost_levels n (q + 1) k1

-- `queue_level[i] = 0` for every slot.
abbrev pub reset_levels : (ℕ → ℕ) → ℕ → ℕ
reset_levels levels pid = if ltb pid n_processes_max then 0 else levels pid

unfoldable pub boost : MultilevelPolicy → Kernel → Option Kernel
boost policy k =
    let ticked = record k { ml_ticks_since_boost = k.ml_ticks_since_boost + 1 } in
    let boosted = (do
      k1 ← boost_levels (policy.n_levels - 1) 1 ticked
      some (record k1 { queue_level = reset_levels k1.queue_level; ml_ticks_since_boost = 0 })) in
    if policy.boost_period == 0
    then some k
    else if leb policy.boost_period ticked.ml_ticks_since_boost
    then boosted
    else some ticked

unfoldable pub demote : MultilevelPolicy → Kernel → Kernel
demote policy k =
    let c = k.pcb k.current_process in
    let level = k.queue_level c.pid in
    if policy.demote_on_expiry
      && not (k.current_process == init_process)
      && not (is_pos c.counter)
      && eqb_ℤ c.preempt_disabled (pos 0)
      && ltb level (policy.n_levels - 1)
    then record k { queue_level = update k.queue_level c.pid (level + 1) }
    else k

unfoldable pub multilevel_on_tick : MultilevelPolicy → Kernel → Option Kernel
multilevel_on_tick policy k = do k1 ← boost policy k; some (demote policy k1)
