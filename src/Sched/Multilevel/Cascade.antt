-- ===== src/Sched/Multilevel/Cascade.antt =====
-- libs/scheduler.c, `_schedule_multilevel`: the scan of the levels from the highest one, and the whole
-- selection.
use demo_os.Base.{
  ℕ, zero, suc, ◌+◌, ◌<◌, ◌≤◌, ◌≡◌, ◌≢◌, refl, sym, ap, ◌∙◌, true, false, Bool-cases, inl, inr,
  ◌==◌, if◌then◌else◌, List, [], ◌∷◌, arith, ◌∈◌, ◌∉◌, length, get_or, Returns, returns,
  Returns-bind, Returns-mono, some,
}
use demo_os.Base.Int.{pos}
use demo_os.Process.{Ptr, null, init_process, Pcb, Store, State, is_ready}
use demo_os.Queue.Chain.{IsQueue, IsQueue-frame, ne-null_of_mem}
use demo_os.Kernel.{Kernel, MultilevelPolicy, preempt_disable, preempt_enable}
use demo_os.Sched.Enqueue.{enqueue_multilevel}
use demo_os.Sched.Signals.Effect.{survives}
use demo_os.Sched.Signals.{switch_to_process}
use demo_os.Sched.Pick.{queue_fuel, current_runnable, recharge, dispatch}
use demo_os.Sched.Pick.Drain.{survivors, survivors-cong}
use demo_os.Sched.Steps.{counter-dispatch}
use demo_os.Sched.Multilevel.{cascade, schedule_multilevel}
use demo_os.Sched.Multilevel.Level.{Popped, dequeue_level-Popped}

-- The `n` levels from `q` on hold the READY processes of the lists, none of them in two levels.
pub record Levelled (n q : ℕ) (levels : ℕ → List Ptr) (k : Kernel) : Type 0 where
  pub queue : (i : ℕ) → q ≤ i → i < q + n → IsQueue k.pcb (k.ml_queues i) (levels i)
  pub ready : (i : ℕ) → q ≤ i → i < q + n → (a : Ptr) → a ∈ levels i → (k.pcb a).state ≡ State.ready
  pub short : (i : ℕ) → q ≤ i → i < q + n → length (levels i) < queue_fuel
  pub apart : (i j : ℕ) → i ≢ j → (a : Ptr) → a ∈ levels i → a ∉ levels j

-- What the scan returns: NULL if no level has a process that may run, or the first such process of
-- the first level that has one. The levels behind it are as before.
pub data Cascaded (n q : ℕ) (levels : ℕ → List Ptr) (h : Store) (r : Ptr × ℕ × Kernel)
    : Type 0 where
  none_left :
      r.0 ≡ null
      → ((i : ℕ) → q ≤ i → i < q + n → survivors h (levels i) ≡ [])
      → Cascaded n q levels h r
  highest :
      (z : Ptr) (zs : List Ptr)
      → r.0 ≡ z
      → z ≢ null
      → q ≤ r.1
      → r.1 < q + n
      → ((i : ℕ) → q ≤ i → i < r.1 → survivors h (levels i) ≡ [])
      → survivors h (levels r.1) ≡ z ∷ zs
      → is_ready (r.2.pcb z).state ≡ true
      → IsQueue r.2.pcb (r.2.ml_queues r.1) zs
      → ((i : ℕ) → r.1 < i → i < q + n → IsQueue r.2.pcb (r.2.ml_queues i) (levels i))
      → Cascaded n q levels h r

-- The level `q` was emptied; the levels behind it.
module _ (n q : ℕ) (levels : ℕ → List Ptr) (k k1 : Kernel) (p : Ptr) (zs : List Ptr)
    (l : Levelled (suc n) q levels k) (w : Popped k q (levels q) zs p k1) where
  untouched_level : (i : ℕ) → q < i → (a : Ptr) → a ∈ levels i → k1.pcb a ≡ k.pcb a
  untouched_level i lt a m = w.others a (l.apart i q (λ same. absurd (omega arith)) a m)

  level_behind : (i : ℕ) → q < i → i < q + suc n → IsQueue k1.pcb (k1.ml_queues i) (levels i)
  level_behind i lo hi = rw (w.queues i (λ same. absurd (omega arith))) (
      IsQueue-frame k1.pcb (λ a m. ap (λ (c : Pcb). c.next_ready) (untouched_level i lo a m))
        (l.queue i (omega arith) hi))

  Levelled-behind : Levelled n (q + 1) levels k1
  Levelled-behind = record {
    queue = λ i lo hi. level_behind i (omega arith) (omega arith);
    ready = λ i lo hi a m.
        ap (λ (c : Pcb). c.state) (untouched_level i (omega arith) a m)
        ∙ l.ready i (omega arith) (omega arith) a m;
    short = λ i lo hi. l.short i (omega arith) (omega arith);
    apart = l.apart;
  }

  same_survivors : (i : ℕ) → q < i → survivors k1.pcb (levels i) ≡ survivors k.pcb (levels i)
  same_survivors i lt =
      survivors-cong k1.pcb k.pcb (levels i) (λ a m. ap survives (untouched_level i lt a m))

  emptied : (i : ℕ) → i ≡ q → survivors k.pcb (levels q) ≡ [] → survivors k.pcb (levels i) ≡ []
  emptied i same e = rw same e

  Cascaded-behind :
      survivors k.pcb (levels q) ≡ []
      → (r : Ptr × ℕ × Kernel) → Cascaded n (q + 1) levels k1.pcb r
      → Cascaded (suc n) q levels k.pcb r
  Cascaded-behind nil r (none_left e low) = none_left e (λ i lo hi. elim (Bool-cases (i == q)) [
    | inl at ↦ emptied i (ground arith) nil
    | inr off ↦ sym (same_survivors i (ground arith)) ∙ low i (ground arith) (omega arith)
  ])
  Cascaded-behind nil r (highest z zs' e ne lo hi above found still level below) =
      highest z zs' e ne (omega arith) (omega arith)
        (λ i lo' hi'. elim (Bool-cases (i == q)) [
          | inl at ↦ emptied i (ground arith) nil
          | inr off ↦ sym (same_survivors i (ground arith)) ∙ above i (ground arith) hi'
        ])
        (sym (same_survivors r.1 (omega arith)) ∙ found) still level
        (λ i lo' hi'. below i lo' (omega arith))

survivors-mem : (h : Store) (xs : List Ptr) (a : Ptr) → a ∈ survivors h xs → a ∈ xs
unfolding survivors
survivors-mem h [] a m = m
survivors-mem h (x ∷ xs) a m = elim (Bool-cases (survives (h x))) [
  | inl e ↦ rw e at m
  | inr e ↦ let later = survivors-mem h xs a (rw e at m) in ground arith
]

-- The choice behind the selection at level `q`.
cascade_step :
    (n q : ℕ) (levels : ℕ → List Ptr) (k : Kernel) (zs : List Ptr) (p : Ptr) (k1 : Kernel)
    → Levelled (suc n) q levels k
    → Popped k q (levels q) zs p k1
    → survivors k.pcb (levels q) ≡ zs
    → (Levelled n (q + 1) levels k1
        → Returns (Cascaded n (q + 1) levels k1.pcb) (cascade n (q + 1) k1))
    → Returns
        (Cascaded (suc n) q levels k.pcb)
        (if p == null then cascade n (q + 1) k1 else some (p, q, k1))
cascade_step n q levels k [] p k1 l w e rest =
    let nothing : (p == null) ≡ true = ground (arith, w.process) in
    rw nothing (
      Returns-mono (rest (Levelled-behind n q levels k k1 p [] l w))
        (Cascaded-behind n q levels k k1 p [] l w e))
cascade_step n q levels k (z ∷ zs) p k1 l w e rest =
    let queued : z ∈ levels q = survivors-mem k.pcb (levels q) z (rw e (ground arith)) in
    let queue = l.queue q (omega arith) (omega arith) in
    let ne = ne-null_of_mem k.pcb (k.ml_queues q).head (levels q) null z queue.chain queued in
    let something : (p == null) ≡ false = ground (arith, w.process) in
    rw something (
      returns (
        highest z zs w.process ne (omega arith) (omega arith) (λ i lo hi. absurd (omega arith)) e
          w.head w.level (level_behind n q levels k k1 p (z ∷ zs) l w)))

pub cascade-Cascaded :
    (n q : ℕ) (levels : ℕ → List Ptr) (k : Kernel)
    → Levelled n q levels k
    → Returns (Cascaded n q levels k.pcb) (cascade n q k)
unfolding cascade
cascade-Cascaded zero q levels k l = returns (none_left refl (λ i lo hi. absurd (omega arith)))
cascade-Cascaded (suc n) q levels k l =
    Returns-bind
      (dequeue_level-Popped queue_fuel k q (levels q) (l.queue q (omega arith) (omega arith))
        (l.ready q (omega arith) (omega arith)) (l.short q (omega arith) (omega arith)))
      (λ r w.
        cascade_step n q levels k (survivors k.pcb (levels q)) r.0 r.1 l w refl
          (cascade-Cascaded n (q + 1) levels r.1))

-- The kernel in which the scan starts: the outgoing process stands at the end of its level.
abbrev pub outgoing_queued : Kernel → Kernel
outgoing_queued k =
    let k0 = preempt_disable k in
    if current_runnable k0 then enqueue_multilevel k0.current_process k0 else k0

-- The choice among the levels: the first process that neither KILL nor STOP is pending for, of the
-- first level with such a process, runs with the quantum of its level, or the idle task.
pub data LevelRuns (policy : MultilevelPolicy) (levels : ℕ → List Ptr) (h : Store) (k : Kernel)
    : Type 0 where
  idle :
      ((i : ℕ) → i < policy.n_levels → survivors h (levels i) ≡ [])
      → k.current_process ≡ init_process
      → (k.pcb init_process).state ≡ State.running
      → LevelRuns policy levels h k
  runs :
      (i : ℕ) (z : Ptr) (zs : List Ptr)
      → i < policy.n_levels
      → ((j : ℕ) → j < i → survivors h (levels j) ≡ [])
      → survivors h (levels i) ≡ z ∷ zs
      → k.current_process ≡ z
      → (k.pcb z).state ≡ State.running
      → (k.pcb z).counter ≡ pos (get_or policy.quantum i 0)
      → IsQueue k.pcb (k.ml_queues i) zs
      → LevelRuns policy levels h k

module _ (p : Ptr) (k : Kernel) where
  current-dispatch : (dispatch p k).current_process ≡ (if p == null then init_process else p)
  unfolding dispatch preempt_enable switch_to_process
  current-dispatch = ground arith

  running-dispatch :
      let next = if p == null then init_process else p in
      ((dispatch p k).pcb next).state ≡ State.running
  unfolding dispatch preempt_enable switch_to_process
  running-dispatch = ground arith

  levels-dispatch : (dispatch p k).ml_queues ≡ k.ml_queues
  unfolding dispatch preempt_enable switch_to_process
  levels-dispatch = ground arith

  link-dispatch : (a : Ptr) → ((dispatch p k).pcb a).next_ready ≡ (k.pcb a).next_ready
  unfolding dispatch preempt_enable switch_to_process
  link-dispatch a = ground arith

dispatched_level :
    (policy : MultilevelPolicy) (levels : ℕ → List Ptr) (h : Store) (r : Ptr × ℕ × Kernel)
    → Cascaded policy.n_levels 0 levels h r
    → LevelRuns policy levels h
        (dispatch r.0 (if r.0 == null then r.2 else recharge r.0 (get_or policy.quantum r.1 0) r.2))
unfolding recharge
dispatched_level policy levels h r (none_left e low) = rw e (
    idle (λ i lt. low i (omega arith) (omega arith)) (current-dispatch null r.2)
      (running-dispatch null r.2))
dispatched_level policy levels h r (highest z zs e ne lo hi above found still level below) =
    let not_null : (z == null) ≡ false = ground arith in
    let k1 = recharge z (get_or policy.quantum r.1 0) r.2 in
    rw (e, not_null)
      (runs r.1 z zs (omega arith) (λ j lt. above j (omega arith) lt) found
        (current-dispatch z k1 ∙ rw not_null refl) (rw not_null at (running-dispatch z k1))
        (counter-dispatch z k1 z ∙ ground arith)
        (rw (levels-dispatch z k1)
          (IsQueue-frame (dispatch z k1).pcb (λ a m. link-dispatch z k1 a ∙ ground arith) level)))

-- The multilevel selection (MLQ and MLFQ), if after the outgoing process was queued at its
-- level each level of the policy holds a list of READY processes, at most 64 of them, and no
-- process stands in two levels, ends and dispatches the first process that neither KILL nor
-- STOP is pending for, of the first level from the highest one that has such a process, with
-- the quantum of this level, which keeps the processes behind it. If no level has one, the idle
-- task runs.
pub schedule_multilevel-LevelRuns :
    (policy : MultilevelPolicy) (levels : ℕ → List Ptr) (k : Kernel)
    → Levelled policy.n_levels 0 levels (outgoing_queued k)
    → Returns (LevelRuns policy levels (outgoing_queued k).pcb) (schedule_multilevel policy k)
unfolding schedule_multilevel
schedule_multilevel-LevelRuns policy levels k l =
    Returns-bind (cascade-Cascaded policy.n_levels 0 levels (outgoing_queued k) l)
      (λ r c. returns (dispatched_level policy levels (outgoing_queued k).pcb r c))
