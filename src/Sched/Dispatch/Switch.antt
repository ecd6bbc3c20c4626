-- ===== src/Sched/Dispatch/Switch.antt =====
-- The dispatcher under Round Robin: the end of a time slice, and a process that gives up the CPU.
use demo_os.Base.{
  Option, ◌<◌, ◌≡◌, refl, ap, true, false, not, ◌==◌, ◌&&◌, none, List, arith, Bool-cases, inl, inr,
  Returns, Returns-mono, ==-refl, length, ◌+◌, ◌/◌, ◌≢◌, ◌⊎◌, ◌∙◌, Bool,
}
use demo_os.Base.Int.{pos, pred, is_pos}
use demo_os.Process.{Ptr, Store, init_process, n_processes_max, is_running, is_ready}
use demo_os.Kernel.{Algorithm, Kernel, set_pcb, ml_policy, is_preemptive}
use demo_os.Sched.Signals.Effect.{survives_of_pending}
use demo_os.Sched.Pick.{schedule_round_robin}
use demo_os.Sched.Pick.Drain.{survivors, survivors-cong}
use demo_os.Sched.Pick.RoundRobin.{RunsFirst, schedule_round_robin-picks}
use demo_os.Sched.Dispatch.{account_tick, handle_timer_tick, pick_next, schedule, end_burst}
use demo_os.Sched.Dispatch.Tick.{on_tick-none}
use demo_os.Sched.Frame.{Kept, Keeps, Returns-Keeps}
use demo_os.Sched.Frame.Selection.{schedule_round_robin-Keeps}
use demo_os.Sched.Invariant.{Inv}
use demo_os.Sched.Steps.{Inv-frame, requeued}

pick_round_robin :
    (algorithm : Algorithm) (k : Kernel)
    → algorithm ≡ Algorithm.round_robin
    → pick_next algorithm k ≡ schedule_round_robin k
unfolding pick_next
pick_round_robin algorithm k e = rw e refl

-- A selection behind changes of PCBs that keep states, links and signals.
pub framed :
    (k : Kernel) (xs : List Ptr) (g : Store)
    → Inv k xs
    → length xs < n_processes_max
    → ((a : Ptr) → (g a).state ≡ (k.pcb a).state)
    → ((a : Ptr) → (g a).next_ready ≡ (k.pcb a).next_ready)
    → ((a : Ptr) → (g a).pending_signals ≡ (k.pcb a).pending_signals)
    → Returns
        (RunsFirst 10 (survivors k.pcb (requeued k xs)))
        (schedule_round_robin (record k { pcb = g }))
framed k xs g i l states links pending =
    let same : requeued (record k { pcb = g }) xs ≡ requeued k xs =
      rw (states k.current_process) refl in
    rw
      (
        ← same,
        ← survivors-cong g k.pcb (requeued (record k { pcb = g }) xs)
            (λ a m. survives_of_pending _ _ (pending a)),
      )
      (schedule_round_robin-picks (record k { pcb = g }) xs (Inv-frame g states links i) l)

-- The result is that of a selection by Round Robin, behind changes of PCBs that keep states, links
-- and signals.
pub record Reselects (k : Kernel) (m : Option Kernel) : Type 0 where
  pub store : Store
  pub states : (a : Ptr) → (store a).state ≡ (k.pcb a).state
  pub links : (a : Ptr) → (store a).next_ready ≡ (k.pcb a).next_ready
  pub pending : (a : Ptr) → (store a).pending_signals ≡ (k.pcb a).pending_signals
  pub selects : m ≡ schedule_round_robin (record k { pcb = store })

Reselects-RunsFirst :
    {m : Option Kernel} (k : Kernel) (xs : List Ptr)
    → Inv k xs
    → length xs < n_processes_max
    → Reselects k m
    → Returns (RunsFirst 10 (survivors k.pcb (requeued k xs))) m
Reselects-RunsFirst k xs i l r = rw (r.selects) (framed k xs r.store i l r.states r.links r.pending)

pub handle_timer_tick-Reselects :
    (k : Kernel)
    → k.active_algorithm ≡ Algorithm.round_robin
    → is_pos (pred (k.pcb k.current_process).counter) ≡ false
    → is_pos (k.pcb k.current_process).preempt_disabled ≡ false
    → Reselects k (handle_timer_tick k)
unfolding handle_timer_tick account_tick
handle_timer_tick-Reselects k e over enabled =
    let no_policy : ml_policy k.active_algorithm ≡ none = ap ml_policy e in
    let preemptive : is_preemptive k.active_algorithm ≡ true = ap is_preemptive e in
    rw
      (
        on_tick-none k.active_algorithm (account_tick k) no_policy,
        ==-refl k.current_process,
        over,
        enabled,
        preemptive,
        pick_round_robin k.active_algorithm _ e,
      )
      (record {
        store = _;
        states = λ a. ground arith;
        links = λ a. ground arith;
        pending = λ a. ground arith;
        selects = refl;
      })

pub schedule-Reselects :
    (k : Kernel) → k.active_algorithm ≡ Algorithm.round_robin → Reselects k (schedule k)
unfolding schedule end_burst
schedule-Reselects k e =
    elim (Bool-cases (
      not (k.current_process == init_process)
      && not (is_running (k.pcb k.current_process).state)
      && not (is_ready (k.pcb k.current_process).state))) [
        | inl blocked ↦
            rw (blocked, pick_round_robin k.active_algorithm _ e)
              (record {
                store = _;
                states = λ a. ground arith;
                links = λ a. ground arith;
                pending = λ a. ground arith;
                selects = refl;
              })
        | inr stays ↦
            rw (stays, pick_round_robin k.active_algorithm _ e)
              (record {
                store = _;
                states = λ a. ground arith;
                links = λ a. ground arith;
                pending = λ a. ground arith;
                selects = refl;
              })
      ]

-- A timer tick under Round Robin at which the slice of the current process ends, with the
-- preemption enabled, from a kernel that satisfies the ready-queue invariant with fewer than 64
-- queued processes, succeeds and dispatches with a quantum of 10 ticks the first process of the
-- queue (the preempted one put last) that neither KILL nor STOP is pending for, or the idle
-- task if there is none; the queue keeps the processes behind it.
pub handle_timer_tick-switches :
    (k : Kernel) (xs : List Ptr)
    → Inv k xs
    → length xs < n_processes_max
    → k.active_algorithm ≡ Algorithm.round_robin
    → is_pos (pred (k.pcb k.current_process).counter) ≡ false
    → is_pos (k.pcb k.current_process).preempt_disabled ≡ false
    → Returns (RunsFirst 10 (survivors k.pcb (requeued k xs))) (handle_timer_tick k)
handle_timer_tick-switches k xs i l e over enabled =
    Reselects-RunsFirst k xs i l (handle_timer_tick-Reselects k e over enabled)

schedule-runs :
    (k : Kernel) (xs : List Ptr)
    → Inv k xs
    → length xs < n_processes_max
    → k.active_algorithm ≡ Algorithm.round_robin
    → Returns (RunsFirst 10 (survivors k.pcb (requeued k xs))) (schedule k)
schedule-runs k xs i l e = Reselects-RunsFirst k xs i l (schedule-Reselects k e)

-- The current process neither is the idle task nor could go on: its burst has ended.
abbrev pub is_blocked : Kernel → Bool
is_blocked k =
    let state = (k.pcb k.current_process).state in
    not (k.current_process == init_process) && not (is_running state) && not (is_ready state)

-- The accounts of bursts: a burst that has ended is averaged into the estimate.
pub record Accounted (k k' : Kernel) : Type 0 where
  pub ended_ticks : is_blocked k ≡ true → (k'.pcb k.current_process).burst_ticks ≡ 0
  pub ended_estimate :
      is_blocked k ≡ true
      → (k'.pcb k.current_process).est_burst
        ≡ ((k.pcb k.current_process).burst_ticks + (k.pcb k.current_process).est_burst) / 2
  pub going :
      (a : Ptr)
      → (a ≢ k.current_process) ⊎ (is_blocked k ≡ false)
      → ((k'.pcb a).est_burst ≡ (k.pcb a).est_burst)
        × ((k'.pcb a).burst_ticks ≡ (k.pcb a).burst_ticks)

-- The kernel that `schedule` selects from.
abbrev prepared : Kernel → Kernel
prepared k =
    let k1 = end_burst k in
    set_pcb k1 k1.current_process (record (k1.pcb k1.current_process) { counter = pos 0 })

prepared-algorithm : (k : Kernel) → (prepared k).active_algorithm ≡ k.active_algorithm
unfolding end_burst
prepared-algorithm k = ground arith

prepared-Accounted : (k k' : Kernel) → Kept (prepared k) k' → Accounted k k'
unfolding end_burst
prepared-Accounted k k' h = record {
  ended_ticks = λ b. h.burst_ticks k.current_process ∙ ground arith;
  ended_estimate = λ b. h.est_burst k.current_process ∙ ground arith;
  going = λ a other. (h.est_burst a ∙ ground arith, h.burst_ticks a ∙ ground arith);
}

schedule-Keeps :
    (k : Kernel) → k.active_algorithm ≡ Algorithm.round_robin → Keeps (prepared k) (schedule k)
unfolding schedule
schedule-Keeps k e =
    let rr : (prepared k).active_algorithm ≡ Algorithm.round_robin = prepared-algorithm k ∙ e in
    rw (pick_round_robin (prepared k).active_algorithm (prepared k) rr)
      (schedule_round_robin-Keeps (prepared k) rr)

-- A call of schedule under Round Robin, by a process that blocked, ended or yields, from a
-- kernel that satisfies the ready-queue invariant with fewer than 64 queued processes, succeeds
-- and dispatches with a quantum of 10 ticks the first process of the queue (the caller put last
-- if it is still RUNNING) that neither KILL nor STOP is pending for, or the idle task if there
-- is none; the queue keeps the processes behind it. If the caller is neither RUNNING nor READY
-- nor the idle task, its burst is averaged into its estimate and counted from 0 again; else its
-- estimate and its burst are unchanged, as those of all other processes are.
pub schedule-RunsFirst :
    (k : Kernel) (xs : List Ptr)
    → Inv k xs
    → length xs < n_processes_max
    → k.active_algorithm ≡ Algorithm.round_robin
    → Returns
        (λ k'. RunsFirst 10 (survivors k.pcb (requeued k xs)) k' × Accounted k k')
        (schedule k)
schedule-RunsFirst k xs i l e =
    Returns-mono (Returns-Keeps (schedule-runs k xs i l e) (schedule-Keeps k e))
      λ k' p. (p.0, prepared-Accounted k k' p.1)
