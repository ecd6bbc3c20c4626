-- ===== src/System/Switching.antt =====
-- schedule, syscall_yield, handle_timer_tick and syscall_wait under Round Robin.
use demo_os.Base.{
  ◌≡◌, refl, ap, ◌∙◌, true, false, ◌==◌, ◌||◌, List, [], ◌∷◌, arith, inl, inr, Bool-cases, has, ◌∈◌,
  ◌∉◌, ==-refl, ne_of_mem, first_or, rest_of, Option, none, Returns, returns, Returns-bind,
  Returns-mono,
}
use demo_os.Base.Int.{ℤ, pred, is_pos}
use demo_os.Process.{Ptr, null, init_process, Pcb, State, is_running, is_ready, is_zombie}
use demo_os.Kernel.{Kernel, set_pcb, ml_policy}
use demo_os.Sched.Pick.Drain.{survivors}
use demo_os.Sched.Pick.RoundRobin.{RunsFirst}
use demo_os.Sched.Steps.{Runs, requeued}
use demo_os.Sched.Frame.{Kept, Returns-Keeps}
use demo_os.Sched.Frame.Selection.{schedule_round_robin-Keeps}
use demo_os.Sched.Dispatch.{schedule, handle_timer_tick, account_tick}
use demo_os.Sched.Dispatch.Tick.{on_tick-none}
use demo_os.Sched.Dispatch.Switch.{
  framed, Reselects, schedule-Reselects, handle_timer_tick-Reselects,
}
use demo_os.Queue.Chain.{IsQueue-frame}
use demo_os.Ipc.{Outcome}
use demo_os.Syscalls.{syscall_yield, syscall_wait, search_process}
use demo_os.System.Sound.{table, Queued, Sound, length-lt_max, Queued-frame, Sound-frame, mem-table}

-- The state behind a selection.
Runs-Queued :
    (k k' : Kernel) (p : Ptr) (xs ys : List Ptr)
    → Runs k' p ys
    → ((a : Ptr) → a ∈ ys → a ∈ table k)
    → (p == init_process || has p (table k)) ≡ true
    → Queued k xs
    → Kept k k'
    → Queued k' ys
Runs-Queued k k' p xs ys r listed self q h =
    let same : table k' ≡ table k = rw (h.processes) refl in
    record {
      inv = r.inv;
      in_table = λ a m. rw same (listed a m);
      current = rw (r.current, same) self;
      first_slot = rw (h.processes) q.first_slot;
      idle_awake = h.awake init_process q.idle_awake;
      algorithm = h.algorithm ∙ q.algorithm;
      tidy = rw (h.pages, h.processes) q.tidy;
      counted = rw (h.n_processes) q.counted;
      bounded = rw (h.n_processes) q.bounded;
      filled = λ j hi. rw (h.processes) (q.filled j (rw (h.n_processes) at hi));
      free_slots = λ j lo hi. rw (h.processes) (q.free_slots j (rw (h.n_processes) at lo) hi);
    }

-- The first of `zs` is the current process, RUNNING, and the others are queued.
pub record Turn (k k' : Kernel) (zs : List Ptr) : Type 0 where
  pub queued : Queued k' (rest_of zs)
  pub current : k'.current_process ≡ first_or init_process zs
  pub state : (k'.pcb (first_or init_process zs)).state ≡ State.running
  pub kept : Kept k k'

picked :
    (k k' : Kernel) (xs zs : List Ptr)
    → ((a : Ptr) → a ∈ zs → a ∈ table k)
    → RunsFirst 10 zs k'
    → Queued k xs
    → Kept k k'
    → Turn k k' zs
picked k k' xs [] listed r q h = record {
  queued = Runs-Queued k k' init_process xs [] r (λ a m. cc) refl q h;
  current = r.current;
  state = r.state;
  kept = h;
}
picked k k' xs (z ∷ zs) listed r q h = record {
  queued =
      Runs-Queued k k' z xs zs r.0 (λ a m. listed a (ground arith))
        (let at = listed z (ground arith) in ground arith) q h;
  current = r.0.current;
  state = r.0.state;
  kept = h;
}

-- A selection, behind changes of PCBs that keep states, links and signals.
pub Reselects-Turn :
    {m : Option Kernel} (k : Kernel) (xs : List Ptr)
    → Queued k xs
    → (r : Reselects k m)
    → Returns (λ k'. Turn (record k { pcb = r.store }) k' (survivors k.pcb (requeued k xs))) m
Reselects-Turn k xs q r =
    let k1 : Kernel = record k { pcb = r.store } in
    rw (r.selects) (
      Returns-mono
        (Returns-Keeps (framed k xs r.store q.inv (length-lt_max q) r.states r.links r.pending)
          (schedule_round_robin-Keeps k1 q.algorithm))
        (λ k' p.
          picked k1 k' xs (survivors k.pcb (requeued k xs)) (λ a m. mem-table k.pcb a q m) p.0
            (Queued-frame r.store r.states r.links q) p.1))

Turn-Sound : (k k' : Kernel) (zs : List Ptr) → Turn k k' zs → Sound k'
Turn-Sound k k' zs t = record {
  queue = rest_of zs;
  queued = t.queued;
  running = rw (t.current, t.state) (ground arith);
}

pub Reselects-Sound :
    {m : Option Kernel} (k : Kernel) (xs : List Ptr) → Queued k xs → Reselects k m → Returns Sound m
Reselects-Sound k xs q r = Returns-mono (Reselects-Turn k xs q r) λ k' t. Turn-Sound _ k' _ t

pub schedule-Sound : (k : Kernel) (xs : List Ptr) → Queued k xs → Returns Sound (schedule k)
schedule-Sound k xs q = Reselects-Sound k xs q (schedule-Reselects k q.algorithm)

pub syscall_yield-Sound : (k : Kernel) → Sound k → Returns Sound (syscall_yield k)
unfolding syscall_yield
syscall_yield-Sound k s =
    schedule-Sound _ s.queue (Queued-frame _ (λ a. ground arith) (λ a. ground arith) s.queued)

-- The tick of a timer.
pub handle_timer_tick-Sound : (k : Kernel) → Sound k → Returns Sound (handle_timer_tick k)
unfolding handle_timer_tick account_tick
handle_timer_tick-Sound k s =
    elim (Bool-cases (
      is_pos (pred (k.pcb k.current_process).counter)
      || is_pos (k.pcb k.current_process).preempt_disabled)) [
        | inl stays ↦
            let no_policy : ml_policy k.active_algorithm ≡ none = ap ml_policy s.queued.algorithm in
            rw
              (
                on_tick-none k.active_algorithm (account_tick k) no_policy,
                ==-refl k.current_process,
                stays,
              )
              (returns (Sound-frame k _ (λ a. ground arith) (λ a. ground arith) s))
        | inr over ↦
            Reselects-Sound k s.queue s.queued
              (handle_timer_tick-Reselects k s.queued.algorithm (ground arith) (ground arith))
      ]

-- A process other than the idle task that blocks.
pub blocked-Queued :
    (k : Kernel) (c : Pcb) (xs : List Ptr)
    → Queued k xs
    → (k.current_process == init_process || is_running (k.pcb k.current_process).state) ≡ true
    → (k.current_process == init_process) ≡ false
    → is_ready c.state ≡ false
    → is_running c.state ≡ false
    → c.next_ready ≡ (k.pcb k.current_process).next_ready
    → Queued (set_pcb k k.current_process c) xs
blocked-Queued k c xs q running user not_ready not_running link =
    let i = q.inv in
    let out : k.current_process ∉ xs = ground (arith, i.ready k.current_process, running) in
    record {
      inv = record {
        queue = IsQueue-frame _ (λ a m. ground arith) i.queue;
        ready = λ a m. ground (arith, i.ready a m, ne_of_mem a k.current_process xs m out);
        complete = λ a e ne. ground (arith, i.complete a);
        running = λ a e. ground (arith, i.running a);
        idle_out = i.idle_out;
        current_ne = i.current_ne;
      };
      in_table = q.in_table;
      current = q.current;
      first_slot = q.first_slot;
      idle_awake = ground (arith, q.idle_awake);
      algorithm = q.algorithm;
      tidy = q.tidy;
      counted = q.counted;
      bounded = q.bounded;
      filled = q.filled;
      free_slots = q.free_slots;
    }

-- The outcome of a call that may block, in a sound state.
abbrev pub SoundOutcome {ℓ} : {A : Type ℓ} → Outcome A → Type 0
SoundOutcome (Outcome.returned a k) = Sound k
SoundOutcome (Outcome.blocked k) = Sound k

-- A wait of a process other than the idle task.
pub syscall_wait-Sound :
    (pid : ℤ) (k : Kernel)
    → Sound k
    → (k.current_process == init_process) ≡ false
    → Returns SoundOutcome (syscall_wait pid k)
unfolding syscall_wait
syscall_wait-Sound pid k s user = elim (Bool-cases (search_process pid k == null)) [
  | inl e ↦ rw e (returns s)
  | inr e ↦ rw e (elim (Bool-cases (is_zombie (k.pcb (search_process pid k)).state)) [
    | inl z ↦ rw z (returns s)
    | inr z ↦ rw z (
        Returns-bind
          (schedule-Sound _ s.queue
            (blocked-Queued k _ s.queue s.queued s.running user refl refl refl))
          λ k1 s1. returns s1)
  ])
]
