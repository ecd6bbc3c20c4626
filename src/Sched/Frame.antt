-- ===== src/Sched/Frame.antt =====
-- A kernel and a later one, as far as the table, the algorithm, the marks of the pages, who waits for
-- whom, the pending signals and the bursts go.
pub mod Selection
use demo_os.Base.{
  ℕ, zero, suc, ◌≡◌, refl, ◌∙◌, true, false, ◌==◌, if◌then◌else◌, Option, none, some, arith, inl,
  inr, Bool-cases, ◌>>=◌, Returns, returns,
}
use demo_os.Base.Bits.{test_bit}
use demo_os.Process.{Ptr, null, Pcb, is_ready, is_stopped, is_waiting_another_process}
use demo_os.Queue.{is_ignored, enqueue_process_to, dequeue_process_from}
use demo_os.Kernel.{
  Algorithm, Kernel, QueueRef, set_pcb, enqueue_to, dequeue_from, preempt_enable, preempt_disable,
}
use demo_os.Sched.Enqueue.{enqueue_process, enqueue_callback, enqueue_fifo}
use demo_os.Sched.Signals.{
  signal_kill, signal_stop, signal_resume, handle_process_signals, switch_to_process,
}
use demo_os.Sched.Signals.Effect.{survives}
use demo_os.Sched.Pick.{
  current_runnable, queue_fuel, requeue_current, dequeue_ready, recharge, dispatch,
  schedule_round_robin,
}

pub record Kept (k k' : Kernel) : Type 0 where
  pub processes : k'.processes ≡ k.processes
  pub n_processes : k'.n_processes ≡ k.n_processes
  pub algorithm : k'.active_algorithm ≡ k.active_algorithm
  pub pages : k'.memory.memory_pages ≡ k.memory.memory_pages
  pub awake :
      (a : Ptr)
      → is_waiting_another_process (k.pcb a).state ≡ false
      → is_waiting_another_process (k'.pcb a).state ≡ false
  pub calm : (a : Ptr) → survives (k.pcb a) ≡ true → survives (k'.pcb a) ≡ true
  pub est_burst : (a : Ptr) → (k'.pcb a).est_burst ≡ (k.pcb a).est_burst
  pub burst_ticks : (a : Ptr) → (k'.pcb a).burst_ticks ≡ (k.pcb a).burst_ticks

pub Kept-refl : (k : Kernel) → Kept k k
Kept-refl k = record {
  processes = refl;
  n_processes = refl;
  algorithm = refl;
  pages = refl;
  awake = λ a h. h;
  calm = λ a h. h;
  est_burst = λ a. refl;
  burst_ticks = λ a. refl;
}

pub Kept-trans : {k k' k'' : Kernel} → Kept k k' → Kept k' k'' → Kept k k''
Kept-trans p q = record {
  processes = q.processes ∙ p.processes;
  n_processes = q.n_processes ∙ p.n_processes;
  algorithm = q.algorithm ∙ p.algorithm;
  pages = q.pages ∙ p.pages;
  awake = λ a h. q.awake a (p.awake a h);
  calm = λ a h. q.calm a (p.calm a h);
  est_burst = λ a. q.est_burst a ∙ p.est_burst a;
  burst_ticks = λ a. q.burst_ticks a ∙ p.burst_ticks a;
}

-- The result, if there is one, is kept.
abbrev pub Keeps : Kernel → Option Kernel → Type 0
Keeps k none = Unit
Keeps k (some k') = Kept k k'

abbrev pub KeepsWith : Kernel → Option (Ptr × Kernel) → Type 0
KeepsWith k none = Unit
KeepsWith k (some (p, k')) = Kept k k'

pub KeepsWith-trans :
    (k k' : Kernel) (m : Option (Ptr × Kernel)) → Kept k k' → KeepsWith k' m → KeepsWith k m
KeepsWith-trans k k' none h t = tt
KeepsWith-trans k k' (some _) h t = Kept-trans h t

pub KeepsWith-bind :
    (k : Kernel) (m : Option Kernel) (f : Kernel → Option (Ptr × Kernel))
    → Keeps k m
    → ((k' : Kernel) → Kept k k' → KeepsWith k' (f k'))
    → KeepsWith k (m >>= f)
KeepsWith-bind k none f h next = tt
KeepsWith-bind k (some k') f h next = KeepsWith-trans k k' (f k') h (next k' h)

-- The write of a PCB that waits no more than the old one, and has no further pending signal.
pub set_pcb-Kept :
    (p : Ptr) (c : Pcb) (k : Kernel)
    → (is_waiting_another_process (k.pcb p).state ≡ false
        → is_waiting_another_process c.state ≡ false)
    → (survives (k.pcb p) ≡ true → survives c ≡ true)
    → c.est_burst ≡ (k.pcb p).est_burst
    → c.burst_ticks ≡ (k.pcb p).burst_ticks
    → Kept k (set_pcb k p c)
set_pcb-Kept p c k awake calm est ticks = record {
  processes = refl;
  n_processes = refl;
  algorithm = refl;
  pages = refl;
  awake = λ a h. elim (Bool-cases (p == a)) [
    | inl at ↦ let same : p ≡ a = ground arith in rw at (awake (rw same h))
    | inr off ↦ rw off h
  ];
  calm = λ a h. elim (Bool-cases (p == a)) [
    | inl at ↦ let same : p ≡ a = ground arith in rw at (calm (rw same h))
    | inr off ↦ rw off h
  ];
  est_burst = λ a. ground arith;
  burst_ticks = λ a. ground arith;
}

pub Keeps-trans : (k k' : Kernel) (m : Option Kernel) → Kept k k' → Keeps k' m → Keeps k m
Keeps-trans k k' none h t = tt
Keeps-trans k k' (some _) h t = Kept-trans h t

-- A result that is there, and what is kept.
pub Returns-Keeps {ℓ} :
    {P : Kernel → Type ℓ} {k : Kernel} {m : Option Kernel}
    → Returns P m
    → Keeps k m
    → Returns (λ k'. P k' × Kept k k') m
Returns-Keeps (returns p) h = returns (p, h)
