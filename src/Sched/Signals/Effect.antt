-- ===== src/Sched/Signals/Effect.antt =====
-- What the handling of signals does to a process that is not STOPPED.
use demo_os.Base.{
  ◌≡◌, ◌≢◌, refl, Bool, false, not, ◌&&◌, ◌==◌, if◌then◌else◌, arith, Bool-cases, inl, inr, Returns,
  returns,
}
use demo_os.Base.Bits.{test_bit, clear_bit}
use demo_os.Process.{Ptr, Pcb, State, is_stopped, is_ready}
use demo_os.Kernel.{Kernel}
use demo_os.Sched.Signals.{handle_process_signals, signal_kill, signal_stop, signal_resume}

-- KILL goes before STOP, and STOP before RESUME; one signal is consumed.
abbrev pub after_signals : Pcb → Pcb
after_signals c =
    if c.pending_signals == 0
    then c
    else if test_bit c.pending_signals signal_kill
    then record c {
      state = State.zombie;
      pending_signals = clear_bit c.pending_signals signal_kill;
    }
    else if test_bit c.pending_signals signal_stop
    then record c {
      state = State.stopped;
      pending_signals = clear_bit c.pending_signals signal_stop;
    }
    else if test_bit c.pending_signals signal_resume
    then record c { pending_signals = clear_bit c.pending_signals signal_resume }
    else c

pub record Handled (p : Ptr) (k k' : Kernel) : Type 0 where
  pub self : k'.pcb p ≡ after_signals (k.pcb p)
  pub others : (a : Ptr) → a ≢ p → k'.pcb a ≡ k.pcb a
  pub rest : k' ≡ record k { pcb = k'.pcb }

-- The handling of signals of a process that is not STOPPED succeeds, applies the strongest
-- pending signal (KILL, then STOP, then RESUME) to its PCB, consumes that one, and changes
-- nothing else.
pub handle-after_signals :
    (p : Ptr) (k : Kernel)
    → is_stopped (k.pcb p).state ≡ false
    → Returns (Handled p k) (handle_process_signals p k)
unfolding handle_process_signals
handle-after_signals p k not_stopped = elim (Bool-cases ((k.pcb p).pending_signals == 0)) [
  | inl e ↦ rw e (returns (record { self = rw e; others = λ a ne. refl; rest = refl }))
  | inr e ↦ rw e (elim (Bool-cases (test_bit (k.pcb p).pending_signals signal_kill)) [
    | inl e1 ↦
        rw e1 (returns (record { self = ground arith; others = λ a ne. ground arith; rest = refl }))
    | inr e1 ↦ rw e1 (elim (Bool-cases (test_bit (k.pcb p).pending_signals signal_stop)) [
      | inl e2 ↦
          rw e2
            (returns (record { self = ground arith; others = λ a ne. ground arith; rest = refl }))
      | inr e2 ↦ rw e2 (elim (Bool-cases (test_bit (k.pcb p).pending_signals signal_resume)) [
        | inl e3 ↦
            rw (e3, not_stopped)
              (returns (record { self = ground arith; others = λ a ne. ground arith; rest = refl }))
        | inr e3 ↦
            rw e3 (returns (record { self = ground arith; others = λ a ne. refl; rest = refl }))
      ])
    ])
  ])
]

-- A READY process does not start to run by a signal, and a signal leaves its link.
pub after_signals-ne-running :
    (c : Pcb) → c.state ≡ State.ready → (after_signals c).state ≢ State.running
after_signals-ne-running c e = ground arith

pub next_ready-after_signals : (c : Pcb) → (after_signals c).next_ready ≡ c.next_ready
next_ready-after_signals c = ground arith

-- Neither KILL nor STOP is pending.
unfoldable pub survives : Pcb → Bool
survives c =
    not (test_bit c.pending_signals signal_kill) && not (test_bit c.pending_signals signal_stop)

pub is_ready-after_signals :
    (c : Pcb) (n : Ptr)
    → c.state ≡ State.ready
    → is_ready (after_signals (record c { next_ready = n })).state ≡ survives c
unfolding survives
is_ready-after_signals c n e = ground arith

pub survives_of_pending :
    (c d : Pcb) → c.pending_signals ≡ d.pending_signals → survives c ≡ survives d
unfolding survives
survives_of_pending c d e = rw e
