-- ===== src/Sched/Dispatch/Tick.antt =====
-- The timer tick of the algorithms that have no work of their own at a tick.
use demo_os.Base.{
  ◌+◌, ◌≡◌, ◌≢◌, refl, true, false, not, ◌||◌, none, some, arith, Bool-cases, ==-refl, ==_of_ne,
  sym, inl, inr, Returns, returns,
}
use demo_os.Base.Int.{pred, is_pos}
use demo_os.Process.{Ptr}
use demo_os.Kernel.{Algorithm, Kernel, is_preemptive, ml_policy}
use demo_os.Sched.Dispatch.{account_tick, on_tick, handle_timer_tick}

-- What a tick leaves alone when it does not switch.
pub record Stays (k k' : Kernel) : Type 0 where
  pub current : k'.current_process ≡ k.current_process
  pub others : (a : Ptr) → a ≢ k.current_process → k'.pcb a ≡ k.pcb a
  pub ticks : (k'.pcb k.current_process).burst_ticks ≡ (k.pcb k.current_process).burst_ticks + 1
  pub state : (k'.pcb k.current_process).state ≡ (k.pcb k.current_process).state
  pub queues : k'.ready_queue ≡ k.ready_queue

pub on_tick-none :
    (algorithm : Algorithm) (k : Kernel) → ml_policy algorithm ≡ none → on_tick algorithm k ≡ some k
unfolding on_tick
on_tick-none Algorithm.mlq k e = cc
on_tick-none Algorithm.mlfq k e = cc
on_tick-none _ k e = refl

-- A timer tick of an algorithm without multilevel queues succeeds and takes the CPU from no
-- process while the slice lasts, the preemption is disabled, or the algorithm is not
-- preemptive: the current process, its state, the ready queue and all other PCBs are unchanged,
-- and one tick is added to its burst.
pub handle_timer_tick-Stays :
    (k : Kernel)
    → ml_policy k.active_algorithm ≡ none
    → (is_pos (pred (k.pcb k.current_process).counter)
        || is_pos (k.pcb k.current_process).preempt_disabled
        || not (is_preemptive k.active_algorithm))
      ≡ true
    → Returns (Stays k) (handle_timer_tick k)
unfolding handle_timer_tick account_tick
handle_timer_tick-Stays k e h =
    rw (on_tick-none k.active_algorithm (account_tick k) e, ==-refl k.current_process)
      (elim (Bool-cases (
        is_pos (pred (k.pcb k.current_process).counter)
        || is_pos (k.pcb k.current_process).preempt_disabled)) [
          | inl w ↦ rw w (
              returns (record {
                current = refl;
                others = λ a ne. rw (==_of_ne k.current_process a (λ same. ne (sym same))) refl;
                ticks = rw (==-refl k.current_process) refl;
                state = rw (==-refl k.current_process) refl;
                queues = refl;
              }))
          | inr w ↦
              let calm : is_preemptive k.active_algorithm ≡ false = ground (arith, h, w) in
              rw (w, calm)
                (returns (record {
                  current = refl;
                  others = λ a ne. rw (==_of_ne k.current_process a (λ same. ne (sym same))) refl;
                  ticks = rw (==-refl k.current_process) refl;
                  state = rw (==-refl k.current_process) refl;
                  queues = refl;
                }))
        ])
