-- ===== src/Examples/Levels.antt =====
-- The multilevel selection: the outgoing process goes to the highest level, two others wait below.
use demo_os.Base.{
  ℕ, zero, suc, ◌+◌, ◌<◌, ◌≤◌, ◌≡◌, ◌≢◌, ◌∈◌, ◌∉◌, update, List, [], ◌∷◌, refl, arith, length,
  Returns,
}
use demo_os.Process.{Ptr, State}
use demo_os.Queue.{empty_queue, enqueue_process_to}
use demo_os.Queue.Chain.{IsQueue}
use demo_os.Kernel.{Algorithm, Kernel, ml_policy_mlfq, preempt_disable}
use demo_os.Sched.Enqueue.{enqueue_multilevel}
use demo_os.Sched.Pick.{queue_fuel}
use demo_os.Sched.Multilevel.{schedule_multilevel}
use demo_os.Sched.Multilevel.Cascade.{
  Levelled, LevelRuns, outgoing_queued, schedule_multilevel-LevelRuns,
}
use demo_os.Examples.States.{third, queue, queued, busy}

abbrev layered : Kernel
layered = record (busy Algorithm.mlfq) { ml_queues = update (λ _. empty_queue) 1 queue }

abbrev layers : ℕ → List Ptr
layers zero = third ∷ []
layers (suc zero) = queued
layers (suc (suc i)) = []

layered-Levelled : Levelled 5 0 layers (outgoing_queued layered)
unfolding preempt_disable enqueue_multilevel enqueue_process_to
layered-Levelled = record { queue = queue_at; ready = ready_at; short = short_at; apart = apart_at }
  where
    k : Kernel
    k = outgoing_queued layered

    queue_at : (i : ℕ) → 0 ≤ i → i < 0 + 5 → IsQueue k.pcb (k.ml_queues i) (layers i)
    queue_at zero lo hi = record {
      chain = (refl, ground arith, refl);
      tail = refl;
      distinct = (refl, tt);
    }
    queue_at (suc zero) lo hi = record {
      chain = (refl, ground arith, (refl, ground arith, refl));
      tail = refl;
      distinct = (refl, (refl, tt));
    }
    queue_at (suc (suc i)) lo hi = record {
      chain = ground arith;
      tail = ground arith;
      distinct = tt;
    }

    ready_at :
        (i : ℕ) → 0 ≤ i → i < 0 + 5 → (a : Ptr) → a ∈ layers i → (k.pcb a).state ≡ State.ready
    ready_at zero lo hi a m = ground arith
    ready_at (suc zero) lo hi a m = ground arith
    ready_at (suc (suc i)) lo hi a m = absurd (ground arith)

    short_at : (i : ℕ) → 0 ≤ i → i < 0 + 5 → length (layers i) < queue_fuel
    short_at zero lo hi = omega arith
    short_at (suc zero) lo hi = omega arith
    short_at (suc (suc i)) lo hi = omega arith

    apart_at : (i j : ℕ) → i ≢ j → (a : Ptr) → a ∈ layers i → a ∉ layers j
    apart_at zero zero ne a m = absurd (ne refl)
    apart_at zero (suc zero) ne a m = ground arith
    apart_at zero (suc (suc j)) ne a m = refl
    apart_at (suc zero) zero ne a m = ground arith
    apart_at (suc zero) (suc zero) ne a m = absurd (ne refl)
    apart_at (suc zero) (suc (suc j)) ne a m = refl
    apart_at (suc (suc i)) j ne a m = absurd (ground arith)

schedule_multilevel-LevelRuns_example :
    Returns
      (LevelRuns ml_policy_mlfq layers (outgoing_queued layered).pcb)
      (schedule_multilevel ml_policy_mlfq layered)
schedule_multilevel-LevelRuns_example =
    schedule_multilevel-LevelRuns ml_policy_mlfq layers layered layered-Levelled
