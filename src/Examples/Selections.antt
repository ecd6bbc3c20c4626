-- ===== src/Examples/Selections.antt =====
-- The selections at the busy kernel.
use demo_os.Base.{
  ℕ, ◌<◌, ◌≡◌, ◌∈◌, ◌==◌, ==_iff, Bool-cases, inl, inr, update, [], ◌∷◌, refl, arith, Returns, some,
}
use demo_os.Base.Int.{pos}
use demo_os.Process.{Ptr}
use demo_os.Sched.Invariant.{Inv}
use demo_os.Kernel.{Algorithm, Kernel}
use demo_os.Sched.Steps.{requeued}
use demo_os.Sched.Pick.{schedule_round_robin, schedule_queue_head}
use demo_os.Sched.Pick.QueueHead.{
  RunsHead, sorted_requeued, schedule_sjf-picks, schedule_fcfs-picks,
}
use demo_os.Sched.Pick.Drain.{survivors}
use demo_os.Sched.Pick.RoundRobin.{RunsFirst, schedule_round_robin-picks}
use demo_os.Sched.Lottery.{schedule_lottery, find_winner}
use demo_os.Sched.Lottery.Draw.{tickets_of, find_winner-holder}
use demo_os.Sched.Lottery.Select.{LotteryRuns, schedule_lottery-LotteryRuns}
use demo_os.Sched.Aging.{schedule_priority_aging}
use demo_os.Sched.Aging.Epoch.{InRange}
use demo_os.Sched.Aging.Scan.{surviving}
use demo_os.Sched.Aging.Select.{InSlots}
use demo_os.Sched.Aging.Choice.{AgingRuns, schedule_priority_aging-AgingRuns}
use demo_os.Examples.States.{
  first, second, third, second_pcb, store, queued, busy, busy-Inv, queue-IsQueue,
}

schedule_round_robin-picks_example :
    Returns
      (RunsFirst 10 (survivors store (requeued (busy Algorithm.round_robin) queued)))
      (schedule_round_robin (busy Algorithm.round_robin))
schedule_round_robin-picks_example =
    schedule_round_robin-picks (busy Algorithm.round_robin) queued (busy-Inv Algorithm.round_robin)
      (omega arith)

-- The tickets 20 to 49 are those of the second process.
find_winner-holder_example : find_winner 65 store 35 0 0 first ≡ some (first, second)
unfolding tickets_of
find_winner-holder_example =
    find_winner-holder store first (first ∷ []) second [] 65 35 (queue-IsQueue.chain) (omega arith)
      (omega arith) (omega arith)

schedule_lottery-LotteryRuns_example :
    Returns
      (LotteryRuns store (requeued (busy Algorithm.lottery) queued))
      (schedule_lottery (busy Algorithm.lottery))
schedule_lottery-LotteryRuns_example =
    schedule_lottery-LotteryRuns (busy Algorithm.lottery) queued (busy-Inv Algorithm.lottery)
      (omega arith)

schedule_sjf-picks_example :
    Returns
      (RunsHead (survivors store (sorted_requeued (busy Algorithm.sjf) queued)))
      (schedule_queue_head (busy Algorithm.sjf))
schedule_sjf-picks_example =
    schedule_sjf-picks (busy Algorithm.sjf) queued (busy-Inv Algorithm.sjf) (omega arith) refl

schedule_fcfs-picks_example :
    Returns
      (RunsHead (survivors store (requeued (busy Algorithm.fcfs) queued)))
      (schedule_queue_head (busy Algorithm.fcfs))
schedule_fcfs-picks_example =
    schedule_fcfs-picks (busy Algorithm.fcfs) queued (busy-Inv Algorithm.fcfs) (omega arith) refl

-- The counter of the second process is at most twice its priority here.
abbrev aged : Kernel
aged = record (busy Algorithm.priority_aging) {
  pcb = update store second (record second_pcb { priority = pos 3 });
}

aged-Inv : Inv aged queued
aged-Inv = record {
  queue = record {
    chain = (refl, ground arith, (refl, ground arith, refl));
    tail = refl;
    distinct = (refl, (refl, tt));
  };
  ready = λ a m. ground arith;
  complete = λ a e ne. ground arith;
  running = λ a e. ground arith;
  idle_out = refl;
  current_ne = ground arith;
}

aged_elements :
    (P : Ptr → Type 0) → P first → P second → P third → (a : Ptr) → a ∈ requeued aged queued → P a
aged_elements P one two three a m = elim (Bool-cases (a == first)) [
  | inl e ↦ rw ((==_iff a first).0 e) one
  | inr e ↦ elim (Bool-cases (a == second)) [
    | inl f ↦ rw ((==_iff a second).0 f) two
    | inr f ↦ let same : a ≡ third = ground arith in rw same three
  ]
]

aged-InRange : (a : Ptr) → a ∈ requeued aged queued → InRange (aged.pcb a)
aged-InRange =
    aged_elements (λ a. InRange (aged.pcb a))
      (record {
        value = 4;
        weight = 2;
        counter = refl;
        priority = refl;
        weight_pos = omega arith;
        bound = omega arith;
      })
      (record {
        value = 6;
        weight = 3;
        counter = refl;
        priority = refl;
        weight_pos = omega arith;
        bound = omega arith;
      })
      (record {
        value = 1;
        weight = 1;
        counter = refl;
        priority = refl;
        weight_pos = omega arith;
        bound = omega arith;
      })

aged-InSlots : InSlots aged (requeued aged queued)
aged-InSlots =
    aged_elements (λ a. (j : ℕ) × (j < 64) × (aged.processes j ≡ a)) (1, omega arith, refl)
      (2, omega arith, refl) (3, omega arith, refl)

schedule_priority_aging-AgingRuns_example :
    Returns
      (AgingRuns aged (surviving aged.pcb (requeued aged queued)))
      (schedule_priority_aging 64 aged)
schedule_priority_aging-AgingRuns_example =
    schedule_priority_aging-AgingRuns 64 aged queued aged-Inv (omega arith) aged-InRange
      aged-InSlots (omega arith)
