-- ===== src/Examples/Dispatcher.antt =====
-- The tick, the wake-up and the parameters at concrete kernels.
use demo_os.Base.{zero, suc, [], refl, arith, Returns, update}
use demo_os.Base.Int.{pos}
use demo_os.Process.{State}
use demo_os.Sched.Invariant.{Inv}
use demo_os.Kernel.{Algorithm, Kernel}
use demo_os.Sched.Dispatch.{handle_timer_tick, wake_waiters}
use demo_os.Sched.Dispatch.Tick.{Stays, handle_timer_tick-Stays}
use demo_os.Sched.Dispatch.Wake.{Woke, wake_waiters-Woke}
use demo_os.Sched.Dispatch.{schedule}
use demo_os.Sched.Dispatch.Switch.{Accounted, handle_timer_tick-switches, schedule-RunsFirst}
use demo_os.Sched.Pick.Drain.{survivors}
use demo_os.Sched.Pick.RoundRobin.{RunsFirst}
use demo_os.Sched.Steps.{requeued}
use demo_os.Sched.Multilevel.{boost_queue}
use demo_os.Sched.Multilevel.Boost.{Levels, boost_queue-Levels}
use demo_os.Sched.Aging.{new_epoch}
use demo_os.Sched.Aging.Epoch.{ListedInRange, Recharged, new_epoch-Recharged}
use demo_os.Queue.{empty_queue}
use demo_os.Syscalls.Descriptors.{FreeSlot, get_first_free_file_descriptor-FreeSlot}
use demo_os.Syscalls.{get_first_free_file_descriptor, search_process}
use demo_os.Syscalls.Search.{Found, search_process-Found}
use demo_os.Examples.States.{
  first, second, second_pcb, third, third_pcb, store, queue, queued, queue-IsQueue, busy, busy-Inv,
  waiting, waiting-Inv,
}

-- The third process is at the end of its slice, but FCFS does not preempt.
handle_timer_tick-Stays_example :
    Returns (Stays (busy Algorithm.fcfs)) (handle_timer_tick (busy Algorithm.fcfs))
handle_timer_tick-Stays_example = handle_timer_tick-Stays (busy Algorithm.fcfs) refl refl

-- The fourth process waits for the end of the third one.
wake_waiters-Woke_example : Returns (Woke 3 64 0 waiting) (wake_waiters 64 3 0 waiting)
wake_waiters-Woke_example = wake_waiters-Woke 64 3 0 waiting queued waiting-Inv refl refl

search_process-Found_example :
    Found 64 0 (pos 2) (busy Algorithm.mlq) (search_process (pos 2) (busy Algorithm.mlq))
search_process-Found_example = search_process-Found (pos 2) (busy Algorithm.mlq)

handle_timer_tick-switches_example :
    Returns
      (RunsFirst 10 (survivors store (requeued (busy Algorithm.round_robin) queued)))
      (handle_timer_tick (busy Algorithm.round_robin))
handle_timer_tick-switches_example =
    handle_timer_tick-switches (busy Algorithm.round_robin) queued (busy-Inv Algorithm.round_robin)
      (omega arith) refl refl refl

-- The third process waits for input.
abbrev reading : Kernel
reading = record (busy Algorithm.round_robin) {
  pcb = update store third (record third_pcb { state = State.waiting_uart_input; burst_ticks = 4 });
}

reading-Inv : Inv reading queued
reading-Inv = record {
  queue = record {
    chain = (refl, ground arith, (refl, ground arith, refl));
    tail = refl;
    distinct = (refl, (refl, tt));
  };
  ready = λ a m. ground arith;
  complete = λ a e ne. ground arith;
  running = λ a e. ground arith;
  idle_out = refl;
  current_ne = ground arith;
}

schedule-RunsFirst_example :
    Returns
      (λ k'.
        RunsFirst 10 (survivors reading.pcb (requeued reading queued)) k' × Accounted reading k')
      (schedule reading)
schedule-RunsFirst_example = schedule-RunsFirst reading queued reading-Inv (omega arith) refl

-- The two queued processes stand in level 2.
abbrev levels : Kernel
levels = record (busy Algorithm.mlfq) { ml_queues = update (λ _. empty_queue) 2 queue }

levels-Levels : Levels 2 [] queued levels
levels-Levels = record {
  top = record { chain = refl; tail = refl; distinct = tt };
  low = queue-IsQueue;
  distinct = (refl, (refl, tt));
  idle_out = refl;
}

boost_queue-Levels_example : Returns (Levels 2 queued []) (boost_queue 65 2 levels)
boost_queue-Levels_example =
    boost_queue-Levels 65 2 [] queued levels (omega arith) levels-Levels (omega arith)

-- The idle task and three processes, of which the second has two ticks left; the other slots are
-- NULL.
abbrev epoch : Kernel
epoch = record (busy Algorithm.priority_aging) {
  pcb = update store second (record second_pcb { counter = pos 2 });
}

epoch-ListedInRange : ListedInRange epoch.processes epoch.pcb
epoch-ListedInRange zero hi ne = record {
  value = 1;
  weight = 1;
  counter = refl;
  priority = refl;
  weight_pos = omega arith;
  bound = omega arith;
}
epoch-ListedInRange (suc zero) hi ne = record {
  value = 4;
  weight = 2;
  counter = refl;
  priority = refl;
  weight_pos = omega arith;
  bound = omega arith;
}
epoch-ListedInRange (suc (suc zero)) hi ne = record {
  value = 2;
  weight = 1;
  counter = refl;
  priority = refl;
  weight_pos = omega arith;
  bound = omega arith;
}
epoch-ListedInRange (suc (suc (suc zero))) hi ne = record {
  value = 1;
  weight = 1;
  counter = refl;
  priority = refl;
  weight_pos = omega arith;
  bound = omega arith;
}
epoch-ListedInRange (suc (suc (suc (suc n)))) hi ne = absurd (ne (ground arith))

new_epoch-Recharged_example : Recharged 64 0 epoch.processes epoch.pcb (new_epoch epoch).pcb
new_epoch-Recharged_example = new_epoch-Recharged epoch epoch-ListedInRange

get_first_free_file_descriptor-FreeSlot_example :
    FreeSlot 0 (store first).files (get_first_free_file_descriptor first (busy Algorithm.sjf))
get_first_free_file_descriptor-FreeSlot_example =
    get_first_free_file_descriptor-FreeSlot first (busy Algorithm.sjf)
