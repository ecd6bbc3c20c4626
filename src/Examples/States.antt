-- ===== src/Examples/States.antt =====
-- A kernel with two READY processes in the shared queue and a RUNNING one.
use demo_os.Base.{◌*◌, List, [], ◌∷◌, update, arith, refl}
use demo_os.Base.Int.{pos}
use demo_os.Process.{Ptr, null, init_process, Pcb, State, Store, zero_pcb, init_pcb}
use demo_os.Queue.{ProcessQueue}
use demo_os.Queue.Chain.{IsQueue}
use demo_os.Kernel.{Algorithm, Kernel, boot}
use demo_os.Sched.Invariant.{Inv}

-- Two queued processes, `first` with the shorter estimate, and one that has the CPU.
abbrev pub first : Ptr
first = 0xffff000000401000

abbrev pub second : Ptr
second = 0xffff000000402000

abbrev pub third : Ptr
third = 0xffff000000403000

abbrev pub first_pcb : Pcb
first_pcb = record zero_pcb {
  pid = 1;
  state = State.ready;
  est_burst = 3;
  tickets = pos 20;
  counter = pos 4;
  priority = pos 2;
  next_ready = second;
  preempt_disabled = pos 1;
}

abbrev pub second_pcb : Pcb
second_pcb = record zero_pcb {
  pid = 2;
  state = State.ready;
  est_burst = 7;
  tickets = pos 30;
  counter = pos 6;
  priority = pos 1;
  preempt_disabled = pos 1;
}

abbrev pub third_pcb : Pcb
third_pcb = record zero_pcb {
  pid = 3;
  state = State.running;
  est_burst = 5;
  tickets = pos 10;
  counter = pos 1;
  priority = pos 1;
}

abbrev pub store : Store
store =
    update
      (update (update (update (λ _. zero_pcb) init_process init_pcb) first first_pcb) second
        second_pcb)
      third third_pcb

abbrev pub queue : ProcessQueue
queue = record { head = first; tail = second }

abbrev pub queued : List Ptr
queued = first ∷ second ∷ []

abbrev pub busy : Algorithm → Kernel
busy algorithm = record (boot algorithm (λ n. 1000 * n)) {
  pcb = store;
  current_process = third;
  processes = update (update (update (update (λ _. null) 0 init_process) 1 first) 2 second) 3 third;
  n_processes = 4;
  ready_queue = queue;
}

pub queue-IsQueue : IsQueue store queue queued
queue-IsQueue = record {
  chain = (refl, ground arith, (refl, ground arith, refl));
  tail = refl;
  distinct = (refl, (refl, tt));
}

pub busy-Inv : (algorithm : Algorithm) → Inv (busy algorithm) queued
busy-Inv algorithm = record {
  queue = queue-IsQueue;
  ready = λ a m. ground arith;
  complete = λ a e ne. ground arith;
  running = λ a e. ground arith;
  idle_out = refl;
  current_ne = ground arith;
}

-- A process that waits for the end of the third one.
abbrev pub fourth : Ptr
fourth = 0xffff000000404000

abbrev pub waiting : Kernel
waiting = record (busy Algorithm.fcfs) {
  pcb =
      update store fourth
        (record zero_pcb { pid = 4; state = State.waiting_another_process; pid_to_wait = pos 3 });
  processes = update (busy Algorithm.fcfs).processes 4 fourth;
  n_processes = 5;
}

pub waiting-Inv : Inv waiting queued
waiting-Inv = record {
  queue = record {
    chain = (refl, ground arith, (refl, ground arith, refl));
    tail = refl;
    distinct = (refl, (refl, tt));
  };
  ready = λ a m. ground arith;
  complete = λ a e ne. ground arith;
  running = λ a e. ground arith;
  idle_out = refl;
  current_ne = ground arith;
}
