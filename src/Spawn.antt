-- ===== src/Spawn.antt =====
-- common/process_api.c (spawn_process), user/user.c (init_process_main), and app/run_all.c, which
-- starts benchmarks by it.
pub mod Configured
use demo_os.Base.{ℕ, zero, suc, ◌+◌, ◌*◌, if◌then◌else◌, update, List, []}
use demo_os.Base.Int.{ℤ, pos, negsuc, eqb_ℤ, ltb_ℤ}
use demo_os.Sched.Enqueue.{sched_param_priority, sched_param_tickets, sched_param_queue_priority}
use demo_os.UserCalls.{UserSyscalls, exec_returned, exec_replaced, codes}

-- How a function of a program ends: it returns a value, or the process has ended or runs another
-- program.
pub data ProgramResult (A W : Type 0) : Type 0 where
  returned : A → W → ProgramResult A W
  gone : W → ProgramResult A W

module _ {W : Type 0} (calls : UserSyscalls W) where
  -- `if (value >= 0) call_syscall_set_sched_param(pid, param, value)`.
  unfoldable pub configure : (pid : ℤ) → (param : ℤ) → (value : ℤ) → W → W
  configure pid param value w =
      let (_, w1) = calls.call_set_sched_param pid param value w in
      if ltb_ℤ value (pos 0) then w else w1

  -- The child: `exec` returns only where it fails.
  unfoldable pub spawned : (path : List ℕ) → W → ProgramResult ℤ W
  spawned path w = elim (calls.call_exec path [] w) [
    | exec_replaced w1 ↦ gone w1
    | exec_returned error w1 ↦
        if eqb_ℤ error (pos 0) then returned (pos 0) w1 else gone (calls.call_exit w1)
  ]

  unfoldable pub spawn_process :
      (path : List ℕ) → (priority tickets queue_priority : ℤ) → W → ProgramResult ℤ W
  spawn_process path priority tickets queue_priority w =
      let (pid, w1) = calls.call_fork w in
      let w2 = configure pid sched_param_priority priority w1 in
      let w3 = configure pid sched_param_tickets tickets w2 in
      let w4 = configure pid sched_param_queue_priority queue_priority w3 in
      if ltb_ℤ pid (pos 0)
      then returned (negsuc 0) w1
      else if eqb_ℤ pid (pos 0)
      then spawned path w1
      else returned pid w4

  -- The parent's branch ends by `exit`; the child returns where `exec` does so without an error.
  unfoldable pub init_process_main : W → ProgramResult (Unit {0}) W
  init_process_main w =
      let (pid, w1) = calls.call_fork w in
      let child : ProgramResult (Unit {0}) W =
        elim (calls.call_exec (codes "/bin/shell.bin") [] w1) [
          | exec_replaced w2 ↦ gone w2
          | exec_returned error w2 ↦
              if eqb_ℤ error (pos 0)
              then returned tt w2
              else gone (
                  calls.call_exit
                    (calls.call_write (codes "[INIT] Cannot start shell binary\n") w2))
        ] in
      let (_, w3) =
        calls.call_wait pid (calls.call_write (codes "[INIT] Init process started \n") w1) in
      if eqb_ℤ pid (pos 0) then child else gone (calls.call_exit w3)

  -- The creation loop of `run_all`, for the rounds from `i`; a PID that is not stored is what its cell
  -- held before.
  unfoldable pub spawn_all : (rounds i : ℕ) → (pids : ℕ → ℤ) → W → ProgramResult (ℕ → ℤ) W
  spawn_all zero i pids w = returned pids w
  spawn_all (suc rounds) i pids w =
      let path = codes "/bin/benchmark.bin" in
      elim (spawn_process path (pos (i + 1)) (pos ((i + 1) * 10)) (pos i) w) [
        | gone w1 ↦ gone w1
        | returned pid w1 ↦
            let failed = ltb_ℤ pid (pos 0) in
            let report =
              calls.call_write (codes "[RUN_ALL] Error: unable to start the binary!\n") w1 in
            spawn_all rounds (i + 1) (if failed then pids else update pids i pid)
              (if failed then report else w1)
      ]

  unfoldable pub wait_all : (rounds i : ℕ) → (pids : ℕ → ℤ) → W → W
  wait_all zero i pids w = w
  wait_all (suc rounds) i pids w =
      let (_, w1) = calls.call_wait (pids i) w in wait_all rounds (i + 1) pids w1

  -- NUM_PROCESSES is 4; the array of PIDs is not initialised.
  unfoldable pub run_all : (pids : ℕ → ℤ) → W → W
  run_all pids w =
      let started = calls.call_write (codes "[RUN_ALL] Starting multiple load test...\n") w in
      elim (spawn_all 4 0 pids started) [
        | gone w1 ↦ w1
        | returned pids1 w1 ↦
            let waiting =
              calls.call_write
                (codes "[RUN_ALL] All processes started. Waiting for completion...\n") w1 in
            let done =
              calls.call_write (codes "[RUN_ALL] Test completed! All processes have terminated.\n")
                (wait_all 4 0 pids1 waiting) in
            calls.call_exit done
      ]
