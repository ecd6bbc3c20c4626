-- ===== src/Examples/Programs.antt =====
-- Paths, command lines and a new process at concrete memories and kernels.
use demo_os.Base.{false, ◌+◌, ◌*◌, ◌≡◌, refl, arith, [], ◌∷◌, inl, Returns}
use demo_os.Base.Int.{pos, negsuc}
use demo_os.Kernel.{Algorithm, Kernel}
use demo_os.Syscalls.{search_slots, search_process, syscall_set_sched_param}
use demo_os.Text.{Chars, strsplit}
use demo_os.Text.Block.{store_text}
use demo_os.Text.Split.{Split, strsplit-Split}
use demo_os.UserCalls.{UserSyscalls, exec_returned, codes}
use demo_os.Shell.{Locals, Process}
use demo_os.Shell.Paths.{handle_cd}
use demo_os.Shell.Paths.Changing.{Placed, InDirectory, handle_cd-InDirectory}
use demo_os.Shell.Path.{normalize_path}
use demo_os.Shell.Path.Components.{up, name}
use demo_os.Shell.Path.Closing.{Normalized, normalize_path-Normalized}
use demo_os.Spawn.{spawn_process}
use demo_os.Spawn.Configured.{ReturnsPid, Configured, spawn_process-Configured}
use demo_os.Examples.States.{first, busy}

-- "/a/../b" at 100.
abbrev path_memory : Chars
path_memory = store_text 100 (codes "/a/../b") (λ _. 0)

normalize_path-Normalized_example :
    Returns (Normalized 100 7 (codes "/b") path_memory) (normalize_path 9 100 path_memory)
unfolding store_text
normalize_path-Normalized_example =
    normalize_path-Normalized 9 100 path_memory (name (97 ∷ []) ∷ up ∷ []) (name (98 ∷ []))
      (
        refl,
        omega arith,
        (
          refl,
          omega arith,
          (
            refl,
            omega arith,
            (
              refl,
              omega arith,
              (refl, omega arith, (refl, omega arith, (refl, omega arith, refl))),
            ),
          ),
        ),
      )
      ((omega arith, omega arith, omega arith), (tt, tt)) (omega arith, omega arith, omega arith) tt
      (omega arith)

-- "cd a" at 100.
abbrev line_memory : Chars
line_memory = store_text 100 (codes "cd a") (λ _. 0)

strsplit-Split_example :
    Returns
      (Split 200 300 (codes "cd") (codes "a") line_memory)
      (strsplit 5 100 32 200 300 line_memory)
unfolding store_text
strsplit-Split_example =
    strsplit-Split 5 100 32 200 300 line_memory (codes "cd") (codes "a")
      (refl, omega arith, (refl, omega arith, (refl, omega arith, (refl, omega arith, refl)))) refl
      ((refl, omega arith), ((refl, omega arith), tt)) (refl, tt) (inl (omega arith))
      (inl (omega arith)) (inl (omega arith)) (omega arith)

-- A program that runs in the kernel as the parent of the first process.
abbrev forking : UserSyscalls Kernel
forking = record {
  call_write = λ buffer k. k;
  call_write_hex = λ number k. k;
  call_input = λ len k. ([], k);
  call_create_dir = λ path k. (negsuc 0, k);
  call_open_dir = λ path k. (negsuc 0, k);
  call_open_file = λ path flags k. (negsuc 0, k);
  call_close_file = λ fd k. (negsuc 0, k);
  call_write_file = λ fd bytes k. (negsuc 0, k);
  call_read_file = λ fd len k. (negsuc 0, [], k);
  call_get_next_entry = λ fd k. (negsuc 0, record { name = []; is_dir = false }, k);
  call_exit = λ k. k;
  call_fork = λ k. (pos 1, k);
  call_exec = λ path arguments k. exec_returned (negsuc 0) k;
  call_wait = λ pid k. (negsuc 0, k);
  call_set_sched_param = syscall_set_sched_param;
}

-- The priority becomes 5, and the 20 tickets stay.
first_found : search_process (pos 1) (busy Algorithm.lottery) ≡ first
unfolding search_process search_slots
first_found = refl

spawn_process-Configured_example :
    ReturnsPid
      (pos 1)
      (Configured first (pos 5) (pos 20) (busy Algorithm.lottery))
      (spawn_process forking [] (pos 5) (negsuc 0) (pos 1) (busy Algorithm.lottery))
spawn_process-Configured_example =
    spawn_process-Configured forking (λ pid param value k. refl) (pos 1) first refl [] (pos 5)
      (negsuc 0) (pos 1) (busy Algorithm.lottery) (busy Algorithm.lottery) refl refl first_found

-- The line "cd /a" at 100, in the directory "/" at 0.
abbrev cd_process : Process Kernel
cd_process = record {
  mem = store_text 100 (codes "cd /a") (store_text 0 (codes "/") (λ _. 0));
  world = busy Algorithm.fcfs;
}

abbrev spread : Locals
spread = record {
  working_directory = 0;
  buffer = 100;
  command = 200;
  target = 300;
  full_path = 400;
  file_name = 500;
  file_content = 600;
  arguments_raw = 900;
  arguments = 1000;
  argument_temp = 1300;
  info_name = λ depth. 2000 + 200 * depth;
  child_path = λ depth. 2100 + 200 * depth;
}

spread-Placed : Placed spread
spread-Placed = record {
  buffer_command = inl (omega arith);
  buffer_target = inl (omega arith);
  buffer_path = inl (omega arith);
  directory_command = inl (omega arith);
  directory_target = inl (omega arith);
  directory_path = inl (omega arith);
  command_target = inl (omega arith);
  target_path = inl (omega arith);
}

-- No directory can be opened, so the working directory stays.
handle_cd-InDirectory_example :
    Returns (InDirectory spread (codes "/")) (handle_cd forking 65 spread cd_process)
unfolding store_text
handle_cd-InDirectory_example =
    handle_cd-InDirectory forking 65 spread cd_process (codes "cd") 47 (97 ∷ [])
      (name (97 ∷ []) ∷ []) (codes "/") spread-Placed
      (
        refl,
        omega arith,
        (refl, omega arith, (refl, omega arith, (refl, omega arith, (refl, omega arith, refl)))),
      )
      ((refl, omega arith), ((refl, omega arith), tt)) (refl, (refl, tt)) (omega arith)
      (omega arith) refl ((omega arith, omega arith, omega arith), tt) tt (refl, omega arith, refl)
      (omega arith) (omega arith)
