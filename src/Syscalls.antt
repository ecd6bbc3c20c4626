-- ===== src/Syscalls.antt =====
-- libs/syscalls.c: the system calls on processes, messages, signals and pages, and the descriptors
-- of open files. The handlers of file operations go to the FAT library and are not here.
pub mod Search
pub mod Descriptors
use demo_os.Base.{
  ℕ, zero, suc, ◌+◌, ◌^◌, ◌-◌, Bool, true, false, not, ◌&&◌, ◌==◌, if◌then◌else◌, Option, none,
  some, List, [], ◌∷◌, ◌>>=◌,
}
use demo_os.Base.Int.{ℤ, pos, negsuc, eqb_ℤ}
use demo_os.Process.{Ptr, null, n_processes_max, Pcb, State, is_zombie}
use demo_os.Kernel.{Kernel, set_pcb}
use demo_os.Memory.{allocate_kernel_page}
use demo_os.Fork.{copy_process}
use demo_os.Sched.Enqueue.{sched_set_param}
use demo_os.Sched.Dispatch.{schedule, exit_process}
use demo_os.Ipc.{Outcome, returned, blocked, send_message, receive_message, send_signal}

-- The slots `i` to `i + n` of the search: a pointer, and NULL if no process has the PID.
unfoldable pub search_slots : ℕ → ℕ → ℤ → Kernel → Ptr
search_slots zero i pid k = null
search_slots (suc n) i pid k =
    elim (not (k.processes i == null) && eqb_ℤ (pos (k.pcb (k.processes i)).pid) pid) [
      | true ↦ k.processes i
      | false ↦ search_slots n (i + 1) pid k
    ]

unfoldable pub search_process : ℤ → Kernel → Ptr
search_process pid k = search_slots n_processes_max 0 pid k

-- The descriptors from `i` on.
unfoldable pub first_free_slot : ℕ → List Ptr → ℤ
first_free_slot i [] = negsuc 0
first_free_slot i (file ∷ files) = elim (file == null) [
  | true ↦ pos i
  | false ↦ first_free_slot (i + 1) files
]

unfoldable pub get_first_free_file_descriptor : Ptr → Kernel → ℤ
get_first_free_file_descriptor process k = first_free_slot 0 (k.pcb process).files

-- The address, or -1 as an unsigned number.
unfoldable pub syscall_malloc : Kernel → ℕ × Kernel
syscall_malloc k =
    let (address, k1) = allocate_kernel_page k in
    if address == 0 then (2 ^ 64 - 1, k1) else (address, k1)

unfoldable pub syscall_exit : Kernel → Option Kernel
syscall_exit k = exit_process k

unfoldable pub syscall_clone : ℕ → Kernel → Option (ℤ × Kernel)
syscall_clone ret_from_fork k = copy_process ret_from_fork 0 0 0 k

unfoldable pub syscall_fork : ℕ → Kernel → Option (ℤ × Kernel)
syscall_fork ret_from_fork k = copy_process ret_from_fork 0 0 0 k

unfoldable pub syscall_yield : Kernel → Option Kernel
syscall_yield k =
    let c = k.pcb k.current_process in
    schedule (set_pcb k k.current_process (record c { counter = pos 0 }))

unfoldable pub syscall_send_message : ℤ → List ℕ → Kernel → Option (Outcome ℤ)
syscall_send_message destination_pid body k =
    let destination_process = search_process destination_pid k in
    let sent = send_message k.current_process destination_process body k in
    if destination_process == null then some (Outcome.returned (negsuc 0) k) else sent

unfoldable pub syscall_receive_message : Kernel → Option (Outcome (List ℕ))
syscall_receive_message k = receive_message k.current_process k

unfoldable pub syscall_send_signal : ℤ → ℕ → Kernel → ℤ × Kernel
syscall_send_signal destination_pid signal_flag k =
    let destination_process = search_process destination_pid k in
    if destination_process == null
    then (negsuc 0, k)
    else send_signal destination_process signal_flag k

-- The caller is off the CPU in the second outcome, and returns 0 once it runs again.
unfoldable pub syscall_wait : ℤ → Kernel → Option (Outcome ℤ)
syscall_wait pid k =
    let destination_process = search_process pid k in
    let c = k.pcb k.current_process in
    let waiting = record c { state = State.waiting_another_process; pid_to_wait = pid } in
    let wait = schedule (set_pcb k k.current_process waiting) in
    if destination_process == null
    then some (Outcome.returned (negsuc 0) k)
    else if is_zombie (k.pcb destination_process).state
    then some (Outcome.returned (pos 0) k)
    else (wait >>= λ k1. some (Outcome.blocked k1))

unfoldable pub syscall_set_sched_param : (pid param value : ℤ) → Kernel → ℤ × Kernel
syscall_set_sched_param pid param value k =
    let destination_process = search_process pid k in
    if destination_process == null
    then (negsuc 0, k)
    else sched_set_param destination_process param value k
