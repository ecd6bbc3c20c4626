-- ===== src/Fork.antt =====
-- libs/fork.c: the creation of a process and the change to user mode. The saved registers of a
-- process (`struct pt_regs`, 34 words) stand at the end of the page that holds its PCB; they are
-- words of the memory. `ret_from_fork` is a label of the assembly code.
use demo_os.Base.{
  ℕ, zero, suc, ◌+◌, ◌-◌, ◌*◌, ◌/◌, ◌%◌, ◌&&◌, ◌||◌, ◌==◌, ltb, leb, if◌then◌else◌, Option, some,
  replicate, ◌>>=◌,
}
use demo_os.Base.Int.{ℤ, pos, negsuc, ltb_ℤ}
use demo_os.Process.{Ptr, Pcb, State, n_processes_max, max_files_per_process, null}
use demo_os.Kernel.{Kernel, set_pcb, preempt_enable, preempt_disable}
use demo_os.Memory.{va_start, page_size, write_word, allocate_kernel_page, allocate_user_page}
use demo_os.Memory.Virtual.{copy_virtual_memory}
use demo_os.Sched.Enqueue.{add_process_to_scheduler}

abbrev pub pt_regs_size : ℕ
pt_regs_size = 34 * 8

abbrev pub pf_kthread : ℕ
pf_kthread = 2

-- The physical address of the saved registers.
abbrev pub task_pt_regs : Ptr → ℕ
task_pt_regs process = process + 4096 - pt_regs_size - va_start

-- `memzero` of the registers at an address.
abbrev pub zero_registers : ℕ → Kernel → Kernel
zero_registers registers k = record k {
  memory = record k.memory {
    ram = λ a. if leb registers a && ltb a (registers + pt_regs_size) then 0 else k.memory.ram a;
  };
}

-- `*destination = *source`.
abbrev pub copy_registers : (destination source : ℕ) → Kernel → Kernel
copy_registers destination source k = record k {
  memory = record k.memory {
    ram = λ a.
        if leb destination a && ltb a (destination + pt_regs_size)
        then k.memory.ram (source + (a - destination))
        else k.memory.ram a;
  };
}

-- The cleared fields of a new PCB.
abbrev pub clear_pcb : Ptr → Kernel → Kernel
clear_pcb process k = set_pcb k process (record (k.pcb process) {
  cpu_context = record { x19 = 0; x20 = 0; sp = 0; pc = 0 };
  files = replicate max_files_per_process null;
})

-- A kernel thread starts with a function; another process is a copy of the current one. The result
-- of the copy is not looked at.
unfoldable pub copy_execution : (clone_flags function argument : ℕ) → Ptr → Kernel → Option Kernel
copy_execution clone_flags function argument new_process k =
    let c = k.pcb new_process in
    let child_registers = task_pt_regs new_process in
    let k1 = copy_registers child_registers (task_pt_regs k.current_process) k in
    let copied = copy_virtual_memory new_process (write_word child_registers 0 k1) in
    if (clone_flags / pf_kthread) % 2 == 1
    then some (
        set_pcb k new_process
          (record c { cpu_context = record c.cpu_context { x19 = function; x20 = argument } }))
    else (copied >>= λ (_, k2). some k2)

-- The PCB that the child starts with.
abbrev pub inherit : (ret_from_fork clone_flags process_id : ℕ) → Ptr → Pcb → Pcb → Pcb
inherit ret_from_fork clone_flags process_id new_process parent c = record c {
  flags = clone_flags;
  priority = parent.priority;
  state = State.ready;
  counter = pos 10;
  est_burst = parent.est_burst;
  burst_ticks = 0;
  queue_priority = parent.queue_priority;
  tickets = parent.tickets;
  preempt_disabled = pos 1;
  pid = process_id;
  cpu_context = record c.cpu_context {
    pc = ret_from_fork;
    sp = task_pt_regs new_process + va_start;
  };
}

-- The two returns of -1 leave the preemption of the current process disabled.
unfoldable pub copy_process :
    (ret_from_fork clone_flags function argument : ℕ) → Kernel → Option (ℤ × Kernel)
copy_process ret_from_fork clone_flags function argument k =
    let (new_process, k1) = allocate_kernel_page (preempt_disable k) in
    let created = (do
      k2 ←
          copy_execution clone_flags function argument new_process
            (clear_pcb new_process (zero_registers (task_pt_regs new_process) k1))
      let process_id = k2.n_processes
      let child =
          inherit ret_from_fork clone_flags process_id new_process (k2.pcb k2.current_process)
            (k2.pcb new_process)
      (code, k3) ← add_process_to_scheduler new_process (set_pcb k2 new_process child)
      if ltb_ℤ code (pos 0)
          then some (negsuc 0, k3)
          else some (pos process_id, preempt_enable k3)) in
    if (new_process == null) || leb n_processes_max k1.n_processes
    then some (negsuc 0, k1)
    else created

-- The copy of `n` bytes of the code into a page; bytes are words of the model at byte addresses, and
-- the source stands in kernel memory.
abbrev pub copy_bytes : (destination source n : ℕ) → Kernel → Kernel
copy_bytes destination source n k = record k {
  memory = record k.memory {
    ram = λ a.
        if leb destination a && ltb a (destination + n)
        then k.memory.ram (source + (a - destination))
        else k.memory.ram a;
  };
}

-- The pages `i` to `i + n` of the loop of `copy_code`.
unfoldable pub copy_code_pages :
    ℕ → ℕ → Ptr → (buffer size copied_bytes : ℕ) → Kernel → Option Kernel
copy_code_pages zero i process buffer size copied_bytes k = some k
copy_code_pages (suc n) i process buffer size copied_bytes k =
    allocate_user_page process (i * page_size) k >>= λ (address, k1).
    let bytes_to_copy =
      if ltb page_size (size - copied_bytes) then page_size else size - copied_bytes in
    let copied =
      copy_code_pages n (i + 1) process buffer size (copied_bytes + bytes_to_copy)
        (copy_bytes (address - va_start) (buffer + copied_bytes - va_start) bytes_to_copy k1) in
    let rest = copy_code_pages n (i + 1) process buffer size copied_bytes k1 in
    if ltb copied_bytes size then copied else rest

unfoldable pub copy_code : Ptr → (buffer size : ℕ) → Kernel → Option Kernel
copy_code process buffer size k = copy_code_pages 16 0 process buffer size 0 k

-- PSR_MODE_EL0t.
abbrev pub psr_mode_el0t : ℕ
psr_mode_el0t = 0

-- `set_pgd` installs the translation table of the process.
unfoldable pub move_to_user_mode : (start size pc : ℕ) → Kernel → Option (ℤ × Kernel)
move_to_user_mode start size pc k =
    let registers = task_pt_regs k.current_process in
    let k1 = write_word (registers + 33 * 8) psr_mode_el0t (zero_registers registers k) in
    let k2 = write_word (registers + 32 * 8) pc k1 in
    let k3 = write_word (registers + 31 * 8) (16 * page_size) k2 in
    copy_code k.current_process start size k3 >>= λ k4.
    some (pos 0, record k4 { active_pgd = (k4.pcb k4.current_process).mm.pgd })
