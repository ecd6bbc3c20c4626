-- ===== src/Files/Exec.antt =====
-- libs/syscalls.c: `syscall_exec`, which replaces the program of the current process by one from a
-- file. The user memory is seen by virtual addresses when the strings are written to it.
pub mod Arguments
use demo_os.Base.{
  ℕ, zero, suc, ◌+◌, ◌-◌, ◌*◌, Bool, true, false, not, ◌&&◌, ◌||◌, ◌==◌, ltb, leb, if◌then◌else◌,
  update, Option, none, some, ◌>>=◌, List, [], ◌∷◌, length, set, get_or,
}
use demo_os.Base.Int.{ℤ, pos, negsuc, eqb_ℤ}
use demo_os.Process.{Ptr, null, Pcb}
use demo_os.Kernel.{Kernel, set_pcb}
use demo_os.Memory.{va_start, page_size, allocate_kernel_page, free_page}
use demo_os.Memory.Virtual.{no_page}
use demo_os.Text.{Chars}
use demo_os.Text.Block.{store_text}
use demo_os.Fork.{copy_code}
use demo_os.Files.{FatLibrary, Files}
use demo_os.Files.Calls.{syscall_open_file, syscall_read_file, syscall_close_file}

-- SYSCALL_EXEC_ARGUMENT_DIMENSION and FAT_READ.
abbrev pub syscall_exec_argument_dimension : ℕ
syscall_exec_argument_dimension = 64

abbrev pub fat_read : ℕ
fat_read = 2

-- The copies of the arguments in the kernel: each has a cell of 64 characters, with a zero.
unfoldable pub save_arguments : (arguments : List (List ℕ)) → Option (List (List ℕ))
save_arguments [] = some []
save_arguments (argument ∷ arguments) = do
  safe_arguments ← save_arguments arguments
  if ltb (length argument) syscall_exec_argument_dimension
      then some (argument ∷ safe_arguments)
      else none

-- The release of the user pages `i` to `i + n` of the current process.
unfoldable pub release_user_pages : (n i : ℕ) → Kernel → Option Kernel
release_user_pages zero i k = some k
release_user_pages (suc n) i k = do
  let mm = (k.pcb k.current_process).mm
  (_, k1) ← free_page ((get_or mm.user_pages i no_page).physical_address + va_start) k
  let c = k1.pcb k1.current_process
  let k2 = set_pcb k1 k1.current_process (record c {
    mm = record c.mm {
      n_user_pages = c.mm.n_user_pages - 1;
      user_pages = set c.mm.user_pages i no_page;
    };
  })
  release_user_pages n (i + 1) k2

-- The bytes that were read, in the page of the buffer.
abbrev pub fill_buffer : (buffer : Ptr) → (bytes : List ℕ) → Kernel → Kernel
fill_buffer buffer bytes k = record k {
  memory = record k.memory {
    ram = λ a.
        if leb (buffer - va_start) a && ltb a (buffer - va_start + length bytes)
        then get_or bytes (a - (buffer - va_start)) 0
        else k.memory.ram a;
  };
}

-- The trap frame by index, the stack pointer, and the characters of the user memory.
pub record Stack : Type 0 where
  pub trap_frame : ℕ → ℕ
  pub stack_pointer : ℕ
  pub user_memory : Chars

-- The arguments from number `i` on go to the stack of the new program: `strcpy` writes each one
-- with its zero upwards from the new stack pointer, however long it is.
unfoldable pub push_arguments : (i : ℕ) → (safe_arguments : List (List ℕ)) → Stack → Stack
push_arguments i [] s = s
push_arguments i (argument ∷ arguments) s =
    let stack_pointer = s.stack_pointer - syscall_exec_argument_dimension in
    push_arguments (i + 1) arguments (record s {
      stack_pointer = stack_pointer;
      user_memory = store_text stack_pointer argument s.user_memory;
      trap_frame = update s.trap_frame (i + 1) stack_pointer;
    })

-- The start of the new program: all registers that the call sets.
unfoldable pub start_program :
    (arguments : List (List ℕ))
    → (trap_frame : ℕ → ℕ) → (user_memory : Chars) → Kernel
    → Stack × Kernel
start_program arguments trap_frame user_memory k =
    let s = push_arguments 0 arguments (record {
      trap_frame = update trap_frame 0 (length arguments);
      stack_pointer = 16 * page_size;
      user_memory = user_memory;
    }) in
    let c = k.pcb k.current_process in
    let k1 =
      set_pcb k k.current_process
        (record c { cpu_context = record c.cpu_context { pc = 0; sp = s.stack_pointer } }) in
    (record s { trap_frame = update (update s.trap_frame 31 s.stack_pointer) 32 0 }, k1)

-- The return code, what stands in the trap frame and on the stack, and the state. The read asks for
-- up to 16 pages, but the buffer is one page: more bytes than that are written behind it.
-- `user_memory` is what the new user memory holds before the strings.
unfoldable pub syscall_exec :
    {D : Type 0} (fat : FatLibrary D) (path : List ℕ) (trap_frame : ℕ → ℕ)
    (arguments : List (List ℕ)) (user_memory : Chars)
    → Files D
    → Option (ℤ × Option Stack × Files D)
syscall_exec fat path trap_frame arguments user_memory f = do
  (fd, f1) ← syscall_open_file fat path fat_read f
  let (buffer, k2) = allocate_kernel_page f1.kernel
  let loaded = (do
    (_, bytes, f3) ← syscall_read_file fat fd (page_size * 16) (record f1 { kernel = k2 })
    f4 ←
        if (buffer == null) || ltb page_size (length bytes)
        then none
        else some (record f3 { kernel = fill_buffer buffer bytes f3.kernel })
    (_, f5) ← syscall_close_file fat fd f4
    let replaced = (do
      safe_arguments ← save_arguments arguments
      k6 ← release_user_pages (f5.kernel.pcb f5.kernel.current_process).mm.n_user_pages 0 f5.kernel
      k7 ← copy_code k6.current_process buffer (length bytes) k6
      let (s, k8) = start_program safe_arguments trap_frame user_memory k7
      some (pos 0, some s, record f5 { kernel = k8 }))
    if ltb (page_size * 15) (length bytes) then some (negsuc 0, none, f5) else replaced)
  if eqb_ℤ fd (negsuc 0) then some (negsuc 0, none, f1) else loaded
