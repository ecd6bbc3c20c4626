-- ===== src/Dispatcher.antt =====
-- libs/syscalls.c: `syscall_dispatcher`. What stands in user memory comes in as a record; what a call
-- writes there goes out as a list of addresses with their characters.
pub mod Casts
use demo_os.Base.{
  ℕ, zero, suc, ◌+◌, ◌-◌, ◌%◌, ◌^◌, Bool, true, false, ◌==◌, ltb, if◌then◌else◌, update, Option,
  none, some, ◌>>=◌, List, [], ◌∷◌, ◌++◌, length,
}
use demo_os.Base.Int.{ℤ, pos, negsuc, to_ℕ}
use demo_os.Process.{Ptr}
use demo_os.Kernel.{Kernel}
use demo_os.Console.{uart_hex}
use demo_os.Files.{FatLibrary, Files}
use demo_os.Files.Calls.{
  FatEntryInfo, syscall_create_dir, syscall_open_dir, syscall_open_file, syscall_close_file,
  syscall_write_file, syscall_read_file, syscall_get_next_entry,
}
use demo_os.Text.{Chars}
use demo_os.Files.Exec.{Stack, syscall_exec}
use demo_os.Input.{Line, Terminal, InputOutcome, syscall_input}
use demo_os.Ipc.{Outcome}
use demo_os.Syscalls.{
  syscall_malloc, syscall_exit, syscall_fork, syscall_yield, syscall_send_message,
  syscall_receive_message, syscall_send_signal, syscall_wait, syscall_set_sched_param,
}

-- SYSCALLS_NUMBER.
abbrev pub syscalls_number : ℕ
syscalls_number = 21

-- The conversion of a register to an int, and of an int to a register.
unfoldable pub to_int : ℕ → ℤ
to_int word =
    let low = word % 2 ^ 32 in if ltb low (2 ^ 31) then pos low else negsuc (2 ^ 32 - 1 - low)

unfoldable pub to_register : ℤ → ℕ
to_register (pos n) = n % 2 ^ 64
to_register (negsuc n) = 2 ^ 64 - 1 - n % 2 ^ 64

-- The numbers of common/syscalls_types.h.
pub data Call : Type 0 where
  write malloc exit create_dir open_dir open_file close_file write_file read_file yields input :
      Call
  get_next_entry fork send_message receive_message send_signal exec wait write_hex get_time
        set_sched_param :
      Call

abbrev pub numbered : List Call
numbered =
    Call.write ∷ Call.malloc ∷ Call.exit ∷ Call.create_dir ∷ Call.open_dir ∷ Call.open_file
    ∷ Call.close_file ∷ Call.write_file ∷ Call.read_file ∷ Call.yields ∷ Call.input
    ∷ Call.get_next_entry ∷ Call.fork ∷ Call.send_message ∷ Call.receive_message ∷ Call.send_signal
    ∷ Call.exec ∷ Call.wait ∷ Call.write_hex ∷ Call.get_time ∷ Call.set_sched_param ∷ []

abbrev pub call_at : List Call → ℕ → Option Call
call_at [] n = none
call_at (call ∷ calls) zero = some call
call_at (call ∷ calls) (suc n) = call_at calls n

-- The strings, buffers, entries and argument lists that user memory holds, and what the memory of a
-- new program holds before its arguments are written.
pub record UserMemory : Type 0 where
  pub string_at : ℕ → List ℕ
  pub buffer_at : ℕ → (len : ℕ) → List ℕ
  pub entry_at : ℕ → FatEntryInfo
  pub arguments_at : ℕ → (n_arguments : ℕ) → List (List ℕ)
  pub new_memory : Chars

-- The registers in the trap frame, the kernel with its files, the terminal and what was sent to it,
-- and a line that is being read.
pub record Machine (D : Type 0) : Type 0 where
  pub registers : ℕ → ℕ
  pub files : Files D
  pub terminal : Terminal
  pub sent : List ℕ
  pub line : Line

-- What a call leaves in user memory.
pub data Written : Type 0 where
  chars : (address : ℕ) → List ℕ → Written
  number : (address : ℕ) → ℕ → Written
  entry : (address : ℕ) → FatEntryInfo → Written
  stack : (user_memory : Chars) → Written

-- The end of a call: with the writes to user memory, or off the CPU, in the middle of it.
pub data Reply (D : Type 0) : Type 0 where
  replied : List Written → Machine D → Reply D
  suspended : Machine D → Reply D

abbrev pub with_kernel : {D : Type 0} → Machine D → Kernel → Machine D
with_kernel m k = record m { files = record m.files { kernel = k } }

abbrev pub with_files : {D : Type 0} → Machine D → Files D → Machine D
with_files m f = record m { files = f }

-- The result in the first register.
abbrev pub with_result : {D : Type 0} → ℤ → Machine D → Machine D
with_result r m = record m { registers = update m.registers 0 (to_register r) }

abbrev pub of_line : {D : Type 0} → Machine D → InputOutcome → Reply D
of_line m (InputOutcome.entered current_len line t k) =
    Reply.replied []
      (with_result (pos current_len) (record (with_kernel m k) { line = line; terminal = t }))
of_line m (InputOutcome.owned line t k) =
    Reply.suspended (record (with_kernel m k) { line = line; terminal = t })
of_line m (InputOutcome.waiting line t k) =
    Reply.suspended (record (with_kernel m k) { line = line; terminal = t })

abbrev pub of_code : {D : Type 0} → Machine D → Outcome ℤ → Reply D
of_code m (Outcome.returned code k) = Reply.replied [] (with_result code (with_kernel m k))
of_code m (Outcome.blocked k) = Reply.suspended (with_kernel m k)

abbrev pub of_message : {D : Type 0} → Machine D → (body : ℕ) → Outcome (List ℕ) → Reply D
of_message m body (Outcome.returned message k) =
    Reply.replied (Written.chars body message ∷ []) (with_kernel m k)
of_message m body (Outcome.blocked k) = Reply.suspended (with_kernel m k)

-- A result with the state of the files behind it.
abbrev pub of_files : {D : Type 0} → Machine D → List Written → ℤ → Files D → Reply D
of_files m written code f = Reply.replied written (with_result code (with_files m f))

-- The number of bytes, if it was written.
abbrev pub count_at : (address : ℕ) → Option ℕ → List Written
count_at address none = []
count_at address (some bytes) = Written.number address bytes ∷ []

abbrev pub of_exec : {D : Type 0} → Machine D → Option Stack → Files D → Reply D
of_exec m none f = Reply.replied [] (with_files m f)
of_exec m (some s) f =
    Reply.replied (Written.stack s.user_memory ∷ [])
      (record (with_files m f) { registers = s.trap_frame })

module _ {D : Type 0} (fat : FatLibrary D) (user : UserMemory) (ret_from_fork : ℕ) where
  -- One case of the switch.
  unfoldable pub run_call : Call → Machine D → Option (Reply D)
  run_call Call.write m =
      some (Reply.replied [] (record m { sent = m.sent ++ user.string_at (m.registers 0) }))
  run_call Call.write_hex m = some (
      Reply.replied []
        (record m { sent = m.sent ++ uart_hex (to_register (to_int (m.registers 0))) }))
  run_call Call.malloc m =
      let (address, k) = syscall_malloc m.files.kernel in
      some
        (Reply.replied [] (record (with_kernel m k) { registers = update m.registers 0 address }))
  run_call Call.exit m =
      syscall_exit m.files.kernel >>= λ k. some (Reply.suspended (with_kernel m k))
  run_call Call.create_dir m =
      syscall_create_dir fat (user.string_at (m.registers 0)) m.files >>= λ (code, f).
      some (of_files m [] code f)
  run_call Call.open_dir m =
      syscall_open_dir fat (user.string_at (m.registers 0)) m.files >>= λ (code, f).
      some (of_files m [] code f)
  run_call Call.open_file m =
      syscall_open_file fat (user.string_at (m.registers 0)) (m.registers 1 % 256) m.files
      >>= λ (code, f). some (of_files m [] code f)
  run_call Call.close_file m =
      syscall_close_file fat (to_int (m.registers 0)) m.files >>= λ (code, f).
      some (of_files m [] code f)
  run_call Call.write_file m =
      let len = to_ℕ (to_int (m.registers 2)) in
      syscall_write_file fat (to_int (m.registers 0)) (user.buffer_at (m.registers 1) len) m.files
      >>= λ (code, bytes, f). some (of_files m (count_at (m.registers 3) bytes) code f)
  run_call Call.read_file m =
      let len = to_ℕ (to_int (m.registers 2)) in
      syscall_read_file fat (to_int (m.registers 0)) len m.files >>= λ (code, bytes, f). some (
        of_files m
          (Written.chars (m.registers 1) bytes ∷ Written.number (m.registers 3) (length bytes) ∷ [])
          code f)
  run_call Call.yields m =
      syscall_yield m.files.kernel >>= λ k. some (Reply.suspended (with_kernel m k))
  run_call Call.input m =
      syscall_input (to_ℕ (to_int (m.registers 1))) m.line m.terminal m.files.kernel >>= λ o.
      some (of_line m o)
  run_call Call.get_next_entry m =
      syscall_get_next_entry fat (to_int (m.registers 0)) (user.entry_at (m.registers 1)) m.files
      >>= λ (code, info, f). some (of_files m (Written.entry (m.registers 1) info ∷ []) code f)
  run_call Call.fork m = syscall_fork ret_from_fork m.files.kernel >>= λ (pid, k).
      some (Reply.replied [] (with_result pid (with_kernel m k)))
  run_call Call.send_message m =
      syscall_send_message (to_int (m.registers 0)) (user.string_at (m.registers 1)) m.files.kernel
      >>= λ o. some (of_code m o)
  run_call Call.receive_message m =
      syscall_receive_message m.files.kernel >>= λ o. some (of_message m (m.registers 0) o)
  run_call Call.send_signal m =
      let (code, k) =
        syscall_send_signal (to_int (m.registers 0)) (to_ℕ (to_int (m.registers 1)))
          m.files.kernel in
      some (Reply.replied [] (with_result code (with_kernel m k)))
  run_call Call.exec m =
      let n_arguments = to_ℕ (to_int (m.registers 1)) in
      syscall_exec fat (user.string_at (m.registers 0)) m.registers
        (user.arguments_at (m.registers 2) n_arguments) user.new_memory m.files
      >>= λ (code, s, f). some (of_exec m s f)
  run_call Call.wait m =
      syscall_wait (to_int (m.registers 0)) m.files.kernel >>= λ o. some (of_code m o)
  run_call Call.get_time m =
      let k = m.files.kernel in
      some (
        Reply.replied [] (record (with_kernel m (record k { timer_reads = k.timer_reads + 1 })) {
          registers = update m.registers 0 (k.timer_clo k.timer_reads);
        }))
  run_call Call.set_sched_param m =
      let (code, k) =
        syscall_set_sched_param (to_int (m.registers 0)) (to_int (m.registers 1))
          (to_int (m.registers 2)) m.files.kernel in
      some (Reply.replied [] (with_result code (with_kernel m k)))

  -- The number of the call is in register 8.
  unfoldable pub syscall_dispatcher : Machine D → Option (Reply D)
  syscall_dispatcher m =
      let handled : Option (Reply D) = elim (call_at numbered (m.registers 8)) [
        | none ↦ some (Reply.replied [] m)
        | some call ↦ run_call call m
      ] in
      if ltb syscalls_number (m.registers 8) then some (Reply.replied [] m) else handled
