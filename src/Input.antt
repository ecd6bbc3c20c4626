-- ===== src/Input.antt =====
-- libs/syscalls.c: `syscall_input`, the reading of a line from the receive ring of the UART, with the
-- echo of each character. A turn of the call ends where it calls `schedule`: there the process is off
-- the CPU, and the next turn begins at the test that it was in.
pub mod Edited
pub mod Editing
use demo_os.Base.{
  ℕ, zero, suc, ◌+◌, ◌-◌, Bool, true, false, not, ◌&&◌, ◌||◌, ◌==◌, ltb, if◌then◌else◌, update,
  Option, none, some, ◌>>=◌, List, [], ◌∷◌, ◌++◌,
}
use demo_os.Process.{Ptr, null, State}
use demo_os.Kernel.{Kernel, set_pcb}
use demo_os.Console.{Uart, take_char, uart_buffer_size}
use demo_os.Sched.Dispatch.{schedule}

-- The buffer of the caller, the characters in it, and what was echoed.
pub record Line : Type 0 where
  pub buffer : ℕ → ℕ
  pub current_len : ℕ
  pub echo : List ℕ

-- '\\r', '\\n' and 0x7F.
abbrev pub is_enter : ℕ → Bool
is_enter c = (c == 13) || (c == 10)

abbrev pub backspace : ℕ
backspace = 127

-- "\\b \\b".
abbrev pub erase_sequence : List ℕ
erase_sequence = 8 ∷ 32 ∷ 8 ∷ []

-- The room of a buffer of `len` characters, without the terminating zero.
abbrev pub max_length : ℕ → ℕ
max_length len = if ltb 0 len then len - 1 else 0

-- A character other than the enter.
unfoldable pub type_char : (max_len c : ℕ) → Line → Line
type_char max_len c line =
    let echoed = record line { echo = line.echo ++ (c ∷ []) } in
    if c == backspace
    then if ltb 0 line.current_len
      then record echoed {
        echo = echoed.echo ++ erase_sequence;
        current_len = line.current_len - 1;
        buffer = update line.buffer (line.current_len - 1) 0;
      }
      else echoed
    else if ltb line.current_len max_len
    then record echoed {
      current_len = line.current_len + 1;
      buffer = update (update line.buffer line.current_len c) (line.current_len + 1) 0;
    }
    else echoed

-- The enter that ends the line.
unfoldable pub end_line : (c : ℕ) → Line → Line
end_line c line = record line {
  echo = line.echo ++ (c ∷ []);
  buffer = update line.buffer line.current_len 0;
}

-- The loop on the characters of the ring, with a fuel: whether the line has ended.
unfoldable pub drain_ring : ℕ → (max_len : ℕ) → Uart → Line → Option (Bool × Uart × Line)
drain_ring zero max_len u line = none
drain_ring (suc fuel) max_len u line = elim (take_char u) [
  | none ↦ some (false, u, line)
  | some (c, u1) ↦
      let rest = drain_ring fuel max_len u1 (type_char max_len c line) in
      if is_enter c then some (true, u1, end_line c line) else rest
]

-- The driver's state with the process that reads from it.
pub record Terminal : Type 0 where
  pub uart : Uart
  pub uart_owner : Ptr

-- Where a turn ends: with the length of the line, or off the CPU, before or after the UART was taken.
pub data InputOutcome : Type 0 where
  entered : (current_len : ℕ) → Line → Terminal → Kernel → InputOutcome
  owned : Line → Terminal → Kernel → InputOutcome
  waiting : Line → Terminal → Kernel → InputOutcome

-- The turns behind the taking of the UART; the ring holds fewer than UART_BUFFER_SIZE characters.
unfoldable pub read_line : (len : ℕ) → Line → Terminal → Kernel → Option InputOutcome
read_line len line t k =
    let c = k.pcb k.current_process in
    let slept =
      schedule (set_pcb k k.current_process (record c { state = State.waiting_uart_input })) in
    let drained = drain_ring uart_buffer_size (max_length len) t.uart line in
    drained >>= λ (ended, u1, line1).
    if ended
    then some
        (InputOutcome.entered line1.current_len line1 (record { uart = u1; uart_owner = null }) k)
    else (slept >>= λ k1. some (InputOutcome.waiting line1 (record t { uart = u1 }) k1))

unfoldable pub syscall_input : (len : ℕ) → Line → Terminal → Kernel → Option InputOutcome
syscall_input len line t k =
    let owned_by_other = not (t.uart_owner == null) && not (t.uart_owner == k.current_process) in
    let read = read_line len line (record t { uart_owner = k.current_process }) k in
    if owned_by_other then (schedule k >>= λ k1. some (InputOutcome.owned line t k1)) else read
