-- ===== src/Console.antt =====
-- drivers/uart/uart.c and app/benchmark.c: the receive ring of the UART, the wake-up of the readers
-- and the printing of numbers. Printed text is the list of its characters.
pub mod Digits
pub mod Ring
use demo_os.Base.{
  ℕ, zero, suc, ◌+◌, ◌-◌, ◌*◌, ◌/◌, ◌%◌, ◌^◌, Bool, true, false, not, ◌&&◌, ◌||◌, ◌==◌, ltb, leb,
  if◌then◌else◌, update, Option, none, some, ◌>>=◌, List, [], ◌∷◌, ◌++◌, get_or,
}
use demo_os.Process.{Ptr, null, Pcb, State, is_waiting_uart_input}
use demo_os.Kernel.{Kernel, set_pcb}
use demo_os.Sched.Enqueue.{enqueue_process}

abbrev pub uart_buffer_size : ℕ
uart_buffer_size = 64

-- The global variables of the driver.
pub record Uart : Type 0 where
  pub uart_buffer : ℕ → ℕ
  pub uart_head : ℕ
  pub uart_tail : ℕ

-- A received character; it is dropped when the ring is full.
unfoldable pub receive_char : ℕ → Uart → Uart
receive_char c u =
    let next_head = (u.uart_head + 1) % uart_buffer_size in
    if not (next_head == u.uart_tail)
    then record u { uart_buffer = update u.uart_buffer u.uart_head c; uart_head = next_head }
    else u

-- The character that `syscall_input` takes from the ring, if there is one.
unfoldable pub take_char : Uart → Option (ℕ × Uart)
take_char u =
    if u.uart_tail == u.uart_head
    then none
    else some
        (u.uart_buffer u.uart_tail, record u { uart_tail = (u.uart_tail + 1) % uart_buffer_size })

-- The processes `i` to `i + n` that wait for a character; an empty slot is read through.
unfoldable pub wake_readers : ℕ → ℕ → Kernel → Option Kernel
wake_readers zero i k = some k
wake_readers (suc n) i k = do
  let p = k.processes i
  let woken = enqueue_process p (set_pcb k p (record (k.pcb p) { state = State.ready }))
  k1 ← if p == null then none else if is_waiting_uart_input (k.pcb p).state then woken else some k
  wake_readers n (i + 1) k1

-- One word of the receive FIFO: with an error flag it is only reported.
unfoldable pub receive_word : ℕ → Uart → Kernel → Option (Uart × Kernel)
receive_word dr u k =
    let woken = wake_readers k.n_processes 0 k >>= λ k1. some (receive_char (dr % 256) u, k1) in
    if not (dr / 256 % 16 == 0) then some (u, k) else woken

-- The loop of the receive interrupt on the words that the FIFO holds.
unfoldable pub receive_words : List ℕ → Uart → Kernel → Option (Uart × Kernel)
receive_words [] u k = some (u, k)
receive_words (dr ∷ drs) u k = do (u1, k1) ← receive_word dr u k; receive_words drs u1 k1

-- `"0123456789ABCDEF"[nibble]`.
abbrev pub hex_digit : ℕ → ℕ
hex_digit nibble = if ltb nibble 10 then 48 + nibble else 55 + nibble

-- The `n` nibbles from bit `4 * (n - 1)` down.
unfoldable pub hex_digits : ℕ → ℕ → List ℕ
hex_digits zero num = []
hex_digits (suc n) num = hex_digit (num / 16 ^ n % 16) ∷ hex_digits n num

-- The text of `uart_hex`, with the prefix 0x.
unfoldable pub uart_hex : ℕ → List ℕ
uart_hex num = 48 ∷ 120 ∷ hex_digits 16 num

-- The inner loop of `print_int`, with a fuel: the count of subtractions and what is left.
unfoldable pub count_divisor : ℕ → (divisor num count : ℕ) → ℕ × ℕ
count_divisor zero divisor num count = (count, num)
count_divisor (suc fuel) divisor num count =
    let rest = count_divisor fuel divisor (num - divisor) (count + 1) in
    if leb divisor num then rest else (count, num)

-- The outer loop on the divisors from `10 ^ d` down to 1; `started` suppresses leading zeros.
unfoldable pub print_digits : ℕ → (d num : ℕ) → Bool → List ℕ
print_digits fuel zero num started = []
print_digits fuel (suc d) num started =
    let (count, num') = count_divisor fuel (10 ^ d) num 0 in
    let rest = print_digits fuel d num' (ltb 0 count || started) in
    if ltb 0 count || started then (count + 48) ∷ rest else rest

-- The text that `print_int` writes.
unfoldable pub print_int : ℕ → ℕ → List ℕ
print_int fuel num = if num == 0 then 48 ∷ [] else print_digits fuel 10 num false
