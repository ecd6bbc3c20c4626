-- ===== src/Interrupts.antt =====
-- drivers/timer/timer.c, the interrupt of drivers/uart/uart.c, and drivers/irq/controller.c. Registers
-- that are written are fields, and what the hardware delivers comes in as arguments.
use demo_os.Base.{
  ℕ, ◌+◌, ◌-◌, ◌*◌, ◌/◌, ◌%◌, ◌^◌, not, ◌==◌, if◌then◌else◌, Option, some, ◌>>=◌, List, [], ◌∷◌,
  ◌++◌,
}
use demo_os.Base.Bits.{test_bit}
use demo_os.Kernel.{Kernel}
use demo_os.Console.{Uart, receive_words, uart_hex}
use demo_os.Sched.Dispatch.{handle_timer_tick}

-- TIMER_PERIOD, in microseconds.
abbrev pub timer_period : ℕ
timer_period = 10000

-- `curVal`, which is an unsigned int, and the registers TIMER_CS and TIMER_C1.
pub record Timer : Type 0 where
  pub cur_val : ℕ
  pub timer_cs : ℕ
  pub timer_c1 : ℕ

-- `timer_clo` is what the register TIMER_CLO reads.
unfoldable pub timer_init : (timer_clo : ℕ) → Timer → Timer
timer_init timer_clo t =
    let cur_val = (timer_clo % 2 ^ 32 + timer_period) % 2 ^ 32 in
    record t { cur_val = cur_val; timer_c1 = cur_val }

-- TIMER_CS_M1 is bit 1.
unfoldable pub handle_timer_irq : Timer → Kernel → Option (Timer × Kernel)
handle_timer_irq t k =
    let cur_val = (t.cur_val + timer_period) % 2 ^ 32 in
    let t1 = record t { timer_cs = 2; cur_val = cur_val; timer_c1 = cur_val } in
    handle_timer_tick k >>= λ k1. some (t1, k1)

-- "\\r\\n".
abbrev pub end_of_line : List ℕ
end_of_line = 13 ∷ 10 ∷ []

-- "UART RX error ".
abbrev pub rx_error : List ℕ
rx_error = 85 ∷ 65 ∷ 82 ∷ 84 ∷ 32 ∷ 82 ∷ 88 ∷ 32 ∷ 101 ∷ 114 ∷ 114 ∷ 111 ∷ 114 ∷ 32 ∷ []

-- ": timeout\\r\\n".
abbrev pub timeout : List ℕ
timeout = 58 ∷ 32 ∷ 116 ∷ 105 ∷ 109 ∷ 101 ∷ 111 ∷ 117 ∷ 116 ∷ end_of_line

-- The reports on the words of the receive FIFO that have an error flag.
unfoldable pub report_errors : List ℕ → List ℕ
report_errors [] = []
report_errors (dr ∷ drs) =
    let err = dr / 256 % 16 in
    let rest = report_errors drs in
    if not (err == 0) then rx_error ++ (uart_hex err ++ (end_of_line ++ rest)) else rest

-- The characters that the branch of the timeout sends back.
unfoldable pub echo_words : List ℕ → List ℕ
echo_words [] = []
echo_words (dr ∷ drs) = dr % 256 ∷ 10 ∷ echo_words drs

-- The driver's ring, the mask register UART0_IMSC, the bits that were written to UART0_ICR, and the
-- text that was sent.
pub record UartDevice : Type 0 where
  pub ring : Uart
  pub uart0_imsc : ℕ
  pub cleared : List ℕ
  pub sent : List ℕ

-- `mis` is what UART0_MIS reads. The FIFO is empty after the branch that receives.
unfoldable pub receive_branch :
    (mis : ℕ) → (fifo : List ℕ) → UartDevice → Kernel → Option (List ℕ × UartDevice × Kernel)
receive_branch mis fifo d k =
    let received = (do
      (ring, k1) ← receive_words fifo d.ring k
      some (
        [],
        record d { ring = ring; cleared = 2 ^ 4 ∷ d.cleared; sent = d.sent ++ report_errors fifo },
        k1,
      )) in
    if test_bit mis 4 then received else some (fifo, d, k)

unfoldable pub transmit_branch : (mis : ℕ) → UartDevice → UartDevice
transmit_branch mis d =
    let masked = if test_bit d.uart0_imsc 5 then d.uart0_imsc - 2 ^ 5 else d.uart0_imsc in
    if test_bit mis 5 then record d { uart0_imsc = masked; cleared = 2 ^ 5 ∷ d.cleared } else d

unfoldable pub timeout_branch : (mis : ℕ) → (fifo : List ℕ) → UartDevice → UartDevice
timeout_branch mis fifo d =
    if test_bit mis 6
    then record d { cleared = 2 ^ 6 ∷ d.cleared; sent = d.sent ++ (timeout ++ echo_words fifo) }
    else d

unfoldable pub handle_uart_irq :
    (mis : ℕ) → (fifo : List ℕ) → UartDevice → Kernel → Option (UartDevice × Kernel)
handle_uart_irq mis fifo d k = do
  (fifo1, d1, k1) ← receive_branch mis fifo d k
  some (timeout_branch mis fifo1 (transmit_branch mis d1), k1)

-- "Unknown pending irq: ".
abbrev pub unknown_irq : List ℕ
unknown_irq =
    85 ∷ 110 ∷ 107 ∷ 110 ∷ 111 ∷ 119 ∷ 110 ∷ 32 ∷ 112 ∷ 101 ∷ 110 ∷ 100 ∷ 105 ∷ 110 ∷ 103 ∷ 32 ∷ 105
    ∷ 114 ∷ 113 ∷ 58 ∷ 32 ∷ []

pub record Devices : Type 0 where
  pub timer : Timer
  pub uart : UartDevice

-- What the interrupt controller and the UART deliver: IRQ_PENDING_1 and _2, UART0_MIS and the FIFO.
pub record Pending : Type 0 where
  pub irq_pending_1 : ℕ
  pub irq_pending_2 : ℕ
  pub mis : ℕ
  pub fifo : List ℕ

-- SYSTEM_TIMER_IRQ_1 is bit 1 of the first word, UART0_IRQ_BIT bit 25 of the second.
unfoldable pub handle_irq : Pending → Devices → Kernel → Option (Devices × Kernel)
handle_irq p d k =
    let ticked =
      handle_timer_irq d.timer k >>= λ (timer, k1). some (record d { timer = timer }, k1) in
    let received =
      handle_uart_irq p.mis p.fifo d.uart k >>= λ (uart, k1). some (record d { uart = uart }, k1) in
    let number = uart_hex (p.irq_pending_1 * 2 ^ 32 + p.irq_pending_2) in
    let reported = record d.uart {
      sent = d.uart.sent ++ (unknown_irq ++ (number ++ end_of_line));
    } in
    if test_bit p.irq_pending_1 1
    then ticked
    else if test_bit p.irq_pending_2 25
    then received
    else some (record d { uart = reported }, k)
