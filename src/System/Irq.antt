-- ===== src/System/Irq.antt =====
-- handle_irq and syscall_input under Round Robin.
use demo_os.Base.{
  ℕ, ◌≡◌, refl, Bool, true, false, not, ◌==◌, ◌&&◌, if◌then◌else◌, List, inl, inr, Bool-cases,
  Option, none, some, ◌>>=◌, Returns, returns, Returns-bind,
}
use demo_os.Base.Bits.{test_bit}
use demo_os.Process.{null, init_process}
use demo_os.Kernel.{Kernel}
use demo_os.Console.{Uart, uart_buffer_size}
use demo_os.Interrupts.{
  Timer, UartDevice, Devices, Pending, handle_timer_irq, receive_branch, handle_uart_irq,
  handle_irq,
}
use demo_os.Input.{Line, Terminal, InputOutcome, read_line, syscall_input, drain_ring, max_length}
use demo_os.System.Sound.{Sound}
use demo_os.System.Switching.{handle_timer_tick-Sound, schedule-Sound, blocked-Queued}
use demo_os.System.Returned.{IfReturned, IfReturned-Returns}
use demo_os.System.Receive.{receive_words-Sound}

pub handle_timer_irq-Sound :
    (t : Timer) (k : Kernel) → Sound k → Returns (λ (t', k'). Sound k') (handle_timer_irq t k)
unfolding handle_timer_irq
handle_timer_irq-Sound t k s = Returns-bind (handle_timer_tick-Sound k s) λ k1 s1. returns s1

receive_branch-Sound :
    (mis : ℕ) (fifo : List ℕ) (d : UartDevice) (k : Kernel)
    → Sound k
    → Returns (λ (fifo', d', k'). Sound k') (receive_branch mis fifo d k)
unfolding receive_branch
receive_branch-Sound mis fifo d k s = elim (Bool-cases (test_bit mis 4)) [
  | inl e ↦ rw e (Returns-bind (receive_words-Sound fifo d.ring k s) λ (ring, k1) s1. returns s1)
  | inr e ↦ rw e (returns s)
]

handle_uart_irq-Sound :
    (mis : ℕ) (fifo : List ℕ) (d : UartDevice) (k : Kernel)
    → Sound k
    → Returns (λ (d', k'). Sound k') (handle_uart_irq mis fifo d k)
unfolding handle_uart_irq
handle_uart_irq-Sound mis fifo d k s =
    Returns-bind (receive_branch-Sound mis fifo d k s) λ (fifo1, d1, k1) s1. returns s1

pub handle_irq-Sound :
    (p : Pending) (d : Devices) (k : Kernel)
    → Sound k
    → Returns (λ (d', k'). Sound k') (handle_irq p d k)
unfolding handle_irq
handle_irq-Sound p d k s = elim (Bool-cases (test_bit p.irq_pending_1 1)) [
  | inl timer ↦
      rw timer (Returns-bind (handle_timer_irq-Sound d.timer k s) λ (t, k1) s1. returns s1)
  | inr e ↦ rw e (elim (Bool-cases (test_bit p.irq_pending_2 25)) [
    | inl uart ↦
        rw uart
          (Returns-bind (handle_uart_irq-Sound p.mis p.fifo d.uart k s) λ (u, k1) s1. returns s1)
    | inr none_known ↦ rw none_known (returns s)
  ])
]

-- The kernel behind a turn of the reading.
abbrev pub kernel_of : InputOutcome → Kernel
kernel_of (InputOutcome.entered current_len line t k) = k
kernel_of (InputOutcome.owned line t k) = k
kernel_of (InputOutcome.waiting line t k) = k

-- Behind the loop on the ring, whatever it did.
drained-Sound :
    (m : Option (Bool × Uart × Line)) (slept : Option Kernel) (t : Terminal) (k : Kernel)
    → Sound k
    → Returns Sound slept
    → IfReturned
        (λ o. Sound (kernel_of o))
        (m >>= λ (ended, u1, line1).
          if ended
          then some (
              InputOutcome.entered line1.current_len line1
                (record { uart = u1; uart_owner = null })
                k)
          else (slept >>= λ k1. some (InputOutcome.waiting line1 (record t { uart = u1 }) k1)))
drained-Sound none slept t k s sleeps = tt
drained-Sound (some (true, u1, line1)) slept t k s sleeps = s
drained-Sound (some (false, u1, line1)) slept t k s sleeps =
    IfReturned-Returns (Returns-bind sleeps λ k1 s1. returns s1)

pub syscall_input-Sound :
    (len : ℕ) (line : Line) (t : Terminal) (k : Kernel)
    → Sound k
    → (k.current_process == init_process) ≡ false
    → IfReturned (λ o. Sound (kernel_of o)) (syscall_input len line t k)
unfolding syscall_input read_line
syscall_input-Sound len line t k s user =
    elim (Bool-cases (not (t.uart_owner == null) && not (t.uart_owner == k.current_process))) [
      | inl e ↦ rw e (
          IfReturned-Returns (Returns-bind (schedule-Sound k s.queue s.queued) λ k1 s1. returns s1))
      | inr e ↦ rw e (
          drained-Sound (drain_ring uart_buffer_size (max_length len) t.uart line) _
            (record t { uart_owner = k.current_process }) k s
            (schedule-Sound _ s.queue
              (blocked-Queued k _ s.queue s.queued s.running user refl refl refl)))
    ]
