-- ===== src/Examples/Running.antt =====
-- A run of the kernel under Round Robin: the idle task, which has the CPU, creates two kernel
-- threads.
use demo_os.Base.{Option, none, ℕ, ◌+◌, ◌*◌, ◌≡◌, [], ◌∷◌, refl, some, Returns}
use demo_os.Base.Int.{ℤ, pos}
use demo_os.Process.{Ptr}
use demo_os.Queue.{enqueue_process_to}
use demo_os.Kernel.{Kernel, preempt_enable, preempt_disable}
use demo_os.Sched.Enqueue.{
  add_process_to_scheduler, enqueue_process, enqueue_callback, enqueue_fifo, start_level,
  clamp_to_policy,
}
use demo_os.Memory.{allocate_kernel_page, get_free_page, find_free}
use demo_os.Fork.{copy_process, copy_execution}
use demo_os.System.Sound.{Sound}
use demo_os.Interrupts.{Devices, Pending, timer_init, timer_period}
use demo_os.System.Clock.{Programmed, timer_irqs, timer_irqs-Programmed}
use demo_os.System.Reach.{SerialStep, SerialReach, started, reached-Sound}

abbrev clock : ℕ → ℕ
clock n = 1000 * n

-- The kernel behind a creation, if there is one.
abbrev created : Kernel → Option (ℤ × Kernel) → Kernel
created k none = k
created k (some (code, k')) = k'

-- Two kernel threads: a page is all that each of them takes.
abbrev one : Kernel
one = created (started clock) (copy_process 1000 2 2000 0 (started clock))

abbrev two : Kernel
two = created one (copy_process 1000 2 3000 0 one)

-- Their PCBs stand in the first two pages.
abbrev first : Ptr
first = 0xffff000000400000

abbrev second : Ptr
second = 0xffff000000401000

fork_first : copy_process 1000 2 2000 0 (started clock) ≡ some (pos 1, one)
unfolding copy_process allocate_kernel_page get_free_page find_free copy_execution
    add_process_to_scheduler enqueue_process enqueue_callback enqueue_fifo start_level
    clamp_to_policy preempt_enable preempt_disable enqueue_process_to
fork_first = refl

fork_second : copy_process 1000 2 3000 0 one ≡ some (pos 2, two)
unfolding copy_process allocate_kernel_page get_free_page find_free copy_execution
    add_process_to_scheduler enqueue_process enqueue_callback enqueue_fifo start_level
    clamp_to_policy preempt_enable preempt_disable enqueue_process_to
fork_second = refl

two-SerialReach : SerialReach (started clock) two
two-SerialReach =
    SerialReach.next (SerialReach.next SerialReach.here (SerialStep.forks 1000 2 2000 0 fork_first))
      (SerialStep.forks 1000 2 3000 0 fork_second)

-- The interrupt of the timer, and a character in the FIFO of the UART.
abbrev ticking : Pending
ticking = record { irq_pending_1 = 2; irq_pending_2 = 0; mis = 16; fifo = 65 ∷ [] }

abbrev devices : Devices
devices = record {
  timer = record { cur_val = 5000; timer_cs = 0; timer_c1 = 5000 };
  uart = record {
    ring = record { uart_buffer = λ _. 0; uart_head = 0; uart_tail = 0 };
    uart0_imsc = 0;
    cleared = [];
    sent = [];
  };
}

timer_irqs-Programmed_example :
    Returns
      (Programmed (4294960000 + 4 * timer_period))
      (timer_irqs 3 (timer_init 4294960000 devices.timer) two)
timer_irqs-Programmed_example =
    timer_irqs-Programmed 3 4294960000 devices.timer two (reached-Sound clock two two-SerialReach)
