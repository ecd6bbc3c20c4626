-- ===== src/Sched/Signals.antt =====
-- libs/scheduler.c: pending signals and the context switch. The swap of the CPU registers is
-- assembly; after it the code that runs is that of the new current process.
pub mod Effect
use demo_os.Base.{ℕ, Bool, ◌==◌, if◌then◌else◌, Option, none, some}
use demo_os.Base.Bits.{test_bit, clear_bit}
use demo_os.Process.{Ptr, State, is_running, is_stopped, set_state}
use demo_os.Kernel.{Kernel, set_pcb}
use demo_os.Sched.Enqueue.{enqueue_process}

-- The signal numbers of common/ipc_types.h.
abbrev pub signal_kill : ℕ
signal_kill = 1

abbrev pub signal_stop : ℕ
signal_stop = 2

abbrev pub signal_resume : ℕ
signal_resume = 3

unfoldable pub handle_process_signals : Ptr → Kernel → Option Kernel
handle_process_signals process k =
    let c = k.pcb process in
    let pending = c.pending_signals in
    let resumed = clear_bit pending signal_resume in
    let woken =
      enqueue_process process
        (set_pcb k process (record c { pending_signals = resumed; state = State.ready })) in
    if pending == 0
    then some k
    else if test_bit pending signal_kill
    then some (
        set_pcb k process
          (record c { state = State.zombie; pending_signals = clear_bit pending signal_kill }))
    else if test_bit pending signal_stop
    then some (
        set_pcb k process
          (record c { state = State.stopped; pending_signals = clear_bit pending signal_stop }))
    else if test_bit pending signal_resume
    then if is_stopped c.state
      then woken
      else some (set_pcb k process (record c { pending_signals = resumed }))
    else some k

unfoldable pub switch_to_process : Ptr → Kernel → Kernel
switch_to_process next k =
    let h = set_state k.pcb next State.running in
    let previous = k.current_process in
    let h' = if is_running (h previous).state then set_state h previous State.ready else h in
    if previous == next
    then record k { pcb = h }
    else record k { pcb = h'; current_process = next; active_pgd = (h' next).mm.pgd }
