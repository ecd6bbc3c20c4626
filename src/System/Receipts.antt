-- ===== src/System/Receipts.antt =====
-- syscall_receive_message under Round Robin, which wakes the processes that wait to send.
use demo_os.Base.{
  ℕ, zero, suc, ◌+◌, ◌≤◌, ◌≡◌, refl, false, ◌==◌, arith, inl, inr, Bool-cases, returns,
  Returns-bind,
}
use demo_os.Process.{null, init_process, is_waiting_to_send_message, n_processes_max}
use demo_os.Kernel.{Kernel}
use demo_os.Ipc.{Pop, pop_buffer, receive_message, wake_sender, wake_senders}
use demo_os.Syscalls.{syscall_receive_message}
use demo_os.System.Sound.{Sound}
use demo_os.System.Switching.{SoundOutcome}
use demo_os.System.Receive.{Steady, Steady-refl, Steady-trans, enqueue_process-Steady, known_slot}
use demo_os.System.Messages.{buffered-Steady, waiting-Sound}
use demo_os.System.Returned.{IfReturned, IfReturned-Returns, IfReturned-bind}

wake_sender-Steady :
    (i : ℕ) (k : Kernel)
    → Sound k
    → i + 1 ≤ n_processes_max
    → IfReturned (Steady k) (wake_sender i k)
unfolding wake_sender
wake_sender-Steady i k s hi = elim (Bool-cases (k.processes i == null)) [
  | inl e ↦ rw e (Steady-refl k s)
  | inr e ↦ rw e (elim (Bool-cases (is_waiting_to_send_message (k.pcb (k.processes i)).state)) [
    | inl w ↦ rw w (
        IfReturned-Returns (
          enqueue_process-Steady (k.processes i) k s (ground arith) (known_slot i k s (omega arith))
            (ground arith) (ground arith)))
    | inr w ↦ rw w (Steady-refl k s)
  ])
]

wake_senders-Steady :
    (n i : ℕ) (k k0 : Kernel)
    → Steady k0 k
    → i + n ≤ n_processes_max
    → IfReturned (Steady k0) (wake_senders n i k)
unfolding wake_senders
wake_senders-Steady zero i k k0 p l = p
wake_senders-Steady (suc n) i k k0 p l =
    IfReturned-bind (Steady k) (Steady k0) (wake_sender i k) (wake_senders n (i + 1))
      (wake_sender-Steady i k p.sound (omega arith))
      λ k1 q. wake_senders-Steady n (i + 1) k1 k0 (Steady-trans p q) (omega arith)

pub syscall_receive_message-Sound :
    (k : Kernel)
    → Sound k
    → (k.current_process == init_process) ≡ false
    → IfReturned SoundOutcome (syscall_receive_message k)
unfolding syscall_receive_message receive_message
syscall_receive_message-Sound k s user =
    go (pop_buffer (k.pcb k.current_process).messages_buffer) refl
  where
    go :
        (r : Pop)
        → pop_buffer (k.pcb k.current_process).messages_buffer ≡ r
        → IfReturned SoundOutcome (syscall_receive_message k)
    go Pop.empty e =
        rw (e, syscall_receive_message, receive_message)
          (IfReturned-Returns (
            Returns-bind (waiting-Sound k k _ (Steady-refl k s) user refl refl refl)
              λ k1 s1. returns s1))
    go Pop.overread e = rw (e, syscall_receive_message, receive_message) tt
    go (Pop.popped message b) e =
        rw (e, syscall_receive_message, receive_message)
          (IfReturned-bind (Steady k) SoundOutcome (wake_senders n_processes_max 0 _) _
            (wake_senders-Steady n_processes_max 0 _ k (buffered-Steady k.current_process b k s)
              (omega arith))
            λ k1 p. p.sound)
