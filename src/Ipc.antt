-- ===== src/Ipc.antt =====
-- libs/ipc.c: messages and signals. A blocking operation is modelled up to the point where it gives
-- the CPU away: `blocked` is the kernel after `schedule()`, and the caller's loop goes on when it is
-- dispatched again. `none` is a walk that does not end or an access behind the end of a buffer.
pub mod Buffer
use demo_os.Base.{
  ℕ, zero, suc, ◌+◌, Bool, true, false, ◌==◌, ltb, if◌then◌else◌, Option, none, some, List, set,
  get_or, ◌>>=◌,
}
use demo_os.Base.Int.{ℤ, pos, negsuc, eqb_ℤ}
use demo_os.Base.Bits.{set_bit}
use demo_os.Process.{
  Ptr, null, n_processes_max, max_messages_per_process, Message, MessagesCircularBuffer,
  zero_message, Pcb, State, is_waiting_to_receive_message, is_waiting_to_send_message,
}
use demo_os.Kernel.{Kernel, set_pcb}
use demo_os.Sched.Enqueue.{enqueue_process}
use demo_os.Sched.Dispatch.{schedule}

-- The advance of an index: back to 0 above MAX_MESSAGES_PER_PROCESS.
abbrev pub next_index : ℕ → ℕ
next_index i = if ltb max_messages_per_process (i + 1) then 0 else i + 1

-- The outcomes of a push: `overrun` is a write behind the end of the array.
pub data Push : Type 0 where
  full overrun : Push
  pushed : MessagesCircularBuffer → Push

-- The outcomes of a pop: `overread` is a read behind the end of the array.
pub data Pop : Type 0 where
  empty overread : Pop
  popped : Message → MessagesCircularBuffer → Pop

unfoldable pub push_buffer : MessagesCircularBuffer → Message → Push
push_buffer b message =
    if next_index b.head == b.tail
    then full
    else if ltb b.head max_messages_per_process
    then pushed (record b { buffer = set b.buffer b.head message; head = next_index b.head })
    else overrun

-- `pop_message`.
unfoldable pub pop_buffer : MessagesCircularBuffer → Pop
pop_buffer b =
    if b.head == b.tail
    then empty
    else if ltb b.tail max_messages_per_process
    then popped (get_or b.buffer b.tail zero_message) (record b { tail = next_index b.tail })
    else overread

-- `push_message` on the buffer of `owner`: the return code and the kernel.
unfoldable pub push_message : Ptr → Message → Kernel → Option (ℤ × Kernel)
push_message owner message k = elim (push_buffer (k.pcb owner).messages_buffer message) [
  | full ↦ some (negsuc 0, k)
  | overrun ↦ none
  | pushed b ↦ (do
    let k1 = set_pcb k owner (record (k.pcb owner) { messages_buffer = b })
    let d = message.destination_process
    let woken = enqueue_process d (set_pcb k1 d (record (k1.pcb d) { state = State.ready }))
    k2 ← if is_waiting_to_receive_message (k1.pcb d).state then woken else some k1
    some (pos 0, k2))
]

-- What one round of a blocking loop comes to.
pub data Outcome {ℓ} (A : Type ℓ) : Type ℓ where
  returned : A → Kernel → Outcome A
  blocked : Kernel → Outcome A

-- One round of the loop of `send_message`.
unfoldable pub send_message : (source destination : Ptr) → List ℕ → Kernel → Option (Outcome ℤ)
send_message source destination body k =
    let message : Message = record {
      source_process = k.current_process;
      destination_process = destination;
      body = body;
    } in
    push_message destination message k >>= λ (code, k1).
    let wait =
      schedule
        (set_pcb k1 source (record (k1.pcb source) { state = State.waiting_to_send_message })) in
    if eqb_ℤ code (pos 0) then some (returned (pos 0) k1) else (wait >>= λ k2. some (blocked k2))

-- Wakes the process at slot `i` if it waits to send. Through a NULL slot the code reads, and may
-- write, the word at the offset of `state` in page 0 of the user program, which is mapped; since
-- `enqueue_process` ignores NULL, the kernel is as before whatever stands there.
unfoldable pub wake_sender : ℕ → Kernel → Option Kernel
wake_sender i k =
    let p = k.processes i in
    let woken = enqueue_process p (set_pcb k p (record (k.pcb p) { state = State.ready })) in
    if p == null
    then some k
    else if is_waiting_to_send_message (k.pcb p).state
    then woken
    else some k

-- The `n` slots from `i` on.
unfoldable pub wake_senders : ℕ → ℕ → Kernel → Option Kernel
wake_senders zero i k = some k
wake_senders (suc n) i k = do k1 ← wake_sender i k; wake_senders n (i + 1) k1

-- One round of `receive_message`; the body is what goes to the caller's buffer.
unfoldable pub receive_message : Ptr → Kernel → Option (Outcome (List ℕ))
receive_message destination k =
    let c = k.pcb k.current_process in
    let wait =
      schedule
        (set_pcb k k.current_process (record c { state = State.waiting_to_receive_message })) in
    elim (pop_buffer (k.pcb destination).messages_buffer) [
      | empty ↦ (wait >>= λ k1. some (blocked k1))
      | overread ↦ none
      | popped message b ↦ (do
        k1 ←
            wake_senders n_processes_max 0
              (set_pcb k destination (record (k.pcb destination) { messages_buffer = b }))
        some (returned message.body k1))
    ]

-- `send_signal`: the return code and the kernel. (`1 << signal_flag` is undefined in C from 32 on.)
unfoldable pub send_signal : Ptr → ℕ → Kernel → ℤ × Kernel
send_signal destination signal_flag k =
    let c = k.pcb destination in
    (
      pos 0,
      set_pcb k destination (record c { pending_signals = set_bit c.pending_signals signal_flag }),
    )
