-- ===== src/System/Messages.antt =====
-- syscall_send_message under Round Robin. A message that would be written behind the end of a buffer
-- has no result.
use demo_os.Base.{
  ℕ, ◌≡◌, refl, true, false, ◌==◌, ◌||◌, if◌then◌else◌, List, has, arith, inl, inr, Bool-cases,
  some, ◌>>=◌, Returns, returns, Returns-bind, Returns-mono,
}
use demo_os.Base.Int.{ℤ, pos, eqb_ℤ}
use demo_os.Process.{
  Ptr, null, init_process, Pcb, Message, MessagesCircularBuffer, State, is_running, is_ready,
  is_waiting_to_receive_message, n_processes_max,
}
use demo_os.Kernel.{Kernel, set_pcb}
use demo_os.Sched.Enqueue.{enqueue_process}
use demo_os.Sched.Dispatch.{schedule}
use demo_os.Ipc.{Push, push_buffer, push_message, send_message}
use demo_os.Syscalls.{search_process, syscall_send_message}
use demo_os.Syscalls.Search.{Found, search_process-Found}
use demo_os.System.Sound.{table, Sound, Sound-frame}
use demo_os.System.Switching.{schedule-Sound, blocked-Queued, SoundOutcome}
use demo_os.System.Receive.{Steady, Steady-refl, Steady-trans, enqueue_process-Steady, known_slot}
use demo_os.System.Returned.{IfReturned, IfReturned-Returns, IfReturned-bind}

-- The search finds nobody or a process that is known.
search_process-known :
    (pid : ℤ) (k : Kernel)
    → Sound k
    → (search_process pid k == null) ≡ false
    → (search_process pid k == init_process || has (search_process pid k) (table k)) ≡ true
search_process-known pid k s some_process =
    known (search_process pid k) (search_process-Found pid k) some_process
  where
    known :
        (p : Ptr)
        → Found n_processes_max 0 pid k p
        → (p == null) ≡ false
        → (p == init_process || has p (table k)) ≡ true
    known _ (Found.absent h) e = cc
    known _ (Found.present m lo hi e before) ne = known_slot m k s hi

-- A write to the buffer of a process.
pub buffered-Steady :
    (p : Ptr) (b : MessagesCircularBuffer) (k : Kernel)
    → Sound k
    → Steady k (set_pcb k p (record (k.pcb p) { messages_buffer = b }))
buffered-Steady p b k s = record {
  sound = Sound-frame k _ (λ a. ground arith) (λ a. ground arith) s;
  n_processes = refl;
  current = refl;
}

pushed-Steady :
    (k : Kernel) (message : Message) (k1 : Kernel)
    → Sound k1
    → (message.destination_process == null) ≡ false
    → (message.destination_process == init_process || has message.destination_process (table k1))
      ≡ true
    → Returns
        (λ (code, k2). Steady k1 k2)
        ((if is_waiting_to_receive_message (k1.pcb message.destination_process).state
            then enqueue_process message.destination_process (
                set_pcb k1 message.destination_process
                  (record (k1.pcb message.destination_process) { state = State.ready }))
            else some k1)
          >>= λ k2. some (pos 0, k2))
pushed-Steady k message k1 s some_process known =
    elim (Bool-cases (is_waiting_to_receive_message (k1.pcb message.destination_process).state)) [
      | inl w ↦ rw w (
          Returns-bind
            (enqueue_process-Steady message.destination_process k1 s (ground arith) known
              (ground arith) (ground arith))
            λ k2 p. returns p)
      | inr w ↦ rw w (returns (Steady-refl k1 s))
    ]

push_message-Steady :
    (owner : Ptr) (message : Message) (k : Kernel)
    → Sound k
    → (message.destination_process == null) ≡ false
    → (message.destination_process == init_process || has message.destination_process (table k))
      ≡ true
    → IfReturned (λ (code, k'). Steady k k') (push_message owner message k)
unfolding push_message
push_message-Steady owner message k s some_process known =
    go (push_buffer (k.pcb owner).messages_buffer message) refl
  where
    go :
        (r : Push)
        → push_buffer (k.pcb owner).messages_buffer message ≡ r
        → IfReturned (λ (code, k'). Steady k k') (push_message owner message k)
    go Push.full e = rw (e, push_message) (Steady-refl k s)
    go Push.overrun e = rw (e, push_message) tt
    go (Push.pushed b) e =
        let q = buffered-Steady owner b k s in
        rw (e, push_message)
          (IfReturned-Returns (
            Returns-mono (pushed-Steady k message _ q.sound some_process known)
              λ (code, k2) p. Steady-trans q p))

-- The current process waits until there is room or a message.
pub waiting-Sound :
    (k k1 : Kernel) (c : Pcb)
    → Steady k k1
    → (k.current_process == init_process) ≡ false
    → is_ready c.state ≡ false
    → is_running c.state ≡ false
    → c.next_ready ≡ (k1.pcb k1.current_process).next_ready
    → Returns Sound (schedule (set_pcb k1 k1.current_process c))
waiting-Sound k k1 c p user not_ready not_running link =
    let e = p.current in
    schedule-Sound _ p.sound.queue (
      blocked-Queued k1 c p.sound.queue p.sound.queued p.sound.running (rw e user) not_ready
        not_running link)

pub syscall_send_message-Sound :
    (pid : ℤ) (body : List ℕ) (k : Kernel)
    → Sound k
    → (k.current_process == init_process) ≡ false
    → IfReturned SoundOutcome (syscall_send_message pid body k)
unfolding syscall_send_message send_message
syscall_send_message-Sound pid body k s user = elim (Bool-cases (search_process pid k == null)) [
  | inl e ↦ rw e s
  | inr e ↦ rw e (
      IfReturned-bind (λ (code, k'). Steady k k') SoundOutcome
        (push_message (search_process pid k) _ k) _
        (push_message-Steady (search_process pid k) _ k s e (search_process-known pid k s e))
        λ (code, k1) p. elim (Bool-cases (eqb_ℤ code (pos 0))) [
          | inl done ↦ rw done p.sound
          | inr full ↦
              rw (full, ← p.current)
                (IfReturned-Returns
                  (Returns-bind (waiting-Sound k k1 _ p user refl refl refl) λ k2 s2. returns s2))
        ])
]
