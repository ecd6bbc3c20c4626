-- ===== src/System/Reach.antt =====
-- The states that Round Robin reaches from the boot in serial runs: an entry into the kernel (an
-- interrupt or a system call) begins when the one before it has ended. The code also takes interrupts
-- in the middle of a call, since el0_svc of drivers/irq/entry.S and handle_timer_tick enable them;
-- such runs are not among these, and Queue.Interrupted shows what can come of them.
use demo_os.Base.{ℕ, ◌≡◌, refl, ◌==◌, false, List, [], arith, Option, some, Returns, returns}
use demo_os.Base.Int.{ℤ}
use demo_os.Process.{init_process}
use demo_os.Kernel.{Algorithm, Kernel, boot}
use demo_os.Sched.Dispatch.{exit_process}
use demo_os.Ipc.{Outcome}
use demo_os.Syscalls.{
  syscall_yield, syscall_wait, syscall_send_message, syscall_receive_message, syscall_send_signal,
  syscall_set_sched_param,
}
use demo_os.System.Tidy.{boot-Tidy}
use demo_os.System.Sound.{Sound}
use demo_os.System.Switching.{syscall_yield-Sound, syscall_wait-Sound, SoundOutcome}
use demo_os.Interrupts.{Devices, Pending, handle_irq}
use demo_os.Input.{Line, Terminal, InputOutcome, syscall_input}
use demo_os.System.Irq.{handle_irq-Sound, kernel_of, syscall_input-Sound}
use demo_os.System.Messages.{syscall_send_message-Sound}
use demo_os.System.Receipts.{syscall_receive_message-Sound}
use demo_os.System.Returned.{IfReturned-some}
use demo_os.Fork.{copy_process}
use demo_os.System.Forking.{copy_process-Sound}
use demo_os.System.Exit.{exit_process-Sound}
use demo_os.System.Changes.{syscall_send_signal-Sound, syscall_set_sched_param-Sound}

-- The kernel behind a call that may block.
abbrev pub kernel_behind {ℓ} : {A : Type ℓ} → Outcome A → Kernel
kernel_behind (Outcome.returned a k) = k
kernel_behind (Outcome.blocked k) = k

-- One entry into the kernel that no other one interrupts, with a result. The idle task neither blocks
-- nor ends.
pub data SerialStep (k : Kernel) : Kernel → Type 0 where
  interrupts :
      {k' : Kernel} {d' : Devices} (p : Pending) (d : Devices)
      → handle_irq p d k ≡ some (d', k')
      → SerialStep k k'
  reads :
      (len : ℕ) (line : Line) (t : Terminal) {o : InputOutcome}
      → (k.current_process == init_process) ≡ false
      → syscall_input len line t k ≡ some o
      → SerialStep k (kernel_of o)
  yields : {k' : Kernel} → syscall_yield k ≡ some k' → SerialStep k k'
  waits :
      (pid : ℤ) {o : Outcome ℤ}
      → (k.current_process == init_process) ≡ false
      → syscall_wait pid k ≡ some o
      → SerialStep k (kernel_behind o)
  exits :
      {k' : Kernel}
      → (k.current_process == init_process) ≡ false
      → exit_process k ≡ some k'
      → SerialStep k k'
  sends :
      (pid : ℤ) (body : List ℕ) {o : Outcome ℤ}
      → (k.current_process == init_process) ≡ false
      → syscall_send_message pid body k ≡ some o
      → SerialStep k (kernel_behind o)
  receives :
      {o : Outcome (List ℕ)}
      → (k.current_process == init_process) ≡ false
      → syscall_receive_message k ≡ some o
      → SerialStep k (kernel_behind o)
  signals : (pid : ℤ) (signal_flag : ℕ) → SerialStep k (syscall_send_signal pid signal_flag k).1
  sets : (pid param value : ℤ) → SerialStep k (syscall_set_sched_param pid param value k).1
  forks :
      {k' : Kernel} {code : ℤ} (ret_from_fork clone_flags function argument : ℕ)
      → copy_process ret_from_fork clone_flags function argument k ≡ some (code, k')
      → SerialStep k k'

pub data SerialReach (k : Kernel) : Kernel → Type 0 where
  here : SerialReach k k
  next : {k' k'' : Kernel} → SerialReach k k' → SerialStep k' k'' → SerialReach k k''

Returns-some {ℓ κ} :
    {A : Type ℓ} {P : A → Type κ} {m : Option A} {a : A} → Returns P m → m ≡ some a → P a
Returns-some {P = P} r e = elim (rw e at r) [ returns p ↦ p ]

behind-Sound {ℓ} : {A : Type ℓ} (o : Outcome A) → SoundOutcome o → Sound (kernel_behind o)
behind-Sound (Outcome.returned a k) s = s
behind-Sound (Outcome.blocked k) s = s

SerialStep-Sound : {k k' : Kernel} → SerialStep k k' → Sound k → Sound k'
SerialStep-Sound {k} (interrupts p d e) s = Returns-some (handle_irq-Sound p d k s) e
SerialStep-Sound {k} (reads len line t user e) s =
    IfReturned-some (λ o. Sound (kernel_of o)) (syscall_input-Sound len line t k s user) e
SerialStep-Sound {k} (yields e) s = Returns-some (syscall_yield-Sound k s) e
SerialStep-Sound {k} (waits pid user e) s =
    behind-Sound _ (Returns-some (syscall_wait-Sound pid k s user) e)
SerialStep-Sound {k} (sends pid body user e) s =
    behind-Sound _ (IfReturned-some SoundOutcome (syscall_send_message-Sound pid body k s user) e)
SerialStep-Sound {k} (receives user e) s =
    behind-Sound _ (IfReturned-some SoundOutcome (syscall_receive_message-Sound k s user) e)
SerialStep-Sound {k} (exits user e) s = Returns-some (exit_process-Sound k s user) e
SerialStep-Sound {k} (signals pid signal_flag) s = syscall_send_signal-Sound pid signal_flag k s
SerialStep-Sound {k} (sets pid param value) s = syscall_set_sched_param-Sound pid param value k s
SerialStep-Sound {k} (forks ret_from_fork clone_flags function argument e) s =
    IfReturned-some (λ (code, k'). Sound k')
      (copy_process-Sound ret_from_fork clone_flags function argument k s) e

SerialReach-Sound : {k k' : Kernel} → Sound k → SerialReach k k' → Sound k'
SerialReach-Sound s here = s
SerialReach-Sound s (next r st) = SerialStep-Sound st (SerialReach-Sound s r)

abbrev pub started : (ℕ → ℕ) → Kernel
started clock = boot Algorithm.round_robin clock

started-Sound : (clock : ℕ → ℕ) → Sound (started clock)
started-Sound clock = record {
  queue = [];
  queued = record {
    inv = record {
      queue = record { chain = refl; tail = refl; distinct = tt };
      ready = λ a m. cc;
      complete = λ a e ne. ground arith;
      running = λ a e. ground arith;
      idle_out = refl;
      current_ne = ground arith;
    };
    in_table = λ a m. cc;
    current = refl;
    first_slot = refl;
    idle_awake = refl;
    algorithm = refl;
    tidy = boot-Tidy;
    counted = omega arith;
    bounded = omega arith;
    filled = λ j hi. ground arith;
    free_slots = λ j lo hi. ground arith;
  };
  running = refl;
}

pub reached-Sound : (clock : ℕ → ℕ) (k : Kernel) → SerialReach (started clock) k → Sound k
reached-Sound clock k r = SerialReach-Sound (started-Sound clock) r
