-- ===== src/Process.antt =====
-- libs/scheduler.h: the process control block, its states, and the memory that holds the blocks.
-- A pointer to a PCB is its address; the store maps addresses to blocks. Fields of type `long` or
-- `int` that the code lets fall below zero are integers, the others numbers.
use demo_os.Base.{ℕ, Bool, true, false, List, [], update, replicate}
use demo_os.Base.Int.{ℤ, pos, negsuc}

abbrev pub Ptr : Type 0
Ptr = ℕ

abbrev pub null : Ptr
null = 0

-- The address of the statically allocated PCB of the idle task. The other PCBs are pages above
-- VA_START + LOW_MEMORY.
abbrev pub init_process : Ptr
init_process = 0xffff000000080000

abbrev pub n_processes_max : ℕ
n_processes_max = 64

abbrev pub max_files_per_process : ℕ
max_files_per_process = 16

abbrev pub max_process_pages : ℕ
max_process_pages = 16

abbrev pub max_messages_per_process : ℕ
max_messages_per_process = 4

-- The PROCESS_* constants; `unset` is the 0 that INIT_PROCESS stores.
pub data State : Type 0 where
  unset running zombie waiting_uart_input waiting_to_receive_message : State
  waiting_to_send_message waiting_another_process stopped ready : State

abbrev pub is_running : State → Bool
is_running State.running = true
is_running _ = false

abbrev pub is_ready : State → Bool
is_ready State.ready = true
is_ready _ = false

abbrev pub is_stopped : State → Bool
is_stopped State.stopped = true
is_stopped _ = false

abbrev pub is_zombie : State → Bool
is_zombie State.zombie = true
is_zombie _ = false

abbrev pub is_waiting_another_process : State → Bool
is_waiting_another_process State.waiting_another_process = true
is_waiting_another_process _ = false

abbrev pub is_waiting_to_receive_message : State → Bool
is_waiting_to_receive_message State.waiting_to_receive_message = true
is_waiting_to_receive_message _ = false

abbrev pub is_waiting_to_send_message : State → Bool
is_waiting_to_send_message State.waiting_to_send_message = true
is_waiting_to_send_message _ = false

abbrev pub is_waiting_uart_input : State → Bool
is_waiting_uart_input State.waiting_uart_input = true
is_waiting_uart_input _ = false

-- The saved registers that the C code touches.
pub record CpuContext : Type 0 where
  pub x19 : ℕ
  pub x20 : ℕ
  pub sp : ℕ
  pub pc : ℕ

pub record UserPage : Type 0 where
  pub physical_address : ℕ
  pub virtual_address : ℕ

-- The two arrays have MAX_PROCESS_PAGES cells.
pub record MmStruct : Type 0 where
  pub pgd : ℕ
  pub n_user_pages : ℕ
  pub user_pages : List UserPage
  pub n_kernel_pages : ℕ
  pub kernel_pages : List ℕ

-- A message body is the characters before the terminating zero.
pub record Message : Type 0 where
  pub source_process : Ptr
  pub destination_process : Ptr
  pub body : List ℕ

pub record MessagesCircularBuffer : Type 0 where
  pub head : ℕ
  pub tail : ℕ
  pub buffer : List Message

pub record Pcb : Type 0 where
  pub cpu_context : CpuContext
  pub state : State
  pub counter : ℤ
  pub priority : ℤ
  pub est_burst : ℕ
  pub burst_ticks : ℕ
  pub queue_priority : ℤ
  pub tickets : ℤ
  pub preempt_disabled : ℤ
  pub pid : ℕ
  pub flags : ℕ
  pub files : List Ptr
  pub mm : MmStruct
  pub messages_buffer : MessagesCircularBuffer
  pub pending_signals : ℕ
  pub pid_to_wait : ℤ
  pub next_ready : Ptr

abbrev pub Store : Type 0
Store = Ptr → Pcb

-- A page of zeros read as a PCB.
abbrev pub zero_mm : MmStruct
zero_mm = record {
  pgd = 0;
  n_user_pages = 0;
  user_pages = replicate max_process_pages (record { physical_address = 0; virtual_address = 0 });
  n_kernel_pages = 0;
  kernel_pages = replicate max_process_pages 0;
}

abbrev pub zero_message : Message
zero_message = record { source_process = 0; destination_process = 0; body = [] }

abbrev pub zero_buffer : MessagesCircularBuffer
zero_buffer = record {
  head = 0;
  tail = 0;
  buffer = replicate max_messages_per_process zero_message;
}

abbrev pub zero_pcb : Pcb
zero_pcb = record {
  cpu_context = record { x19 = 0; x20 = 0; sp = 0; pc = 0 };
  state = State.unset;
  counter = pos 0;
  priority = pos 0;
  est_burst = 0;
  burst_ticks = 0;
  queue_priority = pos 0;
  tickets = pos 0;
  preempt_disabled = pos 0;
  pid = 0;
  flags = 0;
  files = replicate max_files_per_process null;
  mm = zero_mm;
  messages_buffer = zero_buffer;
  pending_signals = 0;
  pid_to_wait = pos 0;
  next_ready = null;
}

-- INIT_PROCESS.
abbrev pub init_pcb : Pcb
init_pcb = record zero_pcb {
  counter = pos 1;
  priority = pos 1;
  tickets = pos 10;
  pid_to_wait = negsuc 0;
}

-- Assignments to one field of the PCB at `p`.
abbrev pub set_state : Store → Ptr → State → Store
set_state h p s = update h p (record (h p) { state = s })

abbrev pub set_next_ready : Store → Ptr → Ptr → Store
set_next_ready h p q = update h p (record (h p) { next_ready = q })

abbrev pub set_counter : Store → Ptr → ℤ → Store
set_counter h p c = update h p (record (h p) { counter = c })

abbrev pub set_preempt_disabled : Store → Ptr → ℤ → Store
set_preempt_disabled h p n = update h p (record (h p) { preempt_disabled = n })
