-- ===== src/Queue.antt =====
-- libs/scheduler.c, "QUEUE OPERATIONS": the intrusive queues of PCBs linked through `next_ready`.
-- An operation takes the queue and the store and returns both. The walk of the sorted insertion
-- runs on fuel, one round for each slot of the process table.
pub mod Chain
pub mod Fifo
pub mod Interrupted
pub mod Remove
pub mod Sorted
use demo_os.Base.{
  ℕ, zero, suc, Bool, true, false, ◌||◌, ◌==◌, ltb, if◌then◌else◌, update, Option, none, some,
}
use demo_os.Process.{
  Ptr, null, init_process, n_processes_max, State, Pcb, Store, set_next_ready, set_state,
}

pub record ProcessQueue : Type 0 where
  pub head : Ptr
  pub tail : Ptr

abbrev pub empty_queue : ProcessQueue
empty_queue = record { head = null; tail = null }

-- `!process || process == &init_process`.
abbrev pub is_ignored : Ptr → Bool
is_ignored p = p == null || p == init_process

-- The two writes to the process that precede every insertion.
abbrev pub make_ready : Store → Ptr → Store
make_ready h p = update h p (record (h p) { next_ready = null; state = State.ready })

unfoldable pub enqueue_process_to : ProcessQueue → Ptr → Store → ProcessQueue × Store
enqueue_process_to queue process h =
    if is_ignored process
    then (queue, h)
    else if queue.tail == null
    then (record { head = process; tail = process }, make_ready h process)
    else (record queue { tail = process }, set_next_ready (make_ready h process) queue.tail process)

-- The process comes first, `null` if the queue is empty.
unfoldable pub dequeue_process_from : ProcessQueue → Store → Ptr × ProcessQueue × Store
dequeue_process_from queue h = if queue.head == null then (null, queue, h) else (
  queue.head,
  record {
    head = (h queue.head).next_ready;
    tail = if (h queue.head).next_ready == null then null else queue.tail;
  },
  set_next_ready h queue.head null,
)

pub remove_process_from : ProcessQueue → (previous process : Ptr) → Store → ProcessQueue × Store
remove_process_from queue previous process h =
    let next = (h process).next_ready in
    let h' = if previous == null then h else set_next_ready h previous next in
    (
      record {
        head = if previous == null then next else queue.head;
        tail = if queue.tail == process then previous else queue.tail;
      },
      set_next_ready h' process null,
    )

-- The walk of the sorted insertion: the node after which the process goes; `none` if the fuel
-- runs out.
pub sorted_position : ℕ → Store → ℕ → Ptr → Option Ptr
sorted_position zero h burst current = none
sorted_position (suc fuel) h burst current =
    let next = (h current).next_ready in
    let rest = sorted_position fuel h burst next in
    if next == null
    then some current
    else if ltb burst (h next).est_burst
    then some current
    else rest

-- Links the process behind `current`.
pub insert_after : ProcessQueue → Ptr → Store → Ptr → ProcessQueue × Store
insert_after queue process h current =
    let next = (h current).next_ready in
    (
      record queue { tail = if next == null then process else queue.tail },
      set_next_ready (set_next_ready h process next) current process,
    )

pub enqueue_sorted_to : ProcessQueue → Ptr → Store → Option (ProcessQueue × Store)
enqueue_sorted_to queue process h =
    let h' = make_ready h process in
    let burst = (h process).est_burst in
    if is_ignored process
    then some (queue, h)
    else if queue.head == null
    then some (record { head = process; tail = process }, h')
    else if ltb burst (h queue.head).est_burst
    then some (record queue { head = process }, set_next_ready h' process queue.head)
    else elim (sorted_position n_processes_max h' burst queue.head) [
      | none ↦ none
      | some current ↦ some (insert_after queue process h' current)
    ]
