-- ===== src/Examples/Queues.antt =====
-- The queue operations and the message buffer at concrete states.
use demo_os.Base.{◌≡◌, [], ◌∷◌, refl, arith, Returns}
use demo_os.Process.{null, Message, MessagesCircularBuffer, zero_buffer, zero_message}
use demo_os.Queue.{enqueue_process_to, remove_process_from, enqueue_sorted_to}
use demo_os.Queue.Fifo.{Enqueued, enqueue-append}
use demo_os.Queue.Interrupted.{
  link_last, move_tail, enqueue_interrupted, Lost, enqueue_interrupted-Lost,
}
use demo_os.Queue.Remove.{remove-behind}
use demo_os.Queue.Chain.{IsQueue}
use demo_os.Queue.Sorted.{Inserted, insert_by, enqueue_sorted-insert_by}
use demo_os.Process.{set_next_ready}
use demo_os.Ipc.Buffer.{Holds, PushSpec, PopSpec, push_buffer_lem, pop_buffer_lem}
use demo_os.Ipc.{push_buffer, pop_buffer}
use demo_os.Examples.States.{first, second, third, fourth, store, queue, queued, queue-IsQueue}

enqueue-append_example : Enqueued store queued third (enqueue_process_to queue third store)
enqueue-append_example = enqueue-append store queue queued third queue-IsQueue refl refl

enqueue_interrupted-Lost_example :
    (enqueue_process_to queue third store ≡ (move_tail queue third, link_last queue third store))
    × Lost queued third fourth (enqueue_interrupted queue third fourth store)
enqueue_interrupted-Lost_example =
    enqueue_interrupted-Lost store queue first (second ∷ []) third fourth queue-IsQueue refl refl
      refl refl (ground arith)

remove-behind_example :
    let (q, h) = remove_process_from queue first second store in
    IsQueue h q (first ∷ [])
    × (h ≡ set_next_ready (set_next_ready store first (store second).next_ready) second null)
remove-behind_example = remove-behind store queue first [] second [] queue-IsQueue

enqueue_sorted-insert_by_example :
    Returns
      (Inserted store (insert_by (λ a. (store a).est_burst) third queued) third)
      (enqueue_sorted_to queue third store)
enqueue_sorted-insert_by_example =
    enqueue_sorted-insert_by store queue queued third queue-IsQueue refl refl (omega arith)

-- A buffer with one message, after two pushes and a pop.
abbrev note : Message
note = record { source_process = first; destination_process = third; body = 104 ∷ 105 ∷ [] }

abbrev used : MessagesCircularBuffer
used = record zero_buffer {
  head = 2;
  tail = 1;
  buffer = zero_message ∷ note ∷ zero_message ∷ zero_message ∷ [];
}

used-Holds : Holds used (note ∷ [])
used-Holds = record { size = refl; in_bounds = omega arith; count = refl; contents = refl }

push_buffer_lem_example : PushSpec used (note ∷ []) note (push_buffer used note)
push_buffer_lem_example = push_buffer_lem used (note ∷ []) note used-Holds

pop_buffer_lem_example : PopSpec (note ∷ []) (pop_buffer used)
pop_buffer_lem_example = pop_buffer_lem used (note ∷ []) used-Holds
