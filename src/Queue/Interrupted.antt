-- ===== src/Queue/Interrupted.antt =====
-- libs/scheduler.c: `enqueue_process_to` when an interrupt that enqueues another process is taken
-- between its last two writes. System calls run with interrupts enabled (drivers/irq/entry.S).
use demo_os.Base.{
  ◌≡◌, ◌≢◌, refl, false, List, [], ◌∷◌, ◌++◌, arith, ◌∈◌, ◌∉◌, has-append, last_or, last_or-mem,
  last_or-append, ne_of_mem, ◌==◌, ◌∙◌,
}
use demo_os.Process.{Ptr, null, State, Store, set_next_ready}
use demo_os.Queue.{ProcessQueue, is_ignored, make_ready, enqueue_process_to}
use demo_os.Queue.Chain.{Seg, IsQueue, Seg-append, Seg-relink, Seg-unique, ne-null_of_mem}

-- On a queue that is not empty: up to the write `queue->tail->next_ready = process`, and the write
-- `queue->tail = process` behind it.
unfoldable pub link_last : ProcessQueue → Ptr → Store → Store
link_last queue process h = set_next_ready (make_ready h process) queue.tail process

unfoldable pub move_tail : ProcessQueue → Ptr → ProcessQueue
move_tail queue process = record queue { tail = process }

-- The interrupt enqueues `other` in between.
unfoldable pub enqueue_interrupted :
    ProcessQueue → (process other : Ptr) → Store → ProcessQueue × Store
enqueue_interrupted queue process other h =
    let (queue1, h1) = enqueue_process_to queue other (link_last queue process h) in
    (move_tail queue1 process, h1)

-- The process is READY, but behind the others stands the one that the interrupt enqueued, no list that
-- the head leads through holds the process, and the tail fits no list.
pub record Lost (xs : List Ptr) (process other : Ptr) (r : ProcessQueue × Store) : Type 0 where
  pub chain : Seg r.1 r.0.head (xs ++ (other ∷ [])) null
  pub ready : (r.1 process).state ≡ State.ready
  pub gone : (ys : List Ptr) → Seg r.1 r.0.head ys null → process ∉ ys
  pub broken : (ys : List Ptr) → IsQueue r.1 r.0 ys → ⊥

last_ne :
    (h : Store) (q : ProcessQueue) (x : Ptr) (xs : List Ptr)
    → IsQueue h q (x ∷ xs)
    → (last_or x xs == null) ≡ false
last_ne h q x xs c =
    ground (arith, ne-null_of_mem h q.head (x ∷ xs) null (last_or x xs) c.chain (last_or-mem x xs))

stays_ready :
    (h : Store) (process other last : Ptr)
    → process ≢ other
    → (set_next_ready
        (make_ready (set_next_ready (make_ready h process) last process) other)
        last
        other
        process).state
      ≡ State.ready
stays_ready h process other last ne = ground arith

-- On a non-empty queue, for two different processes that are not queued and are neither NULL
-- nor the idle task: the insertion of the first at the tail is the writes up to the link of the
-- old tail and then the write of the tail; if an interrupt enqueues the second one in between,
-- the head leads through the old processes and the second one, the first is READY but in no
-- list that the head leads through, and the queue is well-formed for no list.
pub enqueue_interrupted-Lost :
    (h : Store) (q : ProcessQueue) (x : Ptr) (xs : List Ptr) (process other : Ptr)
    → IsQueue h q (x ∷ xs)
    → is_ignored process ≡ false
    → is_ignored other ≡ false
    → process ∉ x ∷ xs
    → other ∉ x ∷ xs
    → process ≢ other
    → (enqueue_process_to q process h ≡ (move_tail q process, link_last q process h))
      × Lost (x ∷ xs) process other (enqueue_interrupted q process other h)
unfolding enqueue_process_to enqueue_interrupted link_last move_tail
enqueue_interrupted-Lost h q x xs process other c ok ok' out out' ne =
    rw (ok, ok', c.tail, last_ne h q x xs c)
      (
        refl,
        record {
          chain = chain;
          ready = stays_ready h process other (last_or x xs) ne;
          gone = λ ys d. rw (← Seg-unique g q.head ((x ∷ xs) ++ (other ∷ [])) ys chain d) absent;
          broken = λ ys d. absurd (ne (broken_tail ys d));
        },
      )
  where
    g : Store
    g =
        set_next_ready
          (make_ready (set_next_ready (make_ready h process) (last_or x xs) process) other)
          (last_or x xs) other

    last_in : last_or x xs ∈ x ∷ xs
    last_in = last_or-mem x xs

    apart : last_or x xs ≢ other
    apart = ne_of_mem (last_or x xs) other (x ∷ xs) last_in out'

    apart' : last_or x xs ≢ process
    apart' = ne_of_mem (last_or x xs) process (x ∷ xs) last_in out

    chain : Seg g q.head ((x ∷ xs) ++ (other ∷ [])) null
    chain =
        Seg-append g q.head (x ∷ xs) other (other ∷ []) null
          (Seg-relink h g q.head x xs null other c.distinct
            (λ a i off.
              ground (arith, ne_of_mem a process (x ∷ xs) i out, ne_of_mem a other (x ∷ xs) i out'))
            (ground arith) c.chain)
          (refl, ground arith, ground (arith, apart))

    absent : process ∉ (x ∷ xs) ++ (other ∷ [])
    absent = ground (arith, has-append process (x ∷ xs) (other ∷ []))

    broken_tail :
        (ys : List Ptr) → IsQueue g (record { head = q.head; tail = process }) ys → process ≡ other
    broken_tail ys d =
        d.tail
        ∙ rw (← Seg-unique g q.head ((x ∷ xs) ++ (other ∷ [])) ys chain d.chain)
            (last_or-append x xs other)
