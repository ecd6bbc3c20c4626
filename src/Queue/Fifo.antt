-- ===== src/Queue/Fifo.antt =====
-- Insertion at the tail and removal at the head, on the list that the queue stands for.
use demo_os.Base.{
  ◌≡◌, ◌≢◌, refl, sym, true, false, List, [], ◌∷◌, ◌++◌, arith, ◌∈◌, ◌∉◌, last_or, last_or-mem,
  last_or-append, Distinct-snoc, ne_of_mem, if◌then◌else◌, ◌==◌,
}
use demo_os.Process.{Ptr, null, State, Store, set_next_ready}
use demo_os.Queue.{ProcessQueue, is_ignored, make_ready, enqueue_process_to, dequeue_process_from}
use demo_os.Queue.Chain.{Seg, IsQueue, Seg-frame, Seg-append, Seg-relink, ne-null_of_mem}

-- The store after an insertion at the tail: the process is READY and last, the old last node
-- points at it, and nothing else changes.
abbrev pub enqueued : Store → List Ptr → Ptr → Store
enqueued h [] process = make_ready h process
enqueued h (x ∷ xs) process = set_next_ready (make_ready h process) (last_or x xs) process

-- Each PCB after the insertion, but for its link.
pub enqueued_at :
    (h : Store) (xs : List Ptr) (process a : Ptr)
    → enqueued h xs process a ≡ record (h a) {
      next_ready = (enqueued h xs process a).next_ready;
      state = if process == a then State.ready else (h a).state;
    }
enqueued_at h [] process a = ground arith
enqueued_at h (x ∷ xs) process a = ground arith

pub record Enqueued (h : Store) (xs : List Ptr) (process : Ptr) (r : ProcessQueue × Store)
    : Type 0 where
  pub queue : IsQueue r.1 r.0 (xs ++ (process ∷ []))
  pub store : r.1 ≡ enqueued h xs process

-- The insertion at the tail appends a process that is not queued, and is neither NULL nor the
-- idle task, to the list that the queue stands for, marks it READY, and changes no other field
-- than the last link.
pub enqueue-append :
    (h : Store) (q : ProcessQueue) (xs : List Ptr) (process : Ptr)
    → IsQueue h q xs
    → is_ignored process ≡ false
    → process ∉ xs
    → Enqueued h xs process (enqueue_process_to q process h)
unfolding enqueue_process_to
enqueue-append h q [] process c ok out =
    rw (ok, c.tail)
      (record {
        queue = record {
          chain = (refl, ground arith, ground arith);
          tail = refl;
          distinct = (refl, tt);
        };
        store = refl;
      })
enqueue-append h q (x ∷ xs) process c ok out =
    rw (ok, c.tail, last_ne)
      (record {
        queue = record {
          chain =
              Seg-append g q.head (x ∷ xs) process (process ∷ []) null
                (Seg-relink h g q.head x xs null process c.distinct
                  (λ a i ne. ground (arith, ne_of_mem a process (x ∷ xs) i out)) (ground arith)
                  c.chain)
                (refl, ground arith, ground (arith, apart));
          tail = sym (last_or-append x xs process);
          distinct = Distinct-snoc (x ∷ xs) process c.distinct out;
        };
        store = refl;
      })
  where
    g : Store
    g = enqueued h (x ∷ xs) process

    last_in : last_or x xs ∈ x ∷ xs
    last_in = last_or-mem x xs

    last_ne : (last_or x xs == null) ≡ false
    last_ne = ground (arith, ne-null_of_mem h q.head (x ∷ xs) null (last_or x xs) c.chain last_in)

    apart : last_or x xs ≢ process
    apart = ne_of_mem (last_or x xs) process (x ∷ xs) last_in out

-- NULL and the idle task are never queued.
pub enqueue-ignored :
    (h : Store) (q : ProcessQueue) (process : Ptr)
    → is_ignored process ≡ true
    → enqueue_process_to q process h ≡ (q, h)
unfolding enqueue_process_to
enqueue-ignored h q process e = rw e

-- On an empty queue `dequeue_process_from` returns NULL and changes nothing.
pub dequeue-nil :
    (h : Store) (q : ProcessQueue) → IsQueue h q [] → dequeue_process_from q h ≡ (null, q, h)
unfolding dequeue_process_from
dequeue-nil h q c = rw c.chain

-- The tail test of the removal: the queue becomes empty exactly if no node follows.
tail_behind :
    (h : Store) (x : Ptr) (xs : List Ptr) {t : Ptr}
    → Seg h (h x).next_ready xs null
    → t ≡ last_or x xs
    → (if (h x).next_ready == null then null else t) ≡ last_or null xs
tail_behind h x [] c e = rw c
tail_behind h x (y ∷ xs) c e = ground (arith, c.0, c.1)

pub record Dequeued (h : Store) (x : Ptr) (xs : List Ptr) (r : Ptr × ProcessQueue × Store)
    : Type 0 where
  pub process : r.0 ≡ x
  pub queue : IsQueue r.2 r.1 xs
  pub store : r.2 ≡ set_next_ready h x null

-- The removal at the head of a non-empty queue returns the first process with its link cleared
-- and leaves a queue of the others.
pub dequeue-cons :
    (h : Store) (q : ProcessQueue) (x : Ptr) (xs : List Ptr)
    → IsQueue h q (x ∷ xs)
    → Dequeued h x xs (dequeue_process_from q h)
unfolding dequeue_process_from
dequeue-cons h q x xs c =
    rw (c.chain.0, not_null)
      (record {
        process = refl;
        queue = record {
          chain =
              Seg-frame h (set_next_ready h x null) (h x).next_ready xs null
                (λ a i. ground (arith, ne_of_mem a x xs i c.distinct.0)) c.chain.2;
          tail = tail_behind h x xs c.chain.2 c.tail;
          distinct = c.distinct.1;
        };
        store = refl;
      })
  where
    not_null : (x == null) ≡ false
    not_null = ground (arith, c.chain.1)
