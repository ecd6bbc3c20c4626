-- ===== src/Queue/Sorted/Insertion.antt =====
-- The sorted insertion of SJF against the insertion into a sorted list.
use demo_os.Base.{
  ℕ, ◌≤◌, ◌≡◌, ◌≢◌, refl, false, some, List, [], ◌∷◌, ◌++◌, arith, ◌∉◌, has-append, last_or,
  last_or-mem, ne_of_mem, ◌==◌, ltb, length, Bool-cases, inl, inr, Returns, returns,
}
use demo_os.Process.{Ptr, null, n_processes_max, State, Store, set_next_ready}
use demo_os.Queue.{
  ProcessQueue, is_ignored, make_ready, sorted_position, insert_after, enqueue_sorted_to,
}
use demo_os.Queue.Chain.{IsQueue, IsQueue-frame, Seg-frame}
use demo_os.Queue.Sorted.Place.{
  insert_by, front, back, front-append-back, insert_by-front, sorted_position-front,
}
use demo_os.Queue.Sorted.Link.{insert_after-lem}

-- What the insertion leaves: the queue `zs`, the process READY, every other PCB the same but for
-- its link.
pub record Inserted (h : Store) (zs : List Ptr) (process : Ptr) (r : ProcessQueue × Store)
    : Type 0 where
  pub queue : IsQueue r.1 r.0 zs
  pub ready :
      r.1 process
      ≡ record (h process) { state = State.ready; next_ready = (r.1 process).next_ready }
  pub others : (a : Ptr) → a ≢ process → r.1 a ≡ record (h a) { next_ready = (r.1 a).next_ready }

module _ (h : Store) (q : ProcessQueue) (process : Ptr) (ne : process ≢ null) where
  Inserted-alone :
      Inserted h
        (process ∷ [])
        process
        (record { head = process; tail = process }, make_ready h process)
  Inserted-alone = record {
    queue = record { chain = (refl, ne, ground arith); tail = refl; distinct = (refl, tt) };
    ready = ground arith;
    others = λ a ne. ground arith;
  }

  Inserted-first :
      (x : Ptr) (xs : List Ptr)
      → IsQueue h q (x ∷ xs)
      → process ∉ x ∷ xs
      → Inserted h
          (process ∷ (x ∷ xs))
          process
          (record q { head = process }, set_next_ready (make_ready h process) process x)
  Inserted-first x xs c out = record {
    queue = record {
      chain = (
        refl,
        ne,
        (
          ground arith,
          c.chain.1,
          rw other (
              Seg-frame h g (h x).next_ready xs null
                (λ a i. ground (arith, ne_of_mem a process xs i)) c.chain.2),
        ),
      );
      tail = c.tail;
      distinct = (out, c.distinct);
    };
    ready = ground arith;
    others = λ a ne. ground arith;
  }
    where
      g : Store
      g = set_next_ready (make_ready h process) process x

      other : (g x).next_ready ≡ (h x).next_ready
      other = ground arith

  Inserted-behind :
      (x : Ptr) (xs ys : List Ptr)
      → IsQueue h q (x ∷ (xs ++ ys))
      → process ∉ x ∷ (xs ++ ys)
      → Inserted h
          (x ∷ (xs ++ (process ∷ ys)))
          process
          (insert_after q process (make_ready h process) (last_or x xs))
  unfolding insert_after
  Inserted-behind x xs ys c out = record {
    queue =
        insert_after-lem (make_ready h process) q x xs ys process
          (IsQueue-frame (make_ready h process)
            (λ a i. ground (arith, ne_of_mem a process (x ∷ (xs ++ ys)) i out)) c)
          ne out;
    ready = ground (
      arith,
      ne_of_mem (last_or x xs) process (x ∷ xs) (last_or-mem x xs),
      has-append process (x ∷ xs) ys,
    );
    others = λ a ne. ground arith;
  }

-- The sorted insertion of SJF ends within its fuel if the queue has at most 64 processes. It
-- puts a process that is not queued before the first one with a longer estimate, marks it
-- READY, and changes nothing else but links.
pub enqueue_sorted-insert_by :
    (h : Store) (q : ProcessQueue) (xs : List Ptr) (process : Ptr)
    → IsQueue h q xs
    → is_ignored process ≡ false
    → process ∉ xs
    → length xs ≤ n_processes_max
    → Returns
        (Inserted h (insert_by (λ a. (h a).est_burst) process xs) process)
        (enqueue_sorted_to q process h)
unfolding enqueue_sorted_to insert_by
enqueue_sorted-insert_by h q [] process c ok out l =
    rw (ok, c.chain) (returns (Inserted-alone h q process (ground arith)))
enqueue_sorted-insert_by h q (x ∷ xs) process c ok out l =
    rw (ok, c.chain.0, head_ne)
      (elim (Bool-cases (ltb burst (h x).est_burst)) [
        | inl first ↦ rw first (returns (Inserted-first h q process (ground arith) x xs c out))
        | inr later ↦
            rw (later, position, insert_by-front key process xs)
              (returns (
                Inserted-behind h q process (ground arith) x (front key burst xs)
                  (back key burst xs) (rw front-append-back c) (rw front-append-back out)))
      ])
  where
    key : Ptr → ℕ
    key a = (h a).est_burst

    burst : ℕ
    burst = (h process).est_burst

    h' : Store
    h' = make_ready h process

    head_ne : (x == null) ≡ false
    head_ne = ground (arith, c.chain.1)

    position : sorted_position n_processes_max h' burst x ≡ some (last_or x (front key burst xs))
    position =
        sorted_position-front n_processes_max h' key burst x x xs
          (Seg-frame h h' x (x ∷ xs) null
            (λ a i. ground (arith, ne_of_mem a process (x ∷ xs) i out))
            (refl, c.chain.1, c.chain.2))
          (λ a i. ground arith) (omega arith)
