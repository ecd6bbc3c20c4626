-- ===== src/Queue/Remove.antt =====
-- Unlinking a process from any place in a queue.
use demo_os.Base.{
  ◌≡◌, refl, false, List, [], ◌∷◌, ◌++◌, arith, ◌∉◌, has-append, last_or, last_or-mem,
  last_or-append_cons, Distinct, Distinct-remove, not_mem_of_distinct, ne_of_mem, Distinct-left,
  Distinct-right, not_mem-right, if◌then◌else◌, ◌==◌,
}
use mathlib.Core.List.{append-nil}
use demo_os.Process.{Ptr, null, Store, set_next_ready}
use demo_os.Queue.{ProcessQueue, remove_process_from}
use demo_os.Queue.Chain.{IsQueue, Seg-frame, Seg-append, Seg-split, Seg-relink, ne-null_of_mem}

-- The head of a queue is unlinked with no predecessor.
pub remove-head :
    (h : Store) (q : ProcessQueue) (x : Ptr) (xs : List Ptr)
    → IsQueue h q (x ∷ xs)
    → let (q', h') = remove_process_from q null x h in
      IsQueue h' q' xs × (h' ≡ set_next_ready h x null)
unfolding remove_process_from
remove-head h q x xs c = (
  record {
    chain =
        Seg-frame h (set_next_ready h x null) (h x).next_ready xs null
          (λ a i. ground (arith, ne_of_mem a x xs i c.distinct.0)) c.chain.2;
    tail = tail xs c;
    distinct = c.distinct.1;
  },
  refl,
)
  where
    tail :
        (xs : List Ptr)
        → IsQueue h q (x ∷ xs)
        → (if q.tail == x then null else q.tail) ≡ last_or null xs
    tail [] c = ground (arith, c.tail)
    tail (y ∷ xs) c =
        ground (arith, c.tail, ne_of_mem (last_or y xs) x (y ∷ xs) (last_or-mem y xs) c.distinct.0)

-- Unlinking a process that stands behind others, with the last of these as predecessor, leaves
-- a queue of the remaining processes in order and writes two links.
pub remove-behind :
    (h : Store) (q : ProcessQueue) (x : Ptr) (xs : List Ptr) (process : Ptr) (ys : List Ptr)
    → IsQueue h q (x ∷ (xs ++ (process ∷ ys)))
    → let (q', h') = remove_process_from q (last_or x xs) process h in
      IsQueue h' q' (x ∷ (xs ++ ys))
      × (h' ≡ set_next_ready (set_next_ready h (last_or x xs) (h process).next_ready) process null)
unfolding remove_process_from
remove-behind h q x xs process ys c = rw previous_ne (
  record {
    chain =
        Seg-append g q.head (x ∷ xs) (h process).next_ready ys null
          (Seg-relink h g q.head x xs (h (last_or x xs)).next_ready (h process).next_ready
            (Distinct-left (x ∷ xs) (process ∷ ys) c.distinct)
            (λ a i ne. ground (arith, ne_of_mem a process (x ∷ xs) i outside))
            (ground (arith, ne_of_mem previous process (x ∷ xs) (last_or-mem x xs) outside))
            (Seg-split h q.head x xs (process ∷ ys) null c.chain).0)
          (Seg-frame h g (h process).next_ready ys null
            (λ a i.
              ground (arith, ne_of_mem a process ys i behind.0, ne_of_mem a previous ys i last_out))
            (Seg-split h q.head x xs (process ∷ ys) null c.chain).1.2);
    tail = tail ys c;
    distinct = Distinct-remove (x ∷ xs) process ys c.distinct;
  },
  refl,
)
  where
    previous : Ptr
    previous = last_or x xs

    g : Store
    g = set_next_ready (set_next_ready h previous (h process).next_ready) process null

    previous_ne : (previous == null) ≡ false
    previous_ne = ground (
      arith,
      ne-null_of_mem h q.head (x ∷ (xs ++ (process ∷ ys))) null previous c.chain,
      has-append previous (x ∷ xs) (process ∷ ys),
      last_or-mem x xs,
    )

    behind : Distinct (process ∷ ys)
    behind = Distinct-right (x ∷ xs) (process ∷ ys) c.distinct

    outside : process ∉ x ∷ xs
    outside =
        ground (
          arith,
          not_mem_of_distinct (x ∷ xs) process ys c.distinct,
          has-append process (x ∷ xs) ys,
        )

    last_out : previous ∉ ys
    last_out =
        ground (arith, not_mem-right previous (x ∷ xs) (process ∷ ys) c.distinct, last_or-mem x xs)

    tail :
        (ys : List Ptr)
        → IsQueue h q (x ∷ (xs ++ (process ∷ ys)))
        → (if q.tail == process then last_or x xs else q.tail) ≡ last_or x (xs ++ ys)
    tail [] c = ground (arith, c.tail, last_or-append_cons x xs process [], append-nil xs)
    tail (y ∷ ys) c = ground (
      arith,
      c.tail,
      last_or-append_cons x xs process (y ∷ ys),
      last_or-append_cons x xs y ys,
      ne_of_mem (last_or y ys) process (y ∷ ys) (last_or-mem y ys)
          (Distinct-right (x ∷ xs) (process ∷ (y ∷ ys)) c.distinct).0,
    )

-- A removal changes links only.
pub remove_at :
    (q : ProcessQueue) (previous process : Ptr) (h : Store) (a : Ptr)
    → let h' = (remove_process_from q previous process h).1 in
      h' a ≡ record (h a) { next_ready = (h' a).next_ready }
unfolding remove_process_from
remove_at q previous process h a = ground arith
