-- ===== src/Queue/Sorted/Link.antt =====
-- The links of an insertion behind a process.
use demo_os.Base.{
  ◌≡◌, ◌≢◌, refl, List, [], ◌∷◌, ◌++◌, arith, ◌∉◌, has-append, last_or, last_or-mem,
  last_or-append_cons, Distinct-insert, Distinct-left, not_mem-right, ne_of_mem, if◌then◌else◌,
  ◌==◌,
}
use demo_os.Process.{Ptr, null, Store, set_next_ready}
use demo_os.Queue.{ProcessQueue, insert_after}
use demo_os.Queue.Chain.{Seg, IsQueue, Seg-frame, Seg-append, Seg-split, Seg-relink}

-- Linking a process behind the last of `x ∷ xs` puts it there.
pub insert_after-lem :
    (h : Store) (q : ProcessQueue) (x : Ptr) (xs ys : List Ptr) (process : Ptr)
    → IsQueue h q (x ∷ (xs ++ ys))
    → process ≢ null
    → process ∉ x ∷ (xs ++ ys)
    → IsQueue
        (insert_after q process h (last_or x xs)).1
        (insert_after q process h (last_or x xs)).0
        (x ∷ (xs ++ (process ∷ ys)))
unfolding insert_after
insert_after-lem h q x xs ys process c ne out = record {
  chain =
      Seg-append g q.head (x ∷ xs) process (process ∷ ys) null
        (Seg-relink h g q.head x xs (h (last_or x xs)).next_ready process
          (Distinct-left (x ∷ xs) ys c.distinct)
          (λ a i d. ground (arith, ne_of_mem a process (x ∷ xs) i out_left)) (ground arith) cut.0)
        (
          refl,
          ne,
          rw next_new (
              Seg-frame h g (h previous).next_ready ys null
                (λ a i.
                  ground
                    (arith, ne_of_mem a process ys i out_right, ne_of_mem a previous ys i last_out))
                cut.1),
        );
  tail = tail ys c cut.1;
  distinct = Distinct-insert (x ∷ xs) process ys c.distinct out;
}
  where
    previous : Ptr
    previous = last_or x xs

    g : Store
    g = set_next_ready (set_next_ready h process (h previous).next_ready) previous process

    cut : Seg h q.head (x ∷ xs) (h previous).next_ready × Seg h (h previous).next_ready ys null
    cut = Seg-split h q.head x xs ys null c.chain

    out_left : process ∉ x ∷ xs
    out_left = ground (arith, has-append process (x ∷ xs) ys)

    out_right : process ∉ ys
    out_right = ground (arith, has-append process (x ∷ xs) ys)

    last_out : previous ∉ ys
    last_out = not_mem-right previous (x ∷ xs) ys c.distinct (last_or-mem x xs)

    next_new : (g process).next_ready ≡ (h previous).next_ready
    next_new = ground (arith, ne_of_mem previous process (x ∷ xs) (last_or-mem x xs) out_left)

    tail :
        (ys : List Ptr)
        → IsQueue h q (x ∷ (xs ++ ys))
        → Seg h (h previous).next_ready ys null
        → (if (h previous).next_ready == null then process else q.tail)
          ≡ last_or x (xs ++ (process ∷ ys))
    tail [] c e = ground (arith, last_or-append_cons x xs process [])
    tail (y ∷ ys) c e = ground (
      arith,
      c.tail,
      e.0,
      e.1,
      last_or-append_cons x xs process (y ∷ ys),
      last_or-append_cons x xs y ys,
    )
