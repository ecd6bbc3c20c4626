-- ===== src/Sched/Multilevel/Boost.antt =====
-- The boost of MLFQ: the processes of a lower level go behind those of the highest one.
use demo_os.Base.{
  ℕ, zero, suc, ◌<◌, ◌≡◌, ◌≢◌, refl, sym, false, ◌==◌, update, arith, inl, inr, List, [], ◌∷◌, ◌++◌,
  length, ◌∈◌, ◌∉◌, Distinct, has, has-append, Distinct-remove, not_mem_of_distinct, not_mem-right,
  ne_of_mem, last_or, last_or-mem, Bool-cases, ==-refl, ==_of_ne, Returns, returns,
}
use mathlib.Core.List.{append-nil, append_assoc}
use demo_os.Process.{Ptr, null, init_process, Store, set_next_ready}
use demo_os.Queue.{ProcessQueue, is_ignored, enqueue_process_to, dequeue_process_from}
use demo_os.Queue.Chain.{IsQueue, IsQueue-frame}
use demo_os.Queue.Fifo.{enqueued, Enqueued, enqueue-append, dequeue-cons, dequeue-nil}
use demo_os.Kernel.{Kernel, QueueRef, enqueue_to}
use demo_os.Sched.Multilevel.{boost_queue}

-- The highest level holds `xs`, and level `q` holds `ys`.
pub record Levels (q : ℕ) (xs ys : List Ptr) (k : Kernel) : Type 0 where
  pub top : IsQueue k.pcb (k.ml_queues 0) xs
  pub low : IsQueue k.pcb (k.ml_queues q) ys
  pub distinct : Distinct (xs ++ ys)
  pub idle_out : init_process ∉ ys

disjoint : (a : Ptr) (xs ys : List Ptr) → Distinct (xs ++ ys) → a ∈ ys → a ∉ xs
disjoint a xs ys d m = elim (Bool-cases (has a xs)) [
  | inl i ↦ let o = not_mem-right a xs ys d i in absurd (cc)
  | inr o ↦ o
]

enqueued-link :
    (h : Store) (xs : List Ptr) (p a : Ptr)
    → a ≢ p
    → a ∉ xs
    → (enqueued h xs p a).next_ready ≡ (h a).next_ready
enqueued-link h [] p a ne out = rw (==_of_ne p a (λ same. ne (sym same))) refl
enqueued-link h (x ∷ xs) p a ne out =
    rw
      (
        ==_of_ne (last_or x xs) a (ne_of_mem (last_or x xs) a (x ∷ xs) (last_or-mem x xs) out),
        ==_of_ne p a (λ same. ne (sym same)),
      )
      refl

-- The kernel after one process moved, behind the removal that left the queue `qq`.
abbrev moved : ℕ → Ptr → ProcessQueue → Store → Kernel → Kernel
moved q p qq h k =
    let k1 = record k { ml_queues = update k.ml_queues q qq; pcb = h } in
    enqueue_to (QueueRef.ml_queue 0) p
      (record k1 { queue_level = update k1.queue_level (k1.pcb p).pid 0 })

moved-Levels :
    (q : ℕ) (p : Ptr) (xs ys : List Ptr) (qq : ProcessQueue) (h : Store) (k : Kernel)
    → q ≢ 0
    → Levels q xs (p ∷ ys) k
    → IsQueue h qq ys
    → h ≡ set_next_ready k.pcb p null
    → Levels q (xs ++ (p ∷ [])) ys (moved q p qq h k)
moved-Levels q p xs ys qq h k ne l low e =
    let out_all : p ∉ xs ++ ys = not_mem_of_distinct xs p ys l.distinct in
    let out : p ∉ xs = ground (arith, has-append p xs ys) in
    let rest : Distinct (xs ++ ys) = Distinct-remove xs p ys l.distinct in
    let top : IsQueue h (k.ml_queues 0) xs = rw e (
      IsQueue-frame (set_next_ready k.pcb p null)
        (λ a m. rw (==_of_ne p a (λ same. ne_of_mem a p xs m out (sym same))) refl) l.top) in
    let ignored : is_ignored p ≡ false =
      let not_null = l.low.chain.1 in let not_idle = l.idle_out in ground arith in
    let e0 : Enqueued h xs p (enqueue_process_to (k.ml_queues 0) p h) =
      enqueue-append h (k.ml_queues 0) xs p top ignored out in
    rw (==_of_ne q 0 ne) (record {
      top = e0.queue;
      low =
          rw (==_of_ne 0 q (λ same. ne (sym same)), ==-refl q, e0.store)
            (IsQueue-frame (enqueued h xs p)
              (λ a m.
                enqueued-link h xs p a (ne_of_mem a p ys m l.low.distinct.0)
                  (disjoint a xs ys rest m))
              low);
      distinct = rw (append_assoc xs (p ∷ []) ys) l.distinct;
      idle_out = let i = l.idle_out in ground arith;
    })

emptied-Levels :
    (q : ℕ) (xs zs : List Ptr) (k : Kernel)
    → q ≢ 0
    → zs ≡ xs
    → Levels q xs [] k
    → Levels q zs [] (record k { ml_queues = update k.ml_queues q (k.ml_queues q) })
emptied-Levels q xs zs k ne e l = record {
  top = rw (e, ==_of_ne q 0 ne) l.top;
  low = rw (==-refl q) l.low;
  distinct = rw e l.distinct;
  idle_out = refl;
}

-- The boost of a level below the highest one, whose queue has fewer processes than the fuel,
-- ends: the processes of that level stand behind those of the highest level, in order, and the
-- level is empty. It is asked that the two queues have no process in common and that the idle
-- task is not in the lower one.
pub boost_queue-Levels :
    (fuel q : ℕ) (xs ys : List Ptr) (k : Kernel)
    → q ≢ 0
    → Levels q xs ys k
    → length ys < fuel
    → Returns (Levels q (xs ++ ys) []) (boost_queue fuel q k)
unfolding boost_queue
boost_queue-Levels zero q xs ys k ne l enough = absurd (omega arith)
boost_queue-Levels (suc fuel) q xs [] k ne l enough =
    rw (dequeue-nil k.pcb (k.ml_queues q) l.low)
      (returns (emptied-Levels q xs (xs ++ []) k ne (append-nil xs) l))
boost_queue-Levels (suc fuel) q xs (p ∷ ys) k ne l enough =
    let d = dequeue-cons k.pcb (k.ml_queues q) p ys l.low in
    let not_null : (p == null) ≡ false = let n = l.low.chain.1 in ground arith in
    let r = dequeue_process_from (k.ml_queues q) k.pcb in
    rw (d.process, not_null, ← append_assoc xs (p ∷ []) ys)
      (boost_queue-Levels fuel q (xs ++ (p ∷ [])) ys (moved q p r.1 r.2 k) ne
        (moved-Levels q p xs ys r.1 r.2 k ne l d.queue d.store) (omega arith))
