-- ===== src/Sched/Multilevel/Level.antt =====
-- libs/scheduler.c, `_schedule_multilevel`: the selection at the head of one level.
use demo_os.Base.{
  ℕ, zero, suc, ◌<◌, ◌≡◌, ◌≢◌, refl, sym, ap, ◌∙◌, true, false, Bool-cases, inl, inr, ◌==◌, ==-refl,
  ==_of_ne, List, [], ◌∷◌, arith, ◌∈◌, ◌∉◌, first_or, rest_of, length, ne_of_mem, Returns, returns,
  Returns-bind, Returns-mono,
}
use demo_os.Process.{Ptr, null, Pcb, Store, State, is_ready, is_stopped, set_next_ready}
use demo_os.Queue.{dequeue_process_from}
use demo_os.Queue.Chain.{IsQueue, IsQueue-frame}
use demo_os.Queue.Fifo.{Dequeued, dequeue-nil, dequeue-cons}
use demo_os.Kernel.{Kernel, QueueRef, dequeue_from}
use demo_os.Sched.Signals.Effect.{survives, is_ready-after_signals, Handled, handle-after_signals}
use demo_os.Sched.Pick.{dequeue_ready}
use demo_os.Sched.Pick.Drain.{survivors, survivors-cong}

-- The first process is READY.
abbrev pub HeadReady : Store → List Ptr → Type 0
HeadReady h [] = Unit
HeadReady h (z ∷ zs) = is_ready (h z).state ≡ true

-- The selection took the first of the survivors `zs` out of level `q`, which held `xs`.
pub record Popped (k : Kernel) (q : ℕ) (xs zs : List Ptr) (p : Ptr) (k' : Kernel) : Type 0 where
  pub process : p ≡ first_or null zs
  pub level : IsQueue k'.pcb (k'.ml_queues q) (rest_of zs)
  pub head : HeadReady k'.pcb zs
  pub others : (a : Ptr) → a ∉ xs → k'.pcb a ≡ k.pcb a
  pub queues : (i : ℕ) → i ≢ q → k'.ml_queues i ≡ k.ml_queues i
  pub behind : (a : Ptr) → a ∈ rest_of zs → k'.pcb a ≡ k.pcb a
  pub current : k'.current_process ≡ k.current_process

module _ (k : Kernel) (q : ℕ) (x : Ptr) (xs : List Ptr)
    (queue : IsQueue k.pcb (k.ml_queues q) (x ∷ xs)) (ready : (k.pcb x).state ≡ State.ready) where
  popped : Dequeued k.pcb x xs (dequeue_process_from (k.ml_queues q) k.pcb)
  popped = dequeue-cons k.pcb (k.ml_queues q) x xs queue

  popped_at :
      (a : Ptr) → (dequeue_from (QueueRef.ml_queue q) k).1.pcb a ≡ set_next_ready k.pcb x null a
  popped_at a = ap (λ (h : Store). h a) popped.store

  popped_not_stopped : is_stopped ((dequeue_from (QueueRef.ml_queue q) k).1.pcb x).state ≡ false
  popped_not_stopped = rw (popped_at x) (ground arith)

  module _ (k2 : Kernel) (h : Handled x (dequeue_from (QueueRef.ml_queue q) k).1 k2) where
    popped_verdict : is_ready (k2.pcb x).state ≡ survives (k.pcb x)
    popped_verdict =
        rw (h.self, popped_at x) (ground (arith, is_ready-after_signals (k.pcb x) null ready))

    popped_other : (a : Ptr) → a ≢ x → k2.pcb a ≡ k.pcb a
    popped_other a ne = h.others a ne ∙ popped_at a ∙ ground arith

    popped_queues : k2.ml_queues ≡ (dequeue_from (QueueRef.ml_queue q) k).1.ml_queues
    popped_queues = ap (λ (c : Kernel). c.ml_queues) h.rest

    popped_level : IsQueue k2.pcb (k2.ml_queues q) xs
    popped_level =
        rw (popped_queues, ==-refl q)
          (IsQueue-frame k2.pcb
            (λ a m.
              ap (λ (c : Pcb). c.next_ready) (h.others a (ne_of_mem a x xs m queue.distinct.0)))
            popped.queue)

    popped_elsewhere : (i : ℕ) → i ≢ q → k2.ml_queues i ≡ k.ml_queues i
    popped_elsewhere i ne = rw (popped_queues, ==_of_ne q i (λ same. ne (sym same))) refl

    stays-Popped : is_ready (k2.pcb x).state ≡ true → Popped k q (x ∷ xs) (x ∷ xs) x k2
    stays-Popped still = record {
      process = refl;
      level = popped_level;
      head = still;
      others = λ a out. popped_other a (ground arith);
      queues = popped_elsewhere;
      behind = λ a m. popped_other a (ne_of_mem a x xs m queue.distinct.0);
      current = ap (λ (c : Kernel). c.current_process) h.rest;
    }

    then-Popped :
        (zs : List Ptr) (p : Ptr) (k' : Kernel)
        → ((a : Ptr) → a ∈ rest_of zs → a ∈ xs)
        → Popped k2 q xs zs p k'
        → Popped k q (x ∷ xs) zs p k'
    then-Popped zs p k' inside w = record {
      process = w.process;
      level = w.level;
      head = w.head;
      others = λ a out. w.others a (ground arith) ∙ popped_other a (ground arith);
      queues = λ i ne. w.queues i ne ∙ popped_elsewhere i ne;
      behind =
          λ a m. w.behind a m ∙ popped_other a (ne_of_mem a x xs (inside a m) queue.distinct.0);
      current = w.current ∙ ap (λ (c : Kernel). c.current_process) h.rest;
    }

rest-survivors : (h : Store) (xs : List Ptr) (a : Ptr) → a ∈ rest_of (survivors h xs) → a ∈ xs
unfolding survivors
rest-survivors h [] a m = m
rest-survivors h (x ∷ xs) a m = elim (Bool-cases (survives (h x))) [
  | inl e ↦ let here : a ∈ xs = rw e at m in ground arith
  | inr e ↦ let later = rest-survivors h xs a (rw e at m) in ground arith
]

-- With more fuel than processes the selection ends with the first process that stays READY, or with
-- NULL if there is none.
pub dequeue_level-Popped :
    (fuel : ℕ) (k : Kernel) (q : ℕ) (xs : List Ptr)
    → IsQueue k.pcb (k.ml_queues q) xs
    → ((a : Ptr) → a ∈ xs → (k.pcb a).state ≡ State.ready)
    → length xs < fuel
    → Returns
        (λ (r : Ptr × Kernel). Popped k q xs (survivors k.pcb xs) r.0 r.1)
        (dequeue_ready fuel (QueueRef.ml_queue q) k)
unfolding dequeue_ready survivors
dequeue_level-Popped zero k q xs queue ready enough = absurd (omega arith)
dequeue_level-Popped (suc fuel) k q [] queue ready enough =
    rw (dequeue-nil k.pcb (k.ml_queues q) queue) (
      returns (record {
        process = refl;
        level = rw (==-refl q) queue;
        head = tt;
        others = λ a out. refl;
        queues = λ i ne. rw (==_of_ne q i (λ same. ne (sym same))) refl;
        behind = λ a m. refl;
        current = refl;
      }))
dequeue_level-Popped (suc fuel) k q (x ∷ xs) queue ready enough =
    let first = ready x (ground arith) in
    let not_null : (x == null) ≡ false = ground (arith, queue.chain.1) in
    rw ((popped k q x xs queue first).process, not_null)
      (Returns-bind
        (handle-after_signals x (dequeue_from (QueueRef.ml_queue q) k).1
          (popped_not_stopped k q x xs queue first))
        (λ k2 h.
          let verdict = popped_verdict k q x xs queue first k2 h in
          let other = popped_other k q x xs queue first k2 h in
          elim (Bool-cases (is_ready (k2.pcb x).state)) [
            | inl still ↦
                rw (still, ← verdict, still)
                  (returns (stays-Popped k q x xs queue first k2 h still))
            | inr gone ↦
                let same : ((a : Ptr) → a ∈ xs → k2.pcb a ≡ k.pcb a) =
                  λ a m. other a (ne_of_mem a x xs m queue.distinct.0) in
                rw
                  (
                    gone,
                    ← verdict,
                    gone,
                    ← survivors-cong k2.pcb k.pcb xs (λ a m. ap survives (same a m)),
                  )
                  (Returns-mono
                    (dequeue_level-Popped fuel k2 q xs (popped_level k q x xs queue first k2 h)
                      (λ a m. ap (λ (c : Pcb). c.state) (same a m) ∙ ready a (ground arith))
                      (omega arith))
                    (λ r w.
                      then-Popped k q x xs queue first k2 h (survivors k2.pcb xs) r.0 r.1
                        (rest-survivors k2.pcb xs) w))
          ]))
