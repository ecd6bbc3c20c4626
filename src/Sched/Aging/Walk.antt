-- ===== src/Sched/Aging/Walk.antt =====
-- libs/scheduler.c, `_schedule_priority_aging`: one pass over the queue, with the signals of each
-- process that it meets.
use mathlib.Core.List.{append_assoc}
use demo_os.Base.{
  ℕ, zero, suc, ◌<◌, ◌≡◌, ◌≢◌, refl, sym, ap, ◌∙◌, true, false, Bool-cases, inl, inr, ◌==◌, ==_iff,
  List, [], ◌∷◌, ◌++◌, arith, ◌∈◌, last_or, last_or-append, first_or, length, ne_of_mem, Returns,
  returns, Returns-bind, Returns-mono, not_mem_of_distinct, has-append,
}
use demo_os.Process.{Ptr, null, init_process, Pcb, Store, State, is_ready, is_stopped}
use demo_os.Queue.Chain.{IsQueue, IsQueue-frame, Seg, ne-null_of_mem}
use demo_os.Kernel.{Kernel, QueueRef, remove_from}
use demo_os.Sched.Signals.Effect.{
  Handled, survives, after_signals, handle-after_signals, is_ready-after_signals,
  next_ready-after_signals, after_signals-ne-running,
}
use demo_os.Sched.Invariant.{Parked}
use demo_os.Sched.Steps.{Removed}
use demo_os.Sched.Unlink.{removed_at, queue-Removed}
use demo_os.Sched.Aging.{Best, walk, consider}
use demo_os.Sched.Aging.Scan.{surviving, scan, scan-cong, surviving-cong}

-- What a pass leaves alone in every control block.
pub record Quiet (k k' : Kernel) : Type 0 where
  pub counter : (a : Ptr) → (k'.pcb a).counter ≡ (k.pcb a).counter
  pub priority : (a : Ptr) → (k'.pcb a).priority ≡ (k.pcb a).priority
  pub survive : (a : Ptr) → survives (k.pcb a) ≡ true → survives (k'.pcb a) ≡ true
  pub table : k'.processes ≡ k.processes

Quiet-refl : (k : Kernel) → Quiet k k
Quiet-refl k = record {
  counter = λ a. refl;
  priority = λ a. refl;
  survive = λ a s. s;
  table = refl;
}

pub Quiet-trans : (k k1 k2 : Kernel) → Quiet k k1 → Quiet k1 k2 → Quiet k k2
Quiet-trans k k1 k2 p q = record {
  counter = λ a. q.counter a ∙ p.counter a;
  priority = λ a. q.priority a ∙ p.priority a;
  survive = λ a s. q.survive a (p.survive a s);
  table = q.table ∙ p.table;
}

counter-after_signals : (c : Pcb) → (after_signals c).counter ≡ c.counter
counter-after_signals c = ground arith

priority-after_signals : (c : Pcb) → (after_signals c).priority ≡ c.priority
priority-after_signals c = ground arith

survives-after_signals : (c : Pcb) → survives c ≡ true → survives (after_signals c) ≡ true
unfolding survives
survives-after_signals c s = ground arith

-- A property of control blocks that the signals of one keep.
Handled-keeps :
    (P : Pcb → Pcb → Type 0) (x : Ptr) (k k1 : Kernel)
    → Handled x k k1
    → ((c : Pcb) → P c (after_signals c))
    → ((c : Pcb) → P c c)
    → (a : Ptr) → P (k.pcb a) (k1.pcb a)
Handled-keeps P x k k1 h self other a = elim (Bool-cases (a == x)) [
  | inl e ↦ let same = (==_iff a x).0 e in rw (same, h.self) (self (k.pcb x))
  | inr e ↦ rw (h.others a (ground arith)) (other (k.pcb a))
]

Handled-Quiet : (x : Ptr) (k k1 : Kernel) → Handled x k k1 → Quiet k k1
Handled-Quiet x k k1 h = record {
  counter = Handled-keeps (λ c d. d.counter ≡ c.counter) x k k1 h counter-after_signals (λ c. refl);
  priority =
      Handled-keeps (λ c d. d.priority ≡ c.priority) x k k1 h priority-after_signals (λ c. refl);
  survive =
      Handled-keeps (λ c d. survives c ≡ true → survives d ≡ true) x k k1 h survives-after_signals
        (λ c s. s);
  table = ap (λ (c : Kernel). c.processes) h.rest;
}

survives_link : (c d : Pcb) (n : Ptr) → c ≡ record d { next_ready = n } → survives c ≡ survives d
unfolding survives
survives_link c d n e = rw e refl

removed-Quiet :
    (k : Kernel) (previous x : Ptr) → Quiet k (remove_from QueueRef.ready_queue previous x k)
removed-Quiet k previous x =
    let at = removed_at k x previous in
    record {
      counter = λ a. ap (λ (c : Pcb). c.counter) (at a);
      priority = λ a. ap (λ (c : Pcb). c.priority) (at a);
      survive = λ a s. survives_link _ _ _ (at a) ∙ s;
      table = refl;
    }

-- The link of a process leads to the one behind it.
Seg-next :
    (h : Store) (p : Ptr) (front : List Ptr) (x : Ptr) (back : List Ptr)
    → Seg h p (front ++ (x ∷ back)) null
    → (h x).next_ready ≡ first_or null back
Seg-next h p [] x [] s = s.2
Seg-next h p [] x (y ∷ back) s = s.2.0
Seg-next h p (y ∷ front) x back s = Seg-next h (h y).next_ready front x back s.2

module _ (k k1 : Kernel) (front : List Ptr) (x : Ptr) (back : List Ptr)
    (p : Parked k (front ++ (x ∷ back))) (h : Handled x k k1) where
  in_queue : x ∈ front ++ (x ∷ back)
  in_queue = ground (arith, has-append x front (x ∷ back))

  queue_handled : IsQueue k1.pcb k1.ready_queue (front ++ (x ∷ back))
  queue_handled = rw (ap (λ (c : Kernel). c.ready_queue) h.rest) (
      IsQueue-frame k1.pcb
        (λ a m.
          Handled-keeps (λ c d. d.next_ready ≡ c.next_ready) x k k1 h next_ready-after_signals
            (λ c. refl) a)
        p.queue)

  state_other : (a : Ptr) → a ≢ x → (k1.pcb a).state ≡ (k.pcb a).state
  state_other a ne = ap (λ (c : Pcb). c.state) (h.others a ne)

  current_handled : k1.current_process ≡ k.current_process
  current_handled = ap (λ (c : Kernel). c.current_process) h.rest

  not_running : (k1.pcb x).state ≢ State.running
  not_running = rw h.self (after_signals-ne-running (k.pcb x) (p.ready x in_queue))

  verdict_handled : is_ready (k1.pcb x).state ≡ survives (k.pcb x)
  verdict_handled =
      rw h.self (is_ready-after_signals (k.pcb x) (k.pcb x).next_ready (p.ready x in_queue))

  running_handled :
      (a : Ptr) → (k1.pcb a).state ≡ State.running → (a ≡ init_process) × (a ≡ k1.current_process)
  running_handled a e = elim (Bool-cases (a == x)) [
    | inl same ↦ absurd (not_running (rw ((==_iff a x).0 same) at e))
    | inr other ↦ ground (arith, p.running a, state_other a, current_handled)
  ]

  -- It stays in the queue.
  pub kept-Parked : is_ready (k1.pcb x).state ≡ true → Parked k1 (front ++ (x ∷ back))
  kept-Parked still = record {
    queue = queue_handled;
    ready = λ a m. elim (Bool-cases (a == x)) [
      | inl same ↦ rw ((==_iff a x).0 same) (ground arith)
      | inr other ↦ ground (arith, state_other a, p.ready a)
    ];
    complete = λ a e ne. elim (Bool-cases (a == x)) [
      | inl same ↦ rw ((==_iff a x).0 same) in_queue
      | inr other ↦ ground (arith, state_other a, p.complete a)
    ];
    running = running_handled;
    idle_out = p.idle_out;
  }

  -- It is unlinked.
  pub unlinked-Parked :
      is_ready (k1.pcb x).state ≡ false
      → Parked (remove_from QueueRef.ready_queue (last_or null front) x k1) (front ++ back)
  unlinked-Parked gone =
      let k2 = remove_from QueueRef.ready_queue (last_or null front) x k1 in
      let r : Removed k1 k2 x (front ++ (x ∷ back)) (front ++ back) =
        queue-Removed k1 x front back queue_handled in
      record {
        queue = r.queue;
        ready = λ a m.
            let ne : a ≢ x = ne_of_mem a x (front ++ back) m r.out in
            r.states a ∙ state_other a ne ∙ p.ready a (ground (arith, r.members a));
        complete = λ a e ne.
            let e1 : (k1.pcb a).state ≡ State.ready = sym (r.states a) ∙ e in
            elim (Bool-cases (a == x)) [
              | inl same ↦
                  let at : (k1.pcb x).state ≡ State.ready = rw ((==_iff a x).0 same) at e1 in
                  absurd (ground arith)
              | inr other ↦ ground (arith, state_other a, p.complete a, r.members a)
            ];
        running = λ a e. running_handled a (sym (r.states a) ∙ e);
        idle_out = ground (arith, r.members init_process, p.idle_out);
      }

-- What a pass over `rest` returns, behind the processes `front` of the queue.
pub record Walked (k : Kernel) (front rest : List Ptr) (b b' : Best) (k' : Kernel) : Type 0 where
  pub parked : Parked k' (front ++ surviving k.pcb rest)
  pub best : b' ≡ scan k.pcb (last_or null front) (surviving k.pcb rest) b
  pub quiet : Quiet k k'

-- A pass over what is behind a process that stays, or that was unlinked.
module _ (k k1 : Kernel) (front : List Ptr) (x : Ptr) (back : List Ptr) (b : Best)
    (p : Parked k (front ++ (x ∷ back))) (h : Handled x k k1) where
  same_behind : surviving k1.pcb back ≡ surviving k.pcb back
  same_behind =
      let out = not_mem_of_distinct front x back p.queue.distinct in
      surviving-cong k1.pcb k.pcb back (λ a m.
        ap survives (
          h.others a (ne_of_mem a x (front ++ back) (ground (arith, has-append a front back)) out)))

  after_kept :
      survives (k.pcb x) ≡ true
      → (r : Best × Kernel)
      → Walked k1
          (front ++ (x ∷ []))
          back
          (consider (last_or null front) x (k1.pcb x).counter b)
          r.0
          r.1
      → Walked k front (x ∷ back) b r.0 r.1
  after_kept stays r w =
      let quiet = Handled-Quiet x k k1 h in
      record {
        parked =
            rw (stays, ← append_assoc front (x ∷ []) (surviving k.pcb back), ← same_behind)
              w.parked;
        best = rw stays (
            w.best
            ∙ rw (last_or-append null front x, same_behind, quiet.counter x)
                (scan-cong k1.pcb k.pcb x (surviving k.pcb back) _ quiet.counter));
        quiet = Quiet-trans k k1 r.1 quiet w.quiet;
      }

  after_dropped :
      survives (k.pcb x) ≡ false
      → (r : Best × Kernel)
      → Walked (remove_from QueueRef.ready_queue (last_or null front) x k1) front back b r.0 r.1
      → Walked k front (x ∷ back) b r.0 r.1
  after_dropped goes r w =
      let previous = last_or null front in
      let k2 = remove_from QueueRef.ready_queue previous x k1 in
      let quiet : Quiet k k2 =
        Quiet-trans k k1 k2 (Handled-Quiet x k k1 h) (removed-Quiet k1 previous x) in
      let same : surviving k2.pcb back ≡ surviving k.pcb back =
        surviving-cong k2.pcb k1.pcb back (λ a m. survives_link _ _ _ (removed_at k1 x previous a))
        ∙ same_behind in
      record {
        parked = rw (goes, ← same) w.parked;
        best = rw goes (
            w.best
            ∙ rw same (scan-cong k2.pcb k.pcb previous (surviving k.pcb back) b quiet.counter));
        quiet = Quiet-trans k k2 r.1 quiet w.quiet;
      }

pub walk-Walked :
    (fuel : ℕ) (k : Kernel) (front rest : List Ptr) (previous node : Ptr) (b : Best)
    → Parked k (front ++ rest)
    → previous ≡ last_or null front
    → node ≡ first_or null rest
    → length rest < fuel
    → Returns (λ (r : Best × Kernel). Walked k front rest b r.0 r.1) (walk fuel previous node b k)
unfolding walk
walk-Walked zero k front rest previous node b p ep en enough = absurd (omega arith)
walk-Walked (suc fuel) k front [] previous node b p ep en enough =
    rw en (returns (record { parked = p; best = refl; quiet = Quiet-refl k }))
walk-Walked (suc fuel) k front (x ∷ back) previous node b p ep en enough =
    let here = has-append x front (x ∷ back) in
    let ne_null =
      ne-null_of_mem k.pcb k.ready_queue.head (front ++ (x ∷ back)) null x p.queue.chain
        (ground arith) in
    let not_null : (x == null) ≡ false = ground arith in
    let not_stopped : is_stopped (k.pcb x).state ≡ false = ground (arith, p.ready x) in
    let next = Seg-next k.pcb k.ready_queue.head front x back p.queue.chain in
    rw (en, not_null)
      (Returns-bind (handle-after_signals x k not_stopped) (λ k1 h.
        let verdict = verdict_handled k k1 front x back p h in
        elim (Bool-cases (is_ready (k1.pcb x).state)) [
          | inl still ↦
              rw (still, ep)
                (Returns-mono
                  (walk-Walked fuel k1 (front ++ (x ∷ [])) back x (k.pcb x).next_ready _
                    (rw (append_assoc front (x ∷ []) back)
                      (kept-Parked k k1 front x back p h still))
                    (sym (last_or-append null front x)) next (omega arith))
                  (after_kept k k1 front x back b p h (sym verdict ∙ still)))
          | inr gone ↦
              rw (gone, ep)
                (Returns-mono
                  (walk-Walked fuel (remove_from QueueRef.ready_queue (last_or null front) x k1)
                    front back (last_or null front) (k.pcb x).next_ready b
                    (unlinked-Parked k k1 front x back p h gone) refl next (omega arith))
                  (after_dropped k k1 front x back b p h (sym verdict ∙ gone)))
        ]))
