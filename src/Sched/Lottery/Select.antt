-- ===== src/Sched/Lottery/Select.antt =====
-- The repeated draw ends, and finds a process that may run if there is one.
use mathlib.Core.Path.{subst}
use demo_os.Base.{
  ℕ, zero, suc, ◌+◌, ◌%◌, ◌<◌, ◌≤◌, ◌≡◌, ◌≢◌, refl, sym, ap, ◌∙◌, true, false, ◌==◌, if◌then◌else◌,
  List, [], ◌∷◌, ◌++◌, arith, has, ◌∈◌, last_or, length, length-append, Bool-cases, inl, inr,
  ==_iff, Returns, returns, Returns-bind, Returns-mono, Option, some, ne_of_mem, ◌∉◌,
}
use demo_os.Base.Int.{pos}
use demo_os.Process.{Ptr, null, init_process, n_processes_max, Store, is_ready}
use demo_os.Kernel.{Kernel, QueueRef, remove_from}
use demo_os.Sched.Signals.Effect.{Handled, survives, handle-after_signals}
use demo_os.Sched.Pick.{queue_fuel, recharge, dispatch}
use demo_os.Sched.Pick.RoundRobin.{parked, survives_parked, length-requeued}
use demo_os.Sched.Lottery.{effective_tickets, lottery_random, one_draw, draw, schedule_lottery}
use demo_os.Sched.Lottery.Draw.{tickets_of, count_tickets-sum, find_winner-holder, find-Holder}
use demo_os.Sched.Invariant.{Inv, Parked, Chosen}
use demo_os.Sched.Steps.{
  Removed, dropped-Parked, Chosen-unlinked, requeued, Runs, dispatch-Runs, dispatch-idle,
  recharge-Chosen, counter-dispatch,
}
use demo_os.Sched.Unlink.{removed_at, remove-Removed, verdict, survives_other, unlinked_not_stopped}

-- What the draw returns for the queue `xs` of the store `h`.
pub data Drawn (h : Store) (xs : List Ptr) : Ptr × Kernel → Type 0 where
  nobody :
      {k : Kernel}
      → Parked k []
      → ((a : Ptr) → a ∈ xs → survives (h a) ≡ false)
      → Drawn h xs (null, k)
  won :
      {p : Ptr} {k : Kernel} (ys : List Ptr)
      → Chosen k p ys
      → p ∈ xs
      → survives (h p) ≡ true
      → Drawn h xs (p, k)

random-Parked : (k : Kernel) (xs : List Ptr) → Parked k xs → Parked (lottery_random k).1 xs
unfolding lottery_random
random-Parked k xs p = record {
  queue = p.queue;
  ready = p.ready;
  complete = p.complete;
  running = p.running;
  idle_out = p.idle_out;
}

pcb-random : (k : Kernel) → (lottery_random k).1.pcb ≡ k.pcb
unfolding lottery_random
pcb-random k = refl

-- The result for the processes that are left is one for the whole queue.
Drawn-step :
    (h g : Store) (x : Ptr) (xs ys : List Ptr) (r : Ptr × Kernel)
    → ((a : Ptr) → has a xs ≡ has a (x ∷ ys))
    → ((a : Ptr) → a ≢ x → survives (g a) ≡ survives (h a))
    → survives (h x) ≡ false
    → x ∉ ys
    → Drawn g ys r
    → Drawn h xs r
Drawn-step h g x xs ys r members same gone out (nobody p doomed) = nobody p λ a m.
    elim (Bool-cases (a == x)) [
      | inl e ↦ rw ((==_iff a x).0 e) gone
      | inr e ↦ ground (arith, same a, doomed a, members a)
    ]
Drawn-step h g x xs ys r members same gone out (won {p} zs c m s) =
    won zs c (ground (arith, members p)) (ground (arith, same p, ne_of_mem p x ys m out))

tickets_pos : (h : Store) (x : Ptr) (xs : List Ptr) → 0 < tickets_of h (x ∷ xs)
unfolding tickets_of
tickets_pos h x xs = ground arith

-- One draw from a queue with the given holder of the winning ticket, when the later draws are
-- known to succeed.
module _ (k : Kernel) (front : List Ptr) (x : Ptr) (back : List Ptr)
    (p : Parked k (front ++ (x ∷ back))) where
  won_or_again :
      (k2 : Kernel) (again : Option (Ptr × Kernel))
      → Handled x (remove_from QueueRef.ready_queue (last_or null front) x k) k2
      → (Parked k2 (front ++ back) → Returns (Drawn k2.pcb (front ++ back)) again)
      → Returns
          (Drawn k.pcb (front ++ (x ∷ back)))
          (if is_ready (k2.pcb x).state then some (x, k2) else again)
  won_or_again k2 again h rest = elim (Bool-cases (is_ready (k2.pcb x).state)) [
    | inl still ↦ rw still (
        returns (won (front ++ back) (Chosen-unlinked p r h still) member (sym verdict_eq ∙ still)))
    | inr gone ↦ rw gone (
        Returns-mono (rest (dropped-Parked p r h gone)) (λ a d.
          Drawn-step k.pcb k2.pcb x _ (front ++ back) _ r.members (survives_other k k1 k2 x h same)
            (sym verdict_eq ∙ gone) r.out d))
  ]
    where
      k1 : Kernel
      k1 = remove_from QueueRef.ready_queue (last_or null front) x k

      r : Removed k k1 x (front ++ (x ∷ back)) (front ++ back)
      r = remove-Removed k x front back p

      same : (a : Ptr) → k1.pcb a ≡ record (k.pcb a) { next_ready = (k1.pcb a).next_ready }
      same = removed_at k x (last_or null front)

      member : x ∈ front ++ (x ∷ back)
      member = ground (arith, r.members x)

      verdict_eq : is_ready (k2.pcb x).state ≡ survives (k.pcb x)
      verdict_eq = verdict k k1 k2 x h same (p.ready x member)

one_draw_held :
    (k : Kernel) (winner : ℕ) (again : Kernel → Option (Ptr × Kernel)) (front : List Ptr) (x : Ptr)
    (back : List Ptr)
    → Parked k (front ++ (x ∷ back))
    → tickets_of k.pcb front ≤ winner
    → winner < tickets_of k.pcb front + effective_tickets (k.pcb x)
    → length (front ++ (x ∷ back)) < queue_fuel
    → ((k2 : Kernel)
        → Parked k2 (front ++ back)
        → Returns (Drawn k2.pcb (front ++ back)) (again k2))
    → Returns (Drawn k.pcb (front ++ (x ∷ back))) (one_draw winner k again)
unfolding one_draw
one_draw_held k winner again front x back p lo hi f rest =
    rw
      (find_winner-holder k.pcb k.ready_queue.head front x back queue_fuel winner p.queue.chain
        (omega (arith, length-append front (x ∷ back))) lo hi)
      (Returns-bind
        (handle-after_signals x _ (unlinked_not_stopped k _ x p (remove-Removed k x front back p)))
        λ k2 h. won_or_again k front x back p k2 (again k2) h (rest k2))

one_draw-Drawn :
    (k : Kernel) (winner : ℕ) (again : Kernel → Option (Ptr × Kernel)) (xs : List Ptr)
    → Parked k xs
    → winner < tickets_of k.pcb xs
    → length xs < queue_fuel
    → ((k2 : Kernel) (ys : List Ptr)
        → Parked k2 ys
        → length ys < length xs
        → Returns (Drawn k2.pcb ys) (again k2))
    → Returns (Drawn k.pcb xs) (one_draw winner k again)
one_draw-Drawn k winner again xs p w f rest =
    subst (λ zs. Returns (Drawn k.pcb zs) (one_draw winner k again)) (sym parts)
      (one_draw_held k winner again front x back (rw parts at p) above below (rw parts at f)
        λ k2 p2. rest k2 (front ++ back) p2 (
          omega (arith, ap length parts, length-append front (x ∷ back), length-append front back)))
  where
    open (find-Holder k.pcb winner xs w) use {front, x, back, parts, above, below}

nil_tickets : (h : Store) → (0 + tickets_of h [] == 0) ≡ true
unfolding tickets_of
nil_tickets h = refl

-- The draw ends if there are more rounds than processes. It returns a process of the queue that
-- neither KILL nor STOP is pending for, or NULL if there is none.
pub draw-Drawn :
    (rounds : ℕ) (k : Kernel) (xs : List Ptr)
    → Parked k xs
    → length xs < rounds
    → length xs < queue_fuel
    → Returns (Drawn k.pcb xs) (draw rounds k)
unfolding draw
draw-Drawn zero k xs p l f = elim l [ ]
draw-Drawn (suc rounds) k [] p l f =
    rw
      (
        count_tickets-sum queue_fuel k.pcb k.ready_queue.head [] 0 p.queue.chain f,
        nil_tickets k.pcb,
      )
      (returns (nobody p (λ a m. cc)))
draw-Drawn (suc rounds) k (x ∷ xs) p l f =
    let total : ℕ = 0 + tickets_of k.pcb (x ∷ xs) in
    rw
      (
        count_tickets-sum queue_fuel k.pcb k.ready_queue.head (x ∷ xs) 0 p.queue.chain f,
        some_tickets,
      )
      (subst
        (λ h.
          Returns (Drawn h (x ∷ xs))
            (one_draw ((lottery_random k).0 % total) (lottery_random k).1 (draw rounds)))
        (pcb-random k)
        (one_draw-Drawn (lottery_random k).1 ((lottery_random k).0 % total) (draw rounds) (x ∷ xs)
          (random-Parked k (x ∷ xs) p) (rw pcb-random (omega (arith, tickets_pos k.pcb x xs))) f
          (λ k2 ys p2 l2. draw-Drawn rounds k2 ys p2 (omega arith) (omega arith))))
  where
    some_tickets : (0 + tickets_of k.pcb (x ∷ xs) == 0) ≡ false
    some_tickets = ground (arith, tickets_pos k.pcb x xs)

-- The outcome of a lottery among the processes `xs`: a process of them that neither KILL nor STOP
-- is pending for runs with the quantum of 10 ticks, or, if there is none, the idle task.
pub data LotteryRuns (h : Store) (xs : List Ptr) (k : Kernel) : Type 0 where
  idle : Runs k init_process [] → ((a : Ptr) → a ∈ xs → survives (h a) ≡ false) → LotteryRuns h xs k
  winner :
      (p : Ptr) (ys : List Ptr)
      → Runs k p ys
      → p ∈ xs
      → survives (h p) ≡ true
      → (k.pcb p).counter ≡ pos 10
      → LotteryRuns h xs k

dispatched_winner :
    (h : Store) (xs : List Ptr) (p : Ptr) (k : Kernel)
    → Drawn h xs (p, k)
    → LotteryRuns h xs (dispatch p (if p == null then k else recharge p 10 k))
unfolding recharge
dispatched_winner h xs p k (nobody i doomed) = idle (dispatch-idle k i) doomed
dispatched_winner h xs p k (won ys c m s) =
    let not_null : (p == null) ≡ false = ground (arith, c.ne_null) in
    rw not_null (
      winner p ys (dispatch-Runs (recharge p 10 k) p ys (recharge-Chosen k 10 p ys c)) m s
        (counter-dispatch p (recharge p 10 k) p ∙ ground arith))

LotteryRuns-cong :
    (g h : Store) (xs : List Ptr) (k : Kernel)
    → ((a : Ptr) → survives (g a) ≡ survives (h a))
    → LotteryRuns g xs k
    → LotteryRuns h xs k
LotteryRuns-cong g h xs k same (idle r doomed) = idle r (λ a m. sym (same a) ∙ doomed a m)
LotteryRuns-cong g h xs k same (winner p ys r m s c) = winner p ys r m (sym (same p) ∙ s) c

-- The lottery, from a kernel that satisfies the ready-queue invariant with fewer than 64 queued
-- processes, ends for every random state, re-establishes the invariant, and runs a process of
-- the queue (the outgoing one included) that neither KILL nor STOP is pending for, with a
-- quantum of 10 ticks. The idle task runs only if there is no such process.
pub schedule_lottery-LotteryRuns :
    (k : Kernel) (xs : List Ptr)
    → Inv k xs
    → length xs < n_processes_max
    → Returns (LotteryRuns k.pcb (requeued k xs)) (schedule_lottery k)
unfolding schedule_lottery
schedule_lottery-LotteryRuns k xs i l =
    Returns-bind
      (draw-Drawn queue_fuel _ (requeued k xs) (parked k xs i) (omega (arith, length-requeued k xs))
        (omega (arith, length-requeued k xs)))
      λ (p, k1) d. returns (
        LotteryRuns-cong _ k.pcb (requeued k xs) _ (survives_parked k xs i)
          (dispatched_winner _ (requeued k xs) p k1 d))
