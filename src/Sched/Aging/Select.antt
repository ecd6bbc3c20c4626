-- ===== src/Sched/Aging/Select.antt =====
-- libs/scheduler.c, `_schedule_priority_aging`: the choice at the end of a pass, the next epoch, and
-- the whole selection.
use demo_os.Base.{
  ℕ, zero, suc, ◌+◌, ◌<◌, ◌≤◌, ◌≡◌, ◌≢◌, ◌⊎◌, refl, sym, ap, ◌∙◌, true, false, Bool-cases, inl, inr,
  ◌==◌, ==_iff, if◌then◌else◌, List, [], ◌∷◌, ◌++◌, arith, ◌∈◌, has-append, last_or, first_or,
  length, Returns, returns, Returns-bind, some,
}
use demo_os.Base.Int.{ℤ, pos, negsuc, ltb_ℤ, is_pos}
use demo_os.Process.{Ptr, null, init_process, n_processes_max, Pcb, Store}
use demo_os.Queue.Chain.{IsQueue-frame, Seg, ne-null_of_mem}
use demo_os.Kernel.{Kernel, QueueRef, remove_from}
use demo_os.Sched.Pick.{queue_fuel}
use demo_os.Sched.Invariant.{Parked, Chosen}
use demo_os.Sched.Steps.{Removed}
use demo_os.Sched.Unlink.{remove-Removed}
use demo_os.Sched.Signals.Effect.{survives}
use demo_os.Sched.Aging.{Best, no_best, recharge_slot, recharge_slots, new_epoch, select_best}
use demo_os.Sched.Aging.Epoch.{InRange, recharged-InRange, recharged-is_pos}
use demo_os.Sched.Aging.Scan.{
  surviving, Scanned, unchanged, improved, scan-Scanned, Largest, surviving_self, survives_of_mem,
  length-surviving,
}
use demo_os.Sched.Aging.Walk.{Quiet, Walked, walk-Walked}

-- The head of the queue.
Seg-head : (h : Store) (p : Ptr) (xs : List Ptr) → Seg h p xs null → p ≡ first_or null xs
Seg-head h p [] s = s
Seg-head h p (x ∷ xs) s = s.0

-- A process that stands in the queue is chosen.
chosen :
    (k : Kernel) (front : List Ptr) (p : Ptr) (back : List Ptr)
    → Parked k (front ++ (p ∷ back))
    → Chosen (remove_from QueueRef.ready_queue (last_or null front) p k) p (front ++ back)
chosen k front p back i =
    let k2 = remove_from QueueRef.ready_queue (last_or null front) p k in
    let r : Removed k k2 p (front ++ (p ∷ back)) (front ++ back) =
      remove-Removed k p front back i in
    record {
      queue = r.queue;
      ready = λ a m. r.states a ∙ i.ready a (r.members a ∙ m);
      complete = λ a e ne. sym (r.members a) ∙ i.complete a (sym (r.states a) ∙ e) ne;
      running = λ a e. i.running a (sym (r.states a) ∙ e);
      idle_out = sym (r.members init_process) ∙ i.idle_out;
      ne_null =
          ne-null_of_mem k.pcb k.ready_queue.head (front ++ (p ∷ back)) null p i.queue.chain
            (ground (arith, has-append p front (p ∷ back)));
      out = r.out;
    }

-- No counter is above zero.
abbrev pub Spent : Store → List Ptr → Type 0
Spent h xs = (a : Ptr) → a ∈ xs → ltb_ℤ (pos 0) (h a).counter ≡ false

-- One pass and the choice at its end, whatever is to hold of the result.
module _ (Q : Ptr × Kernel → Type 0) (epochs : ℕ) (k : Kernel) (xs : List Ptr) (p : Parked k xs)
    (enough : length xs < queue_fuel)
    (none_left : surviving k.pcb xs ≡ [] → (k1 : Kernel) → Parked k1 [] → Q (null, k1))
    (found : (front : List Ptr) (a : Ptr) (back : List Ptr) (k2 : Kernel)
      → surviving k.pcb xs ≡ front ++ (a ∷ back)
      → ltb_ℤ (pos 0) (k.pcb a).counter ≡ true
      → Largest k.pcb front a back
      → Chosen k2 a (front ++ back)
      → Q (a, k2))
    (all_spent : (k1 : Kernel) (y : Ptr) (ys : List Ptr)
      → Parked k1 (surviving k.pcb xs)
      → Quiet k k1
      → Spent k.pcb (surviving k.pcb xs)
      → surviving k.pcb xs ≡ y ∷ ys
      → Returns Q (select_best epochs (new_epoch k1))) where
  choose :
      (b : Best) (k1 : Kernel)
      → Walked k [] xs no_best b k1
      → Scanned k.pcb null (surviving k.pcb xs) no_best b
      → Returns Q (
          if b.best == null
          then (if k1.ready_queue.head == null
              then some (null, k1)
              else select_best epochs (new_epoch k1))
          else some (b.best, remove_from QueueRef.ready_queue b.best_previous b.best k1))
  choose b k1 w (unchanged same low) = rw same (go (surviving k.pcb xs) refl)
    where
      go :
          (ys : List Ptr)
          → surviving k.pcb xs ≡ ys
          → Returns Q (
              if k1.ready_queue.head == null
              then some (null, k1)
              else select_best epochs (new_epoch k1))
      go [] e =
          let i : Parked k1 [] = rw e at w.parked in
          let head : (k1.ready_queue.head == null) ≡ true = ground (arith, i.queue.chain) in
          rw head (returns (none_left e k1 i))
      go (y ∷ ys) e =
          let i : Parked k1 (y ∷ ys) = rw e at w.parked in
          let some_head : (k1.ready_queue.head == null) ≡ false =
            ground (arith, i.queue.chain.0, i.queue.chain.1) in
          rw some_head (all_spent k1 y ys w.parked w.quiet low e)
  choose b k1 w (improved front a back parts same high large) =
      let i : Parked k1 (front ++ (a ∷ back)) = rw parts at w.parked in
      let not_null : (a == null) ≡ false = ground (arith, (chosen k1 front a back i).ne_null) in
      rw (same, not_null)
        (returns (found front a back _ parts high large (chosen k1 front a back i)))

  pub select_best-epoch : Returns Q (select_best (suc epochs) k)
  unfolding select_best
  select_best-epoch =
      Returns-bind
        (walk-Walked queue_fuel k [] xs null k.ready_queue.head no_best p refl
          (Seg-head k.pcb k.ready_queue.head xs p.queue.chain) enough)
        (λ r w. choose r.0 r.1 w (rw w.best (scan-Scanned k.pcb null (surviving k.pcb xs) no_best)))

-- The recharge changes counters only: what does not read them is kept.
module _ {A : Type 0} (f : Pcb → A)
    (no_counter : (c : Pcb) (v : ℤ) → f (record c { counter = v }) ≡ f c) where
  recharge_slot-keeps :
      (processes : ℕ → Ptr) (i : ℕ) (h : Store) (a : Ptr)
      → f (recharge_slot processes i h a) ≡ f (h a)
  recharge_slot-keeps processes i h a = elim (Bool-cases (processes i == null)) [
    | inl e ↦ rw e refl
    | inr e ↦ elim (Bool-cases (processes i == a)) [
      | inl at ↦ let same = (==_iff (processes i) a).0 at in rw (e, at, same) (no_counter (h a) _)
      | inr off ↦ rw (e, off) refl
    ]
  ]

  recharge_slots-keeps :
      (n : ℕ) (processes : ℕ → Ptr) (i : ℕ) (h : Store) (a : Ptr)
      → f (recharge_slots n processes i h a) ≡ f (h a)
  unfolding recharge_slots
  recharge_slots-keeps zero processes i h a = refl
  recharge_slots-keeps (suc n) processes i h a =
      recharge_slots-keeps n processes (i + 1) (recharge_slot processes i h) a
      ∙ recharge_slot-keeps processes i h a

recharge_slot-cong :
    (processes : ℕ → Ptr) (i : ℕ) (g h : Store)
    → ((a : Ptr) → (g a).counter ≡ (h a).counter)
    → ((a : Ptr) → (g a).priority ≡ (h a).priority)
    → (a : Ptr) → (recharge_slot processes i g a).counter ≡ (recharge_slot processes i h a).counter
recharge_slot-cong processes i g h counters priorities a = elim (Bool-cases (processes i == null)) [
  | inl e ↦ rw e (counters a)
  | inr e ↦ elim (Bool-cases (processes i == a)) [
    | inl at ↦ rw (e, at, counters (processes i), priorities (processes i)) refl
    | inr off ↦ rw (e, off) (counters a)
  ]
]

-- The counters after the recharge are a function of the counters and the priorities.
recharge_slots-cong :
    (n : ℕ) (processes : ℕ → Ptr) (i : ℕ) (g h : Store)
    → ((a : Ptr) → (g a).counter ≡ (h a).counter)
    → ((a : Ptr) → (g a).priority ≡ (h a).priority)
    → (a : Ptr)
    → (recharge_slots n processes i g a).counter ≡ (recharge_slots n processes i h a).counter
unfolding recharge_slots
recharge_slots-cong zero processes i g h counters priorities a = counters a
recharge_slots-cong (suc n) processes i g h counters priorities a =
    recharge_slots-cong n processes (i + 1) (recharge_slot processes i g)
      (recharge_slot processes i h) (recharge_slot-cong processes i g h counters priorities)
      (λ b.
        recharge_slot-keeps (λ c. c.priority) (λ c v. refl) processes i g b
        ∙ priorities b
        ∙ sym (recharge_slot-keeps (λ c. c.priority) (λ c v. refl) processes i h b))
      a

-- A new epoch of a parked queue.
new_epoch-Parked : (k : Kernel) (xs : List Ptr) → Parked k xs → Parked (new_epoch k) xs
unfolding new_epoch
new_epoch-Parked k xs p =
    let state =
      recharge_slots-keeps (λ c. c.state) (λ c v. refl) n_processes_max k.processes 0 k.pcb in
    let link =
      recharge_slots-keeps (λ c. c.next_ready) (λ c v. refl) n_processes_max k.processes 0 k.pcb in
    record {
      queue = IsQueue-frame (new_epoch k).pcb (λ a m. link a) p.queue;
      ready = λ a m. state a ∙ p.ready a m;
      complete = λ a e ne. p.complete a (sym (state a) ∙ e) ne;
      running = λ a e. p.running a (sym (state a) ∙ e);
      idle_out = p.idle_out;
    }

survives-new_epoch : (k : Kernel) (a : Ptr) → survives ((new_epoch k).pcb a) ≡ survives (k.pcb a)
unfolding new_epoch survives
survives-new_epoch k a =
    recharge_slots-keeps survives (λ c v. refl) n_processes_max k.processes 0 k.pcb a

-- Passes in which no counter was recharged, and in which all were.
pub counter-new_epoch :
    (k k1 : Kernel)
    → Quiet k k1
    → (a : Ptr) → ((new_epoch k1).pcb a).counter ≡ ((new_epoch k).pcb a).counter
unfolding new_epoch
counter-new_epoch k k1 q a =
    rw q.table
      (recharge_slots-cong n_processes_max k.processes 0 k1.pcb k.pcb q.counter q.priority a)

pub Largest-cong :
    (g h : Store) (front : List Ptr) (p : Ptr) (back : List Ptr)
    → ((a : Ptr) → (g a).counter ≡ (h a).counter)
    → Largest g front p back
    → Largest h front p back
Largest-cong g h front p back same l = record {
  above = λ a m. rw (← same a, ← same p) (l.above a m);
  not_below = λ a m. rw (← same a, ← same p) (l.not_below a m);
}

pub InRange-cong :
    (c d : Pcb) → d.counter ≡ c.counter → d.priority ≡ c.priority → InRange c → InRange d
InRange-cong c d e f r = record {
  value = r.value;
  weight = r.weight;
  counter = e ∙ r.counter;
  priority = f ∙ r.priority;
  weight_pos = r.weight_pos;
  bound = r.bound;
}

-- Each of the processes stands in a slot of the table.
abbrev pub InSlots : Kernel → List Ptr → Type 0
InSlots k xs = (a : Ptr) → a ∈ xs → (j : ℕ) × (j < n_processes_max) × (k.processes j ≡ a)

above_zero : (c : ℤ) → is_pos c ≡ true → ltb_ℤ (pos 0) c ≡ true
above_zero (pos zero) e = absurd (ground arith)
above_zero (pos (suc n)) e = ground arith
above_zero (negsuc n) e = absurd (ground arith)

-- A control block in range stays so, and its counter does not fall back to zero.
slot-InRange :
    (processes : ℕ → Ptr) (i : ℕ) (h : Store) (a : Ptr)
    → InRange (h a)
    → InRange (recharge_slot processes i h a)
      × (is_pos (h a).counter ≡ true → is_pos (recharge_slot processes i h a).counter ≡ true)
      × (processes i ≡ a → a ≢ null → is_pos (recharge_slot processes i h a).counter ≡ true)
slot-InRange processes i h a r = elim (Bool-cases (processes i == null)) [
  | inl e ↦ rw e (r, λ up. up, λ at ne. absurd (ground arith))
  | inr e ↦ elim (Bool-cases (processes i == a)) [
    | inl at ↦
        let same = (==_iff (processes i) a).0 at in
        rw (e, at, same)
          (
            recharged-InRange (h a) r,
            λ up. recharged-is_pos (h a) r,
            λ here ne. recharged-is_pos (h a) r,
          )
    | inr off ↦ rw (e, off) (r, λ up. up, λ here ne. absurd (ground arith))
  ]
]

slots-charged :
    (n : ℕ) (processes : ℕ → Ptr) (i : ℕ) (h : Store) (a : Ptr)
    → InRange (h a)
    → a ≢ null
    → (is_pos (h a).counter ≡ true) ⊎ ((j : ℕ) × (i ≤ j) × (j < i + n) × (processes j ≡ a))
    → is_pos (recharge_slots n processes i h a).counter ≡ true
unfolding recharge_slots
slots-charged zero processes i h a r ne (inl up) = up
slots-charged zero processes i h a r ne (inr (j, lo, hi, at)) = absurd (omega arith)
slots-charged (suc n) processes i h a r ne (inl up) =
    let step = slot-InRange processes i h a r in
    slots-charged n processes (i + 1) (recharge_slot processes i h) a step.0 ne (inl (step.1 up))
slots-charged (suc n) processes i h a r ne (inr (j, lo, hi, at)) =
    let step = slot-InRange processes i h a r in
    let rest = slots-charged n processes (i + 1) (recharge_slot processes i h) a step.0 ne in
    elim (Bool-cases (j == i)) [
      | inl now ↦ let same : i ≡ j = ground arith in rest (inl (step.2 (rw same at) ne))
      | inr later ↦ rest (inr (j, ground arith, ground arith, at))
    ]

new_epoch-charged :
    (k : Kernel) (a : Ptr) (j : ℕ)
    → InRange (k.pcb a)
    → a ≢ null
    → j < n_processes_max
    → k.processes j ≡ a
    → is_pos ((new_epoch k).pcb a).counter ≡ true
unfolding new_epoch
new_epoch-charged k a j r ne lt at =
    slots-charged n_processes_max k.processes 0 k.pcb a r ne (inr (j, omega arith, omega arith, at))

-- What the selection returns for the processes `ys` that may run: by the counters of `h`, or, where
-- none of these is above zero, by those of `g`.
pub data Picked (h g : Store) (ys : List Ptr) : Ptr × Kernel → Type 0 where
  nobody : {k : Kernel} → ys ≡ [] → Parked k [] → Picked h g ys (null, k)
  picked :
      (front : List Ptr) (p : Ptr) (back : List Ptr) {k : Kernel}
      → ys ≡ front ++ (p ∷ back)
      → ((ltb_ℤ (pos 0) (h p).counter ≡ true) × Largest h front p back)
        ⊎ (Spent h ys × Largest g front p back)
      → Chosen k p (front ++ back)
      → Picked h g ys (p, k)

-- The second pass, in the epoch that follows: every counter is above zero then.
second_epoch :
    (epochs : ℕ) (k k1 : Kernel) (xs : List Ptr) (y : Ptr) (ys : List Ptr)
    → ((a : Ptr) → a ∈ xs → InRange (k.pcb a))
    → InSlots k xs
    → length xs < queue_fuel
    → ((a : Ptr) → a ∈ xs → a ≢ null)
    → Parked k1 (surviving k.pcb xs)
    → Quiet k k1
    → Spent k.pcb (surviving k.pcb xs)
    → surviving k.pcb xs ≡ y ∷ ys
    → Returns
        (Picked k.pcb (new_epoch k).pcb (surviving k.pcb xs))
        (select_best (suc epochs) (new_epoch k1))
second_epoch epochs k k1 xs y ys range slots enough ne_null p quiet spent e =
    let zs = surviving k.pcb xs in
    let k2 = new_epoch k1 in
    let all : surviving k2.pcb zs ≡ zs =
      surviving_self k2.pcb zs
        (λ a m. survives-new_epoch k1 a ∙ quiet.survive a ((survives_of_mem k.pcb xs a m).1)) in
    let high : ((a : Ptr) → a ∈ zs → ltb_ℤ (pos 0) (k2.pcb a).counter ≡ true) = λ a m.
      let queued = (survives_of_mem k.pcb xs a m).0 in
      let slot = slots a queued in
      let at : k1.processes slot.0 ≡ a = ap (λ (f : ℕ → Ptr). f slot.0) quiet.table ∙ slot.2 in
      let in_range =
        InRange-cong (k.pcb a) (k1.pcb a) (quiet.counter a) (quiet.priority a) (range a queued) in
      above_zero (k2.pcb a).counter
        (new_epoch-charged k1 a slot.0 in_range (ne_null a queued) slot.1 at) in
    select_best-epoch (Picked k.pcb (new_epoch k).pcb zs) epochs k2 zs (new_epoch-Parked k1 zs p)
      (let shorter = length-surviving k.pcb xs in omega arith)
      (λ nil k3 i. nobody (sym all ∙ nil) i)
      (λ front a back k3 parts up large c.
        picked front a back (sym all ∙ parts)
          (inr (
            spent,
            Largest-cong k2.pcb (new_epoch k).pcb front a back (counter-new_epoch k k1 quiet) large,
          ))
          c)
      (λ k3 z zs' i q low e'.
        let here : y ∈ zs = rw e (ground arith) in
        absurd (let up = high y here in let down = low y (rw all here) in ground arith))

pub select_best-Picked :
    (epochs : ℕ) (k : Kernel) (xs : List Ptr)
    → Parked k xs
    → length xs < queue_fuel
    → ((a : Ptr) → a ∈ xs → InRange (k.pcb a))
    → InSlots k xs
    → Returns
        (Picked k.pcb (new_epoch k).pcb (surviving k.pcb xs))
        (select_best (suc (suc epochs)) k)
select_best-Picked epochs k xs p enough range slots =
    select_best-epoch (Picked k.pcb (new_epoch k).pcb (surviving k.pcb xs)) (suc epochs) k xs p
      enough (λ nil k1 i. nobody nil i)
      (λ front a back k2 parts high large c. picked front a back parts (inl (high, large)) c)
      (λ k1 y ys i quiet low e.
        second_epoch epochs k k1 xs y ys range slots enough
          (λ a m. ne-null_of_mem k.pcb k.ready_queue.head xs null a p.queue.chain m) i quiet low e)
