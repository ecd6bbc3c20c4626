-- ===== src/Sched/Aging/Epoch.antt =====
-- The end of an epoch of Priority Aging: the counters stay in proportion to the priorities.
use demo_os.Base.{
  ℕ, zero, suc, ◌+◌, ◌*◌, ◌/◌, ◌<◌, ◌≤◌, ◌≡◌, ◌≢◌, refl, true, ◌==◌, arith, inl, inr, Bool-cases,
  ==-refl, ==_iff,
}
use demo_os.Base.Int.{pos, half, ◌+ℤ◌, is_pos}
use demo_os.Process.{Ptr, null, Pcb, Store, n_processes_max}
use demo_os.Kernel.{Kernel}
use demo_os.Sched.Aging.{recharge_slot, recharge_slots, new_epoch}

-- The priority is positive, and the counter is not negative and at most twice the priority.
pub record InRange (c : Pcb) : Type 0 where
  pub value : ℕ
  pub weight : ℕ
  pub counter : c.counter ≡ pos value
  pub priority : c.priority ≡ pos weight
  pub weight_pos : 0 < weight
  pub bound : value ≤ 2 * weight

-- The PCB at the end of an epoch.
abbrev pub recharged : Pcb → Pcb
recharged c = record c { counter = half c.counter +ℤ c.priority }

pub recharged-InRange : (c : Pcb) → InRange c → InRange (recharged c)
recharged-InRange c r = record {
  value = r.value / 2 + r.weight;
  weight = r.weight;
  counter = rw (r.counter, r.priority) refl;
  priority = r.priority;
  weight_pos = r.weight_pos;
  bound = let b = r.bound in omega arith;
}

pub recharged-is_pos : (c : Pcb) → InRange c → is_pos (recharged c).counter ≡ true
recharged-is_pos c r =
    rw (r.counter, r.priority)
      (positive (r.value / 2 + r.weight) (let w = r.weight_pos in omega arith))
  where
    positive : (n : ℕ) → 0 < n → is_pos (pos n) ≡ true
    positive zero lt = absurd (omega arith)
    positive (suc n) lt = refl

-- The processes in the table are in range.
abbrev pub ListedInRange : (processes : ℕ → Ptr) → Store → Type 0
ListedInRange processes h =
    (j : ℕ) → j < n_processes_max → processes j ≢ null → InRange (h (processes j))

-- The slots `i` to `i + n` are recharged.
pub record Recharged (n i : ℕ) (processes : ℕ → Ptr) (h h' : Store) : Type 0 where
  pub in_range : ListedInRange processes h'
  pub charged :
      (j : ℕ) → i ≤ j → j < i + n → processes j ≢ null → is_pos (h' (processes j)).counter ≡ true
  pub still : (a : Ptr) → is_pos (h a).counter ≡ true → is_pos (h' a).counter ≡ true

slot-Recharged :
    (i : ℕ) (processes : ℕ → Ptr) (h : Store)
    → i < n_processes_max
    → ListedInRange processes h
    → Recharged 1 i processes h (recharge_slot processes i h)
slot-Recharged i processes h hi_i r = elim (Bool-cases (processes i == null)) [
  | inl e ↦ rw e (record {
    in_range = r;
    charged = λ j lo hi ne.
        let same : j ≡ i = omega arith in absurd (ne (rw same ((==_iff (processes i) null).0 e)));
    still = λ a p. p;
  })
  | inr e ↦
      let self = r i hi_i (ground arith) in
      rw e (record {
        in_range = λ j hi ne. elim (Bool-cases (processes i == processes j)) [
          | inl at ↦ rw at (recharged-InRange (h (processes i)) self)
          | inr off ↦ rw off (r j hi ne)
        ];
        charged = λ j lo hi ne.
            let same : j ≡ i = omega arith in
            rw (same, ==-refl (processes i)) (recharged-is_pos (h (processes i)) self);
        still = λ a p. elim (Bool-cases (processes i == a)) [
          | inl at ↦ rw at (recharged-is_pos (h (processes i)) self)
          | inr off ↦ rw off p
        ];
      })
]

slots-Recharged :
    (n i : ℕ) (processes : ℕ → Ptr) (h : Store)
    → i + n ≤ n_processes_max
    → ListedInRange processes h
    → Recharged n i processes h (recharge_slots n processes i h)
unfolding recharge_slots
slots-Recharged zero i processes h l r = record {
  in_range = r;
  charged = λ j lo hi ne. absurd (omega arith);
  still = λ a p. p;
}
slots-Recharged (suc n) i processes h l r =
    let first = slot-Recharged i processes h (omega arith) r in
    let rest =
      slots-Recharged n (i + 1) processes (recharge_slot processes i h) (omega arith)
        first.in_range in
    record {
      in_range = rest.in_range;
      charged = λ j lo hi ne. elim (Bool-cases (j == i)) [
        | inl at ↦ rest.still (processes j) (first.charged j lo (ground arith) ne)
        | inr off ↦ rest.charged j (ground arith) (ground arith) ne
      ];
      still = λ a p. rest.still a (first.still a p);
    }

-- At the end of an epoch of Priority Aging, if the processes in the table have positive
-- priorities and counters from 0 to twice their priorities, both stay so, the counter of each
-- process in the table is positive, and no positive counter of any process ceases to be so.
pub new_epoch-Recharged :
    (k : Kernel)
    → ListedInRange k.processes k.pcb
    → Recharged n_processes_max 0 k.processes k.pcb (new_epoch k).pcb
unfolding new_epoch
new_epoch-Recharged k r = slots-Recharged n_processes_max 0 k.processes k.pcb (omega arith) r
