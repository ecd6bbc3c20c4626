-- ===== src/System/Fair.antt =====
-- The turns of the ready queue under Round Robin, one for each syscall_yield.
use demo_os.Base.{
  ℕ, zero, suc, ◌≤◌, ◌<◌, ◌≡◌, refl, ap, ◌∙◌, true, List, [], ◌∷◌, ◌++◌, arith, inl, inr,
  Bool-cases, length, Option, some, ◌>>=◌, Returns, returns, Returns-mono,
}
use demo_os.Base.Int.{pos}
use demo_os.Process.{Ptr, Store}
use demo_os.Kernel.{Kernel, set_pcb}
use demo_os.Sched.Pick.{current_runnable}
use demo_os.Sched.Signals.Effect.{survives, survives_of_pending}
use demo_os.Sched.Pick.Drain.{survivors}
use demo_os.Sched.Steps.{requeued}
use demo_os.Sched.Dispatch.Switch.{schedule-Reselects}
use demo_os.Syscalls.{syscall_yield}
use demo_os.System.Sound.{Queued, Queued-frame}
use demo_os.System.Switching.{Turn, Reselects-Turn}

-- `n` processes in a row give up the CPU.
pub yields : ℕ → Kernel → Option Kernel
yields zero k = some k
yields (suc n) k = syscall_yield k >>= yields n

-- What remains of a queue in which `p` stands behind `ys` and survives.
record Remains (n : ℕ) (p : Ptr) (zs all : List Ptr) : Type 0 where
  front : List Ptr
  shorter : length front ≤ n
  split : all ≡ front ++ (p ∷ zs)

survivors-Remains :
    (h : Store) (ys : List Ptr) (p : Ptr) (zs : List Ptr)
    → survives (h p) ≡ true
    → Remains (length ys) p zs (survivors h (ys ++ (p ∷ zs)))
unfolding survivors
survivors-Remains h [] p zs alive =
    rw alive (record { front = []; shorter = omega arith; split = refl })
survivors-Remains h (y ∷ ys) p zs alive = elim (Bool-cases (survives (h y))) [
  | inl e ↦ rw e (record { front = y ∷ ys; shorter = omega arith; split = refl })
  | inr e ↦
      let r = survivors-Remains h ys p zs alive in
      rw e (record { front = r.front; shorter = let l = r.shorter in omega arith; split = r.split })
]

snoc-behind :
    (ys : List Ptr) (p : Ptr) (zs : List Ptr) (c : Ptr)
    → (ys ++ (p ∷ zs)) ++ (c ∷ []) ≡ ys ++ (p ∷ (zs ++ (c ∷ [])))
snoc-behind [] p zs c = refl
snoc-behind (y ∷ ys) p zs c = rw (snoc-behind ys p zs c) refl

requeued-behind :
    (k : Kernel) (ys : List Ptr) (p : Ptr) (zs : List Ptr)
    → requeued k (ys ++ (p ∷ zs)) ≡ ys ++ (p ∷ requeued k zs)
requeued-behind k ys p zs = elim (Bool-cases (current_runnable k)) [
  | inl e ↦ rw e (snoc-behind ys p zs k.current_process)
  | inr e ↦ rw e refl
]

-- Within `n` turns the process `p` has the CPU.
pub record RunsWithin (n : ℕ) (p : Ptr) (k : Kernel) : Type 0 where
  pub turns : ℕ
  pub bounded : turns ≤ n
  pub runs : Returns (λ k'. k'.current_process ≡ p) (yields turns k)

-- One turn of a queue with `p` in it: the CPU or a shorter way to it.
data Progress (n : ℕ) (p : Ptr) (k : Kernel) : Type 0 where
  runs : k.current_process ≡ p → Progress n p k
  queued :
      (ys zs : List Ptr)
      → length ys < n
      → Queued k (ys ++ (p ∷ zs))
      → survives (k.pcb p) ≡ true
      → Progress n p k

progress :
    (n : ℕ) (p : Ptr) (k k' : Kernel) (zs all front : List Ptr)
    → all ≡ front ++ (p ∷ zs)
    → length front ≤ n
    → survives (k.pcb p) ≡ true
    → Turn k k' all
    → Progress n p k'
progress n p k k' zs all [] e l alive t = Progress.runs (rw e at t.current)
progress n p k k' zs all (y ∷ ys) e l alive t =
    Progress.queued ys zs l (rw e at t.queued) (t.kept.calm p alive)

yield-Progress :
    (k : Kernel) (ys : List Ptr) (p : Ptr) (zs : List Ptr)
    → Queued k (ys ++ (p ∷ zs))
    → survives (k.pcb p) ≡ true
    → Returns (Progress (length ys) p) (syscall_yield k)
unfolding syscall_yield
yield-Progress k ys p zs q alive =
    let k1 : Kernel =
      set_pcb k k.current_process (record (k.pcb k.current_process) { counter = pos 0 }) in
    let q1 : Queued k1 (ys ++ (p ∷ zs)) =
      Queued-frame k1.pcb (λ a. ground arith) (λ a. ground arith) q in
    let r = schedule-Reselects k1 q1.algorithm in
    let alive1 : survives (k1.pcb p) ≡ true =
      survives_of_pending _ (k.pcb p) (ground arith) ∙ alive in
    let left = survivors-Remains k1.pcb ys p (requeued k1 zs) alive1 in
    Returns-mono (Reselects-Turn k1 (ys ++ (p ∷ zs)) q1 r) λ k' t.
      progress (length ys) p (record k1 { pcb = r.store }) k' (requeued k1 zs)
        (survivors k1.pcb (requeued k1 (ys ++ (p ∷ zs)))) left.front
        (ap (survivors k1.pcb) (requeued-behind k1 ys p zs) ∙ left.split) left.shorter
        (survives_of_pending _ _ (r.pending p) ∙ alive1) t

turn_more :
    (n : ℕ) (p : Ptr) (k k1 : Kernel)
    → syscall_yield k ≡ some k1
    → RunsWithin n p k1
    → RunsWithin (suc n) p k
unfolding yields
turn_more n p k k1 e r = record {
  turns = suc r.turns;
  bounded = let b = r.bounded in omega arith;
  runs = rw e r.runs;
}

-- A result, by name.
record Result {ℓ κ} {A : Type ℓ} (P : A → Type κ) (m : Option A) : Type (ℓ ⊔ κ) where
  result : A
  is_result : m ≡ some result
  holds : P result

Returns-Result {ℓ κ} : {A : Type ℓ} {P : A → Type κ} {m : Option A} → Returns P m → Result P m
Returns-Result (returns {a} p) = record { result = a; is_result = refl; holds = p }

pub yields-RunsWithin :
    (n : ℕ) (k : Kernel) (ys : List Ptr) (p : Ptr) (zs : List Ptr)
    → length ys < n
    → Queued k (ys ++ (p ∷ zs))
    → survives (k.pcb p) ≡ true
    → RunsWithin n p k
unfolding yields
yields-RunsWithin zero k ys p zs l q alive = absurd (omega arith)
yields-RunsWithin (suc n) k ys p zs l q alive =
    let r = Returns-Result (yield-Progress k ys p zs q alive) in
    turn_more n p k r.result r.is_result (elim r.holds [
      | Progress.runs e ↦ record { turns = 0; bounded = omega arith; runs = returns e }
      | Progress.queued ys' zs' l' q' alive' ↦
          yields-RunsWithin n r.result ys' p zs' (omega arith) q' alive'
    ])
