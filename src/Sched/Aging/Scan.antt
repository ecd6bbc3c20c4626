-- ===== src/Sched/Aging/Scan.antt =====
-- libs/scheduler.c, `_schedule_priority_aging`: the walk as a scan of the list of the queue.
use demo_os.Base.{
  ◌≡◌, refl, ap, true, false, Bool-cases, inl, inr, ◌==◌, ==_iff, length, ◌≤◌, if◌then◌else◌, List,
  [], ◌∷◌, ◌++◌, ◌∈◌, arith, last_or,
}
use demo_os.Base.Int.{ℤ, pos, negsuc, ltb_ℤ}
use demo_os.Process.{Ptr, Store}
use demo_os.Sched.Signals.Effect.{survives}
use demo_os.Sched.Aging.{Best, consider}

-- The processes that neither KILL nor STOP is pending for, in their order.
abbrev pub surviving : Store → List Ptr → List Ptr
surviving h [] = []
surviving h (x ∷ xs) = if survives (h x) then x ∷ surviving h xs else surviving h xs

-- The comparisons of the walk, for processes that stay in the queue.
abbrev pub scan : Store → (previous : Ptr) → List Ptr → Best → Best
scan h previous [] b = b
scan h previous (x ∷ xs) b = scan h x xs (consider previous x (h x).counter b)

-- The counter of `p` is above all before it, and not below those behind.
pub record Largest (h : Store) (front : List Ptr) (p : Ptr) (back : List Ptr) : Type 0 where
  pub above : (a : Ptr) → a ∈ front → ltb_ℤ (h a).counter (h p).counter ≡ true
  pub not_below : (a : Ptr) → a ∈ back → ltb_ℤ (h p).counter (h a).counter ≡ false

-- What a scan finds, against a counter that is to be passed.
pub data Scanned (h : Store) (previous : Ptr) (xs : List Ptr) (b r : Best) : Type 0 where
  unchanged :
      r ≡ b
      → ((a : Ptr) → a ∈ xs → ltb_ℤ b.max_counter (h a).counter ≡ false)
      → Scanned h previous xs b r
  improved :
      (front : List Ptr) (p : Ptr) (back : List Ptr)
      → xs ≡ front ++ (p ∷ back)
      → r ≡ record { best = p; best_previous = last_or previous front; max_counter = (h p).counter }
      → ltb_ℤ b.max_counter (h p).counter ≡ true
      → Largest h front p back
      → Scanned h previous xs b r

ltb_ℤ-le_trans : (c m p : ℤ) → ltb_ℤ m c ≡ false → ltb_ℤ m p ≡ true → ltb_ℤ c p ≡ true
ltb_ℤ-le_trans (pos c) (pos m) (pos p) e f = ground arith
ltb_ℤ-le_trans (pos c) (pos m) (negsuc p) e f = ground arith
ltb_ℤ-le_trans (pos c) (negsuc m) (pos p) e f = ground arith
ltb_ℤ-le_trans (pos c) (negsuc m) (negsuc p) e f = ground arith
ltb_ℤ-le_trans (negsuc c) (pos m) (pos p) e f = ground arith
ltb_ℤ-le_trans (negsuc c) (pos m) (negsuc p) e f = ground arith
ltb_ℤ-le_trans (negsuc c) (negsuc m) (pos p) e f = ground arith
ltb_ℤ-le_trans (negsuc c) (negsuc m) (negsuc p) e f = ground arith

ltb_ℤ-trans : (c m p : ℤ) → ltb_ℤ c m ≡ true → ltb_ℤ m p ≡ true → ltb_ℤ c p ≡ true
ltb_ℤ-trans (pos c) (pos m) (pos p) e f = ground arith
ltb_ℤ-trans (pos c) (pos m) (negsuc p) e f = ground arith
ltb_ℤ-trans (pos c) (negsuc m) (pos p) e f = ground arith
ltb_ℤ-trans (pos c) (negsuc m) (negsuc p) e f = ground arith
ltb_ℤ-trans (negsuc c) (pos m) (pos p) e f = ground arith
ltb_ℤ-trans (negsuc c) (pos m) (negsuc p) e f = ground arith
ltb_ℤ-trans (negsuc c) (negsuc m) (pos p) e f = ground arith
ltb_ℤ-trans (negsuc c) (negsuc m) (negsuc p) e f = ground arith

-- A property of the first element and of the others.
split_mem :
    (P : Ptr → Type 0) (x : Ptr) (xs : List Ptr)
    → P x
    → ((a : Ptr) → a ∈ xs → P a)
    → (a : Ptr) → a ∈ x ∷ xs
    → P a
split_mem P x xs first others a m = elim (Bool-cases (a == x)) [
  | inl e ↦ rw ((==_iff a x).0 e) first
  | inr e ↦ others a (ground arith)
]

module _ (h : Store) (previous x : Ptr) (xs : List Ptr) (b r : Best) where
  passed_by :
      ltb_ℤ b.max_counter (h x).counter ≡ false
      → Scanned h x xs b r
      → Scanned h previous (x ∷ xs) b r
  passed_by low (unchanged same all_low) =
      unchanged same (split_mem (λ a. ltb_ℤ b.max_counter (h a).counter ≡ false) x xs low all_low)
  passed_by low (improved front p back parts same more large) =
      improved (x ∷ front) p back (ap (λ (ys : List Ptr). x ∷ ys) parts) same more (record {
        above =
            split_mem (λ a. ltb_ℤ (h a).counter (h p).counter ≡ true) x front
              (ltb_ℤ-le_trans (h x).counter b.max_counter (h p).counter low more) large.above;
        not_below = large.not_below;
      })

  taken :
      ltb_ℤ b.max_counter (h x).counter ≡ true
      → Scanned h x xs
          (record { best = x; best_previous = previous; max_counter = (h x).counter })
          r
      → Scanned h previous (x ∷ xs) b r
  taken high (unchanged same all_low) =
      improved [] x xs refl same high (record { above = λ a m. cc; not_below = all_low })
  taken high (improved front p back parts same more large) =
      improved (x ∷ front) p back (ap (λ (ys : List Ptr). x ∷ ys) parts) same
        (ltb_ℤ-trans b.max_counter (h x).counter (h p).counter high more)
        (record {
          above =
              split_mem (λ a. ltb_ℤ (h a).counter (h p).counter ≡ true) x front more large.above;
          not_below = large.not_below;
        })

pub scan-Scanned :
    (h : Store) (previous : Ptr) (xs : List Ptr) (b : Best)
    → Scanned h previous xs b (scan h previous xs b)
scan-Scanned h previous [] b = unchanged refl (λ a m. cc)
scan-Scanned h previous (x ∷ xs) b = elim (Bool-cases (ltb_ℤ b.max_counter (h x).counter)) [
  | inl high ↦ rw high (taken h previous x xs b _ high (scan-Scanned h x xs _))
  | inr low ↦ rw low (passed_by h previous x xs b _ low (scan-Scanned h x xs b))
]

-- The scan reads the counters only.
pub scan-cong :
    (g h : Store) (previous : Ptr) (xs : List Ptr) (b : Best)
    → ((a : Ptr) → (g a).counter ≡ (h a).counter)
    → scan g previous xs b ≡ scan h previous xs b
scan-cong g h previous [] b same = refl
scan-cong g h previous (x ∷ xs) b same = rw (same x) (scan-cong g h x xs _ same)

pub surviving-cong :
    (g h : Store) (xs : List Ptr)
    → ((a : Ptr) → a ∈ xs → survives (g a) ≡ survives (h a))
    → surviving g xs ≡ surviving h xs
surviving-cong g h [] same = refl
surviving-cong g h (x ∷ xs) same =
    rw (same x (ground arith), surviving-cong g h xs (λ a m. same a (ground arith))) refl

pub surviving_self :
    (h : Store) (xs : List Ptr) → ((a : Ptr) → a ∈ xs → survives (h a) ≡ true) → surviving h xs ≡ xs
surviving_self h [] all = refl
surviving_self h (x ∷ xs) all =
    rw (all x (ground arith), surviving_self h xs (λ a m. all a (ground arith))) refl

pub survives_of_mem :
    (h : Store) (xs : List Ptr) (a : Ptr) → a ∈ surviving h xs → (a ∈ xs) × (survives (h a) ≡ true)
survives_of_mem h [] a m = absurd (ground arith)
survives_of_mem h (x ∷ xs) a m = elim (Bool-cases (survives (h x))) [
  | inl e ↦
      split_mem (λ b. (b ∈ x ∷ xs) × (survives (h b) ≡ true)) x (surviving h xs) (ground arith, e)
        (λ b n. let rest = survives_of_mem h xs b n in (ground (arith, rest.0), rest.1)) a
        (rw e at m)
  | inr e ↦ let rest = survives_of_mem h xs a (rw e at m) in (ground (arith, rest.0), rest.1)
]

pub length-surviving : (h : Store) (xs : List Ptr) → length (surviving h xs) ≤ length xs
length-surviving h [] = omega arith
length-surviving h (x ∷ xs) = ground (arith, length-surviving h xs)
