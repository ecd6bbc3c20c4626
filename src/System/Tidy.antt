-- ===== src/System/Tidy.antt =====
-- Where the PCBs stand in the memory of the page allocator.
use demo_os.Base.{
  ℕ, zero, suc, ◌+◌, ◌≤◌, ◌<◌, ◌≡◌, ◌≢◌, true, ◌==◌, ◌||◌, has, ◌∈◌, arith, inl, inr, Bool-cases,
  update,
}
use demo_os.Process.{Ptr, null, init_process}
use demo_os.Memory.{va_start, n_pages, page_address}
use demo_os.Sched.Table.{slots, mem-slots_update}

-- The address is neither the start of the memory nor in a free page.
pub record Guarded (pages : ℕ → ℕ) (a : Ptr) : Type 0 where
  pub not_first : a ≢ va_start
  pub not_free : (i : ℕ) → i < n_pages → pages i ≡ 0 → page_address i + va_start ≢ a

-- The PCBs of the idle task and of the table are guarded.
pub record Tidy (pages : ℕ → ℕ) (processes : ℕ → Ptr) : Type 0 where
  pub guarded :
      (a : Ptr) → (a == init_process || has a (slots 63 1 processes)) ≡ true → Guarded pages a

pub Guarded-marks :
    {pages pages' : ℕ → ℕ} {a : Ptr}
    → ((i : ℕ) → pages' i ≡ 0 → pages i ≡ 0)
    → Guarded pages a
    → Guarded pages' a
Guarded-marks marks g = record {
  not_first = g.not_first;
  not_free = λ i hi free. g.not_free i hi (marks i free);
}

pub Tidy-marks :
    {pages pages' : ℕ → ℕ} {processes : ℕ → Ptr}
    → ((i : ℕ) → pages' i ≡ 0 → pages i ≡ 0)
    → Tidy pages processes
    → Tidy pages' processes
Tidy-marks marks t = record { guarded = λ a known. Guarded-marks marks (t.guarded a known) }

-- A guarded PCB enters the table.
pub Tidy-update :
    {pages : ℕ → ℕ} {processes : ℕ → Ptr} (s : ℕ) (p : Ptr)
    → Guarded pages p
    → Tidy pages processes
    → Tidy pages (update processes s p)
Tidy-update {pages} {processes} s p g t = record {
  guarded = λ a known. elim (Bool-cases (a == p)) [
    | inl e ↦ let same : a ≡ p = ground arith in rw same g
    | inr e ↦ t.guarded a (let m = mem-slots_update 63 1 processes s p a in ground arith)
  ];
}

empty_slots :
    (n i : ℕ) (a : Ptr) → 1 ≤ i → a ∈ slots n i (update (λ _. null) 0 init_process) → a ≡ null
unfolding slots
empty_slots zero i a lo m = cc
empty_slots (suc n) i a lo m = let rest = empty_slots n (i + 1) a (omega arith) in ground arith

pub boot-Tidy : Tidy (λ _. 0) (update (λ _. null) 0 init_process)
boot-Tidy = record {
  guarded = λ a known. elim (Bool-cases (a == init_process)) [
    | inl e ↦
        let same : a ≡ init_process = ground arith in
        record { not_first = ground arith; not_free = λ i hi free. ground arith }
    | inr e ↦
        let same : a ≡ null = empty_slots 63 1 a (omega arith) (ground arith) in
        record { not_first = ground arith; not_free = λ i hi free. ground arith }
  ];
}
