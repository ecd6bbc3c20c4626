-- ===== src/Syscalls/Search.antt =====
-- The search for a process by its PID, and the calls that begin with it.
use demo_os.Base.{
  ℕ, zero, suc, ◌+◌, ◌<◌, ◌≤◌, ◌≡◌, Bool, true, false, not, ◌&&◌, ◌==◌, arith, inl, inr, Bool-cases,
}
use demo_os.Base.Int.{ℤ, pos, eqb_ℤ}
use demo_os.Process.{Ptr, null, n_processes_max}
use demo_os.Kernel.{Kernel}
use demo_os.Syscalls.{search_slots, search_process}

-- A slot holds a process with the PID.
abbrev pub holds_pid : ℤ → Kernel → ℕ → Bool
holds_pid pid k j = not (k.processes j == null) && eqb_ℤ (pos (k.pcb (k.processes j)).pid) pid

-- What the search of the slots `i` to `i + n` finds.
pub data Found (n i : ℕ) (pid : ℤ) (k : Kernel) : Ptr → Type 0 where
  absent : ((j : ℕ) → i ≤ j → j < i + n → holds_pid pid k j ≡ false) → Found n i pid k null
  present :
      (m : ℕ)
      → i ≤ m
      → m < i + n
      → holds_pid pid k m ≡ true
      → ((j : ℕ) → i ≤ j → j < m → holds_pid pid k j ≡ false)
      → Found n i pid k (k.processes m)

Found-skip :
    (n i : ℕ) (pid : ℤ) (k : Kernel) (p : Ptr)
    → holds_pid pid k i ≡ false
    → Found n (i + 1) pid k p
    → Found (suc n) i pid k p
Found-skip n i pid k _ other (absent h) = absent (λ j lo hi. elim (Bool-cases (j == i)) [
  | inl e ↦ let same : j ≡ i = ground arith in rw same other
  | inr e ↦ h j (ground arith) (ground arith)
])
Found-skip n i pid k _ other (present m lo hi e h) =
    present m (omega arith) (omega arith) e (λ j lo' hi'. elim (Bool-cases (j == i)) [
      | inl at ↦ let same : j ≡ i = ground arith in rw same other
      | inr at ↦ h j (ground arith) (ground arith)
    ])

search_slots-Found : (n i : ℕ) (pid : ℤ) (k : Kernel) → Found n i pid k (search_slots n i pid k)
unfolding search_slots
search_slots-Found zero i pid k = absent (λ j lo hi. absurd (omega arith))
search_slots-Found (suc n) i pid k = elim (Bool-cases (holds_pid pid k i)) [
  | inl e ↦
      rw (e, search_slots)
        (present i (omega arith) (omega arith) e (λ j lo hi. absurd (omega arith)))
  | inr e ↦
      rw (e, search_slots)
        (Found-skip n i pid k (search_slots n (i + 1) pid k) e (search_slots-Found n (i + 1) pid k))
]

-- The search by PID gives the process in the first of the 64 slots that holds a process with
-- that PID, and NULL only if no slot does.
pub search_process-Found :
    (pid : ℤ) (k : Kernel) → Found n_processes_max 0 pid k (search_process pid k)
unfolding search_process
search_process-Found pid k = search_slots-Found n_processes_max 0 pid k
