-- ===== src/Sched/Table.antt =====
-- The process table as a list, and the bound that it puts on the ready queue.
use demo_os.Base.{
  ℕ, zero, suc, ◌+◌, ◌≤◌, ◌<◌, ◌≡◌, ◌≢◌, refl, false, ◌==◌, List, [], ◌∷◌, arith, inl, inr,
  Bool-cases, length, ◌∈◌, ◌∉◌, ==-refl, update,
}
use demo_os.Process.{Ptr}

-- The slots `i` to `i + n`.
unfoldable pub slots : ℕ → ℕ → (ℕ → Ptr) → List Ptr
slots zero i processes = []
slots (suc n) i processes = processes i ∷ slots n (i + 1) processes

pub length-slots : (n i : ℕ) (processes : ℕ → Ptr) → length (slots n i processes) ≡ n
unfolding slots
length-slots zero i processes = refl
length-slots (suc n) i processes = rw (length-slots n (i + 1) processes) refl

pub mem-slots :
    (n i : ℕ) (processes : ℕ → Ptr) (j : ℕ) → i ≤ j → j < i + n → processes j ∈ slots n i processes
unfolding slots
mem-slots zero i processes j lo hi = absurd (omega arith)
mem-slots (suc n) i processes j lo hi = elim (Bool-cases (j == i)) [
  | inl e ↦ let same : j ≡ i = ground arith in rw (same, ==-refl (processes i)) refl
  | inr e ↦ let rest = mem-slots n (i + 1) processes j (ground arith) (ground arith) in ground arith
]

pub ne_of_not_mem-slots :
    (n i : ℕ) (processes : ℕ → Ptr) (a : Ptr) (j : ℕ)
    → a ∉ slots n i processes
    → i ≤ j
    → j < i + n
    → processes j ≢ a
ne_of_not_mem-slots n i processes a j out lo hi e =
    let m = mem-slots n i processes j lo hi in cc (rw e at m)

-- An entry into an empty slot loses nobody.
pub mem-slots-update :
    (n i : ℕ) (processes : ℕ → Ptr) (s : ℕ) (p a : Ptr)
    → processes s ≢ a
    → a ∈ slots n i processes
    → a ∈ slots n i (update processes s p)
unfolding slots
mem-slots-update zero i processes s p a ne m = m
mem-slots-update (suc n) i processes s p a ne m =
    ground (arith, mem-slots-update n (i + 1) processes s p a)

-- Who is listed behind an entry is the new one, or was listed.
pub mem-slots_update :
    (n i : ℕ) (processes : ℕ → Ptr) (s : ℕ) (p a : Ptr)
    → (a == p) ≡ false
    → a ∈ slots n i (update processes s p)
    → a ∈ slots n i processes
unfolding slots
mem-slots_update zero i processes s p a ne m = m
mem-slots_update (suc n) i processes s p a ne m =
    ground (arith, mem-slots_update n (i + 1) processes s p a ne)
