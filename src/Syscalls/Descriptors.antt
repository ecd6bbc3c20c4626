-- ===== src/Syscalls/Descriptors.antt =====
-- The search for a file descriptor that is not in use.
use demo_os.Base.{
  ℕ, ◌+◌, ◌≡◌, ◌≢◌, ap, ◌==◌, List, [], ◌∷◌, ◌++◌, length, All, arith, inl, inr, Bool-cases,
}
use demo_os.Base.Int.{ℤ, pos, negsuc}
use demo_os.Process.{Ptr, null}
use demo_os.Kernel.{Kernel}
use demo_os.Syscalls.{first_free_slot, get_first_free_file_descriptor}

-- What the search from descriptor `i` on finds.
pub data FreeSlot (i : ℕ) (files : List Ptr) : ℤ → Type 0 where
  all_open : All (λ file. file ≢ null) files → FreeSlot i files (negsuc 0)
  free_at :
      (before after : List Ptr)
      → files ≡ before ++ (null ∷ after)
      → All (λ file. file ≢ null) before
      → (j : ℕ) → j ≡ i + length before
      → FreeSlot i files (pos j)

FreeSlot-skip :
    (i : ℕ) (file : Ptr) (files : List Ptr) (r : ℤ)
    → file ≢ null
    → FreeSlot (i + 1) files r
    → FreeSlot i (file ∷ files) r
FreeSlot-skip i file files _ used (all_open h) = all_open (used, h)
FreeSlot-skip i file files _ used (free_at before after e h j at) =
    free_at (file ∷ before) after (ap (λ fs. file ∷ fs) e) (used, h) j (omega arith)

first_free_slot-FreeSlot : (i : ℕ) (files : List Ptr) → FreeSlot i files (first_free_slot i files)
unfolding first_free_slot
first_free_slot-FreeSlot i [] = all_open tt
first_free_slot-FreeSlot i (file ∷ files) = elim (Bool-cases (file == null)) [
  | inl e ↦
      let same : file ≡ null = ground arith in
      rw (e, first_free_slot) (free_at [] files (ap (λ f. f ∷ files) same) tt i (omega arith))
  | inr e ↦
      rw (e, first_free_slot)
        (FreeSlot-skip i file files (first_free_slot (i + 1) files) (ground arith)
          (first_free_slot-FreeSlot (i + 1) files))
]

-- The search for a file descriptor gives the first one of the process that is NULL, and -1
-- exactly if all are open.
pub get_first_free_file_descriptor-FreeSlot :
    (process : Ptr) (k : Kernel)
    → FreeSlot 0 (k.pcb process).files (get_first_free_file_descriptor process k)
unfolding get_first_free_file_descriptor
get_first_free_file_descriptor-FreeSlot process k = first_free_slot-FreeSlot 0 (k.pcb process).files
