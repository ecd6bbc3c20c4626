-- ===== src/Base/Pigeonhole.antt =====
-- Distinct numbers out of a list are no more than the list is long.
use Prim.Native.Nat.{ℕ, ◌+◌, ◌≤◌}
use mathlib.Core.Path.{◌≡◌}
use mathlib.Core.Bool.{false}
use mathlib.Core.Logic.{inl, inr}
use mathlib.Core.List.{List, [], ◌∷◌}
use native.Mathlib.Omega.{arith}
use demo_os.Base.Tests.{◌==◌, if◌then◌else◌, Bool-cases}
use demo_os.Base.Lists.{length, ◌∈◌, Distinct}

-- Without the first occurrence.
erase : ℕ → List ℕ → List ℕ
erase a [] = []
erase a (x ∷ xs) = if a == x then xs else x ∷ erase a xs

length-erase : (a : ℕ) (ys : List ℕ) → a ∈ ys → length (erase a ys) + 1 ≡ length ys
unfolding erase
length-erase a [] m = cc
length-erase a (y ∷ ys) m = elim (Bool-cases (a == y)) [
  | inl e ↦ rw e (omega arith)
  | inr e ↦ rw e (let rest = length-erase a ys (ground arith) in omega arith)
]

mem-erase : (a b : ℕ) (ys : List ℕ) → (b == a) ≡ false → b ∈ ys → b ∈ erase a ys
unfolding erase
mem-erase a b [] ne m = m
mem-erase a b (y ∷ ys) ne m = ground (arith, mem-erase a b ys)

pub length-le_of_Distinct :
    (xs ys : List ℕ) → Distinct xs → ((a : ℕ) → a ∈ xs → a ∈ ys) → length xs ≤ length ys
length-le_of_Distinct [] ys d h = omega arith
length-le_of_Distinct (x ∷ xs) ys d h =
    let rest =
      length-le_of_Distinct xs (erase x ys) d.1
        (λ a m. mem-erase x a ys (ground (arith, d.0)) (h a (ground arith))) in
    let short = length-erase x ys (h x (ground arith)) in omega arith
