-- ===== src/Text/Stretch.antt =====
-- Characters in a row in memory, as common/string.c copies them, without a terminating zero.
use demo_os.Base.{ℕ, ◌+◌, ◌<◌, ◌≤◌, ◌≡◌, ◌⊎◌, refl, ◌∙◌, inl, List, [], ◌∷◌, length, update, arith}
use demo_os.Text.{Chars}
use demo_os.Text.Block.{store_bytes}

-- The characters at an address, with nothing said of what follows.
abbrev pub Stretch : Chars → ℕ → List ℕ → Type 0
Stretch mem p [] = Unit
Stretch mem p (x ∷ xs) = (mem p ≡ x) × Stretch mem (p + 1) xs

pub Stretch-frame :
    (mem mem' : Chars) (p : ℕ) (xs : List ℕ)
    → Stretch mem p xs
    → ((a : ℕ) → p ≤ a → a < p + length xs → mem' a ≡ mem a)
    → Stretch mem' p xs
Stretch-frame mem mem' p [] s same = tt
Stretch-frame mem mem' p (x ∷ xs) s same = (
  same p (omega arith) (omega arith) ∙ s.0,
  Stretch-frame mem mem' (p + 1) xs s.1 (λ a lo hi. same a (omega arith) (omega arith)),
)

pub store_bytes-frame :
    (p : ℕ) (xs : List ℕ) (mem : Chars) (a : ℕ)
    → (a < p) ⊎ (p + length xs ≤ a)
    → store_bytes p xs mem a ≡ mem a
unfolding store_bytes
store_bytes-frame p [] mem a out = refl
store_bytes-frame p (x ∷ xs) mem a out =
    store_bytes-frame (p + 1) xs (update mem p x) a (omega arith) ∙ ground arith

pub store_bytes-Stretch : (p : ℕ) (xs : List ℕ) (mem : Chars) → Stretch (store_bytes p xs mem) p xs
unfolding store_bytes
store_bytes-Stretch p [] mem = tt
store_bytes-Stretch p (x ∷ xs) mem = (
  store_bytes-frame (p + 1) xs (update mem p x) p (inl (omega arith)) ∙ ground arith,
  store_bytes-Stretch (p + 1) xs (update mem p x),
)
