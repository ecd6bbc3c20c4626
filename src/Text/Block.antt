-- ===== src/Text/Block.antt =====
-- common/memory.S: blocks of memory, as the programs call them, and the texts that they hold.
use demo_os.Base.{
  ℕ, zero, suc, ◌+◌, ◌*◌, ◌/◌, Bool, true, ◌&&◌, ◌==◌, ltb, leb, if◌then◌else◌, update, Option,
  none, some, ◌>>=◌, List, [], ◌∷◌,
}
use demo_os.Text.{Chars}

-- The instruction stores eight bytes of zeros, and the loop has one round at least.
unfoldable pub memzero : (src n : ℕ) → Chars → Chars
memzero src n mem =
    let rounds = if n == 0 then 1 else (n + 7) / 8 in
    λ a. if leb src a && ltb a (src + 8 * rounds) then 0 else mem a

unfoldable pub move_bytes : ℕ → (dest src : ℕ) → Chars → Chars
move_bytes zero dest src mem = mem
move_bytes (suc n) dest src mem = move_bytes n (dest + 1) (src + 1) (update mem dest (mem src))

-- One byte at least is copied.
unfoldable pub memcpy : (dest src count : ℕ) → Chars → Chars
memcpy dest src count mem = move_bytes (if count == 0 then 1 else count) dest src mem

-- `memcmp(p, literal, n) == 0`: the characters of the literal, then its terminating zero.
unfoldable pub starts_with : Chars → ℕ → (literal : List ℕ) → (n : ℕ) → Bool
starts_with mem p literal zero = true
starts_with mem p [] (suc n) = mem p == 0
starts_with mem p (x ∷ literal) (suc n) = (mem p == x) && starts_with mem (p + 1) literal n

-- A literal that is stored in memory, with its terminating zero.
unfoldable pub store_text : ℕ → List ℕ → Chars → Chars
store_text p [] mem = update mem p 0
store_text p (x ∷ xs) mem = store_text (p + 1) xs (update mem p x)

-- The text at an address, as a call of the kernel reads it.
unfoldable pub text_at : ℕ → Chars → ℕ → Option (List ℕ)
text_at zero mem p = none
text_at (suc fuel) mem p =
    let rest = text_at fuel mem (p + 1) in
    if mem p == 0 then some [] else (rest >>= λ xs. some (mem p ∷ xs))

-- Bytes that a call stores, without a terminating zero.
unfoldable pub store_bytes : ℕ → List ℕ → Chars → Chars
store_bytes p [] mem = mem
store_bytes p (x ∷ xs) mem = store_bytes (p + 1) xs (update mem p x)

-- The `n` bytes at an address.
unfoldable pub bytes_at : ℕ → Chars → ℕ → List ℕ
bytes_at zero mem p = []
bytes_at (suc n) mem p = mem p ∷ bytes_at n mem (p + 1)
