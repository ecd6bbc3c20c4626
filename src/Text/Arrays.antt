-- ===== src/Text/Arrays.antt =====
-- common/memory.S and common/string.c: strings in arrays that are cleared and copied whole.
use demo_os.Base.{
  ℕ, zero, suc, ◌+◌, ◌<◌, ◌≤◌, ◌≡◌, ◌≢◌, ◌⊎◌, refl, ap, ◌∙◌, update, List, [], ◌∷◌, length, arith,
  All,
}
use demo_os.Text.{Chars}
use demo_os.Text.Copy.{IsString}
use demo_os.Text.Block.{memzero, memcpy, move_bytes}
use demo_os.Text.Stretch.{Stretch}

pub memzero-zero :
    (src n : ℕ) (mem : Chars) (a : ℕ) → src ≤ a → a < src + n → memzero src n mem a ≡ 0
unfolding memzero
memzero-zero src n mem a lo hi = ground arith

pub memzero_outside :
    (src : ℕ) (mem : Chars) (a : ℕ) → (a < src) ⊎ (src + 64 ≤ a) → memzero src 64 mem a ≡ mem a
unfolding memzero
memzero_outside src mem a out = ground arith

-- A row of characters with a zero behind it.
pub Stretch-zero :
    (mem : Chars) (p : ℕ) (xs : List ℕ)
    → Stretch mem p xs
    → All (λ x. x ≢ 0) xs
    → mem (p + length xs) ≡ 0
    → IsString mem p xs
Stretch-zero mem p [] s nonzero end = ap mem (omega arith) ∙ end
Stretch-zero mem p (x ∷ xs) s nonzero end =
    (s.0, nonzero.0, Stretch-zero mem (p + 1) xs s.1 nonzero.1 (ap mem (omega arith) ∙ end))

move_bytes-frame :
    (n dest src : ℕ) (mem : Chars) (a : ℕ)
    → (a < dest) ⊎ (dest + n ≤ a)
    → move_bytes n dest src mem a ≡ mem a
unfolding move_bytes
move_bytes-frame zero dest src mem a out = refl
move_bytes-frame (suc n) dest src mem a out =
    move_bytes-frame n (dest + 1) (src + 1) (update mem dest (mem src)) a (omega arith)
    ∙ ground arith

-- The copy of bytes to an array that does not meet the source.
move_bytes-copies :
    (n dest src i a b : ℕ) (mem : Chars)
    → (dest + n ≤ src) ⊎ (src + n ≤ dest)
    → i < n
    → a ≡ dest + i
    → b ≡ src + i
    → move_bytes n dest src mem a ≡ mem b
unfolding move_bytes
move_bytes-copies zero dest src i a b mem apart lt ea eb = absurd (omega arith)
move_bytes-copies (suc n) dest src zero a b mem apart lt ea eb =
    let at : a ≡ dest = omega arith in
    let from : b ≡ src = omega arith in
    rw (at, from)
      (move_bytes-frame n (dest + 1) (src + 1) (update mem dest (mem src)) dest (omega arith)
        ∙ ground arith)
move_bytes-copies (suc n) dest src (suc i) a b mem apart lt ea eb =
    move_bytes-copies n (dest + 1) (src + 1) i a b (update mem dest (mem src)) (omega arith)
      (omega arith) (omega arith) (omega arith)
    ∙ ground arith

IsString-shift :
    (mem mem' : Chars) (src dest : ℕ) (xs : List ℕ)
    → IsString mem src xs
    → ((i a b : ℕ) → i ≤ length xs → a ≡ dest + i → b ≡ src + i → mem' a ≡ mem b)
    → IsString mem' dest xs
IsString-shift mem mem' src dest [] s same =
    same 0 dest src (omega arith) (omega arith) (omega arith) ∙ s
IsString-shift mem mem' src dest (x ∷ xs) s same = (
  same 0 dest src (omega arith) (omega arith) (omega arith) ∙ s.0,
  s.1,
  IsString-shift mem mem' (src + 1) (dest + 1) xs s.2
      (λ i a b le ea eb. same (i + 1) a b (omega arith) (omega arith) (omega arith)),
)

-- `memcpy` of an array of 64 characters that holds a string.
pub memcpy-IsString :
    (dest src : ℕ) (mem : Chars) (xs : List ℕ)
    → IsString mem src xs
    → length xs < 64
    → (dest + 64 ≤ src) ⊎ (src + 64 ≤ dest)
    → IsString (memcpy dest src 64 mem) dest xs
unfolding memcpy
memcpy-IsString dest src mem xs s short apart =
    IsString-shift mem (move_bytes 64 dest src mem) src dest xs s
      (λ i a b le ea eb. move_bytes-copies 64 dest src i a b mem (omega arith) (omega arith) ea eb)

pub memcpy_outside :
    (dest src : ℕ) (mem : Chars) (a : ℕ)
    → (a < dest) ⊎ (dest + 64 ≤ a)
    → memcpy dest src 64 mem a ≡ mem a
unfolding memcpy
memcpy_outside dest src mem a out = move_bytes-frame 64 dest src mem a out
