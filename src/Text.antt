-- ===== src/Text.antt =====
-- common/string.c: strings in memory. The memory is a function from addresses to characters, and each
-- loop has a fuel, without which it gives no result: an unterminated string is read without end.
pub mod Copy
pub mod Block
pub mod Stretch
pub mod Arrays
pub mod Split
pub mod Compare
use demo_os.Base.{
  ℕ, zero, suc, ◌+◌, Bool, true, false, not, ◌&&◌, ◌||◌, ◌==◌, if◌then◌else◌, update, Option, none,
  some, ◌>>=◌,
}

abbrev pub Chars : Type 0
Chars = ℕ → ℕ

unfoldable pub strlen_from : ℕ → Chars → (str len : ℕ) → Option ℕ
strlen_from zero mem str len = none
strlen_from (suc fuel) mem str len =
    let rest = strlen_from fuel mem str (len + 1) in if mem (str + len) == 0 then some len else rest

unfoldable pub strlen : ℕ → Chars → ℕ → Option ℕ
strlen fuel mem str = strlen_from fuel mem str 0

-- The loop of `strcpy` and the second one of `strcat`, with the terminating zero.
unfoldable pub copy_string : ℕ → (dest src : ℕ) → Chars → Option Chars
copy_string zero dest src mem = none
copy_string (suc fuel) dest src mem =
    let rest = copy_string fuel (dest + 1) (src + 1) (update mem dest (mem src)) in
    if mem src == 0 then some (update mem dest 0) else rest

unfoldable pub strcpy : ℕ → (dest src : ℕ) → Chars → Option Chars
strcpy fuel dest src mem = copy_string fuel dest src mem

-- The first loop of `strcat`: the address of the terminating zero.
unfoldable pub end_of_string : ℕ → Chars → ℕ → Option ℕ
end_of_string zero mem pointer = none
end_of_string (suc fuel) mem pointer =
    let rest = end_of_string fuel mem (pointer + 1) in
    if mem pointer == 0 then some pointer else rest

unfoldable pub strcat : ℕ → (dest src : ℕ) → Chars → Option Chars
strcat fuel dest src mem = do
  pointer ← end_of_string fuel mem dest
  copy_string fuel pointer src mem

-- The characters `i` to `i + n`; the loop does not stop at the end of a string.
unfoldable pub strcmp_from : ℕ → ℕ → Chars → (src1 src2 : ℕ) → ℕ
strcmp_from zero i mem src1 src2 = 0
strcmp_from (suc n) i mem src1 src2 =
    let rest = strcmp_from n (i + 1) mem src1 src2 in
    if not (mem (src1 + i) == mem (src2 + i)) then 1 else rest

unfoldable pub strcmp : Chars → (src1 src2 size : ℕ) → ℕ
strcmp mem src1 src2 size = strcmp_from size 0 mem src1 src2

-- The end of a line or of a string.
abbrev pub ends_line : ℕ → Bool
ends_line c = (c == 0) || (c == 13) || (c == 10)

-- The inner loop of `strsplit`: the rest of the line goes to the second string, with no zero behind.
unfoldable pub copy_line : ℕ → (pointer dest2 : ℕ) → Chars → Option (ℕ × Chars)
copy_line zero pointer dest2 mem = none
copy_line (suc fuel) pointer dest2 mem =
    let rest = copy_line fuel (pointer + 1) (dest2 + 1) (update mem dest2 (mem pointer)) in
    if ends_line (mem pointer) then some (pointer, mem) else rest

unfoldable pub strsplit : ℕ → (pointer delimiter dest1 dest2 : ℕ) → Chars → Option Chars
strsplit zero pointer delimiter dest1 dest2 mem = none
strsplit (suc fuel) pointer delimiter dest1 dest2 mem =
    let split = copy_line fuel (pointer + 1) dest2 (update mem dest1 0) >>= λ (pointer', mem').
    strsplit fuel pointer' delimiter dest1 dest2 mem' in
    let rest =
      strsplit fuel (pointer + 1) delimiter (dest1 + 1) dest2 (update mem dest1 (mem pointer)) in
    if ends_line (mem pointer) then some mem else if mem pointer == delimiter then split else rest
