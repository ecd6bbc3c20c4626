-- ===== src/Text/Split.antt =====
-- common/string.c: the two halves that strsplit makes of a line.
use mathlib.Core.List.{append-nil}
use demo_os.Base.{
  ℕ, zero, suc, ◌+◌, ◌-◌, ◌<◌, ◌≤◌, ◌≡◌, ◌≢◌, ◌⊎◌, refl, ap, ◌∙◌, false, ==_of_ne, ==-refl, update,
  some, List, [], ◌∷◌, ◌++◌, length, length-append, All, arith, Returns, returns,
}
use demo_os.Text.{Chars, ends_line, copy_line, strsplit}
use demo_os.Text.Copy.{IsString, IsString-frame, IsString-drop, Apart}
use demo_os.Text.Block.{store_bytes}
use demo_os.Text.Stretch.{Stretch, Stretch-frame, store_bytes-frame, store_bytes-Stretch}

-- A character that neither ends the line nor is the delimiter.
abbrev pub InWord : ℕ → ℕ → Type 0
InWord delimiter c = (ends_line c ≡ false) × (c ≢ delimiter)

abbrev pub InLine : ℕ → Type 0
InLine c = ends_line c ≡ false

copy_line-stores :
    (fuel pointer pointer' dest2 : ℕ) (mem : Chars) (rest : List ℕ)
    → IsString mem pointer rest
    → All InLine rest
    → Apart pointer dest2 (length rest) (length rest)
    → pointer' ≡ pointer + length rest
    → length rest < fuel
    → copy_line fuel pointer dest2 mem ≡ some (pointer', store_bytes dest2 rest mem)
unfolding copy_line store_bytes
copy_line-stores zero pointer pointer' dest2 mem rest s line apart e enough = absurd (omega arith)
copy_line-stores (suc fuel) pointer pointer' dest2 mem [] s line apart e enough =
    let same : pointer' ≡ pointer = omega arith in rw (s, same) refl
copy_line-stores (suc fuel) pointer pointer' dest2 mem (x ∷ rest) s line apart e enough =
    rw (s.0, line.0)
      (copy_line-stores fuel (pointer + 1) pointer' (dest2 + 1) (update mem dest2 x) rest
        (IsString-frame mem (update mem dest2 x) (pointer + 1) rest s.2 (λ a lo hi. ground arith))
        line.1 (ground arith) (omega arith) (omega arith))

-- The word before the delimiter.
strsplit-word :
    (n fuel pointer pointer' delimiter dest1 dest1' dest2 : ℕ) (mem : Chars) (word rest : List ℕ)
    → IsString mem pointer (word ++ rest)
    → All (InWord delimiter) word
    → Apart pointer dest1 (length word + length rest) (length word)
    → pointer' ≡ pointer + length word
    → dest1' ≡ dest1 + length word
    → n ≡ length word + fuel
    → strsplit n pointer delimiter dest1 dest2 mem
      ≡ strsplit fuel pointer' delimiter dest1' dest2 (store_bytes dest1 word mem)
unfolding strsplit store_bytes
strsplit-word n fuel pointer pointer' delimiter dest1 dest1' dest2 mem [] rest s inside apart e f
      g =
    let same : pointer' ≡ pointer = omega arith in
    let same1 : dest1' ≡ dest1 = omega arith in
    let same2 : n ≡ fuel = omega arith in rw (same, same1, same2) refl
strsplit-word n fuel pointer pointer' delimiter dest1 dest1' dest2 mem (x ∷ word) rest s inside
      apart e f g =
    let more : n ≡ suc (length word + fuel) = omega arith in
    let size = length-append word rest in
    rw (more, strsplit, s.0, inside.0.0, ==_of_ne x delimiter inside.0.1)
      (strsplit-word (length word + fuel) fuel (pointer + 1) pointer' delimiter (dest1 + 1) dest1'
        dest2 (update mem dest1 x) word rest
        (IsString-frame mem (update mem dest1 x) (pointer + 1) (word ++ rest) s.2
          (λ a lo hi. ground arith))
        inside.1 (ground arith) (omega arith) (omega arith) refl)

strsplit-delimiter :
    (n fuel pointer pointer' delimiter dest1 dest2 : ℕ) (mem mem' : Chars)
    → n ≡ suc fuel
    → mem pointer ≡ delimiter
    → ends_line delimiter ≡ false
    → copy_line fuel (pointer + 1) dest2 (update mem dest1 0) ≡ some (pointer', mem')
    → strsplit n pointer delimiter dest1 dest2 mem
      ≡ strsplit fuel pointer' delimiter dest1 dest2 mem'
unfolding strsplit
strsplit-delimiter n fuel pointer pointer' delimiter dest1 dest2 mem mem' more at in_line copied =
    rw (more, strsplit, at, in_line, ==-refl delimiter, copied) refl

strsplit-end :
    (fuel pointer delimiter dest1 dest2 : ℕ) (mem : Chars)
    → 0 < fuel
    → mem pointer ≡ 0
    → strsplit fuel pointer delimiter dest1 dest2 mem ≡ some mem
unfolding strsplit
strsplit-end zero pointer delimiter dest1 dest2 mem more end = absurd (omega arith)
strsplit-end (suc fuel) pointer delimiter dest1 dest2 mem more end = rw (strsplit, end) refl

Stretch-word :
    (delimiter : ℕ) (mem : Chars) (p : ℕ) (word : List ℕ)
    → Stretch mem p word
    → All (InWord delimiter) word
    → mem (p + length word) ≡ 0
    → IsString mem p word
Stretch-word delimiter mem p [] s inside end = ap mem (omega arith) ∙ end
Stretch-word delimiter mem p (x ∷ word) s inside end = (
  s.0,
  nonzero x (inside.0.0),
  Stretch-word delimiter mem (p + 1) word s.1 inside.1 (ap mem (omega arith) ∙ end),
)
  where
    nonzero : (c : ℕ) → ends_line c ≡ false → c ≢ 0
    nonzero c e = ground arith

-- What `strsplit` leaves: the first half is a string, the second one has no zero behind it.
pub record Split (dest1 dest2 : ℕ) (word rest : List ℕ) (mem mem' : Chars) : Type 0 where
  pub first : IsString mem' dest1 word
  pub second : Stretch mem' dest2 rest
  pub others :
      (a : ℕ)
      → (a < dest1) ⊎ (dest1 + length word < a)
      → (a < dest2) ⊎ (dest2 + length rest ≤ a)
      → mem' a ≡ mem a

-- strsplit, on a string in which a word without the delimiter stands before a delimiter and the
-- rest, with no end of line in either, and on two destinations that overlap neither the string
-- nor each other, ends within a fuel above the length of the string. The first destination
-- holds the word with its terminating zero, the second one the rest without one, and no other
-- character is written.
pub strsplit-Split :
    (fuel src delimiter dest1 dest2 : ℕ) (mem : Chars) (word rest : List ℕ)
    → IsString mem src (word ++ (delimiter ∷ rest))
    → ends_line delimiter ≡ false
    → All (InWord delimiter) word
    → All InLine rest
    → Apart src dest1 (length word + 1 + length rest) (length word)
    → Apart src dest2 (length word + 1 + length rest) (length rest)
    → Apart dest1 dest2 (length word) (length rest)
    → length word + 1 + length rest < fuel
    → Returns (Split dest1 dest2 word rest mem) (strsplit fuel src delimiter dest1 dest2 mem)
strsplit-Split fuel src delimiter dest1 dest2 mem word rest s in_line inside line apart1 apart2
      apart enough =
    let l = length word in
    let m = length rest in
    let left = fuel - l - 1 in
    let mem1 = store_bytes dest1 word mem in
    let mem2 = update mem1 (dest1 + l) 0 in
    let mem3 = store_bytes dest2 rest mem2 in
    let kept1 : ((a : ℕ) → (a < dest1) ⊎ (dest1 + l ≤ a) → mem1 a ≡ mem a) =
      store_bytes-frame dest1 word mem in
    let kept3 : ((a : ℕ) → (a < dest2) ⊎ (dest2 + m ≤ a) → mem3 a ≡ mem2 a) =
      store_bytes-frame dest2 rest mem2 in
    let s1 : IsString mem (src + l) (delimiter ∷ rest) =
      IsString-drop mem src (src + l) word (delimiter ∷ rest) refl s in
    let s2 : IsString mem2 (src + l + 1) rest =
      IsString-frame mem mem2 (src + l + 1) rest s1.2
        (λ a lo hi. ground (arith, kept1 a (omega arith))) in
    let here : mem1 (src + l) ≡ delimiter = kept1 (src + l) (omega arith) ∙ s1.0 in
    let end : mem3 (src + l + 1 + m) ≡ 0 =
      kept3 (src + l + 1 + m) (omega arith)
      ∙ IsString-drop mem2 (src + l + 1) (src + l + 1 + m) rest [] refl (rw (append-nil rest) s2) in
    rw
      (
        strsplit-word fuel (suc left) src (src + l) delimiter dest1 (dest1 + l) dest2 mem word
            (delimiter ∷ rest) s inside (omega arith) refl refl (omega arith),
        strsplit-delimiter (suc left) left (src + l) (src + l + 1 + m) delimiter (dest1 + l) dest2
            mem1 mem3 refl here in_line
            (copy_line-stores left (src + l + 1) (src + l + 1 + m) dest2 mem2 rest s2 line
              (omega arith) refl (omega arith)),
        strsplit-end left (src + l + 1 + m) delimiter (dest1 + l) dest2 mem3 (omega arith) end,
      )
      (returns (record {
        first =
            Stretch-word delimiter mem3 dest1 word
              (Stretch-frame mem1 mem3 dest1 word (store_bytes-Stretch dest1 word mem)
                (λ a lo hi. kept3 a (omega arith) ∙ ground arith))
              inside (kept3 (dest1 + l) (omega arith) ∙ ground arith);
        second = store_bytes-Stretch dest2 rest mem2;
        others = λ a out1 out2. kept3 a out2 ∙ ground (arith, kept1 a (omega arith));
      }))
