-- ===== src/Text/Copy.antt =====
-- Length, copy and concatenation of terminated strings.
use demo_os.Base.{
  ℕ, zero, suc, ◌+◌, ◌<◌, ◌≤◌, ◌≡◌, ◌≢◌, ◌⊎◌, refl, ◌∙◌, ap, update, some, List, [], ◌∷◌, ◌++◌,
  length, arith, inl, ==-refl, ==_of_ne, Returns, returns, Returns-mono,
}
use demo_os.Text.{Chars, strlen_from, strlen, copy_string, strcpy, end_of_string, strcat}

-- The terminated string at an address.
abbrev pub IsString : Chars → ℕ → List ℕ → Type 0
IsString mem p [] = mem p ≡ 0
IsString mem p (x ∷ xs) = (mem p ≡ x) × (x ≢ 0) × IsString mem (p + 1) xs

pub IsString-at :
    (mem : Chars) (p q : ℕ) (xs : List ℕ) → q ≡ p → IsString mem p xs → IsString mem q xs
IsString-at mem p q xs e s = rw e s

pub IsString-frame :
    (mem mem' : Chars) (p : ℕ) (xs : List ℕ)
    → IsString mem p xs
    → ((a : ℕ) → p ≤ a → a ≤ p + length xs → mem' a ≡ mem a)
    → IsString mem' p xs
IsString-frame mem mem' p [] s h = h p (omega arith) (omega arith) ∙ s
IsString-frame mem mem' p (x ∷ xs) s h = (
  h p (omega arith) (omega arith) ∙ s.0,
  s.1,
  IsString-frame mem mem' (p + 1) xs s.2 (λ a lo hi. h a (omega arith) (omega arith)),
)

pub IsString-drop :
    (mem : Chars) (p q : ℕ) (xs ys : List ℕ)
    → q ≡ p + length xs
    → IsString mem p (xs ++ ys)
    → IsString mem q ys
IsString-drop mem p q [] ys e s = IsString-at mem p q ys (omega arith) s
IsString-drop mem p q (x ∷ xs) ys e s = IsString-drop mem (p + 1) q xs ys (omega arith) s.2

strlen_from-length :
    (fuel : ℕ) (mem : Chars) (str len : ℕ) (xs : List ℕ)
    → IsString mem (str + len) xs
    → length xs < fuel
    → strlen_from fuel mem str len ≡ some (len + length xs)
unfolding strlen_from
strlen_from-length zero mem str len xs s enough = absurd (omega arith)
strlen_from-length (suc fuel) mem str len [] s enough = rw s (ap some (omega arith))
strlen_from-length (suc fuel) mem str len (x ∷ xs) s enough =
    rw (s.0, ==_of_ne x 0 s.1)
      (strlen_from-length fuel mem str (len + 1) xs
          (IsString-at mem (str + len + 1) (str + (len + 1)) xs (omega arith) s.2) (omega arith)
        ∙ ap some (omega arith))

-- What a copy leaves: the string at the destination, and all other characters.
pub record Copied (dest : ℕ) (xs : List ℕ) (mem mem' : Chars) : Type 0 where
  pub string : IsString mem' dest xs
  pub others : (a : ℕ) → (a < dest) ⊎ (dest + length xs < a) → mem' a ≡ mem a

-- Two stretches of `n + 1` characters that do not meet.
abbrev pub Apart : (p q n m : ℕ) → Type 0
Apart p q n m = (p + n < q) ⊎ (q + m < p)

copy_string-Copied :
    (fuel dest src : ℕ) (mem : Chars) (xs : List ℕ)
    → IsString mem src xs
    → Apart dest src (length xs) (length xs)
    → length xs < fuel
    → Returns (Copied dest xs mem) (copy_string fuel dest src mem)
unfolding copy_string
copy_string-Copied zero dest src mem xs s apart enough = absurd (omega arith)
copy_string-Copied (suc fuel) dest src mem [] s apart enough = rw s (
    returns (record {
      string = rw (==-refl dest) refl;
      others = λ a out. rw (==_of_ne dest a (ground arith)) refl;
    }))
copy_string-Copied (suc fuel) dest src mem (x ∷ xs) s apart enough =
    rw (s.0, ==_of_ne x 0 s.1)
      (Returns-mono
        (copy_string-Copied fuel (dest + 1) (src + 1) (update mem dest x) xs
          (IsString-frame mem (update mem dest x) (src + 1) xs s.2 (λ a lo hi. ground arith))
          (ground arith) (omega arith))
        (λ mem' c. record {
          string = (c.others dest (inl (omega arith)) ∙ rw (==-refl dest) refl, s.1, c.string);
          others = λ a out. c.others a (ground arith) ∙ rw (==_of_ne dest a (ground arith)) refl;
        }))

-- strcpy of a terminated string to where it does not overlap ends within a fuel above its
-- length: the destination holds the string with its terminating zero, and no character outside
-- it is written.
pub strcpy-Copied :
    (fuel dest src : ℕ) (mem : Chars) (xs : List ℕ)
    → IsString mem src xs
    → Apart dest src (length xs) (length xs)
    → length xs < fuel
    → Returns (Copied dest xs mem) (strcpy fuel dest src mem)
unfolding strcpy
strcpy-Copied = copy_string-Copied

-- strlen of a terminated string ends within a fuel above its length, and gives the number of
-- its characters.
pub strlen-length :
    (fuel : ℕ) (mem : Chars) (str : ℕ) (xs : List ℕ)
    → IsString mem str xs
    → length xs < fuel
    → strlen fuel mem str ≡ some (length xs)
unfolding strlen
strlen-length fuel mem str xs s enough =
    strlen_from-length fuel mem str 0 xs (IsString-at mem str (str + 0) xs (omega arith) s) enough
    ∙ ap some (omega arith)

pub end_of_string-length :
    (fuel : ℕ) (mem : Chars) (p : ℕ) (xs : List ℕ)
    → IsString mem p xs
    → length xs < fuel
    → end_of_string fuel mem p ≡ some (p + length xs)
unfolding end_of_string
end_of_string-length zero mem p xs s enough = absurd (omega arith)
end_of_string-length (suc fuel) mem p [] s enough = rw s (ap some (omega arith))
end_of_string-length (suc fuel) mem p (x ∷ xs) s enough =
    rw (s.0, ==_of_ne x 0 s.1)
      (end_of_string-length fuel mem (p + 1) xs s.2 (omega arith) ∙ ap some (omega arith))

pub IsString-append :
    (mem mem' : Chars) (p : ℕ) (xs ys : List ℕ)
    → IsString mem p xs
    → ((a : ℕ) → p ≤ a → a < p + length xs → mem' a ≡ mem a)
    → IsString mem' (p + length xs) ys
    → IsString mem' p (xs ++ ys)
IsString-append mem mem' p [] ys s h t = IsString-at mem' (p + 0) p ys (omega arith) t
IsString-append mem mem' p (x ∷ xs) ys s h t = (
  h p (omega arith) (omega arith) ∙ s.0,
  s.1,
  IsString-append mem mem' (p + 1) xs ys s.2 (λ a lo hi. h a (omega arith) (omega arith))
      (IsString-at mem' (p + length (x ∷ xs)) (p + 1 + length xs) ys (omega arith) t),
)

-- What `strcat` leaves.
pub record Concatenated (dest : ℕ) (xs ys : List ℕ) (mem mem' : Chars) : Type 0 where
  pub string : IsString mem' dest (xs ++ ys)
  pub others : (a : ℕ) → (a < dest) ⊎ (dest + length xs + length ys < a) → mem' a ≡ mem a

-- strcat of two terminated strings, the second of which stands outside what the first one grows
-- into, ends within a fuel above their lengths: the destination holds both in order, with a
-- terminating zero, and no character outside it is written.
pub strcat-Concatenated :
    (fuel dest src : ℕ) (mem : Chars) (xs ys : List ℕ)
    → IsString mem dest xs
    → IsString mem src ys
    → Apart dest src (length xs + length ys) (length ys)
    → length xs < fuel
    → length ys < fuel
    → Returns (Concatenated dest xs ys mem) (strcat fuel dest src mem)
unfolding strcat
strcat-Concatenated fuel dest src mem xs ys s t apart enough enough' =
    rw (end_of_string-length fuel mem dest xs s enough) (
      Returns-mono (copy_string-Copied fuel (dest + length xs) src mem ys t (ground arith) enough')
        (λ mem' c. record {
          string =
              IsString-append mem mem' dest xs ys s (λ a lo hi. c.others a (inl (omega arith)))
                c.string;
          others = λ a out. c.others a (ground arith);
        }))
