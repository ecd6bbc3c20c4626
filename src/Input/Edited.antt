-- ===== src/Input/Edited.antt =====
-- Text that is edited as it is typed.
use demo_os.Base.{
  ℕ, zero, suc, ◌-◌, ◌<◌, ◌≡◌, refl, ◌==◌, ltb, if◌then◌else◌, List, [], ◌∷◌, ◌++◌, length, get_or,
  arith,
}
use demo_os.Input.{backspace}

-- The text without its last character.
unfoldable pub drop_last : List ℕ → List ℕ
drop_last [] = []
drop_last (x ∷ []) = []
drop_last (x ∷ y ∷ xs) = x ∷ drop_last (y ∷ xs)

pub length-drop_last : (text : List ℕ) → length (drop_last text) ≡ length text - 1
unfolding drop_last
length-drop_last [] = omega arith
length-drop_last (x ∷ []) = omega arith
length-drop_last (x ∷ y ∷ xs) = let rest = length-drop_last (y ∷ xs) in omega arith

pub get-drop_last :
    (text : List ℕ) (i : ℕ) → i < length text - 1 → get_or (drop_last text) i 0 ≡ get_or text i 0
unfolding drop_last
get-drop_last [] i l = absurd (omega arith)
get-drop_last (x ∷ []) i l = absurd (omega arith)
get-drop_last (x ∷ y ∷ xs) zero l = refl
get-drop_last (x ∷ y ∷ xs) (suc i) l = get-drop_last (y ∷ xs) i (omega arith)

pub get-snoc_last : (text : List ℕ) (c : ℕ) → get_or (text ++ (c ∷ [])) (length text) 0 ≡ c
get-snoc_last [] c = refl
get-snoc_last (x ∷ text) c = get-snoc_last text c

pub get-snoc :
    (text : List ℕ) (c i : ℕ) → i < length text → get_or (text ++ (c ∷ [])) i 0 ≡ get_or text i 0
get-snoc [] c i l = absurd (omega arith)
get-snoc (x ∷ text) c zero l = refl
get-snoc (x ∷ text) c (suc i) l = get-snoc text c i (omega arith)

-- A backspace takes the last character away, another character is appended if there is room.
abbrev pub edit : ℕ → List ℕ → List ℕ → List ℕ
edit max_len text [] = text
edit max_len text (c ∷ typed) =
    edit max_len
      (if c == backspace
        then drop_last text
        else if ltb (length text) max_len
        then text ++ (c ∷ [])
        else text)
      typed
