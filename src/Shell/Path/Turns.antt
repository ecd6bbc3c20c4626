-- ===== src/Shell/Path/Turns.antt =====
-- app/shell.c: the turns of the loop of normalize_path at a name, a '/', "." and "..".
use demo_os.Base.{
  ℕ, zero, suc, ◌+◌, ◌<◌, ◌≤◌, ◌≡◌, ◌≢◌, refl, ap, ◌∙◌, inl, inr, sym, Bool-cases, List, [], ◌∷◌,
  ◌++◌, length, update, arith, ==_of_ne, ◌==◌,
}
use demo_os.Base.Int.{pos}
use demo_os.Text.{Chars}
use demo_os.Text.Copy.{IsString, IsString-at, IsString-frame}
use demo_os.Text.Block.{store_bytes}
use demo_os.Shell.Path.{slash, dot, next, turn, back_up, normalize_from}
use demo_os.Text.Stretch.{Stretch}
use demo_os.Shell.Path.Components.{
  Folder, IsName, IsName-head, IsName-tail, Bounded, Written, folder_length,
}

-- The next two characters are no end of ".", nor of "..".
abbrev Copies : (c d e : ℕ) → Type 0
Copies c d e = (c ≢ 0) × (c ≡ dot → (d ≢ 0) × (d ≢ slash) × (d ≡ dot → (e ≢ 0) × (e ≢ slash)))

turn-Copies :
    (path read w : ℕ) (mem : Chars) (c : ℕ)
    → mem (path + read) ≡ c
    → Copies c (mem (path + read + 1)) (mem (path + read + 2))
    → turn path read (pos w) mem ≡ next (read + 1) (pos (suc w)) (update mem (path + w) c)
unfolding turn
turn-Copies path read w mem c here copies =
    let nonzero = copies.0 in let at_dot = copies.1 in rw here (ground arith)

-- In a name, and where it ends.
Copies-name :
    (mem : Chars) (q x : ℕ) (xs zs : List ℕ)
    → IsName (x ∷ xs)
    → Bounded zs
    → IsString mem q ((x ∷ xs) ++ zs)
    → Copies x (mem (q + 1)) (mem (q + 2))
Copies-name mem q x [] zs names bound s = (names.0, λ at_dot. absurd (names.2 at_dot))
Copies-name mem q x (y ∷ []) zs names bound s = (
  names.0,
  λ at_dot. (
    rw (s.2.0) (names.2.0),
    rw (s.2.0) (names.2.1),
    rw (s.2.0) (λ dotted. absurd (names.2.2 dotted)),
  ),
)
Copies-name mem q x (y ∷ z ∷ xs) zs names bound s =
    let third : mem (q + 2) ≡ z = ap mem (omega arith) ∙ s.2.2.0 in
    let head = IsName-head z xs names.2.2 in
    (
      names.0,
      λ at_dot. (
        rw (s.2.0) (names.2.0),
        rw (s.2.0) (names.2.1),
        λ dotted. (rw third (head.0), rw third (head.1)),
      ),
    )

turn-name :
    (path read w : ℕ) (mem : Chars) (x : ℕ) (xs zs : List ℕ)
    → IsName (x ∷ xs)
    → Bounded zs
    → IsString mem (path + read) ((x ∷ xs) ++ zs)
    → turn path read (pos w) mem ≡ next (read + 1) (pos (suc w)) (update mem (path + w) x)
turn-name path read w mem x xs zs names bound s =
    turn-Copies path read w mem x s.0 (Copies-name mem (path + read) x xs zs names bound s)

pub turn-slash :
    (path read w : ℕ) (mem : Chars)
    → mem (path + read) ≡ slash
    → turn path read (pos w) mem ≡ next (read + 1) (pos (suc w)) (update mem (path + w) slash)
turn-slash path read w mem here =
    turn-Copies path read w mem slash here (omega arith, λ at_dot. absurd (omega arith))

pub turn-here :
    (path read w : ℕ) (mem : Chars) (zs : List ℕ)
    → IsString mem (path + read) (dot ∷ slash ∷ zs)
    → turn path read (pos w) mem ≡ next (read + 2) (pos w) mem
unfolding turn
turn-here path read w mem zs s = let c = s.0 in let d = s.2.0 in ground arith

pub turn-here_end :
    (path read w : ℕ) (mem : Chars)
    → IsString mem (path + read) (dot ∷ [])
    → turn path read (pos w) mem ≡ next (read + 1) (pos w) mem
unfolding turn
turn-here_end path read w mem s = let c = s.0 in let d = s.2 in ground arith

pub turn-up :
    (path read w : ℕ) (mem : Chars) (zs : List ℕ)
    → IsString mem (path + read) (dot ∷ dot ∷ slash ∷ zs)
    → turn path read (pos (suc w)) mem ≡ next (read + 3) (pos (back_up mem path w)) mem
unfolding turn
turn-up path read w mem zs s =
    let c = s.0 in
    let d = s.2.0 in
    let e : mem (path + read + 2) ≡ slash = ap mem (omega arith) ∙ s.2.2.0 in ground arith

pub turn-up_end :
    (path read w : ℕ) (mem : Chars)
    → IsString mem (path + read) (dot ∷ dot ∷ [])
    → turn path read (pos (suc w)) mem ≡ next (read + 2) (pos (back_up mem path w)) mem
unfolding turn
turn-up_end path read w mem s =
    let c = s.0 in
    let d = s.2.0 in
    let e : mem (path + read + 2) ≡ 0 = ap mem (omega arith) ∙ s.2.2 in ground arith

-- One turn that goes on.
pub normalize_from-next :
    (n fuel path read read' : ℕ) (w w' : ℕ) (mem mem' : Chars)
    → n ≡ suc fuel
    → turn path read (pos w) mem ≡ next read' (pos w') mem'
    → normalize_from n path read (pos w) mem ≡ normalize_from fuel path read' (pos w') mem'
unfolding normalize_from
normalize_from-next n fuel path read read' w w' mem mem' more step =
    rw (more, normalize_from, step) refl

-- The whole of a name, at indices that are given up to equations.
pub name-copied :
    (xs : List ℕ) (n fuel path read read' w w' at : ℕ) (mem : Chars) (zs : List ℕ)
    → n ≡ length xs + fuel
    → read' ≡ read + length xs
    → w' ≡ w + length xs
    → at ≡ path + w
    → IsName xs
    → Bounded zs
    → IsString mem (path + read) (xs ++ zs)
    → w ≤ read
    → normalize_from n path read (pos w) mem
      ≡ normalize_from fuel path read' (pos w') (store_bytes at xs mem)
unfolding store_bytes
name-copied [] n fuel path read read' w w' at mem zs en er ew ea names bound s behind =
    let same_fuel : n ≡ fuel = omega arith in
    let same_read : read' ≡ read = omega arith in
    let same_write : w' ≡ w = omega arith in rw (same_fuel, same_read, same_write) refl
name-copied (x ∷ xs) n fuel path read read' w w' at mem zs en er ew ea names bound s behind =
    normalize_from-next n (length xs + fuel) path read (read + 1) w (suc w) mem
      (update mem (path + w) x) (omega arith) (turn-name path read w mem x xs zs names bound s)
    ∙ rw ea (
        name-copied xs (length xs + fuel) fuel path (read + 1) read' (suc w) w' (path + w + 1)
          (update mem (path + w) x) zs refl (omega arith) (omega arith) (omega arith)
          (IsName-tail x xs names) bound
          (IsString-frame mem (update mem (path + w) x) (path + (read + 1)) (xs ++ zs)
            (IsString-at mem (path + read + 1) (path + (read + 1)) (xs ++ zs) (omega arith) s.2)
            (λ a lo hi. ground arith))
          (omega arith))

pub folder_length-ne : (st : Folder) → folder_length st ≢ 0
folder_length-ne [] = omega arith
folder_length-ne (n ∷ st) = omega arith

-- The inner loop stops behind the '/' before a name.
back_up-stops :
    (m w l path : ℕ) (mem : Chars)
    → w ≡ suc l + m
    → mem (path + l) ≡ slash
    → ((i : ℕ) → suc l ≤ i → i < suc l + m → mem (path + i) ≢ slash)
    → back_up mem path w ≡ suc l
unfolding back_up
back_up-stops zero w l path mem ew stop others =
    let one : w ≡ suc l = omega arith in rw (one, stop) refl
back_up-stops (suc m) w l path mem ew stop others =
    let more : w ≡ suc (suc l + m) = omega arith in
    let differs = others (suc l + m) (omega arith) (omega arith) in
    rw (more, ==_of_ne (mem (path + (suc l + m))) slash differs)
      (back_up-stops m (suc l + m) l path mem refl stop (λ i lo hi. others i lo (omega arith)))

-- No character of a name is a '/'.
Stretch-ne :
    (mem : Chars) (p : ℕ) (xs : List ℕ) (a : ℕ)
    → Stretch mem p xs
    → IsName xs
    → p ≤ a
    → a < p + length xs
    → mem a ≢ slash
Stretch-ne mem p [] a s names lo hi = absurd (omega arith)
Stretch-ne mem p (x ∷ xs) a s names lo hi = elim (Bool-cases (a == p)) [
  | inl at ↦ let same : a ≡ p = ground arith in rw (same, s.0) ((IsName-head x xs names).1)
  | inr off ↦ Stretch-ne mem (p + 1) xs a s.1 (IsName-tail x xs names) (ground arith) (omega arith)
]

-- The last character of a folder is a '/'.
Written-slash :
    (mem : Chars) (path : ℕ) (st : Folder) (l : ℕ)
    → Written mem path st
    → folder_length st ≡ suc l
    → mem (path + l) ≡ slash
Written-slash mem path [] l w e = ap mem (omega arith) ∙ w
Written-slash mem path (n ∷ st) l w e = ap mem (omega arith) ∙ w.2

pub back_up-folder :
    (mem : Chars) (path : ℕ) (n : List ℕ) (st : Folder) (w : ℕ)
    → Written mem path (n ∷ st)
    → w ≡ folder_length st + length n
    → back_up mem path w ≡ folder_length st
back_up-folder mem path n st w written ew = go (folder_length st) refl
  where
    go : (l : ℕ) → folder_length st ≡ l → back_up mem path w ≡ folder_length st
    go zero e = absurd (folder_length-ne st e)
    go (suc l) e =
        back_up-stops (length n) w l path mem (omega arith)
          (Written-slash mem path st l written.0 e)
          (λ i lo hi.
            Stretch-ne mem (path + folder_length st) n (path + i) written.1 written.3 (omega arith)
              (omega arith))
        ∙ sym e
