-- ===== src/Shell/Path/Closing.antt =====
-- app/shell.c: the last turns of normalize_path, and the whole function.
use mathlib.Core.List.{append-nil, append_assoc}
use demo_os.Base.{
  ℕ, zero, suc, ◌+◌, ◌-◌, ◌<◌, ◌≤◌, ◌≡◌, ◌≢◌, ◌⊎◌, refl, ap, ◌∙◌, inl, inr, some, List, [], ◌∷◌,
  ◌++◌, length, length-append, update, arith, Returns, returns, ==_of_ne, Returns-mono,
}
use demo_os.Base.Int.{pos}
use demo_os.Text.{Chars}
use demo_os.Text.Copy.{IsString-drop, IsString, IsString-at, IsString-frame}
use demo_os.Text.Block.{store_bytes}
use demo_os.Shell.Path.{slash, turn, back_up, finish, normalize_from, normalize_path}
use demo_os.Text.Stretch.{Stretch, Stretch-frame, store_bytes-frame, store_bytes-Stretch}
use demo_os.Shell.Path.Components.{
  Component, here, up, name, Folder, IsName, IsName-head, IsName-tail, IsComponent, AllComponents,
  StaysBelow, walk_folder, render, text_of, path_text, folder_text, closed_text, folder_length,
  Written, Written-frame, Stretch-IsString,
}
use demo_os.Shell.Path.Turns.{
  normalize_from-next, name-copied, turn-slash, turn-here_end, turn-up_end, back_up-folder,
  folder_length-ne,
}
use demo_os.Shell.Path.Normalize.{walk_folder-Progress}

Stretch-append :
    (mem : Chars) (p : ℕ) (xs ys : List ℕ)
    → Stretch mem p xs
    → IsName xs
    → IsString mem (p + length xs) ys
    → IsString mem p (xs ++ ys)
Stretch-append mem p [] ys s names t = IsString-at mem (p + 0) p ys (omega arith) t
Stretch-append mem p (x ∷ xs) ys s names t = (
  s.0,
  (IsName-head x xs names).0,
  Stretch-append mem (p + 1) xs ys s.1 (IsName-tail x xs names)
      (IsString-at mem (p + suc (length xs)) (p + 1 + length xs) ys (omega arith) t),
)

Written-IsString :
    (mem : Chars) (path : ℕ) (st : Folder) (ys : List ℕ)
    → Written mem path st
    → IsString mem (path + folder_length st) ys
    → IsString mem path (folder_text st ++ ys)
Written-IsString mem path [] ys w t = (w, omega arith, t)
Written-IsString mem path (n ∷ st) ys w t =
    rw (append_assoc (folder_text st) (n ++ (slash ∷ [])) ys, append_assoc n (slash ∷ []) ys)
      (Written-IsString mem path st (n ++ (slash ∷ ys)) w.0 (
        Stretch-append mem (path + folder_length st) n (slash ∷ ys) w.1 w.3 (
          w.2,
          omega arith,
          IsString-at mem (path + suc (folder_length st + length n))
              (path + folder_length st + length n + 1) ys (omega arith) t,
        )))

length-folder_text : (st : Folder) → length (folder_text st) ≡ folder_length st
length-folder_text [] = refl
length-folder_text (n ∷ st) = omega (
  arith,
  length-append (folder_text st) (n ++ (slash ∷ [])),
  length-append n (slash ∷ []),
  length-folder_text st,
)

-- A path in place of another one of `size` characters.
pub record Normalized (path size : ℕ) (xs : List ℕ) (before after : Chars) : Type 0 where
  pub string : IsString after path xs
  pub fits : length xs ≤ size
  pub others : (a : ℕ) → (a < path) ⊎ (path + size < a) → after a ≡ before a

-- The end of the loop, with an index that is not zero.
over-finishes :
    (n path read w : ℕ) (mem : Chars)
    → 0 < n
    → w ≢ 0
    → mem (path + read) ≡ 0
    → normalize_from n path read (pos w) mem ≡ some (update mem (path + w) 0)
unfolding normalize_from turn finish
over-finishes zero path read w mem more behind end = absurd (omega arith)
over-finishes (suc n) path read zero mem more behind end = absurd (behind refl)
over-finishes (suc n) path read (suc w) mem more behind end =
    rw (normalize_from, end, ==_of_ne (suc w) 0 behind) refl

-- The end with an index of zero.
over-root :
    (n path read : ℕ) (mem : Chars)
    → 0 < n
    → mem (path + read) ≡ 0
    → normalize_from n path read (pos 0) mem
      ≡ some (update (update (update mem (path + 0) 0) (path + 0) slash) (path + 1) 0)
unfolding normalize_from turn finish
over-root zero path read mem more end = absurd (omega arith)
over-root (suc n) path read mem more end = rw (normalize_from, end) refl

root-Normalized :
    (n path read size : ℕ) (mem : Chars)
    → 0 < n
    → mem (path + read) ≡ 0
    → 1 ≤ size
    → Returns (Normalized path size (slash ∷ []) mem) (normalize_from n path read (pos 0) mem)
root-Normalized n path read size mem more end fits = rw (over-root n path read mem more end) (
    returns (record {
      string = (ground arith, omega arith, ground arith);
      fits = fits;
      others = λ a out. ground arith;
    }))

-- The end behind a folder.
folder-Normalized :
    (n path read size : ℕ) (st : Folder) (mem : Chars)
    → 0 < n
    → mem (path + read) ≡ 0
    → Written mem path st
    → folder_length st ≤ size
    → Returns
        (Normalized path size (folder_text st) mem)
        (normalize_from n path read (pos (folder_length st)) mem)
folder-Normalized n path read size st mem more end written fits =
    let w = folder_length st in
    let mem1 = update mem (path + w) 0 in
    rw (over-finishes n path read w mem more (folder_length-ne st) end) (
      returns (record {
        string = rw (← append-nil (folder_text st)) (
            Written-IsString mem1 path st []
              (Written-frame mem mem1 path st written (λ a lo hi. ground arith)) (ground arith));
        fits = rw (length-folder_text st) fits;
        others = λ a out. ground arith;
      }))

-- The end behind a folder and a name.
name-Normalized :
    (n path read size : ℕ) (st : Folder) (xs : List ℕ) (mem : Chars)
    → length xs < n
    → IsName xs
    → Written mem path st
    → IsString mem (path + read) xs
    → folder_length st ≤ read
    → size ≡ read + length xs
    → Returns
        (Normalized path size (folder_text st ++ xs) mem)
        (normalize_from n path read (pos (folder_length st)) mem)
name-Normalized n path read size st xs mem more names written s behind at_end =
    let w = folder_length st in
    let l = length xs in
    let mem1 = store_bytes (path + w) xs mem in
    let mem2 = update mem1 (path + (w + l)) 0 in
    let kept : ((a : ℕ) → (a < path + w) ⊎ (path + w + l ≤ a) → mem1 a ≡ mem a) =
      store_bytes-frame (path + w) xs mem in
    let s1 : IsString mem (path + read) (xs ++ []) = rw (append-nil xs) s in
    let end : mem (path + (read + l)) ≡ 0 =
      IsString-drop mem (path + read) (path + (read + l)) xs [] (omega arith) s1 in
    rw
      (
        name-copied xs n (n - l) path read (read + l) w (w + l) (path + w) mem [] (omega arith) refl
            refl refl names tt s1 behind,
        over-finishes (n - l) path (read + l) (w + l) mem1 (omega arith)
            (let positive = folder_length-ne st in omega arith)
            (kept (path + (read + l)) (inr (omega arith)) ∙ end),
      )
      (returns (record {
        string =
            Written-IsString mem2 path st xs
              (Written-frame mem mem2 path st written (λ a lo hi. ground (arith, kept a (inl hi))))
              (Stretch-IsString mem2 (path + w) xs
                (Stretch-frame mem1 mem2 (path + w) xs (store_bytes-Stretch (path + w) xs mem)
                  (λ a lo hi. ground arith))
                names (ground arith));
        fits =
            let total = length-append (folder_text st) xs in
            let folder = length-folder_text st in omega arith;
        others = λ a out. ground (arith, kept a (omega arith));
      }))

last-Normalized :
    (n path read size : ℕ) (st : Folder) (last : Component) (mem : Chars)
    → length (text_of last) < n
    → IsComponent last
    → Written mem path st
    → IsString mem (path + read) (text_of last)
    → folder_length st ≤ read
    → size ≡ read + length (text_of last)
    → Returns
        (Normalized path size (closed_text st last) mem)
        (normalize_from n path read (pos (folder_length st)) mem)
unfolding back_up
last-Normalized n path read size st here mem more names written s behind at_end =
    let w = folder_length st in
    rw
      (normalize_from-next n (n - 1) path read (read + 1) w w mem mem (omega arith)
        (turn-here_end path read w mem s))
      (folder-Normalized (n - 1) path (read + 1) size st mem (omega arith)
        (ap mem (omega arith) ∙ s.2) written (omega arith))
last-Normalized n path read size [] up mem more names written s behind at_end =
    rw
      (normalize_from-next n (n - 1) path read (read + 2) 1 0 mem mem (omega arith)
        (turn-up_end path read 0 mem s))
      (root-Normalized (n - 1) path (read + 2) size mem (omega arith) (ap mem (omega arith) ∙ s.2.2)
        (omega arith))
last-Normalized n path read size (m ∷ st) up mem more names written s behind at_end =
    let w = folder_length st + length m in
    rw
      (normalize_from-next n (n - 1) path read (read + 2) (suc w) (folder_length st) mem mem
        (omega arith)
        (turn-up_end path read w mem s ∙ rw (back_up-folder mem path m st w written refl) refl))
      (folder-Normalized (n - 1) path (read + 2) size st mem (omega arith)
        (ap mem (omega arith) ∙ s.2.2) written.0 (omega arith))
last-Normalized n path read size st (name xs) mem more names written s behind at_end =
    name-Normalized n path read size st xs mem more names written s behind at_end

-- normalize_path, on a string that is an absolute path whose names hold no slash and do not end
-- in a dot, in which no ".." but the last component leads above the root, ends within a fuel
-- above its length and leaves the path that the components lead to ("." stays, ".." leaves the
-- folder, a name enters one); it writes no character outside the string.
pub normalize_path-Normalized :
    (fuel path : ℕ) (mem : Chars) (cs : List Component) (last : Component)
    → IsString mem path (path_text cs last)
    → AllComponents cs
    → IsComponent last
    → StaysBelow [] cs
    → length (path_text cs last) < fuel
    → Returns
        (Normalized path (length (path_text cs last)) (closed_text (walk_folder [] cs) last) mem)
        (normalize_path fuel path mem)
unfolding normalize_path
normalize_path-Normalized fuel path mem cs last s names last_name below more =
    let size = length-append (render cs) (text_of last) in
    let mem1 = update mem (path + 0) slash in
    let d =
      walk_folder-Progress cs [] (fuel - 1) (suc (length (text_of last))) path 1 mem1 (text_of last)
        below names (omega arith) (ground arith)
        (IsString-frame mem mem1 (path + 1) (render cs ++ text_of last) s.2
          (λ a lo hi. ground arith))
        (omega arith) in
    let before = d.others in
    rw
      (
        normalize_from-next fuel (fuel - 1) path 0 1 0 1 mem mem1 (omega arith)
            (turn-slash path 0 0 mem (ap mem (omega arith) ∙ s.0)),
        d.same,
      )
      (Returns-mono
        (last-Normalized d.fuel path (1 + length (render cs)) (length (path_text cs last))
          (walk_folder [] cs) last d.mem d.enough last_name d.written d.text d.behind (omega arith))
        (λ mem2 r. record {
          string = r.string;
          fits = r.fits;
          others = λ a out. r.others a out ∙ before a (omega arith) ∙ ground arith;
        }))
