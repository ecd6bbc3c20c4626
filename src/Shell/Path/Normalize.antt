-- ===== src/Shell/Path/Normalize.antt =====
-- app/shell.c: what normalize_path leaves of a path.
use demo_os.Base.{
  ℕ, suc, ◌+◌, ◌-◌, ◌<◌, ◌≤◌, ◌≡◌, ◌⊎◌, refl, ◌∙◌, inl, inr, Option, List, [], ◌∷◌, ◌++◌, length,
  length-append, update, arith,
}
use mathlib.Core.List.{append_assoc}
use demo_os.Base.Int.{pos}
use demo_os.Text.{Chars}
use demo_os.Text.Copy.{IsString-drop, IsString, IsString-at, IsString-frame}
use demo_os.Text.Block.{store_bytes}
use demo_os.Shell.Path.{slash, normalize_from}
use demo_os.Text.Stretch.{Stretch-frame, store_bytes-frame, store_bytes-Stretch}
use demo_os.Shell.Path.Components.{
  Component, here, up, name, Folder, IsName, AllComponents, walk_folder, StaysBelow, render,
  folder_length, Written, Written-frame,
}
use demo_os.Shell.Path.Turns.{
  normalize_from-next, name-copied, turn-slash, turn-here, turn-up, back_up-folder,
}

-- The loop has come to `read` and has written a folder.
pub record Progress (run : Option Chars) (path least read : ℕ) (st : Folder) (zs : List ℕ)
    (before : Chars) : Type 0 where
  pub fuel : ℕ
  pub mem : Chars
  pub same : run ≡ normalize_from fuel path read (pos (folder_length st)) mem
  pub enough : least ≤ fuel
  pub written : Written mem path st
  pub text : IsString mem (path + read) zs
  pub behind : folder_length st ≤ read
  pub others : (a : ℕ) → (a < path) ⊎ (path + read ≤ a) → mem a ≡ before a

-- What was run before, up to where the loop has come.
Progress-after :
    (run run' : Option Chars) (path least read read' : ℕ) (st : Folder) (zs : List ℕ)
    (before before' : Chars)
    → Progress run' path least read' st zs before'
    → run ≡ run'
    → read' ≡ read
    → ((a : ℕ) → (a < path) ⊎ (path + read ≤ a) → before' a ≡ before a)
    → Progress run path least read st zs before
Progress-after run run' path least read read' st zs before before' p same_run same_read same_mem =
    record {
      fuel = p.fuel;
      mem = p.mem;
      same = same_run ∙ p.same ∙ rw same_read refl;
      enough = p.enough;
      written = p.written;
      text = IsString-at p.mem (path + read') (path + read) zs (rw same_read refl) p.text;
      behind = let h = p.behind in omega arith;
      others = λ a out. p.others a (omega arith) ∙ same_mem a out;
    }

-- A name and its '/'.
record Entered (n least path read : ℕ) (st : Folder) (xs zs : List ℕ) (before : Chars)
    : Type 0 where
  fuel : ℕ
  mem : Chars
  same :
      normalize_from n path read (pos (folder_length st)) before
      ≡ normalize_from fuel path (read + length xs + 1) (pos (folder_length (xs ∷ st))) mem
  enough : least ≤ fuel
  written : Written mem path (xs ∷ st)
  text : IsString mem (path + (read + length xs + 1)) zs
  others : (a : ℕ) → (a < path) ⊎ (path + (read + length xs + 1) ≤ a) → mem a ≡ before a

name-Entered :
    (n least path read : ℕ) (st : Folder) (xs zs : List ℕ) (mem : Chars)
    → length xs + 1 + least ≤ n
    → IsName xs
    → Written mem path st
    → IsString mem (path + read) (xs ++ (slash ∷ zs))
    → folder_length st ≤ read
    → Entered n least path read st xs zs mem
name-Entered n least path read st xs zs mem more names written s behind =
    let w = folder_length st in
    let l = length xs in
    let mem1 = store_bytes (path + w) xs mem in
    let mem2 = update mem1 (path + (w + l)) slash in
    let fuel = n - l - 1 in
    let kept : ((a : ℕ) → (a < path + w) ⊎ (path + w + l ≤ a) → mem1 a ≡ mem a) =
      store_bytes-frame (path + w) xs mem in
    let s1 : IsString mem (path + (read + l)) (slash ∷ zs) =
      IsString-drop mem (path + read) (path + (read + l)) xs (slash ∷ zs) (omega arith) s in
    record {
      fuel = fuel;
      mem = mem2;
      same =
          name-copied xs n (suc fuel) path read (read + l) w (w + l) (path + w) mem (slash ∷ zs)
            (omega arith) refl refl refl names refl s behind
          ∙ normalize_from-next (suc fuel) fuel path (read + l) (read + l + 1) (w + l)
              (folder_length (xs ∷ st)) mem1 mem2 refl
              (turn-slash path (read + l) (w + l) mem1
                (kept (path + (read + l)) (inr (omega arith)) ∙ s1.0));
      enough = omega arith;
      written = (
        Written-frame mem mem2 path st written (λ a lo hi. ground (arith, kept a (inl hi))),
        Stretch-frame mem1 mem2 (path + w) xs (store_bytes-Stretch (path + w) xs mem)
            (λ a lo hi. ground arith),
        ground arith,
        names,
      );
      text =
          IsString-frame mem mem2 (path + (read + l + 1)) zs
            (IsString-at mem (path + (read + l) + 1) (path + (read + l + 1)) zs (omega arith) s1.2)
            (λ a lo hi. ground (arith, kept a (inr (omega arith))));
      others = λ a out. ground (arith, kept a (omega arith));
    }

pub walk_folder-Progress :
    (cs : List Component) (st : Folder) (n least path read : ℕ) (mem : Chars) (zs : List ℕ)
    → StaysBelow st cs
    → AllComponents cs
    → length (render cs) + least ≤ n
    → Written mem path st
    → IsString mem (path + read) (render cs ++ zs)
    → folder_length st ≤ read
    → Progress
        (normalize_from n path read (pos (folder_length st)) mem)
        path
        least
        (read + length (render cs))
        (walk_folder st cs)
        zs
        mem
walk_folder-Progress [] st n least path read mem zs below names more written s behind =
    let none_read : read + 0 ≡ read = omega arith in
    rw none_read (record {
      fuel = n;
      mem = mem;
      same = refl;
      enough = omega arith;
      written = written;
      text = s;
      behind = omega arith;
      others = λ a out. refl;
    })
walk_folder-Progress (here ∷ cs) st n least path read mem zs below names more written s behind =
    Progress-after _ _ path least _ _ (walk_folder st cs) zs mem mem
      (walk_folder-Progress cs st (n - 1) least path (read + 2) mem zs below names.1 (omega arith)
        written
        (IsString-at mem (path + read + 1 + 1) (path + (read + 2)) (render cs ++ zs) (omega arith)
          s.2.2)
        (omega arith))
      (normalize_from-next n (n - 1) path read (read + 2) (folder_length st) (folder_length st) mem
        mem (omega arith) (turn-here path read (folder_length st) mem (render cs ++ zs) s))
      (omega arith) (λ a out. refl)
walk_folder-Progress (up ∷ cs) [] n least path read mem zs below names more written s behind =
    absurd below
walk_folder-Progress (up ∷ cs) (m ∷ st) n least path read mem zs below names more written s behind =
    let w = folder_length st + length m in
    Progress-after _ _ path least _ _ (walk_folder st cs) zs mem mem
      (walk_folder-Progress cs st (n - 1) least path (read + 3) mem zs below names.1 (omega arith)
        written.0
        (IsString-at mem (path + read + 1 + 1 + 1) (path + (read + 3)) (render cs ++ zs)
          (omega arith) s.2.2.2)
        (omega arith))
      (normalize_from-next n (n - 1) path read (read + 3) (suc w) (folder_length st) mem mem
        (omega arith)
        (turn-up path read w mem (render cs ++ zs) s
          ∙ rw (back_up-folder mem path m st w written refl) refl))
      (omega arith) (λ a out. refl)
walk_folder-Progress (name xs ∷ cs) st n least path read mem zs below names more written s behind =
    let l = length xs in
    let s1 : IsString mem (path + read) (xs ++ (slash ∷ (render cs ++ zs))) =
      rw (← append_assoc xs (slash ∷ render cs) zs) s in
    let size = length-append xs (slash ∷ render cs) in
    let d =
      name-Entered n (length (render cs) + least) path read st xs (render cs ++ zs) mem
        (omega arith) names.0 written s1 behind in
    Progress-after _ _ path least _ _ (walk_folder (xs ∷ st) cs) zs mem d.mem
      (walk_folder-Progress cs (xs ∷ st) d.fuel least path (read + l + 1) d.mem zs below names.1
        d.enough d.written
        (IsString-at d.mem (path + (read + l + 1)) (path + (read + l + 1)) (render cs ++ zs) refl
          d.text)
        (omega arith))
      d.same (omega arith) (λ a out. d.others a (omega arith))
