-- ===== src/Shell/Path/Components.antt =====
-- app/shell.c: the paths that normalize_path is given, as components, and the path that it is to leave.
use demo_os.Base.{ℕ, suc, ◌+◌, ◌<◌, ◌≤◌, ◌≡◌, ◌≢◌, ap, ◌∙◌, List, [], ◌∷◌, ◌++◌, length, arith}
use demo_os.Text.{Chars}
use demo_os.Text.Copy.{IsString}
use demo_os.Text.Stretch.{Stretch, Stretch-frame}
use demo_os.Shell.Path.{slash, dot}

-- ".", "..", or a name.
pub data Component : Type 0 where
  here up : Component
  name : List ℕ → Component

-- The names of the folders from the root, the last one first.
abbrev pub Folder : Type 0
Folder = List (List ℕ)

abbrev pub text_of : Component → List ℕ
text_of here = dot ∷ []
text_of up = dot ∷ dot ∷ []
text_of (name xs) = xs

-- Each component with a '/' behind.
abbrev pub render : List Component → List ℕ
render [] = []
render (c ∷ cs) = text_of c ++ (slash ∷ render cs)

-- An absolute path: folders, and a last component, which is an empty name if the path ends in '/'.
abbrev pub path_text : List Component → Component → List ℕ
path_text cs last = slash ∷ (render cs ++ text_of last)

-- The folder that components lead to from another one; the root is its own parent.
abbrev pub walk_folder : Folder → List Component → Folder
walk_folder st [] = st
walk_folder st (here ∷ cs) = walk_folder st cs
walk_folder [] (up ∷ cs) = walk_folder [] cs
walk_folder (n ∷ st) (up ∷ cs) = walk_folder st cs
walk_folder st (name xs ∷ cs) = walk_folder (xs ∷ st) cs

-- No component leads above the root.
abbrev pub StaysBelow : Folder → List Component → Type 0
StaysBelow st [] = Unit
StaysBelow st (here ∷ cs) = StaysBelow st cs
StaysBelow [] (up ∷ cs) = ⊥
StaysBelow (n ∷ st) (up ∷ cs) = StaysBelow st cs
StaysBelow st (name xs ∷ cs) = StaysBelow (xs ∷ st) cs

abbrev pub folder_text : Folder → List ℕ
folder_text [] = slash ∷ []
folder_text (n ∷ st) = folder_text st ++ (n ++ (slash ∷ []))

-- The path with the last component.
abbrev pub closed_text : Folder → Component → List ℕ
closed_text st here = folder_text st
closed_text [] up = folder_text []
closed_text (n ∷ st) up = folder_text st
closed_text st (name xs) = folder_text st ++ xs

-- A name has no '/' and no zero in it, and does not end in a dot.
abbrev pub IsName : List ℕ → Type 0
IsName [] = Unit
IsName (x ∷ []) = (x ≢ 0) × (x ≢ slash) × (x ≢ dot)
IsName (x ∷ y ∷ xs) = (x ≢ 0) × (x ≢ slash) × IsName (y ∷ xs)

abbrev pub IsComponent : Component → Type 0
IsComponent here = Unit
IsComponent up = Unit
IsComponent (name xs) = IsName xs

abbrev pub AllComponents : List Component → Type 0
AllComponents [] = Unit
AllComponents (c ∷ cs) = IsComponent c × AllComponents cs

abbrev pub folder_length : Folder → ℕ
folder_length [] = 1
folder_length (n ∷ st) = suc (folder_length st + length n)

-- What stands at the start of the array when the write index has passed a folder.
abbrev pub Written : Chars → ℕ → Folder → Type 0
Written mem path [] = mem path ≡ slash
Written mem path (n ∷ st) =
    Written mem path st
    × Stretch mem (path + folder_length st) n
    × (mem (path + folder_length st + length n) ≡ slash)
    × IsName n

-- The rest of a path behind a name: nothing, or a '/'.
abbrev pub Bounded : List ℕ → Type 0
Bounded [] = Unit
Bounded (x ∷ xs) = x ≡ slash

pub IsName-head : (x : ℕ) (xs : List ℕ) → IsName (x ∷ xs) → (x ≢ 0) × (x ≢ slash)
IsName-head x [] h = (h.0, h.1)
IsName-head x (y ∷ xs) h = (h.0, h.1)

pub IsName-tail : (x : ℕ) (xs : List ℕ) → IsName (x ∷ xs) → IsName xs
IsName-tail x [] h = tt
IsName-tail x (y ∷ xs) h = h.2

pub IsName-dot : (x : ℕ) → IsName (x ∷ []) → x ≢ dot
IsName-dot x h = h.2

pub Written-frame :
    (mem mem' : Chars) (path : ℕ) (st : Folder)
    → Written mem path st
    → ((a : ℕ) → path ≤ a → a < path + folder_length st → mem' a ≡ mem a)
    → Written mem' path st
Written-frame mem mem' path [] w same = same path (omega arith) (omega arith) ∙ w
Written-frame mem mem' path (n ∷ st) w same = (
  Written-frame mem mem' path st w.0 (λ a lo hi. same a lo (omega arith)),
  Stretch-frame mem mem' (path + folder_length st) n w.1
      (λ a lo hi. same a (omega arith) (omega arith)),
  same (path + folder_length st + length n) (omega arith) (omega arith) ∙ w.2,
  w.3,
)

pub Stretch-IsString :
    (mem : Chars) (p : ℕ) (xs : List ℕ)
    → Stretch mem p xs
    → IsName xs
    → mem (p + length xs) ≡ 0
    → IsString mem p xs
Stretch-IsString mem p [] s names end = ap mem (omega arith) ∙ end
Stretch-IsString mem p (x ∷ xs) s names end = (
  s.0,
  (IsName-head x xs names).0,
  Stretch-IsString mem (p + 1) xs s.1 (IsName-tail x xs names) (ap mem (omega arith) ∙ end),
)
