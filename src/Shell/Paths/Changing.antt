-- ===== src/Shell/Paths/Changing.antt =====
-- app/shell.c, handle_cd: the working directory after the command, for an absolute destination.
use mathlib.Core.List.{append-nil}
use demo_os.Base.{
  ℕ, zero, suc, ◌+◌, ◌-◌, ◌<◌, ◌≤◌, ◌≡◌, ◌≢◌, ◌⊎◌, refl, ap, ◌∙◌, inl, inr, false, ◌==◌, ==_of_ne,
  if◌then◌else◌, some, List, [], ◌∷◌, ◌++◌, ◌>>=◌, length, length-append, last_or, arith, All,
  Returns, returns, Returns-bind, Returns-mono, Bool-cases,
}
use demo_os.Base.Int.{negsuc, eqb_ℤ}
use demo_os.Text.{Chars, ends_line}
use demo_os.Text.Copy.{
  IsString, IsString-frame, IsString-append, strlen-length, end_of_string-length,
}
use demo_os.Text.Block.{memzero, memcpy, store_text, text_at}
use demo_os.Text.Split.{InWord, InLine, strsplit-Split}
use demo_os.Text.Arrays.{
  memzero-zero, memzero_outside, Stretch-zero, memcpy-IsString, memcpy_outside,
}
use demo_os.UserCalls.{UserSyscalls}
use demo_os.Shell.{Locals, Process, say_text}
use demo_os.Shell.Path.{slash, normalize_path}
use demo_os.Shell.Path.Components.{
  Component, name, AllComponents, StaysBelow, walk_folder, path_text, folder_text,
}
use demo_os.Shell.Path.Closing.{normalize_path-Normalized}
use demo_os.Shell.Paths.{
  space, append_slash, split_line, resolve_target, close_destination, cd_path, handle_cd,
}

-- Two arrays of 64 characters that do not meet.
abbrev pub ApartArrays : (p q : ℕ) → Type 0
ApartArrays p q = (p + 64 ≤ q) ⊎ (q + 64 ≤ p)

IsString-kept :
    (mem mem' : Chars) (p q : ℕ) (xs : List ℕ)
    → IsString mem p xs
    → length xs < 64
    → ApartArrays p q
    → ((a : ℕ) → (a < q) ⊎ (q + 64 ≤ a) → mem' a ≡ mem a)
    → IsString mem' p xs
IsString-kept mem mem' p q xs s short apart same =
    IsString-frame mem mem' p xs s (λ a lo hi. same a (omega arith))

-- The destination with a '/' behind, if it has none.
abbrev pub closed : List ℕ → List ℕ
closed xs = if last_or 0 xs == slash then xs else xs ++ (slash ∷ [])

nonzero_line : (xs : List ℕ) → All InLine xs → All (λ x. x ≢ 0) xs
nonzero_line [] all = tt
nonzero_line (x ∷ xs) all = (nonzero x all.0, nonzero_line xs all.1)
  where
    nonzero : (c : ℕ) → ends_line c ≡ false → c ≢ 0
    nonzero c e = ground arith

-- The two arrays after the command line was split.
record Halves (first second : ℕ) (word rest : List ℕ) (mem mem' : Chars) : Type 0 where
  target : IsString mem' second rest
  others :
      (a : ℕ) → (a < first) ⊎ (first + 64 ≤ a) → (a < second) ⊎ (second + 64 ≤ a) → mem' a ≡ mem a

split_line-Halves :
    (fuel first second buffer : ℕ) (mem : Chars) (word rest : List ℕ)
    → IsString mem buffer (word ++ (space ∷ rest))
    → All (InWord space) word
    → All InLine rest
    → length word + 1 + length rest < 64
    → 64 ≤ fuel
    → ApartArrays buffer first
    → ApartArrays buffer second
    → ApartArrays first second
    → Returns (Halves first second word rest mem) (split_line fuel first second buffer mem)
unfolding split_line
split_line-Halves fuel first second buffer mem word rest s inside line short enough bf bs fs =
    let mem1 = memzero first 64 mem in
    let mem2 = memzero second 64 mem1 in
    let total = length-append word (space ∷ rest) in
    let s1 =
      IsString-kept mem mem1 buffer first (word ++ (space ∷ rest)) s (omega arith) bf
        (memzero_outside first mem) in
    let s2 =
      IsString-kept mem1 mem2 buffer second (word ++ (space ∷ rest)) s1 (omega arith) bs
        (memzero_outside second mem1) in
    Returns-mono
      (strsplit-Split fuel buffer space first second mem2 word rest s2 refl inside line
        (omega arith) (omega arith) (omega arith) (omega arith))
      (λ mem3 h. record {
        target = Stretch-zero mem3 second rest h.second (nonzero_line rest line) (
            h.others (second + length rest) (omega arith) (omega arith)
            ∙ memzero-zero second 64 mem1 (second + length rest) (omega arith) (omega arith));
        others = λ a out1 out2.
            h.others a (omega arith) (omega arith)
            ∙ memzero_outside second mem1 a out2
            ∙ memzero_outside first mem a out1;
      })

last_at :
    (mem : Chars) (p q : ℕ) (x : ℕ) (xs : List ℕ)
    → IsString mem p (x ∷ xs)
    → q ≡ p + length xs
    → mem q ≡ last_or x xs
last_at mem p q x [] s e = ap mem (omega arith) ∙ s.0
last_at mem p q x (y ∷ xs) s e = last_at mem (p + 1) q y xs s.2 (omega arith)

-- The slash behind the destination.
record Closed (target : ℕ) (xs : List ℕ) (mem mem' : Chars) : Type 0 where
  string : IsString mem' target (closed xs)
  others : (a : ℕ) → (a < target) ⊎ (target + 64 ≤ a) → mem' a ≡ mem a

append_slash-Closed :
    (fuel target : ℕ) (mem : Chars) (xs : List ℕ)
    → IsString mem target xs
    → length xs + 1 < 64
    → 64 ≤ fuel
    → Returns
        (λ mem'.
          IsString mem' target (xs ++ (slash ∷ []))
          × ((a : ℕ) → (a < target) ⊎ (target + 64 ≤ a) → mem' a ≡ mem a))
        (append_slash fuel target mem)
unfolding append_slash store_text
append_slash-Closed fuel target mem xs s short enough =
    rw (end_of_string-length fuel mem target xs s (omega arith)) (
      returns (
        IsString-append mem _ target xs (slash ∷ []) s (λ a lo hi. ground arith)
            (ground arith, omega arith, ground arith),
        λ a out. ground arith,
      ))

close_destination-Closed :
    {W : Type 0} (calls : UserSyscalls W) (fuel : ℕ) (at : Locals) (mem : Chars) (x : ℕ)
    (xs : List ℕ)
    → IsString mem at.target (x ∷ xs)
    → length (x ∷ xs) + 1 < 64
    → 64 ≤ fuel
    → Returns (Closed at.target (x ∷ xs) mem) (close_destination calls fuel at mem)
unfolding close_destination
close_destination-Closed calls fuel at mem x xs s short enough =
    let there = last_at mem at.target (at.target + length (x ∷ xs) - 1) x xs s (omega arith) in
    rw (strlen-length fuel mem at.target (x ∷ xs) s (omega arith), there)
      (elim (Bool-cases (last_or x xs == slash)) [
        | inl e ↦ rw e (returns (record { string = rw e s; others = λ a out. refl }))
        | inr e ↦ rw e (
            Returns-mono (append_slash-Closed fuel at.target mem (x ∷ xs) s short enough)
              (λ mem' r. record { string = rw e r.0; others = r.1 }))
      ])

text_at-IsString :
    (fuel : ℕ) (mem : Chars) (p : ℕ) (xs : List ℕ)
    → IsString mem p xs
    → length xs < fuel
    → text_at fuel mem p ≡ some xs
unfolding text_at
text_at-IsString zero mem p xs s enough = absurd (omega arith)
text_at-IsString (suc fuel) mem p [] s enough = rw s refl
text_at-IsString (suc fuel) mem p (x ∷ xs) s enough =
    rw (s.0, ==_of_ne x 0 s.1, text_at-IsString fuel mem (p + 1) xs s.2 (omega arith)) refl

-- The arrays that handle_cd uses do not meet.
pub record Placed (at : Locals) : Type 0 where
  pub buffer_command : ApartArrays at.buffer at.command
  pub buffer_target : ApartArrays at.buffer at.target
  pub buffer_path : ApartArrays at.buffer at.full_path
  pub directory_command : ApartArrays at.working_directory at.command
  pub directory_target : ApartArrays at.working_directory at.target
  pub directory_path : ApartArrays at.working_directory at.full_path
  pub command_target : ApartArrays at.command at.target
  pub target_path : ApartArrays at.target at.full_path

-- The folder is in `temp`, and the working directory is as before.
record Asked (at : Locals) (folder wd : List ℕ) (mem : Chars) : Type 0 where
  path : IsString mem at.full_path folder
  short : length folder < 64
  directory : IsString mem at.working_directory wd

length-closed : (xs : List ℕ) → length (closed xs) ≤ length xs + 1
length-closed xs = ground (arith, length-append xs (slash ∷ []))

-- The copy of an absolute path to `temp`, and its normalisation.
resolved-Asked :
    (fuel : ℕ) (at : Locals) (mem : Chars) (cs : List Component) (directory : List ℕ)
    → Placed at
    → IsString mem at.target (path_text cs (name []))
    → length (path_text cs (name [])) < 64
    → IsString mem at.working_directory directory
    → length directory < 64
    → 65 ≤ fuel
    → AllComponents cs
    → StaysBelow [] cs
    → Returns (Asked at (folder_text (walk_folder [] cs)) directory) (
        resolve_target fuel at.working_directory at.target at.full_path 2 mem
        >>= normalize_path fuel at.full_path)
unfolding resolve_target
resolved-Asked fuel at mem cs directory placed s short d short_d enough names below =
    let mem1 = memcpy at.full_path at.target 64 mem in
    let apart = placed.target_path in
    let s1 : IsString mem1 at.full_path (path_text cs (name [])) =
      memcpy-IsString at.full_path at.target mem (path_text cs (name [])) s short (omega arith) in
    let d1 =
      IsString-kept mem mem1 at.working_directory at.full_path directory d short_d
        placed.directory_path (memcpy_outside at.full_path at.target mem) in
    rw (s.0) (
      Returns-mono
        (normalize_path-Normalized fuel at.full_path mem1 cs (name []) s1 names tt below
          (omega arith))
        (λ mem2 r.
          let same = append-nil (folder_text (walk_folder [] cs)) in
          let fits = r.fits in
          record {
            path = rw same at r.string;
            short = let fits1 = rw same at fits in omega arith;
            directory =
                IsString-kept mem1 mem2 at.working_directory at.full_path directory d1 short_d
                  placed.directory_path (λ a out. r.others a (omega arith));
          }))

-- The whole preparation of the path, for an absolute destination.
cd_path-Asked :
    {W : Type 0} (calls : UserSyscalls W) (fuel : ℕ) (at : Locals) (mem : Chars) (word : List ℕ)
    (x : ℕ) (xs : List ℕ) (cs : List Component) (directory : List ℕ)
    → Placed at
    → IsString mem at.buffer (word ++ (space ∷ x ∷ xs))
    → All (InWord space) word
    → All InLine (x ∷ xs)
    → length word + 1 + length (x ∷ xs) < 64
    → length (x ∷ xs) + 1 < 64
    → closed (x ∷ xs) ≡ path_text cs (name [])
    → AllComponents cs
    → StaysBelow [] cs
    → IsString mem at.working_directory directory
    → length directory < 64
    → 65 ≤ fuel
    → Returns (Asked at (folder_text (walk_folder [] cs)) directory) (cd_path calls fuel at mem)
unfolding cd_path
cd_path-Asked calls fuel at mem word x xs cs directory placed s inside line fits short parts names
      below d short_d enough =
    let mem0 = memzero at.full_path 64 mem in
    let total = length-append word (space ∷ x ∷ xs) in
    let longer = length-closed (x ∷ xs) in
    let small : length (closed (x ∷ xs)) < 64 = omega arith in
    let s0 =
      IsString-kept mem mem0 at.buffer at.full_path (word ++ (space ∷ x ∷ xs)) s (omega arith)
        placed.buffer_path (memzero_outside at.full_path mem) in
    let d0 =
      IsString-kept mem mem0 at.working_directory at.full_path directory d short_d
        placed.directory_path (memzero_outside at.full_path mem) in
    let dc = placed.directory_command in
    let dt = placed.directory_target in
    Returns-bind
      (split_line-Halves fuel at.command at.target at.buffer mem0 word (x ∷ xs) s0 inside line fits
        (omega arith) placed.buffer_command placed.buffer_target placed.command_target)
      (λ mem1 h.
        let d1 =
          IsString-frame mem0 mem1 at.working_directory directory d0
            (λ a lo hi. h.others a (omega arith) (omega arith)) in
        Returns-bind (close_destination-Closed calls fuel at mem1 x xs h.target short (omega arith))
          (λ mem2 c.
            let d2 =
              IsString-kept mem1 mem2 at.working_directory at.target directory d1 short_d dt
                c.others in
            resolved-Asked fuel at mem2 cs directory placed (rw parts at c.string)
              (rw parts at small) d2 short_d enough names below))

-- The working directory is `directory`.
abbrev pub InDirectory : {W : Type 0} → Locals → List ℕ → Process W → Type 0
InDirectory at directory p = IsString p.mem at.working_directory directory

-- handle_cd, on a line of a word, a space and an absolute destination with no end of line in
-- it, both short enough for arrays of 64 characters, in a shell whose arrays do not meet and
-- with a fuel of at least 65, where the destination, with a slash behind if it has none, is a
-- path as normalize_path takes it: it ends. The working directory is the folder that the
-- destination leads to, if the call that opens this folder does not give -1, and else it is as
-- before.
pub handle_cd-InDirectory :
    {W : Type 0} (calls : UserSyscalls W) (fuel : ℕ) (at : Locals) (p : Process W) (word : List ℕ)
    (x : ℕ) (xs : List ℕ) (cs : List Component) (directory : List ℕ)
    → Placed at
    → IsString p.mem at.buffer (word ++ (space ∷ x ∷ xs))
    → All (InWord space) word
    → All InLine (x ∷ xs)
    → length word + 1 + length (x ∷ xs) < 64
    → length (x ∷ xs) + 1 < 64
    → closed (x ∷ xs) ≡ path_text cs (name [])
    → AllComponents cs
    → StaysBelow [] cs
    → InDirectory at directory p
    → length directory < 64
    → 65 ≤ fuel
    → let folder = folder_text (walk_folder [] cs) in
      let refused = eqb_ℤ (calls.call_open_dir folder p.world).0 (negsuc 0) in
      Returns (InDirectory at (if refused then directory else folder)) (handle_cd calls fuel at p)
unfolding handle_cd say_text
handle_cd-InDirectory calls fuel at p word x xs cs directory placed s inside line fits short parts
      names below d short_d enough =
    Returns-bind
      (cd_path-Asked calls fuel at p.mem word x xs cs directory placed s inside line fits short
        parts names below d short_d enough)
      (λ mem1 asked.
        let folder = folder_text (walk_folder [] cs) in
        let small = asked.short in
        rw (text_at-IsString fuel mem1 at.full_path folder asked.path (omega arith))
          (elim (Bool-cases (eqb_ℤ (calls.call_open_dir folder p.world).0 (negsuc 0))) [
            | inl e ↦ rw e (returns asked.directory)
            | inr e ↦ rw e (
                returns (
                  memcpy-IsString at.working_directory at.full_path mem1 folder asked.path small
                    placed.directory_path))
          ]))
