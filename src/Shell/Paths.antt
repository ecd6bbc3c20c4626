-- ===== src/Shell/Paths.antt =====
-- app/shell.c: the commands that take a directory: handle_mkdir, handle_cd, handle_tree.
pub mod Changing
use demo_os.Base.{ℕ, ◌+◌, ◌-◌, not, ◌&&◌, ◌==◌, ltb, if◌then◌else◌, update, Option, some, ◌>>=◌}
use demo_os.Base.Int.{negsuc, eqb_ℤ}
use demo_os.Text.{Chars, strlen, strcat, strsplit, end_of_string}
use demo_os.Text.Block.{memzero, memcpy, store_text, text_at}
use demo_os.UserCalls.{UserSyscalls, codes}
use demo_os.Shell.{Locals, Process, say, say_text, complain, max_command_dimension}
use demo_os.Shell.Path.{slash, normalize_path}
use demo_os.Shell.Listing.{print_tree}

-- ' '.
abbrev pub space : ℕ
space = 32

-- `strcat` of a literal.
unfoldable pub append_slash : ℕ → (dest : ℕ) → Chars → Option Chars
append_slash fuel dest mem =
    end_of_string fuel mem dest >>= λ pointer. some (store_text pointer (codes "/") mem)

-- The two halves of the command line, each in an array of zeros.
unfoldable pub split_line : ℕ → (first second : ℕ) → (buffer : ℕ) → Chars → Option Chars
split_line fuel first second buffer mem =
    strsplit fuel buffer space first second
      (memzero second max_command_dimension (memzero first max_command_dimension mem))

-- The working directory with a '/' behind, if it is longer than `shortest` and has none, then the
-- relative path.
unfoldable pub under_directory :
    ℕ → (working_directory target temp shortest : ℕ) → Chars → Option Chars
under_directory fuel working_directory target temp shortest mem = do
  let mem1 = memcpy temp working_directory max_command_dimension mem
  len ← strlen fuel mem1 temp
  let mem2 =
      if ltb shortest len && not (mem1 (temp + len - 1) == slash)
      then update (update mem1 (temp + len) slash) (temp + len + 1) 0
      else mem1
  strcat fuel temp target mem2

-- `temp`: an absolute path as it is, another one under the working directory.
unfoldable pub resolve_target :
    ℕ → (working_directory target temp shortest : ℕ) → Chars → Option Chars
resolve_target fuel working_directory target temp shortest mem =
    if mem target == slash
    then some (memcpy temp target max_command_dimension mem)
    else under_directory fuel working_directory target temp shortest mem

module _ {W : Type 0} (calls : UserSyscalls W) (fuel : ℕ) (at : Locals) where
  -- `handle_mkdir` from where the directory name is there.
  unfoldable pub make_directory : Process W → Option (Process W)
  make_directory p = do
    mem1 ← strcat fuel at.full_path at.working_directory p.mem
    mem2 ← (if mem1 at.target == slash then some mem1 else append_slash fuel at.full_path mem1)
    mem3 ← strcat fuel at.full_path at.target mem2
    path ← text_at fuel mem3 at.full_path
    let (fd, world) = calls.call_create_dir path p.world
    let p1 = record p { mem = mem3; world = world }
    if eqb_ℤ fd (negsuc 0)
        then complain calls fuel "[SHELL] Cannot create '" at.full_path "'.\n" p1
        else some p1

  unfoldable pub handle_mkdir : Process W → Option (Process W)
  handle_mkdir p = do
    mem1 ← split_line fuel at.command at.target at.buffer p.mem
    let p1 = record p { mem = mem1 }
    let p2 = record p { mem = memzero at.full_path max_command_dimension mem1 }
    let create =
        (strlen fuel p2.mem at.working_directory >>= λ len.
        if ltb len max_command_dimension
        then make_directory p2
        else some (say calls "[SHELL] Error: working directory string is too big.\n" p2))
    if mem1 at.target == 0
        then some (say calls "[SHELL] Error: please specify the directory name.\n" p1)
        else create

  -- A '/' behind the destination where it does not end in one.
  unfoldable pub close_destination : Chars → Option Chars
  close_destination mem = do
    len ← strlen fuel mem at.target
    if mem (at.target + len - 1) == slash then some mem else append_slash fuel at.target mem

  -- The directory that `handle_cd` asks for, in `temp`.
  unfoldable pub cd_path : Chars → Option Chars
  cd_path mem = do
    let mem0 = memzero at.full_path max_command_dimension mem
    mem1 ← split_line fuel at.command at.target at.buffer mem0
    mem2 ← close_destination mem1
    mem3 ← resolve_target fuel at.working_directory at.target at.full_path 2 mem2
    normalize_path fuel at.full_path mem3

  unfoldable pub handle_cd : Process W → Option (Process W)
  handle_cd p = do
    mem1 ← cd_path p.mem
    path ← text_at fuel mem1 at.full_path
    let (fd, world) = calls.call_open_dir path p.world
    let p1 = record p { mem = mem1; world = world }
    if eqb_ℤ fd (negsuc 0)
        then complain calls fuel "[SHELL] Error: cannot change directory to '" at.full_path "'.\n"
            p1
        else some (record p1 {
          mem = memcpy at.working_directory at.full_path max_command_dimension mem1;
        })

  -- The directory that `handle_tree` shows, in `fullpath`: the working one without an argument.
  unfoldable pub tree_path : Chars → Option Chars
  tree_path mem = do
    let mem0 = memzero at.full_path max_command_dimension mem
    mem1 ← split_line fuel at.command at.target at.buffer mem0
    mem2 ←
        (if mem1 at.target == 0
          then some (memcpy at.full_path at.working_directory max_command_dimension mem1)
          else resolve_target fuel at.working_directory at.target at.full_path 1 mem1)
    normalize_path fuel at.full_path mem2

  unfoldable pub handle_tree : (rounds : ℕ) → Process W → Option (Process W)
  handle_tree rounds p = do
    mem1 ← tree_path p.mem
    path ← text_at fuel mem1 at.full_path
    let (fd, world) = calls.call_open_dir path p.world
    let p1 = record p { mem = mem1; world = world }
    let shown =
        (say_text calls fuel at.full_path p1 >>= λ p2.
        print_tree calls fuel at rounds at.full_path 0 (say calls "\n" p2))
    if eqb_ℤ fd (negsuc 0)
        then complain calls fuel "[SHELL] Error: cannot open directory '" at.full_path "'.\n" p1
        else shown
