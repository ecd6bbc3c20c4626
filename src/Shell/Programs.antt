-- ===== src/Shell/Programs.antt =====
-- app/shell.c: the commands that start a program: handle_exec, handle_exec_from_bin.
use demo_os.Base.{
  ℕ, zero, suc, ◌+◌, ◌*◌, ◌==◌, leb, if◌then◌else◌, Option, none, some, ◌>>=◌, List, [], ◌∷◌,
  length,
}
use demo_os.Base.Int.{ℤ, pos, eqb_ℤ}
use demo_os.Text.{Chars, strlen, strcat, strcpy, strsplit, end_of_string}
use demo_os.Text.Block.{memzero, store_text, text_at, bytes_at}
use demo_os.UserCalls.{UserSyscalls, exec_returned, exec_replaced, codes}
use demo_os.Shell.{
  Locals, Process, CommandResult, goes_on, left, say, complain, max_command_dimension,
  max_exec_arguments, exec_argument_dimension,
}
use demo_os.Shell.Path.{normalize_path}
use demo_os.Shell.Paths.{space, split_line}

-- "/bin/" and ".bin".
abbrev pub bin_folder : List ℕ
bin_folder = codes "/bin/"

abbrev pub bin_suffix : List ℕ
bin_suffix = codes ".bin"

-- `strcat` of a literal.
unfoldable pub append_text : ℕ → (dest : ℕ) → List ℕ → Chars → Option Chars
append_text fuel dest xs mem =
    end_of_string fuel mem dest >>= λ pointer. some (store_text pointer xs mem)

-- The arrays of the first `n` arguments, whole, as `exec` gets them.
unfoldable pub argument_arrays : ℕ → (arguments : ℕ) → Chars → List (List ℕ)
argument_arrays zero arguments mem = []
argument_arrays (suc n) arguments mem =
    bytes_at exec_argument_dimension mem arguments
    ∷ argument_arrays n (arguments + exec_argument_dimension) mem

module _ (fuel : ℕ) (at : Locals) where
  -- `while (strlen(arguments_raw) > 0 && n_arguments < MAX_EXEC_ARGUMENTS)`, with the rounds that
  -- are left before the bound is met.
  unfoldable pub split_arguments : (rounds n_arguments : ℕ) → Chars → Option (ℕ × Chars)
  split_arguments zero n_arguments mem =
      strlen fuel mem at.arguments_raw >>= λ _. some (n_arguments, mem)
  split_arguments (suc rounds) n_arguments mem =
      let slot = at.arguments + exec_argument_dimension * n_arguments in
      let rest = (do
        let mem1 = memzero at.argument_temp exec_argument_dimension mem
        mem2 ← strsplit fuel at.arguments_raw space slot at.argument_temp mem1
        mem3 ← strcpy fuel at.arguments_raw at.argument_temp mem2
        split_arguments rounds (n_arguments + 1) mem3) in
      strlen fuel mem at.arguments_raw >>= λ len. if len == 0 then some (n_arguments, mem) else rest

  -- The path of the program: "/bin/", the name and ".bin", in `complete_path`.
  unfoldable pub bin_path : Chars → Option Chars
  bin_path mem = do
    mem1 ← append_text fuel at.full_path bin_folder mem
    mem2 ← strcat fuel at.full_path at.file_name mem1
    mem3 ← append_text fuel at.full_path bin_suffix mem2
    normalize_path fuel at.full_path mem3

  unfoldable pub exec_path : Chars → Option Chars
  exec_path mem = do
    mem1 ← strcat fuel at.full_path at.working_directory mem
    mem2 ← strcat fuel at.full_path at.target mem1
    normalize_path fuel at.full_path mem2

module _ {W : Type 0} (calls : UserSyscalls W) (fuel : ℕ) (at : Locals) where
  -- The parent of a new program.
  unfoldable pub wait_for : (pid : ℤ) → Process W → Process W
  wait_for pid p =
      let (ok, world) = calls.call_wait pid p.world in
      let p1 = record p { world = world } in
      let named = say calls "[SHELL] Cannot find process '" p1 in
      let numbered = record named { world = calls.call_write_hex pid named.world } in
      if eqb_ℤ ok (pos 0) then p1 else say calls "'\n" numbered

  -- The child in `handle_exec`; where `exec` returns without an error, it prints without end.
  unfoldable pub exec_child : (path : List ℕ) → Process W → Option W
  exec_child path p = elim (calls.call_exec path [] ((say calls "[SON] I am the son.\n" p).world)) [
    | exec_replaced world ↦ some world
    | exec_returned error world ↦
        let p1 = say calls "[SON] Error running new process.\n" (record p { world = world }) in
        if eqb_ℤ error (pos 0) then none else some (calls.call_exit p1.world)
  ]

  -- `handle_exec` from where the paths are known to fit.
  unfoldable pub launch : Process W → Option (CommandResult W)
  launch p = do
    mem1 ← exec_path fuel at p.mem
    path ← text_at fuel mem1 at.full_path
    let (pid, world) = calls.call_fork p.world
    let p1 = record p { mem = mem1; world = world }
    if eqb_ℤ pid (pos 0)
        then (exec_child path p1 >>= λ world1. some (left world1))
        else some (goes_on (wait_for pid p1))

  unfoldable pub handle_exec : Process W → Option (CommandResult W)
  handle_exec p = do
    mem1 ← split_line fuel at.command at.target at.buffer p.mem
    let p1 = record p { mem = mem1 }
    len ← strlen fuel mem1 at.target
    let p2 = record p { mem = memzero at.full_path max_command_dimension mem1 }
    let fitting = (do
      folder ← strlen fuel p2.mem at.working_directory
      name ← strlen fuel p2.mem at.target
      if leb max_command_dimension (folder + name)
          then some (goes_on (say calls "[SHELL] Path is too long.\n" p2))
          else launch p2)
    if len == 0
        then some (
            goes_on
              (say calls "[SHELL] Please specify the path of the new program to execute.\n" p1))
        else fitting

  -- The child in `handle_exec_from_bin`: it ends whatever `exec` returns.
  unfoldable pub exec_from_bin_child :
      (path : List ℕ) → (arguments : List (List ℕ)) → Process W → Option W
  exec_from_bin_child path arguments p = elim (calls.call_exec path arguments p.world) [
    | exec_replaced world ↦ some world
    | exec_returned error world ↦
        let p1 = record p { world = world } in
        let reported =
          complain calls fuel "[SHELL] Cannot find '" at.file_name "' binary file.\n" p1 >>= λ p2.
          some (calls.call_exit p2.world) in
        if eqb_ℤ error (pos 0) then some (calls.call_exit world) else reported
  ]

  -- `handle_exec_from_bin` from where the path is known to fit.
  unfoldable pub launch_from_bin : Process W → Option (CommandResult W)
  launch_from_bin p = do
    mem1 ← bin_path fuel at p.mem
    let mem2 = memzero at.arguments (max_exec_arguments * max_command_dimension) mem1
    (n_arguments, mem3) ← split_arguments fuel at max_exec_arguments 0 mem2
    path ← text_at fuel mem3 at.full_path
    let (pid, world) = calls.call_fork p.world
    let p1 = record p { mem = mem3; world = world }
    let arguments = argument_arrays n_arguments at.arguments mem3
    if eqb_ℤ pid (pos 0)
        then (exec_from_bin_child path arguments p1 >>= λ world1. some (left world1))
        else some (goes_on (wait_for pid p1))

  unfoldable pub handle_exec_from_bin : Process W → Option (CommandResult W)
  handle_exec_from_bin p = do
    mem1 ← split_line fuel at.file_name at.arguments_raw at.buffer p.mem
    let p1 = record p { mem = memzero at.full_path max_command_dimension mem1 }
    len ← strlen fuel p1.mem at.file_name
    if leb max_command_dimension (length bin_folder + len + length bin_suffix)
        then some (goes_on (say calls "[SHELL] Path is too long.\n" p1))
        else launch_from_bin p1
