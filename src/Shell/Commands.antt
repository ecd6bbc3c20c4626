-- ===== src/Shell/Commands.antt =====
-- app/shell.c: the loop of `shell`, without the banner before it.
use demo_os.Base.{ℕ, zero, suc, ◌==◌, if◌then◌else◌, Option, none, some, ◌>>=◌}
use demo_os.Text.{Chars, strlen}
use demo_os.Text.Block.{memzero, starts_with, store_bytes}
use demo_os.UserCalls.{UserSyscalls, codes}
use demo_os.Shell.{
  Locals, Process, CommandResult, goes_on, left, say, say_text, max_command_dimension,
}
use demo_os.Shell.Listing.{handle_help, handle_ls, handle_pwd}
use demo_os.Shell.Paths.{handle_mkdir, handle_cd, handle_tree}
use demo_os.Shell.Contents.{handle_show, handle_write}
use demo_os.Shell.Programs.{handle_exec, handle_exec_from_bin}

-- The branches of the loop.
pub data Command : Type 0 where
  help ls pwd mkdir cd tree clear write show exec from_bin : Command

-- The chain of comparisons with the start of the line.
unfoldable pub command_of : Chars → (buffer : ℕ) → Command
command_of mem buffer =
    if starts_with mem buffer (codes "help") 4
    then help
    else if starts_with mem buffer (codes "ls") 2
    then ls
    else if starts_with mem buffer (codes "pwd") 3
    then pwd
    else if starts_with mem buffer (codes "mkdir") 5
    then mkdir
    else if starts_with mem buffer (codes "cd") 2
    then cd
    else if starts_with mem buffer (codes "tree") 4
    then tree
    else if starts_with mem buffer (codes "clear") 5
    then clear
    else if starts_with mem buffer (codes "write") 5
    then write
    else if starts_with mem buffer (codes "show") 4
    then show
    else if starts_with mem buffer (codes "exec") 4
    then exec
    else from_bin

module _ {W : Type 0} (calls : UserSyscalls W) (fuel rounds : ℕ) (at : Locals) where
  -- A handler that always goes on.
  abbrev stays : Option (Process W) → Option (CommandResult W)
  stays none = none
  stays (some p) = some (goes_on p)

  unfoldable pub run_command : Command → Process W → Option (CommandResult W)
  run_command help p = some (goes_on (handle_help calls fuel at p))
  run_command ls p = stays (handle_ls calls fuel at rounds p)
  run_command pwd p = stays (handle_pwd calls fuel at p)
  run_command mkdir p = stays (handle_mkdir calls fuel at p)
  run_command cd p = stays (handle_cd calls fuel at p)
  run_command tree p = stays (handle_tree calls fuel at rounds p)
  run_command clear p = some (goes_on (say calls "\u{1b}[1;1H\u{1b}[2J" p))
  run_command write p = stays (handle_write calls fuel at p)
  run_command show p = stays (handle_show calls fuel at p)
  run_command exec p = handle_exec calls fuel at p
  run_command from_bin p = handle_exec_from_bin calls fuel at p

  unfoldable pub prompt : Process W → Option (Process W)
  prompt p = do
    let p1 = say calls "\u{1b}[34m" (say calls "demoos:" (say calls "\u{1b}[32m" p))
    p2 ← say_text calls fuel at.working_directory p1
    some (say calls "$ " (say calls "\u{1b}[37m" p2))

  -- The line that is read, in an array of zeros.
  unfoldable pub read_command : Process W → Process W
  read_command p =
      let (line, world) = calls.call_input max_command_dimension p.world in
      let mem1 = memzero at.buffer max_command_dimension p.mem in
      say calls "\n" (record { mem = store_bytes at.buffer line mem1; world = world })

  -- A round of the loop of `shell`.
  unfoldable pub shell_round : Process W → Option (CommandResult W)
  shell_round p = do
    p1 ← prompt p
    let p2 = read_command p1
    len ← strlen fuel p2.mem at.buffer
    if len == 0 then some (goes_on p2) else run_command (command_of p2.mem at.buffer) p2

  -- `n` rounds of it, or fewer if the process leaves.
  unfoldable pub shell_rounds : ℕ → Process W → Option (CommandResult W)
  shell_rounds zero p = some (goes_on p)
  shell_rounds (suc n) p = shell_round p >>= λ o. elim o [
    | goes_on p1 ↦ shell_rounds n p1
    | left world ↦ some (left world)
  ]
