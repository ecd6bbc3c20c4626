-- ===== src/Shell/Listing.antt =====
-- app/shell.c: the commands that show directories: handle_help, handle_pwd, handle_ls, print_tree.
use demo_os.Base.{
  ℕ, zero, suc, ◌+◌, ◌-◌, Bool, not, ◌||◌, ◌==◌, if◌then◌else◌, Option, none, some, ◌>>=◌,
}
use demo_os.Base.Int.{ℤ, pos, negsuc, eqb_ℤ}
use demo_os.Text.{strlen, strcat, strcpy}
use demo_os.Text.Block.{memzero, starts_with, store_text, text_at}
use demo_os.UserCalls.{UserSyscalls, codes}
use demo_os.Files.{fat_max_name_size}
use demo_os.Shell.{Locals, Process, say, say_text, complain, max_command_dimension}
use demo_os.Shell.Path.{slash, normalize_path}

module _ {W : Type 0} (calls : UserSyscalls W) (fuel : ℕ) (at : Locals) where
  unfoldable pub handle_help : Process W → Process W
  handle_help p =
      let help1 = say calls "[demoos shell]\n" p in
      let help2 = say calls "Available commands:\n" help1 in
      let help3 = say calls "  help       - Show this help message\n" help2 in
      let help4 = say calls "  pwd        - Show the current working directory\n" help3 in
      let help5 = say calls "  ls         - Show content of the current folder\n" help4 in
      let help6 = say calls "  tree       - Show directory tree\n" help5 in
      let help7 = say calls "  mkdir      - Create a directory in the working directory\n" help6 in
      let help8 =
        say calls "  write      - Creates a file and writes the given content in it\n" help7 in
      let help9 = say calls "  show       - Shows the content of the given file\n" help8 in
      let help10 = say calls "  clear      - Clears the screen\n" help9 in
      let help11 =
        say calls
          "  exec       - Forks the current process and launches a new one from the file system, given its path\n"
          help10 in
      say calls "  any        - If '/bin/any.bin' is a file, launches it as a new process\n" help11

  unfoldable pub handle_pwd : Process W → Option (Process W)
  handle_pwd p = do p1 ← say_text calls fuel at.working_directory p; some (say calls "\n" p1)

  -- The call of `get_next_entry`, and the fields of `info` after it: the name in memory.
  unfoldable pub next_entry : (name : ℕ) → (fd : ℤ) → Process W → ℤ × Bool × Process W
  next_entry name fd p =
      let (result, info, world) = calls.call_get_next_entry fd p.world in
      let mem1 = memzero name fat_max_name_size p.mem in
      (result, info.is_dir, record { mem = store_text name info.name mem1; world = world })

  -- The loop of `handle_ls`; the fuel bounds the number of entries.
  unfoldable pub list_entries : ℕ → (fd : ℤ) → Process W → Option (Process W)
  list_entries zero fd p = none
  list_entries (suc rounds) fd p =
      let (result, is_dir, p1) = next_entry (at.info_name 0) fd p in
      let named =
        (if is_dir
          then complain calls fuel "\u{1b}[34m" (at.info_name 0) "\u{1b}[0m" p1
          else say_text calls fuel (at.info_name 0) p1) in
      let rest = named >>= λ p2. list_entries rounds fd (say calls "\n" p2) in
      if not (eqb_ℤ result (pos 0)) then some p1 else rest

  unfoldable pub handle_ls : (rounds : ℕ) → Process W → Option (Process W)
  handle_ls rounds p = do
    path ← text_at fuel p.mem at.working_directory
    let (fd, world) = calls.call_open_dir path p.world
    let p1 = record p { world = world }
    if eqb_ℤ fd (negsuc 0)
        then complain calls fuel "[SHELL] Error opening folder '" at.working_directory "'.\n" p1
        else (list_entries rounds fd p1 >>= λ p2. some (say calls "\n" p2))

  -- The lines of `print_tree` for one entry, at its depth.
  unfoldable pub indent : (depth : ℕ) → Process W → Process W
  indent zero p = p
  indent (suc depth) p = indent depth (say calls "   " p)

  unfoldable pub show_entry : (depth : ℕ) → (is_dir : Bool) → Process W → Option (Process W)
  show_entry depth is_dir p =
      let p1 = indent depth p in
      if is_dir
      then complain calls fuel "\u{1b}[34m" (at.info_name depth) "/\u{1b}[0m\n" p1
      else (say_text calls fuel (at.info_name depth) p1 >>= λ p2. some (say calls "\n" p2))

  -- `child_path`: the path, a '/' where it does not end in one, and the name.
  unfoldable pub make_child_path : (path depth : ℕ) → Process W → Option (Process W)
  make_child_path path depth p = do
    let child_path = at.child_path depth
    mem1 ← strcpy fuel child_path path (memzero child_path max_command_dimension p.mem)
    len ← strlen fuel mem1 child_path
    let mem2 =
        if mem1 (child_path + len - 1) == slash
        then mem1
        else store_text (child_path + len) (codes "/") mem1
    mem3 ← strcat fuel child_path (at.info_name depth) mem2
    mem4 ← normalize_path fuel child_path mem3
    some (record p { mem = mem4 })

  -- The loop of `print_tree`. The fuel bounds the entries and the depth together.
  unfoldable pub tree_entries : ℕ → (path depth : ℕ) → (fd : ℤ) → Process W → Option (Process W)
  tree_entries zero path depth fd p = none
  tree_entries (suc rounds) path depth fd p =
      let (result, is_dir, p1) = next_entry (at.info_name depth) fd p in
      let name = at.info_name depth in
      let skipped =
        starts_with p1.mem name (codes ".") 2 || starts_with p1.mem name (codes "..") 3 in
      let inside = λ (p2 : Process W). (do
        p3 ← make_child_path path depth p2
        child ← text_at fuel p3.mem (at.child_path depth)
        let (child_fd, world) = calls.call_open_dir child p3.world
        let p4 = record p3 { world = world }
        if eqb_ℤ child_fd (negsuc 0)
            then some p4
            else tree_entries rounds (at.child_path depth) (depth + 1) child_fd p4) in
      let shown =
        (if skipped
          then some p1
          else (show_entry depth is_dir p1 >>= λ p2. if is_dir then inside p2 else some p2)) in
      if not (eqb_ℤ result (pos 1))
      then some p1
      else (shown >>= λ p5. tree_entries rounds path depth fd p5)

  unfoldable pub print_tree : (rounds path depth : ℕ) → Process W → Option (Process W)
  print_tree rounds path depth p = do
    folder ← text_at fuel p.mem path
    let (fd, world) = calls.call_open_dir folder p.world
    let p1 = record p { world = world }
    if eqb_ℤ fd (negsuc 0) then some p1 else tree_entries rounds path depth fd p1
