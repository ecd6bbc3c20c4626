-- ===== src/Shell/Contents.antt =====
-- app/shell.c: the commands on files: handle_show, handle_write.
use demo_os.Base.{
  ℕ, zero, suc, ◌+◌, Bool, not, ◌&&◌, ◌||◌, ◌==◌, ltb, if◌then◌else◌, update, Option, none, some,
  ◌>>=◌,
}
use demo_os.Base.Int.{ℤ, pos, negsuc, eqb_ℤ, ltb_ℤ}
use demo_os.Text.{Chars, strlen, strcat}
use demo_os.Text.Block.{memzero, store_bytes, bytes_at, text_at}
use demo_os.UserCalls.{UserSyscalls}
use demo_os.Files.Exec.{fat_read}
use demo_os.Shell.{
  Locals, Process, say, say_text, complain, max_command_dimension, max_file_dimension,
  fat_create_write,
}
use demo_os.Shell.Path.{normalize_path}
use demo_os.Shell.Paths.{space, split_line, resolve_target}

-- The end of a word: a space or the end of the string.
abbrev pub ends_word : ℕ → Bool
ends_word c = (c == 0) || (c == space)

-- `while (*p != '\0' && *p != ' ') p++`.
unfoldable pub skip_word : ℕ → Chars → (p : ℕ) → Option ℕ
skip_word zero mem p = none
skip_word (suc fuel) mem p =
    let rest = skip_word fuel mem (p + 1) in if ends_word (mem p) then some p else rest

-- The copy of a word to an array, with a terminating zero: the pointer behind it, and the memory.
unfoldable pub copy_word : ℕ → (p dest : ℕ) → Chars → Option (ℕ × Chars)
copy_word zero p dest mem = none
copy_word (suc fuel) p dest mem =
    let rest = copy_word fuel (p + 1) (dest + 1) (update mem dest (mem p)) in
    if ends_word (mem p) then some (p, update mem dest 0) else rest

-- The copy of what is left, with a terminating zero: the number of its characters, and the memory.
unfoldable pub copy_rest : ℕ → (p dest i : ℕ) → Chars → Option (ℕ × Chars)
copy_rest zero p dest i mem = none
copy_rest (suc fuel) p dest i mem =
    let rest = copy_rest fuel (p + 1) dest (i + 1) (update mem (dest + i) (mem p)) in
    if mem p == 0 then some (i, update mem (dest + i) 0) else rest

module _ {W : Type 0} (calls : UserSyscalls W) (fuel : ℕ) (at : Locals) where
  -- `handle_show` with an open file.
  unfoldable pub show_file : (fd : ℤ) → Process W → Option (Process W)
  show_file fd p = do
    let (error, bytes, world) = calls.call_read_file fd max_file_dimension p.world
    let mem1 = memzero at.file_content max_command_dimension p.mem
    let p1 = record p { mem = store_bytes at.file_content bytes mem1; world = world }
    p2 ←
        (if eqb_ℤ error (pos 0)
          then (say_text calls fuel at.file_content p1 >>= λ p3. some (say calls "\n" p3))
          else complain calls fuel "[SHELL] Cannot read '" at.full_path "'.\n" p1)
    let (_, world2) = calls.call_close_file fd p2.world
    some (record p2 { world = world2 })

  unfoldable pub handle_show : Process W → Option (Process W)
  handle_show p = do
    let mem0 = memzero at.full_path max_command_dimension p.mem
    mem1 ← split_line fuel at.command at.target at.buffer mem0
    mem2 ← resolve_target fuel at.working_directory at.target at.full_path 2 mem1
    mem3 ← normalize_path fuel at.full_path mem2
    path ← text_at fuel mem3 at.full_path
    let (fd, world) = calls.call_open_file path fat_read p.world
    let p1 = record p { mem = mem3; world = world }
    p2 ←
        (if eqb_ℤ fd (negsuc 0)
          then complain calls fuel "[SHELL] Cannot open '" at.full_path "'.\n" p1
          else some p1)
    if ltb_ℤ (negsuc 0) fd then show_file fd p2 else some p2

  -- The file name and the content of the command line, in their arrays, and the content's length.
  unfoldable pub split_write : Chars → Option (ℕ × Chars)
  split_write mem = do
    let mem1 = memzero at.file_name max_command_dimension mem
    let mem2 = memzero at.file_content max_command_dimension mem1
    p ← skip_word fuel mem2 at.buffer
    (p', mem3) ← copy_word fuel (p + 1) at.file_name mem2
    copy_rest fuel (p' + 1) at.file_content 0 mem3

  -- `file_path`, empty after a complaint if the path is too long.
  unfoldable pub make_file_path : Process W → Option (Process W)
  make_file_path p = do
    let mem1 = memzero at.full_path max_command_dimension p.mem
    let p1 = record p { mem = mem1 }
    folder ← strlen fuel mem1 at.working_directory
    name ← strlen fuel mem1 at.file_name
    let joined = (do
      mem2 ← strcat fuel at.full_path at.working_directory mem1
      mem3 ← strcat fuel at.full_path at.file_name mem2
      some (record p { mem = mem3 }))
    if ltb (folder + name) max_command_dimension
        then joined
        else some (say calls "[SHELL] Error: file path is too big\n" p1)

  -- The call of `write_file`, with the bytes from the start of `file_content`.
  unfoldable pub write_content : (fd : ℤ) → Process W → Option (Process W)
  write_content fd p =
      let bytes = bytes_at max_file_dimension p.mem at.file_content in
      let (error, world) = calls.call_write_file fd bytes p.world in
      let p1 = record p { world = world } in
      if eqb_ℤ error (pos 0)
      then some p1
      else complain calls fuel "[SHELL] Error: cannot write on file '" at.full_path "'.\n" p1

  unfoldable pub handle_write : Process W → Option (Process W)
  handle_write p = do
    (i, mem1) ← split_write p.mem
    p1 ← make_file_path (record p { mem = mem1 })
    path ← text_at fuel p1.mem at.full_path
    let (fd, world) = calls.call_open_file path fat_create_write p1.world
    let p2 = record p1 { world = world }
    p3 ←
        (if eqb_ℤ fd (negsuc 0)
          then complain calls fuel "[SHELL] Error: cannot open file '" at.full_path "'.\n" p2
          else some p2)
    p4 ← (if not (eqb_ℤ fd (negsuc 0)) && ltb 0 i then write_content fd p3 else some p3)
    let (_, world2) = calls.call_close_file fd p4.world
    some (record p4 { world = world2 })
