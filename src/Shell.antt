-- ===== src/Shell.antt =====
-- app/shell.c: the shell, over the system calls of common/user_syscalls.h as a parameter. The memory
-- of the process is a function from addresses to characters; the local arrays of the functions stand
-- at the addresses of a record.
pub mod Path
pub mod Listing
pub mod Paths
pub mod Contents
pub mod Programs
pub mod Commands
use Prim.Native.String.{String}
use demo_os.Base.{ℕ, Bool, Option, some, ◌>>=◌, List}
use demo_os.Text.{Chars}
use demo_os.Text.Block.{text_at}
use demo_os.UserCalls.{UserSyscalls, codes}

-- MAX_COMMAND_DIMENSION, MAX_FILE_DIMENSION, MAX_EXEC_ARGUMENTS, SYSCALL_EXEC_ARGUMENT_DIMENSION,
-- and the flags FAT_CREATE | FAT_WRITE.
abbrev pub max_command_dimension : ℕ
max_command_dimension = 64

abbrev pub max_file_dimension : ℕ
max_file_dimension = 256

abbrev pub max_exec_arguments : ℕ
max_exec_arguments = 4

abbrev pub exec_argument_dimension : ℕ
exec_argument_dimension = 64

abbrev pub fat_create_write : ℕ
fat_create_write = 17

-- The addresses of the local arrays. `print_tree` has its own in each call, by depth.
pub record Locals : Type 0 where
  pub working_directory : ℕ
  pub buffer : ℕ
  pub command : ℕ
  pub target : ℕ
  pub full_path : ℕ
  pub file_name : ℕ
  pub file_content : ℕ
  pub arguments_raw : ℕ
  pub arguments : ℕ
  pub argument_temp : ℕ
  pub info_name : (depth : ℕ) → ℕ
  pub child_path : (depth : ℕ) → ℕ

-- The memory of the process, and what is outside of it.
pub record Process (W : Type 0) : Type 0 where
  pub mem : Chars
  pub world : W

-- A function of the shell goes on, or the process has ended or runs another program.
pub data CommandResult (W : Type 0) : Type 0 where
  goes_on : Process W → CommandResult W
  left : W → CommandResult W

module _ {W : Type 0} (calls : UserSyscalls W) where
  -- `call_syscall_write` of a literal.
  abbrev pub say : String → Process W → Process W
  say message p = record p { world = calls.call_write (codes message) p.world }

  -- `call_syscall_write` of the text at an address.
  unfoldable pub say_text : ℕ → (text : ℕ) → Process W → Option (Process W)
  say_text fuel text p =
      text_at fuel p.mem text >>= λ xs. some (record p { world = calls.call_write xs p.world })

  -- A message around the text at an address.
  abbrev pub complain :
      ℕ → (before : String) → (text : ℕ) → (after : String) → Process W → Option (Process W)
  complain fuel before text after p =
      say_text fuel text (say before p) >>= λ p1. some (say after p1)
