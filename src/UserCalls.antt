-- ===== src/UserCalls.antt =====
-- common/user_syscalls.h: the system calls as user programs see them.
use Prim.Native.Char.{code}
use Prim.Native.String.{String}
use demo_os.Base.{ℕ, List, [], ◌∷◌}
use demo_os.Base.Int.{ℤ}
use demo_os.Files.Calls.{FatEntryInfo}

-- The characters of a literal.
abbrev pub codes : String → List ℕ
codes String.[] = []
codes (String.◌∷◌ c s) = code c ∷ codes s

-- How `exec` ends: with an error, or with another program in place of this one.
pub data ExecResult (W : Type 0) : Type 0 where
  exec_returned : (error : ℤ) → W → ExecResult W
  exec_replaced : W → ExecResult W

-- The system calls, with a state `W` of all that is outside the process. Texts are passed as their
-- characters. `input` and `read_file` give the characters that they store, and `fork` the value that
-- this process sees: 0 in the child.
pub record UserSyscalls (W : Type 0) : Type 0 where
  pub call_write : (buffer : List ℕ) → W → W
  pub call_write_hex : (number : ℤ) → W → W
  pub call_input : (len : ℕ) → W → List ℕ × W
  pub call_create_dir : (path : List ℕ) → W → ℤ × W
  pub call_open_dir : (path : List ℕ) → W → ℤ × W
  pub call_open_file : (path : List ℕ) → (flags : ℕ) → W → ℤ × W
  pub call_close_file : (file_descriptor : ℤ) → W → ℤ × W
  pub call_write_file : (file_descriptor : ℤ) → (bytes : List ℕ) → W → ℤ × W
  pub call_read_file : (file_descriptor : ℤ) → (len : ℕ) → W → ℤ × List ℕ × W
  pub call_get_next_entry : (file_descriptor : ℤ) → W → ℤ × FatEntryInfo × W
  pub call_exit : W → W
  pub call_fork : W → ℤ × W
  pub call_exec : (path : List ℕ) → (arguments : List (List ℕ)) → W → ExecResult W
  pub call_wait : (pid : ℤ) → W → ℤ × W
  pub call_set_sched_param : (pid : ℤ) → (param : ℤ) → (value : ℤ) → W → ℤ × W
