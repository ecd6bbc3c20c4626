-- ===== src/Files/Exec/Arguments.antt =====
-- Where a new program finds its arguments.
use demo_os.Base.{
  ℕ, ◌+◌, ◌-◌, ◌*◌, ◌<◌, ◌≤◌, ◌≡◌, ◌≢◌, ◌⊎◌, inl, inr, refl, ◌∙◌, update, List, [], ◌∷◌, length,
  arith, All,
}
use demo_os.Kernel.{Kernel}
use demo_os.Memory.{page_size}
use demo_os.Text.{Chars}
use demo_os.Text.Block.{store_text}
use demo_os.Text.Copy.{IsString, IsString-frame}
use demo_os.Files.Exec.{Stack, syscall_exec_argument_dimension, push_arguments, start_program}

store_text-frame :
    (p : ℕ) (xs : List ℕ) (mem : Chars) (a : ℕ)
    → (a < p) ⊎ (p + length xs < a)
    → store_text p xs mem a ≡ mem a
unfolding store_text
store_text-frame p [] mem a out = ground arith
store_text-frame p (x ∷ xs) mem a out =
    store_text-frame (p + 1) xs (update mem p x) a (omega arith) ∙ ground arith

store_text-IsString :
    (p : ℕ) (xs : List ℕ) (mem : Chars) → All (λ x. x ≢ 0) xs → IsString (store_text p xs mem) p xs
unfolding store_text
store_text-IsString p [] mem nonzero = ground arith
store_text-IsString p (x ∷ xs) mem nonzero = (
  store_text-frame (p + 1) xs (update mem p x) p (inl (omega arith)) ∙ ground arith,
  nonzero.0,
  store_text-IsString (p + 1) xs (update mem p x) nonzero.1,
)

-- The place of argument number `i`, below the top of the stack.
abbrev pub argument_address : ℕ → ℕ
argument_address i = 16 * page_size - (i + 1) * syscall_exec_argument_dimension

-- Strings that fit in a cell of 64 characters with their zero.
abbrev pub Fitting : List (List ℕ) → Type 0
Fitting arguments =
    All
      (λ argument. All (λ x. x ≢ 0) argument × (length argument < syscall_exec_argument_dimension))
      arguments

-- The registers from number `i + 1` on point to the arguments.
abbrev pub Laid : ℕ → List (List ℕ) → Stack → Type 0
Laid i [] s = Unit
Laid i (argument ∷ arguments) s =
    (s.trap_frame (i + 1) ≡ argument_address i)
    × IsString s.user_memory (argument_address i) argument
    × Laid (i + 1) arguments s

-- What the writing of the arguments from number `i` on leaves.
record Pushed (i : ℕ) (arguments : List (List ℕ)) (s s' : Stack) : Type 0 where
  laid : Laid i arguments s'
  top : s'.stack_pointer ≡ 16 * page_size - (i + length arguments) * syscall_exec_argument_dimension
  registers : (j : ℕ) → j ≤ i → s'.trap_frame j ≡ s.trap_frame j
  memory :
      (a : ℕ)
      → (a < s'.stack_pointer) ⊎ (16 * page_size - i * syscall_exec_argument_dimension ≤ a)
      → s'.user_memory a ≡ s.user_memory a

push_arguments-Pushed :
    (i : ℕ) (arguments : List (List ℕ)) (s : Stack)
    → i + length arguments ≤ 30
    → Fitting arguments
    → s.stack_pointer ≡ 16 * page_size - i * syscall_exec_argument_dimension
    → Pushed i arguments s (push_arguments i arguments s)
unfolding push_arguments
push_arguments-Pushed i [] s l fit top = record {
  laid = tt;
  top = omega arith;
  registers = λ j lo. refl;
  memory = λ a out. refl;
}
push_arguments-Pushed i (argument ∷ arguments) s l fit top =
    let place : ℕ = s.stack_pointer - syscall_exec_argument_dimension in
    let short = fit.0.1 in
    let s1 : Stack = record s {
      stack_pointer = place;
      user_memory = store_text place argument s.user_memory;
      trap_frame = update s.trap_frame (i + 1) place;
    } in
    let p = push_arguments-Pushed (i + 1) arguments s1 (omega arith) fit.1 (omega arith) in
    let at : place ≡ argument_address i = omega arith in
    let t = p.top in
    record {
      laid = (
        p.registers (i + 1) (omega arith) ∙ ground arith,
        rw (← at) (
            IsString-frame s1.user_memory (push_arguments (i + 1) arguments s1).user_memory place
              argument (store_text-IsString place argument s.user_memory fit.0.0)
              (λ a lo hi. p.memory a (inr (omega arith)))),
        p.laid,
      );
      top = omega arith;
      registers = λ j lo. p.registers j (omega arith) ∙ ground arith;
      memory = λ a out.
          p.memory a (omega arith) ∙ store_text-frame place argument s.user_memory a (omega arith);
    }

-- What a new program starts with.
pub record Started (arguments : List (List ℕ)) (user_memory : Chars) (k : Kernel) (s : Stack)
    (k' : Kernel) : Type 0 where
  pub count : s.trap_frame 0 ≡ length arguments
  pub laid : Laid 0 arguments s
  pub below : s.stack_pointer ≡ 16 * page_size - length arguments * syscall_exec_argument_dimension
  pub others :
      (a : ℕ) → (a < s.stack_pointer) ⊎ (16 * page_size ≤ a) → s.user_memory a ≡ user_memory a
  pub stack : s.trap_frame 31 ≡ s.stack_pointer
  pub entry : s.trap_frame 32 ≡ 0
  pub saved : (k'.pcb k.current_process).cpu_context.sp ≡ s.stack_pointer

Laid-update :
    (i : ℕ) (arguments : List (List ℕ)) (s : Stack) (r v : ℕ)
    → i + length arguments ≤ 30
    → 31 ≤ r
    → Laid i arguments s
    → Laid i arguments (record s { trap_frame = update s.trap_frame r v })
Laid-update i [] s r v l hi h = tt
Laid-update i (argument ∷ arguments) s r v l hi h =
    (let e = h.0 in ground arith, h.1, Laid-update (i + 1) arguments s r v (omega arith) hi h.2)

-- With at most 30 arguments, strings of fewer than 64 characters each, exec starts the new
-- program with their number in register 0, and register i + 1 pointing to argument i with its
-- terminating zero, at 64 * (i + 1) characters below the top of 16 pages. The stack pointer is
-- below all of them, in the trap frame and in the saved context, no character below it or from
-- the top on is written, and the program counter is 0.
pub start_program-Started :
    (arguments : List (List ℕ)) (trap_frame : ℕ → ℕ) (user_memory : Chars) (k : Kernel)
    → length arguments ≤ 30
    → Fitting arguments
    → let r = start_program arguments trap_frame user_memory k in
      Started arguments user_memory k r.0 r.1
unfolding start_program
start_program-Started arguments trap_frame user_memory k l fit =
    let s0 : Stack = record {
      trap_frame = update trap_frame 0 (length arguments);
      stack_pointer = 16 * page_size;
      user_memory = user_memory;
    } in
    let p = push_arguments-Pushed 0 arguments s0 (omega arith) fit (omega arith) in
    let s1 : Stack = push_arguments 0 arguments s0 in
    record {
      count = p.registers 0 (omega arith);
      laid =
          Laid-update 0 arguments
            (record s1 { trap_frame = update s1.trap_frame 31 s1.stack_pointer }) 32 0 (omega arith)
            (omega arith)
            (Laid-update 0 arguments s1 31 s1.stack_pointer (omega arith) (omega arith) p.laid);
      below = let t = p.top in omega arith;
      others = λ a out. p.memory a (omega arith);
      stack = refl;
      entry = refl;
      saved = ground arith;
    }
