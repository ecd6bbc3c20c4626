-- ===== src/Shell/Path.antt =====
-- app/shell.c: normalize_path, which rewrites a path in place.
pub mod Components
pub mod Turns
pub mod Normalize
pub mod Closing
use demo_os.Base.{
  ℕ, zero, suc, ◌+◌, Bool, ◌&&◌, ◌||◌, ◌==◌, if◌then◌else◌, update, Option, none, some, ◌>>=◌,
}
use demo_os.Base.Int.{ℤ, pos, negsuc, succ, pred, eqb_ℤ}
use demo_os.Text.{Chars}

-- '/' and '.'.
abbrev pub slash : ℕ
slash = 47

abbrev pub dot : ℕ
dot = 46

-- The end of a component.
abbrev pub ends_part : ℕ → Bool
ends_part c = (c == slash) || (c == 0)

-- An assignment to `path[write]`; below the array there is no result.
abbrev pub store_at : (path : ℕ) → (write : ℤ) → (c : ℕ) → Chars → Option Chars
store_at path (pos write) c mem = some (update mem (path + write) c)
store_at path (negsuc write) c mem = none

-- The inner loop: back to behind the last '/'.
unfoldable pub back_up : Chars → (path write : ℕ) → ℕ
back_up mem path zero = zero
back_up mem path (suc write) =
    let rest = back_up mem path write in if mem (path + write) == slash then suc write else rest

abbrev pub drop_part : Chars → (path : ℕ) → (write : ℤ) → ℤ
drop_part mem path (pos write) = pos (back_up mem path write)
drop_part mem path (negsuc write) = negsuc write

-- A turn of the outer loop: it is over, it goes on, or it writes outside the array.
pub data PathTurn : Type 0 where
  over : PathTurn
  next : (read : ℕ) → (write : ℤ) → Chars → PathTurn
  outside : PathTurn

abbrev pub copied : (read : ℕ) → (write : ℤ) → Option Chars → PathTurn
copied read write none = outside
copied read write (some mem) = next (read + 1) (succ write) mem

unfoldable pub turn : (path read : ℕ) → (write : ℤ) → Chars → PathTurn
turn path read write mem =
    let c = mem (path + read) in
    let d = mem (path + read + 1) in
    let e = mem (path + read + 2) in
    if c == 0
    then over
    else if (c == dot) && ends_part d
    then next (read + (if d == slash then 2 else 1)) write mem
    else if (c == dot) && (d == dot) && ends_part e
    then next (read + (if e == slash then 3 else 2)) (drop_part mem path (pred write)) mem
    else copied read write (store_at path write c mem)

-- The end: a terminating zero, and "/" in place of an empty path.
unfoldable pub finish : (path : ℕ) → (write : ℤ) → Chars → Option Chars
finish path write mem = store_at path write 0 mem >>= λ mem1.
    if eqb_ℤ write (pos 0)
    then store_at path write slash mem1 >>= store_at path (succ write) 0
    else some mem1

unfoldable pub normalize_from : ℕ → (path read : ℕ) → (write : ℤ) → Chars → Option Chars
normalize_from zero path read write mem = none
normalize_from (suc fuel) path read write mem = elim (turn path read write mem) [
  | over ↦ finish path write mem
  | next read' write' mem' ↦ normalize_from fuel path read' write' mem'
  | outside ↦ none
]

unfoldable pub normalize_path : ℕ → (path : ℕ) → Chars → Option Chars
normalize_path fuel path mem = normalize_from fuel path 0 (pos 0) mem
