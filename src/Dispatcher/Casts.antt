-- ===== src/Dispatcher/Casts.antt =====
-- Results of calls, as the caller reads them from the register.
use demo_os.Base.{◌^◌, ◌<◌, ◌≡◌, arith}
use demo_os.Base.Int.{ℤ, pos, negsuc}
use demo_os.Dispatcher.{to_int, to_register}

-- The range of an int.
abbrev pub IsInt : ℤ → Type 0
IsInt (pos n) = n < 2 ^ 31
IsInt (negsuc n) = n < 2 ^ 31

-- A result of a call that is in the range of an int, stored in a 64-bit register by the
-- dispatcher, reads back as that int, negative error codes included.
pub to_int-to_register : (r : ℤ) → IsInt r → to_int (to_register r) ≡ r
unfolding to_int to_register
to_int-to_register (pos n) h = ground arith
to_int-to_register (negsuc n) h = ground arith
