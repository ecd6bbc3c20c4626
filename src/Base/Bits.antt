-- ===== src/Base/Bits.antt =====
-- Single bits of a mask: `m & (1 << k)`, `m |= 1 << k` and `m &= ~(1 << k)`.
pub use Prim.Native.Nat.{bit_or}
use Prim.Native.Nat.{ℕ, zero, suc, ◌+◌, ◌-◌, ◌*◌, ◌/◌, ◌%◌, ◌^◌, bit_and}
use mathlib.Core.Path.{◌≡◌, refl}
use mathlib.Core.Bool.{Bool, true, ◌&&◌}
use demo_os.Base.Tests.{◌==◌, if◌then◌else◌}

abbrev pub test_bit : ℕ → ℕ → Bool
test_bit m k = (m / 2 ^ k) % 2 == 1

abbrev pub set_bit : ℕ → ℕ → ℕ
set_bit m k = if test_bit m k then m else m + 2 ^ k

abbrev pub clear_bit : ℕ → ℕ → ℕ
clear_bit m k = if test_bit m k then m - 2 ^ k else m

all_below : ℕ → (ℕ → Bool) → Bool
all_below zero p = true
all_below (suc n) p = p n && all_below n p

-- The three agree with the bit operations of the source on every mask of eight bits.
set_bit_table : all_below 8 (λ k. all_below 256 (λ m. set_bit m k == bit_or m (2 ^ k))) ≡ true
unfolding all_below
set_bit_table = refl

clear_bit_table :
    all_below 8 (λ k. all_below 256 (λ m. clear_bit m k == bit_and m (255 - 2 ^ k))) ≡ true
unfolding all_below
clear_bit_table = refl

test_bit_table :
    all_below 8 (λ k. all_below 256 (λ m. bit_and m (2 ^ k) == (m / 2 ^ k) % 2 * 2 ^ k)) ≡ true
unfolding all_below
test_bit_table = refl
