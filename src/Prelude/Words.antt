-- ===== src/Prelude/Words.antt =====
-- Unsigned machine arithmetic: `global_bytesize` is a `uint64_t`, a counter an `unsigned int`.
use Prim.Native.Nat.{ℕ, ◌+◌, ◌-◌, ◌%◌, ◌^◌, ◌≤◌, ◌<◌}
use mathlib.Core.Path.{◌≡◌}
use native.Mathlib.Omega.{arith}

abbrev pub u64 : ℕ
u64 = 2 ^ 64

abbrev pub u32 : ℕ
u32 = 2 ^ 32

-- `a + b` and `a - b` on `uint64_t`.
unfoldable pub add64 : ℕ → ℕ → ℕ
add64 a b = (a + b) % u64

unfoldable pub sub64 : ℕ → ℕ → ℕ
sub64 a b = (a + (u64 - b % u64)) % u64

pub add64_fits : (a b : ℕ) → a + b < u64 → add64 a b ≡ a + b
unfolding add64
add64_fits a b h = omega arith

pub sub64_fits : (a b : ℕ) → a < u64 → b ≤ a → sub64 a b ≡ a - b
unfolding sub64
sub64_fits a b h k = omega arith

pub sub64-add64 : (a b : ℕ) → a < u64 → b < u64 → sub64 (add64 a b) b ≡ a
unfolding add64 sub64
sub64-add64 a b h k = omega arith
