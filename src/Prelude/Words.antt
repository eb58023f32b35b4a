-- ===== src/Prelude/Words.antt =====
-- Unsigned 64-bit counters: `uint64_t` and `size_t` sums wrap at 2 ^ 64.
use Prim.Native.Nat.{ℕ, ◌+◌, ◌-◌, ◌%◌, ◌^◌, ◌<◌}
use mathlib.Core.Path.{◌≡◌}
use native.Mathlib.Omega.{arith}

abbrev pub u64_mod : ℕ
u64_mod = 2 ^ 64

-- `a + b` and `a - b` of `uint64_t`; `-` on ℕ stops at 0, so the modulus is added first.
abbrev pub add64 : ℕ → ℕ → ℕ
add64 a b = (a + b) % u64_mod

abbrev pub sub64 : ℕ → ℕ → ℕ
sub64 a b = (a + u64_mod - b % u64_mod) % u64_mod

-- A sum that fits does not wrap.
pub add64_small : (a b : ℕ) → a + b < u64_mod → add64 a b ≡ a + b
add64_small a b h = omega arith
