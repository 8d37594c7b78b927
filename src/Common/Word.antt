-- ===== src/Common/Word.antt =====
-- Rust's u32 and u64 arithmetic on native numbers. A value is a number below 2 ^ 32 or 2 ^ 64.
use Prim.Native.Nat.{ℕ, zero, suc, ◌+◌, ◌-◌, ◌*◌, ◌/◌, ◌%◌, ◌^◌}
use mathlib.Core.Path.{◌≡◌}
use native.Mathlib.Omega.{arith}

-- `x as u32`
abbrev pub u32 : ℕ → ℕ
u32 x = x % 2 ^ 32

abbrev pub wrapping_add : ℕ → ℕ → ℕ
wrapping_add a b = (a + b) % 2 ^ 32

abbrev pub wrapping_sub : ℕ → ℕ → ℕ
wrapping_sub a b = (a + 2 ^ 32 - b) % 2 ^ 32

abbrev pub wrapping_mul : ℕ → ℕ → ℕ
wrapping_mul a b = a * b % 2 ^ 32

-- `x << k` on a u32, and on a u64
abbrev pub shl32 : ℕ → ℕ → ℕ
shl32 x k = x * 2 ^ k % 2 ^ 32

abbrev pub shl64 : ℕ → ℕ → ℕ
shl64 x k = x * 2 ^ k % 2 ^ 64

-- `x >> k`
abbrev pub shr : ℕ → ℕ → ℕ
shr x k = x / 2 ^ k

-- A reduced factor can be taken unreduced under a later reduction.
pub add-mul-mod : (c n x : ℕ) → (c + n * (x % 2 ^ 32)) % 2 ^ 32 ≡ (c + n * x) % 2 ^ 32
add-mul-mod c zero x = omega arith
add-mul-mod c (suc n) x = omega (arith, add-mul-mod (c + x % 2 ^ 32) n x)
