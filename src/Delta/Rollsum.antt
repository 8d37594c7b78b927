-- ===== src/Delta/Rollsum.antt =====
-- src/delta/rollsum.rs: the rolling checksum and the block size.
-- A window is its bytes; the index loops of the source walk the list. The packed state is a u64.
pub mod Sums
pub mod Roll
pub mod Root
use cp.Common.{ℕ, zero, suc, ◌+◌, ◌-◌, ◌*◌, ◌/◌, ◌%◌, ◌^◌, min, max, bit_and, bit_or}
use cp.Common.{Bytes, [], ◌∷◌, true, false, ltb, if◌then◌else◌}
use cp.Common.Word.{u32, wrapping_add, wrapping_sub, wrapping_mul, shl32, shl64, shr}

-- The second loop of `weak_init`: a byte a round.
weak_tail : ℕ → ℕ → Bytes → ℕ × ℕ
weak_tail s1 s2 [] = (s1, s2)
weak_tail s1 s2 (b ∷ rest) = let s1' = wrapping_add s1 b in weak_tail s1' (wrapping_add s2 s1') rest

-- The first loop: four bytes a round while four are left.
weak_quads : ℕ → ℕ → Bytes → ℕ × ℕ
weak_quads s1 s2 (b0 ∷ b1 ∷ b2 ∷ b3 ∷ rest) =
    weak_quads (wrapping_add s1 (b0 + b1 + b2 + b3))
      (wrapping_add s2 (wrapping_add (shl32 (wrapping_add s1 b0) 2) (3 * b1 + 2 * b2 + b3))) rest
weak_quads s1 s2 rest = weak_tail s1 s2 rest

unfoldable pub weak_init : Bytes → ℕ × ℕ
unfolding weak_quads weak_tail
weak_init window = weak_quads 0 0 window

unfoldable pub weak_value : ℕ → ℕ → ℕ
weak_value s1 s2 = bit_or (bit_and s1 0xffff) (shl32 s2 16)

unfoldable pub bucket_traditional : ℕ → ℕ → ℕ
bucket_traditional s1 s2 = bit_and (wrapping_add s1 s2) 0xffff

unfoldable pub state_pack : ℕ → ℕ → ℕ
state_pack s1 s2 = bit_or s1 (shl64 s2 32)

unfoldable pub state_value : ℕ → ℕ
state_value st = u32 (bit_or (bit_and st 0xffff) (shl64 (shr st 32) 16))

unfoldable pub state_bucket : ℕ → ℕ
state_bucket st = bit_and ((st + shr st 32) % 2 ^ 64) 0xffff

-- The new value of `*st`.
unfoldable pub state_roll : ℕ → ℕ → ℕ → ℕ → ℕ
state_roll st k out inn =
    let lo = u32 st in
    let hi = u32 (shr st 32) in
    let lo2 = wrapping_sub (wrapping_add lo inn) out in
    let hi2 =
      wrapping_sub (wrapping_add (wrapping_add hi lo) inn) (wrapping_mul (wrapping_add k 1) out) in
    bit_or lo2 (shl64 hi2 32)

-- `while y < x { x = y; y = midpoint(x, n / x) }`, with fuel; x falls, so n rounds are enough.
isqrt_loop : ℕ → ℕ → ℕ → ℕ → ℕ
isqrt_loop zero n x y = x
isqrt_loop (suc fuel) n x y = elim (ltb y x) [
  | true ↦ isqrt_loop fuel n y ((y + n / y) / 2)
  | false ↦ x
]

pub isqrt : ℕ → ℕ
unfolding isqrt_loop
isqrt n = if ltb n 2 then n else isqrt_loop n n n ((n + 1) / 2)

unfoldable pub block_size : ℕ → ℕ
unfolding isqrt
block_size file_size =
    let root = isqrt file_size in let rounded = root / 8 * 8 in max 700 (min rounded (32 * 1024))
