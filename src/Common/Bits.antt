-- ===== src/Common/Bits.antt =====
-- `|` of two values with no bit in common, and `&` with a mask, as arithmetic at every width: each
-- is read off the recursion on binary digits that the native operation stands for.
use Prim.Native.Nat.{ℕ, zero, suc, ◌+◌, ◌-◌, ◌*◌, ◌/◌, ◌%◌, ◌^◌, ◌≤◌, ◌<◌, min, max}
use Prim.Native.Nat.{digits, bit_and, bit_or, bit_and-bitwise, bit_or-bitwise}
use mathlib.Core.Path.{◌≡◌, refl, ap, ◌∙◌}
use native.Mathlib.Omega.{arith}
use native.Mathlib.Nat.{pow-suc, one-le-pow}

doubled : (q k : ℕ) → q * 2 ^ suc k ≡ 2 * (q * 2 ^ k)
doubled q k = omega (arith, ap (λ (t : ℕ). q * t) (pow-suc 2 k))

or_digits :
    (k q r fuel : ℕ) → r < 2 ^ k → r ≤ fuel → digits (λ y. y) max fuel r (q * 2 ^ k) ≡ r + q * 2 ^ k
or_digits k q zero zero fits enough = omega arith
or_digits k q zero (suc fuel) fits enough = omega arith
or_digits k q (suc r) zero fits enough = absurd (omega arith)
or_digits zero q (suc r) (suc fuel) fits enough = absurd (omega arith)
or_digits (suc k) q (suc r) (suc fuel) fits enough =
    let half : q * 2 ^ suc k / 2 ≡ q * 2 ^ k = omega (arith, doubled q k) in
    let even : q * 2 ^ suc k % 2 ≡ 0 = omega (arith, doubled q k) in
    let rest = or_digits k q (suc r / 2) fuel (omega (arith, pow-suc 2 k)) (omega arith) in
    rw (half, even) (ground (arith, rest, doubled q k))

-- `r | (q << k)` is a sum when `r` fits `k` bits.
pub bit_or_shifted : (k q r : ℕ) → r < 2 ^ k → bit_or r (q * 2 ^ k) ≡ r + q * 2 ^ k
bit_or_shifted k q r fits = simp bit_or-bitwise (or_digits k q r r fits (omega arith))

and_none : (fuel a : ℕ) → digits (λ y. 0) min fuel a 0 ≡ 0
and_none zero a = refl
and_none (suc fuel) zero = refl
and_none (suc fuel) (suc a) = omega (arith, and_none fuel (suc a / 2))

pub bit_and-zero : (a : ℕ) → bit_and a 0 ≡ 0
bit_and-zero a = simp bit_and-bitwise (and_none a a)

mask_digits :
    (k q r a fuel : ℕ)
    → a ≡ q * 2 ^ k + r
    → r < 2 ^ k
    → a ≤ fuel
    → digits (λ y. 0) min fuel a (2 ^ k - 1) ≡ r
mask_digits k q r zero zero e fits enough = omega arith
mask_digits k q r zero (suc fuel) e fits enough = omega arith
mask_digits k q r (suc a) zero e fits enough = absurd (omega arith)
mask_digits zero q r (suc a) (suc fuel) e fits enough = omega (arith, and_none fuel (suc a / 2))
mask_digits (suc k) q r (suc a) (suc fuel) e fits enough =
    let p = pow-suc 2 k in
    let half : (2 ^ suc k - 1) / 2 ≡ 2 ^ k - 1 = omega (arith, p, one-le-pow k 2) in
    let odd : (2 ^ suc k - 1) % 2 ≡ 1 = omega (arith, p, one-le-pow k 2) in
    let rest =
      mask_digits k q (r / 2) (suc a / 2) fuel (omega (arith, doubled q k)) (omega (arith, p))
        (omega arith) in
    rw (half, odd) (ground (arith, rest, doubled q k))

-- A mask of `k` low ones is the remainder by `2 ^ k`.
pub bit_and_mask : (k a : ℕ) → bit_and a (2 ^ k - 1) ≡ a % 2 ^ k
bit_and_mask k a = simp bit_and-bitwise (
    mask_digits k (a / 2 ^ k) (a % 2 ^ k) a a (omega (arith, one-le-pow k 2))
      (omega (arith, one-le-pow k 2)) (omega arith))

bit_digits :
    (k q c r a fuel : ℕ)
    → a ≡ 2 * (q * 2 ^ k) + c * 2 ^ k + r
    → r < 2 ^ k
    → c < 2
    → a ≤ fuel
    → digits (λ y. 0) min fuel a (2 ^ k) ≡ c * 2 ^ k
bit_digits k q c r zero zero e fits bit enough = omega arith
bit_digits k q c r zero (suc fuel) e fits bit enough = omega arith
bit_digits k q c r (suc a) zero e fits bit enough = absurd (omega arith)
bit_digits zero q c r (suc a) (suc fuel) e fits bit enough =
    ground (arith, and_none fuel (suc a / 2))
bit_digits (suc k) q c r (suc a) (suc fuel) e fits bit enough =
    let p = pow-suc 2 k in
    let half : 2 ^ suc k / 2 ≡ 2 ^ k = omega (arith, p) in
    let even : 2 ^ suc k % 2 ≡ 0 = omega (arith, p) in
    let rest =
      bit_digits k q c (r / 2) (suc a / 2) fuel (omega (arith, doubled q k, doubled c k))
        (omega (arith, p)) bit (omega arith) in
    rw (half, even) (ground (arith, rest, doubled c k))

halved : (s q c m : ℕ) → s ≡ q * 2 + c → s * m ≡ 2 * (q * m) + c * m
halved s q c m e = ap (λ (t : ℕ). t * m) e ∙ omega arith

-- A single bit is tested by the parity of the shifted value.
pub bit_and_single : (k a : ℕ) → bit_and a (2 ^ k) ≡ a / 2 ^ k % 2 * 2 ^ k
bit_and_single k a =
    let s = a / 2 ^ k in
    let halves : s ≡ s / 2 * 2 + s % 2 = omega arith in
    let split : s * 2 ^ k ≡ 2 * (s / 2 * 2 ^ k) + s % 2 * 2 ^ k =
      halved s (s / 2) (s % 2) (2 ^ k) halves in
    simp bit_and-bitwise (
      bit_digits k (s / 2) (s % 2) (a % 2 ^ k) a a (omega (arith, split, one-le-pow k 2))
        (omega (arith, one-le-pow k 2)) (omega arith) (omega arith))
