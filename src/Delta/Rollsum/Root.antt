-- ===== src/Delta/Rollsum/Root.antt =====
-- The block size and the integer square root behind it.
use cp.Common.{ℕ, zero, suc, ◌+◌, ◌-◌, ◌*◌, ◌/◌, ◌%◌, ◌≤◌, ◌<◌, ◌≡◌, arith}
use cp.Common.{max, min, ltb, leb, false, ◌⊎◌, inl, inr, Bool-cases}
use cp.Delta.Rollsum.{isqrt_loop, isqrt, block_size}
use native.Mathlib.Nat.{le-div_iff_mul-le, lt-mul-div-succ, div_self}

four_mul_add-le : (a d : ℕ) → 4 * (a * (a + d)) ≤ (a + (a + d)) * (a + (a + d))
four_mul_add-le a d = omega arith

four_mul-le : (a b : ℕ) → 4 * (a * b) ≤ (a + b) * (a + b)
four_mul-le a b = elim (Bool-cases (leb a b)) [
  | inl h ↦ let e : b ≡ a + (b - a) = ground arith in rw e (four_mul_add-le a (b - a))
  | inr h ↦
      let e : a ≡ b + (a - b) = ground arith in rw e (omega (arith, four_mul_add-le b (a - b)))
]

square_mono : (a b : ℕ) → a ≤ b → a * a ≤ b * b
square_mono a b h = grind arith

-- Newton's step never falls below the root.
newton-upper : (n x : ℕ) → 0 < x → n < ((x + n / x) / 2 + 1) * ((x + n / x) / 2 + 1)
newton-upper n x pos =
    let q : ℕ = n / x in
    let r : ℕ = (x + n / x) / 2 + 1 in
    let doubled : (x + (q + 1)) * (x + (q + 1)) ≤ (r + r) * (r + r) =
      square_mono _ _ (omega arith) in
    omega (arith, doubled, four_mul-le x (q + 1), lt-mul-div-succ n pos)

newton-exit : (n x : ℕ) → 0 < x → x ≤ (x + n / x) / 2 → x * x ≤ n
newton-exit n x pos h = (le-div_iff_mul-le pos).0 (omega arith)

newton-pos : (n x : ℕ) → 2 ≤ n → 0 < x → 0 < (x + n / x) / 2
newton-pos n (suc zero) h pos = omega arith
newton-pos n (suc (suc x)) h pos = omega arith
newton-pos n zero h pos = absurd (omega arith)

isqrt_loop-root :
    (fuel n x : ℕ)
    → 2 ≤ n
    → 0 < x
    → x ≤ fuel
    → n < (x + 1) * (x + 1)
    → (isqrt_loop fuel n x ((x + n / x) / 2) * isqrt_loop fuel n x ((x + n / x) / 2) ≤ n)
      × (n
          < (isqrt_loop fuel n x ((x + n / x) / 2) + 1)
            * (isqrt_loop fuel n x ((x + n / x) / 2) + 1))
unfolding isqrt_loop
isqrt_loop-root zero n x h pos hf up = absurd (omega arith)
isqrt_loop-root (suc fuel) n x h pos hf up = elim (Bool-cases (ltb ((x + n / x) / 2) x)) [
  | inl more ↦
      rw (more, isqrt_loop)
        (isqrt_loop-root fuel n ((x + n / x) / 2) h (newton-pos n x h pos) (ground arith)
          (newton-upper n x pos))
  | inr done ↦ rw (done, isqrt_loop) (newton-exit n x pos (ground arith), up)
]

-- `isqrt` returns the floor of the square root of every number, within the fuel that it is given.
isqrt-floor : (n : ℕ) → (isqrt n * isqrt n ≤ n) × (n < (isqrt n + 1) * (isqrt n + 1))
unfolding isqrt
isqrt-floor zero = omega arith
isqrt-floor (suc zero) = omega arith
isqrt-floor (suc (suc m)) =
    let n : ℕ = suc (suc m) in
    let one : n / n ≡ 1 = div_self (omega arith) in
    let first : (n + 1) / 2 ≡ (n + n / n) / 2 = rw one in
    let small : ltb n 2 ≡ false = ground arith in
    rw (small, first)
      (isqrt_loop-root n n n (omega arith) (omega arith) (omega arith) (omega arith))

clamped : ℕ → ℕ
clamped r = max 700 (min (r / 8 * 8) (32 * 1024))

clamped_root :
    (n r : ℕ)
    → (r * r ≤ n) × (n < (r + 1) * (r + 1))
    → (700 ≤ clamped r)
      × (clamped r ≤ 32768)
      × (((clamped r ≡ 700) × (n < 704 * 704))
          ⊎ (((clamped r ≡ 32768) × (32768 * 32768 ≤ n))
              ⊎ ((clamped r % 8 ≡ 0)
                  × (clamped r * clamped r ≤ n)
                  × (n < (clamped r + 8) * (clamped r + 8)))))
unfolding clamped
clamped_root n r (lo, hi) = (omega arith, omega arith, side)
  where
    c : ℕ
    c = clamped r

    side :
        ((c ≡ 700) × (n < 704 * 704))
        ⊎ (((c ≡ 32768) × (32768 * 32768 ≤ n))
            ⊎ ((c % 8 ≡ 0) × (c * c ≤ n) × (n < (c + 8) * (c + 8))))
    side = elim (Bool-cases (ltb (r / 8 * 8) 700)) [
      | inl a ↦ inl (ground arith, omega (arith, hi, square_mono (r + 1) 704 (ground arith)))
      | inr a ↦ elim (Bool-cases (ltb (r / 8 * 8) 32768)) [
        | inl b ↦
            let e : c ≡ r / 8 * 8 = ground arith in
            inr (
              inr (
                ground arith,
                omega (arith, square_mono c r (omega arith)),
                omega (arith, square_mono (r + 1) (c + 8) (omega arith)),
              ))
        | inr b ↦ inr (inl (ground arith, omega (arith, square_mono 32768 r (ground arith))))
      ]
    ]

-- What the block size is of every file size: at least 700 and at most 32768, and it is 700 only for
-- a file below 704^2 bytes, 32768 only for one of at least 2^30 bytes, and otherwise the multiple
-- of 8 whose square is at most the file size while the next multiple's square is above it.
pub block_size_rounded :
    (n : ℕ)
    → (700 ≤ block_size n)
      × (block_size n ≤ 32768)
      × (((block_size n ≡ 700) × (n < 704 * 704))
          ⊎ (((block_size n ≡ 32768) × (32768 * 32768 ≤ n))
              ⊎ ((block_size n % 8 ≡ 0)
                  × (block_size n * block_size n ≤ n)
                  × (n < (block_size n + 8) * (block_size n + 8)))))
unfolding block_size clamped
block_size_rounded n = clamped_root n (isqrt n) (isqrt-floor n)
