-- ===== src/Delta/Rollsum/Sums.antt =====
-- The unrolled checksum loops against the two sums of the file's header.
use cp.Common.{ℕ, suc, ◌+◌, ◌*◌, ◌%◌, ◌^◌, ◌<◌, ◌≡◌, ap, arith}
use cp.Common.{Bytes, [], ◌∷◌, ◌++◌, length, length-append, pair_path}
use cp.Common.Word.{wrapping_add, shl32, add-mul-mod}
use cp.Delta.Rollsum.{weak_tail, weak_quads, weak_init}

-- Σ x_i
abbrev pub sum : Bytes → ℕ
sum [] = 0
sum (x ∷ xs) = x + sum xs

-- Σ (n − i)·x_i: the first byte has weight n, the last has weight 1.
abbrev pub weighted_sum : Bytes → ℕ
weighted_sum [] = 0
weighted_sum (x ∷ xs) = suc (length xs) * x + weighted_sum xs

weak_tail-sums :
    (s1 s2 : ℕ) (w : Bytes)
    → s1 < 2 ^ 32
    → s2 < 2 ^ 32
    → weak_tail s1 s2 w ≡ ((s1 + sum w) % 2 ^ 32, (s2 + length w * s1 + weighted_sum w) % 2 ^ 32)
unfolding weak_tail
weak_tail-sums s1 s2 [] h1 h2 = pair_path (omega arith) (omega arith)
weak_tail-sums s1 s2 (b ∷ w) h1 h2 =
    let s1' : ℕ = wrapping_add s1 b in
    let ih = weak_tail-sums s1' (wrapping_add s2 s1') w (omega arith) (omega arith) in
    rw ih (
      pair_path (omega arith)
        (omega (arith, add-mul-mod (s2 + s1 + b + weighted_sum w) (length w) (s1 + b))))

weak_quads-sums :
    (s1 s2 : ℕ) (w : Bytes)
    → s1 < 2 ^ 32
    → s2 < 2 ^ 32
    → weak_quads s1 s2 w ≡ ((s1 + sum w) % 2 ^ 32, (s2 + length w * s1 + weighted_sum w) % 2 ^ 32)
unfolding weak_quads
weak_quads-sums s1 s2 [] h1 h2 = weak_tail-sums s1 s2 [] h1 h2
weak_quads-sums s1 s2 (a ∷ []) h1 h2 = weak_tail-sums s1 s2 _ h1 h2
weak_quads-sums s1 s2 (a ∷ b ∷ []) h1 h2 = weak_tail-sums s1 s2 _ h1 h2
weak_quads-sums s1 s2 (a ∷ b ∷ c ∷ []) h1 h2 = weak_tail-sums s1 s2 _ h1 h2
weak_quads-sums s1 s2 (a ∷ b ∷ c ∷ d ∷ w) h1 h2 =
    let s : ℕ = s1 + (a + b + c + d) in
    let s2' : ℕ =
      wrapping_add s2 (wrapping_add (shl32 (wrapping_add s1 a) 2) (3 * b + 2 * c + d)) in
    let ih = weak_quads-sums (s % 2 ^ 32) s2' w (omega arith) (omega arith) in
    rw ih (
      pair_path (omega arith) (
        omega (
          arith,
          add-mul-mod (s2 + 4 * s1 + 4 * a + 3 * b + 2 * c + d + weighted_sum w) (length w) s,
        )))

-- On every window, of any length and with any bytes, the unrolled loops leave the plain byte sum
-- and the position-weighted sum, each modulo 2^32.
pub weak_init-sums : (w : Bytes) → weak_init w ≡ (sum w % 2 ^ 32, weighted_sum w % 2 ^ 32)
unfolding weak_init
weak_init-sums w =
    rw (weak_quads-sums 0 0 w (omega arith) (omega arith)) (pair_path (omega arith) (omega arith))

pub sum-append : (xs ys : Bytes) → sum (xs ++ ys) ≡ sum xs + sum ys
sum-append [] ys = omega arith
sum-append (x ∷ xs) ys = omega (arith, sum-append xs ys)

-- One more byte behind the window raises each weight by one.
pub weighted_sum-snoc :
    (xs : Bytes) (y : ℕ) → weighted_sum (xs ++ (y ∷ [])) ≡ weighted_sum xs + sum xs + y
weighted_sum-snoc [] y = omega arith
weighted_sum-snoc (x ∷ xs) y =
    omega (arith, weighted_sum-snoc xs y, ap (λ (n : ℕ). n * x) (length-append xs (y ∷ [])))
