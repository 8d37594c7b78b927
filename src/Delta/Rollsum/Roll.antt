-- ===== src/Delta/Rollsum/Roll.antt =====
-- The packed rolling state.
use cp.Common.{ℕ, suc, ◌+◌, ◌*◌, ◌/◌, ◌%◌, ◌^◌, ◌<◌, bit_and, bit_or, ◌≡◌, refl, ap₂, ◌∙◌, arith}
use cp.Common.{Bytes, [], ◌∷◌, ◌++◌, length}
use cp.Common.Bits.{bit_or_shifted, bit_and_mask}
use cp.Common.Word.{wrapping_add, wrapping_sub, wrapping_mul, shl32, shl64, add-mul-mod}
use cp.Delta.Rollsum.{weak_init, weak_value, bucket_traditional}
use cp.Delta.Rollsum.{state_pack, state_value, state_bucket, state_roll}
use cp.Delta.Rollsum.Sums.{sum, weighted_sum, weak_init-sums, sum-append, weighted_sum-snoc}

state_pack-sum : (a b : ℕ) → a < 2 ^ 32 → b < 2 ^ 32 → state_pack a b ≡ a + b * 2 ^ 32
unfolding state_pack
state_pack-sum a b ha hb =
    let e : shl64 b 32 ≡ b * 2 ^ 32 = omega arith in rw e (bit_or_shifted 32 b a ha)

pub weak_value-sum : (a b : ℕ) → weak_value a b ≡ a % 2 ^ 16 + b % 2 ^ 16 * 2 ^ 16
unfolding weak_value
weak_value-sum a b =
    let e : shl32 b 16 ≡ b % 2 ^ 16 * 2 ^ 16 = omega arith in
    rw (e, bit_and_mask 16 a) (bit_or_shifted 16 (b % 2 ^ 16) (a % 2 ^ 16) (omega arith))

-- The two halves of a state, each below 2^32, survive packing: the probe value and the bucket read
-- from the packed state are those of the two halves.
state_pack-reads :
    (a b : ℕ)
    → a < 2 ^ 32
    → b < 2 ^ 32
    → (state_value (state_pack a b) ≡ weak_value a b)
      × (state_bucket (state_pack a b) ≡ bucket_traditional a b)
unfolding state_value state_bucket bucket_traditional
state_pack-reads a b ha hb = rw (state_pack-sum a b ha hb, weak_value-sum a b) (value, bucket)
  where
    st : ℕ
    st = a + b * 2 ^ 32

    value :
        bit_or (bit_and st 0xffff) (shl64 (st / 2 ^ 32) 16) % 2 ^ 32
        ≡ a % 2 ^ 16 + b % 2 ^ 16 * 2 ^ 16
    value =
        let e : shl64 (st / 2 ^ 32) 16 ≡ b * 2 ^ 16 = omega arith in
        let l : st % 2 ^ 16 ≡ a % 2 ^ 16 = omega arith in
        rw (bit_and_mask 16 st, e, l, bit_or_shifted 16 b (a % 2 ^ 16) (omega arith)) (omega arith)

    bucket : bit_and ((st + st / 2 ^ 32) % 2 ^ 64) 0xffff ≡ bit_and ((a + b) % 2 ^ 32) 0xffff
    bucket =
        rw (bit_and_mask 16 ((st + st / 2 ^ 32) % 2 ^ 64), bit_and_mask 16 ((a + b) % 2 ^ 32))
          (omega arith)

-- The rolled state from the two halves of the old one.
state_roll-halves :
    (a b k out inn : ℕ)
    → a < 2 ^ 32
    → b < 2 ^ 32
    → state_roll (state_pack a b) k out inn
      ≡ state_pack
          (wrapping_sub (wrapping_add a inn) out)
          (wrapping_sub (wrapping_add (wrapping_add b a) inn) (wrapping_mul (wrapping_add k 1) out))
unfolding state_roll
state_roll-halves a b k out inn ha hb =
    let st : ℕ = a + b * 2 ^ 32 in
    let lo : st % 2 ^ 32 ≡ a = omega arith in
    let hi : st / 2 ^ 32 % 2 ^ 32 ≡ b = omega arith in
    rw (state_pack-sum a b ha hb, lo, hi) (unfold state_pack in refl)

scaled_out : (k out : ℕ) → k % 2 ^ 32 * out % 2 ^ 32 ≡ k * out % 2 ^ 32
scaled_out k out = omega (arith, add-mul-mod 0 out k)

-- Rolling: the state of a window of `k` bytes, rolled by its first byte and the byte behind it, is
-- the state of the window one byte on, when the byte that leaves and the byte that enters are below
-- 256.
pub state_roll-slides :
    (out inn : ℕ) (w : Bytes)
    → out < 256
    → inn < 256
    → state_roll
        (state_pack (weak_init (out ∷ w)).0 (weak_init (out ∷ w)).1)
        (suc (length w))
        out
        inn
      ≡ state_pack (weak_init (w ++ (inn ∷ []))).0 (weak_init (w ++ (inn ∷ []))).1
state_roll-slides out inn w ho hi =
    let a : ℕ = (out + sum w) % 2 ^ 32 in
    let b : ℕ = (suc (length w) * out + weighted_sum w) % 2 ^ 32 in
    rw (weak_init-sums (out ∷ w), weak_init-sums (w ++ (inn ∷ [])))
      (state_roll-halves a b (suc (length w)) out inn (omega arith) (omega arith)
        ∙ ap₂ state_pack (omega (arith, sum-append w (inn ∷ [])))
            (omega (arith, weighted_sum-snoc w inn, scaled_out (suc (length w) + 1) out)))
