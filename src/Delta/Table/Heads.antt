-- ===== src/Delta/Table/Heads.antt =====
-- The head entry of a bucket in big mode: what its two readers get of the index.
use cp.Common.{ℕ, ◌+◌, ◌*◌, ◌%◌, ◌^◌, ◌<◌, ◌≡◌, arith, true}
use cp.Common.Bits.{bit_and_mask, bit_or_shifted}
use cp.Common.Word.{u32, shr, shl64}
use cp.Common.{ap, ◌∙◌, bit_or}
use cp.Delta.Table.{head_big, scan_first, tail_first}

head_big-sum : (weak i : ℕ) → weak < 2 ^ 32 → i < 2 ^ 32 → head_big weak i ≡ weak + i * 2 ^ 32
unfolding head_big
head_big-sum weak i hw hi =
    let e : shl64 (u32 i) 32 ≡ i * 2 ^ 32 = omega arith in
    ap (bit_or weak) e ∙ bit_or_shifted 32 i weak hw

-- For a weak sum and a chunk index below 2^32, in big mode the probe of the tail reads the index of
-- a head entry back, and the scan reads the lowest 16 bits of it.
pub head_big-scan_first :
    (weak i : ℕ)
    → weak < 2 ^ 32
    → i < 2 ^ 32
    → (tail_first true (head_big weak i) ≡ i) × (scan_first (head_big weak i) ≡ i % 2 ^ 16)
unfolding scan_first tail_first
head_big-scan_first weak i hw hi =
    let at : shr (weak + i * 2 ^ 32) 32 ≡ i = omega arith in
    let small : u32 i ≡ i = omega arith in
    let e = head_big-sum weak i hw hi in
    (
      ap (λ (h : ℕ). u32 (shr h 32)) e ∙ ap u32 at ∙ small,
      ap scan_first e
          ∙ bit_and_mask 16 (shr (weak + i * 2 ^ 32) 32)
          ∙ ap (λ (n : ℕ). n % 2 ^ 16) at,
    )
