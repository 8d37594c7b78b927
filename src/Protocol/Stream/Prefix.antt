-- ===== src/Protocol/Stream/Prefix.antt =====
-- The length prefix: what is read back of it.
use cp.Common.{
  ℕ, zero, suc, ◌+◌, ◌*◌, ◌/◌, ◌%◌, ◌^◌, ◌<◌, ◌≡◌, refl, ap, ◌∙◌, arith, bit_and, bit_or,
}
use cp.Common.{Bytes, ◌++◌, true, length, take, drop, ◌==◌, take-length-append, drop-length-append}
use cp.Common.Bits.{bit_or_shifted, bit_and_mask, bit_and_single}
use cp.Protocol.Result.{ok}
use cp.Protocol.Stream.{
  max_len, chunk_flag, compressed_flag, to_le, from_le, to_be, from_be, frame_prefix, read_exact,
}

pub from_be-to_be : (v : ℕ) → v < 2 ^ 32 → from_be (to_be v) ≡ v
from_be-to_be v h = omega arith

two_fifty_six_pow-suc : (k : ℕ) → 256 ^ suc k ≡ 256 * 256 ^ k
two_fifty_six_pow-suc k = omega arith

pub from_le-to_le : (k v : ℕ) → v < 256 ^ k → from_le (to_le k v) ≡ v
from_le-to_le zero v h = omega arith
from_le-to_le (suc k) v h =
    let ih = from_le-to_le k (v / 256) (omega (arith, two_fifty_six_pow-suc k)) in omega (arith, ih)

pub length-to_le : (k v : ℕ) → length (to_le k v) ≡ k
length-to_le zero v = refl
length-to_le (suc k) v = omega (arith, length-to_le k (v / 256))

-- A prefix as a number: the flag is `q * 2^30`.
pub flagged :
    (len q : ℕ) → len < 2 ^ 30 → q < 4 → from_be (frame_prefix len (q * 2 ^ 30)) ≡ len + q * 2 ^ 30
unfolding frame_prefix
flagged len q h hq =
    let e : len % 2 ^ 32 ≡ len = omega arith in
    let o : bit_or (len % 2 ^ 32) (q * 2 ^ 30) ≡ len + q * 2 ^ 30 =
      ap (λ (n : ℕ). bit_or n (q * 2 ^ 30)) e ∙ bit_or_shifted 30 q len h in
    ap (λ (n : ℕ). from_be (to_be n)) o ∙ from_be-to_be (len + q * 2 ^ 30) (omega arith)

pub read_exact-append :
    (xs ys : Bytes) (n : ℕ) → length xs ≡ n → read_exact n (xs ++ ys) ≡ ok (xs, ys)
unfolding read_exact
read_exact-append xs ys n e =
    let t : take n (xs ++ ys) ≡ xs = rw (← e) (take-length-append xs ys) in
    let d : drop n (xs ++ ys) ≡ ys = rw (← e) (drop-length-append xs ys) in
    let same : (length (take n (xs ++ ys)) == n) ≡ true = rw t (ground (arith, e)) in
    rw (same, read_exact) (rw (t, d) refl)

pub length-frame_prefix : (len flag : ℕ) → length (frame_prefix len flag) ≡ 4
unfolding frame_prefix
length-frame_prefix len flag = refl

-- What the receiver reads of a prefix: the length, the raw flag and the compression flag.
pub masked : (len q : ℕ) → len < 2 ^ 30 → bit_and (len + q * 2 ^ 30) max_len ≡ len
masked len q h = bit_and_mask 30 (len + q * 2 ^ 30) ∙ omega arith

pub chunk_bit : (len q : ℕ) → len < 2 ^ 30 → bit_and (len + q * 2 ^ 30) chunk_flag ≡ q % 2 * 2 ^ 30
chunk_bit len q h = bit_and_single 30 (len + q * 2 ^ 30) ∙ omega arith

pub compressed_bit :
    (len q : ℕ) → len < 2 ^ 30 → bit_and (len + q * 2 ^ 30) compressed_flag ≡ q / 2 % 2 * 2 ^ 31
compressed_bit len q h = bit_and_single 31 (len + q * 2 ^ 30) ∙ omega arith
