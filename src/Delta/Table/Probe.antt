-- ===== src/Delta/Table/Probe.antt =====
-- The walk of a bucket: what it accepts.
use cp.Common.{ℕ, zero, suc, ◌+◌, ◌≡◌, Bytes, List, some, arith, inl, inr}
use cp.Common.{◌&&◌, ltb, ◌==◌, Bool-cases, Option-cases, get_elem?, bytes_eq, bytes_eq_iff}
use cp.Common.{Option}
use cp.Delta.Error.{DeltaResult, ok}
use cp.Delta.Signature.{ChunkSignature}
use cp.Delta.Table.{Array, u32_max, max_chain_len, weak_is, probe_loop, probe_bucket}

-- An accepted chunk has the window's length, and its digest is the window's.
pub record Accepted (hash : Bytes → Bytes) (chunks : List ChunkSignature) (k : ℕ) (window : Bytes)
    (m : ℕ) : Type 0 where
  pub chunk : ChunkSignature
  pub at : get_elem? chunks m ≡ some chunk
  pub same_len : chunk.len ≡ k
  pub same_digest : hash window ≡ chunk.strong_hash

module _ (hash : Bytes → Bytes) (chunks : List ChunkSignature) (chain : Array) (sum k : ℕ)
    (window : Bytes) where
  probe_loop-Accepted :
      (fuel i n m : ℕ)
      → probe_loop hash fuel chunks i chain sum k window n ≡ ok (some m)
      → Accepted hash chunks k window m
  unfolding probe_loop
  probe_loop-Accepted zero i n m e = cc
  probe_loop-Accepted (suc fuel) i n m e = elim (Bool-cases (i == u32_max)) [
    | inl last ↦ let e' = rw (last, probe_loop) at e in cc
    | inr more ↦ elim (Option-cases (get_elem? chunks i)) [
      | inl out ↦ let e' = rw (more, out, probe_loop) at e in cc
      | inr (c, at) ↦ elim (Bool-cases (c.len == k && weak_is c.weak sum)) [
        | inr weak_miss ↦
            probe_loop-Accepted fuel (chain i) n m (rw (more, at, weak_miss, probe_loop) at e)
        | inl weak_hit ↦ elim (Bool-cases (ltb max_chain_len (n + 1))) [
          | inl long ↦ let e' = rw (more, at, weak_hit, long, probe_loop) at e in cc
          | inr short ↦ elim (Bool-cases (bytes_eq (hash window) c.strong_hash)) [
            | inr other ↦
                probe_loop-Accepted fuel (chain i) (n + 1) m
                  (rw (more, at, weak_hit, short, other, probe_loop) at e)
            | inl same ↦
                let e' : ◌≡◌ {A = DeltaResult (Option ℕ)} (ok (some i)) (ok (some m)) =
                  rw (more, at, weak_hit, short, same, probe_loop) at e in
                let here : i ≡ m = cc e' in
                record {
                  chunk = c;
                  at = rw (← here) at;
                  same_len = ground arith;
                  same_digest = (bytes_eq_iff (hash window) c.strong_hash).0 same;
                }
          ]
        ]
      ]
    ]
  ]

  pub probe_bucket-Accepted :
      (i m : ℕ)
      → probe_bucket hash chunks i chain sum k window ≡ ok (some m)
      → Accepted hash chunks k window m
  unfolding probe_bucket
  probe_bucket-Accepted i m e = probe_loop-Accepted (i + 2) i 0 m e
