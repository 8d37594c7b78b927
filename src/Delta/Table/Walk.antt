-- ===== src/Delta/Table/Walk.antt =====
-- The walk of a bucket ends, down a chain whose indices are in range.
use cp.Common.{
  ℕ, zero, suc, ◌+◌, ◌<◌, ◌≡◌, ◌⊎◌, refl, inl, inr, Bytes, List, [], ◌∷◌, Option, none, some, ◌&&◌,
  ltb, ◌==◌, ==_iff, Bool-cases, length, get_elem?, bytes_eq, arith,
}
use cp.Delta.Error.{ok}
use cp.Delta.Signature.{ChunkSignature}
use cp.Delta.Table.{Array, u32_max, max_chain_len, weak_is, probe_loop, probe_bucket}
use cp.Delta.Table.Range.{Down}

get_elem?-inside :
    (cs : List ChunkSignature) (i : ℕ)
    → i < length cs
    → (c : ChunkSignature) × (get_elem? cs i ≡ some c)
get_elem?-inside [] i h = absurd (omega (arith, h))
get_elem?-inside (c ∷ cs) zero h = (c, refl)
get_elem?-inside (c ∷ cs) (suc i) h = get_elem?-inside cs i (omega (arith, h))

module _ (hash : Bytes → Bytes) (chunks : List ChunkSignature) (chain : Array) (down : Down chain)
    (sum k : ℕ) (window : Bytes) where
  -- The walk is at its end, or at a chunk with fuel for all the smaller ones.
  abbrev Walking : ℕ → ℕ → Type 0
  Walking fuel i = ((i ≡ u32_max) × (0 < fuel)) ⊎ ((i < length chunks) × (i + 1 < fuel))

  onward : (fuel i : ℕ) → i < length chunks → i + 1 < suc fuel → Walking fuel (chain i)
  onward fuel i inside enough = elim (down i) [
    | inl last ↦ inl (last, omega (arith, enough))
    | inr less ↦ inr (omega (arith, less, inside), omega (arith, less, enough))
  ]

  probe_loop_ends :
      (fuel i n : ℕ)
      → Walking fuel i
      → (o : Option ℕ) × (probe_loop hash fuel chunks i chain sum k window n ≡ ok o)
  unfolding probe_loop
  probe_loop_ends zero i n (inl (last, enough)) = absurd (omega (arith, enough))
  probe_loop_ends zero i n (inr (inside, enough)) = absurd (omega (arith, enough))
  probe_loop_ends (suc fuel) i n (inl (last, enough)) =
      let at_end = (==_iff i u32_max).1 last in rw (at_end, probe_loop) (none, refl)
  probe_loop_ends (suc fuel) i n (inr (inside, enough)) = elim (Bool-cases (i == u32_max)) [
    | inl last ↦ rw (last, probe_loop) (none, refl)
    | inr more ↦
        let (c, at) = get_elem?-inside chunks i inside in
        let next = onward fuel i inside enough in
        elim (Bool-cases (c.len == k && weak_is c.weak sum)) [
          | inr weak_miss ↦
              rw (more, at, weak_miss, probe_loop) (probe_loop_ends fuel (chain i) n next)
          | inl weak_hit ↦ elim (Bool-cases (ltb max_chain_len (n + 1))) [
            | inl long ↦ rw (more, at, weak_hit, long, probe_loop) (none, refl)
            | inr short ↦ elim (Bool-cases (bytes_eq (hash window) c.strong_hash)) [
              | inl same ↦ rw (more, at, weak_hit, short, same, probe_loop) (some i, refl)
              | inr other ↦
                  rw (more, at, weak_hit, short, other, probe_loop)
                    (probe_loop_ends fuel (chain i) (n + 1) next)
            ]
          ]
        ]
  ]

  pub probe_bucket_ends :
      (i : ℕ)
      → i < length chunks
      → (o : Option ℕ) × (probe_bucket hash chunks i chain sum k window ≡ ok o)
  unfolding probe_bucket
  probe_bucket_ends i inside = probe_loop_ends (i + 2) i 0 (inr (inside, omega arith))
