-- ===== src/Delta/Compute/Offline.antt =====
-- `compute_delta_from_signatures`: chunks of the source against the chunks of the basis.
use cp.Common.{ℕ, zero, suc, ◌+◌, ◌^◌, ◌≤◌, ◌<◌, ◌≡◌, refl, sym, ap, ◌∙◌, ap₂, inl, inr, arith}
use cp.Common.{Bytes, List, [], ◌∷◌, ◌++◌, none, some, All}
use cp.Common.{true, false, suc==zero, ltb, ◌==◌, Bool-cases, Option-cases, bytes_eq, bytes_eq_iff}
use cp.Common.{length, length-take, length-drop, take, drop}
use cp.Delta.Error.{Ends, then-Ends}
use cp.Delta.Ops.{Delta, push_copy, push_literal}
use cp.Delta.Ops.Output.{slice, output, Fits, output-push_copy, output-push_literal, take-add}
use cp.Delta.Ops.Bounds.{
  push_copy-Fits, push_literal-Fits, push_literal-basis_size, push_copy-basis_size,
}
use cp.Delta.Scan.Progress.{Describes, CollisionFree, OverBudget}
use cp.Delta.Compute.{match_chunks, compute_delta_from_signatures}
use cp.Delta.Compute.Whole.{Rebuilds}
use cp.Delta.Signature.{ChunkSignature, Signature, from_signature, find}
use cp.Delta.Signature.Lookup.{first_with, find-from_signature}
use mathlib.Core.Option.{some-injective}

-- Chunks that cover a source from a position on, each with the digest of its bytes.
abbrev pub Tiles : (Bytes → Bytes) → Bytes → ℕ → List ChunkSignature → Type 0
Tiles hash source at [] = at ≡ length source
Tiles hash source at (c ∷ cs) =
    (c.offset ≡ at)
    × (at + c.len ≤ length source)
    × (c.strong_hash ≡ hash (slice at c.len source))
    × Tiles hash source (at + c.len) cs

first_with-Describes :
    (hash : Bytes → Bytes) (basis h : Bytes) (cs : List ChunkSignature) (c : ChunkSignature)
    → All (Describes hash basis) cs
    → first_with h cs ≡ some c
    → Describes hash basis c × (c.strong_hash ≡ h)
unfolding first_with
first_with-Describes hash basis h [] c described e = cc
first_with-Describes hash basis h (d ∷ cs) c (hd, described) e =
    elim (Bool-cases (bytes_eq d.strong_hash h)) [
      | inl same ↦
          let here : d ≡ c = some-injective d c (rw (same, first_with) at e) in
          (
            rw here at hd,
            ap (λ (x : ChunkSignature). x.strong_hash) (sym here)
                ∙ (bytes_eq_iff d.strong_hash h).0 same,
          )
      | inr other ↦ first_with-Describes hash basis h cs c described (rw (other, first_with) at e)
    ]

-- The chunk that the table gives for a source chunk has the same bytes in the basis.
found_same :
    (hash : Bytes → Bytes) (basis window : Bytes) (c sig : ChunkSignature) (s : Signature)
    → CollisionFree hash
    → All (Describes hash basis) s.chunks
    → c.strong_hash ≡ hash window
    → find c.strong_hash (from_signature s) ≡ some sig
    → (sig.offset + sig.len ≤ length basis) × (slice sig.offset sig.len basis ≡ window)
found_same hash basis window c sig s free described same e =
    let (d, h) =
      first_with-Describes hash basis c.strong_hash s.chunks sig described
        (sym (find-from_signature c.strong_hash s) ∙ e) in
    (d.inside, free _ _ (sym d.digest ∙ h ∙ same))

-- What the walk over the source's chunks has, up to a position.
push_copy-checksum : (offset len : ℕ) (d : Delta) → (push_copy offset len d).checksum ≡ d.checksum
unfolding push_copy
push_copy-checksum offset zero d = refl
push_copy-checksum offset (suc len) d = rw (suc==zero len)

push_literal-checksum : (bytes : Bytes) (d : Delta) → (push_literal bytes d).checksum ≡ d.checksum
unfolding push_literal
push_literal-checksum [] d = refl
push_literal-checksum (b ∷ bytes) d = refl

take-length : (xs : Bytes) → take (length xs) xs ≡ xs
take-length [] = refl
take-length (x ∷ xs) = ap (λ (t : Bytes). x ∷ t) (take-length xs)

record Walked (basis source : Bytes) (at : ℕ) (d : Delta) : Type 0 where
  pub fits : Fits (length basis) d.ops
  pub base : d.basis_size ≡ length basis
  pub covers : output basis d.ops ≡ take at source
  pub unchecked : d.checksum ≡ none

module _ (basis source : Bytes) (small : length basis < 2 ^ 64) (at : ℕ) (d : Delta)
    (w : Walked basis source at d) where
  walk_copy :
      (offset len : ℕ) (n : ℕ)
      → offset + len ≤ length basis
      → slice offset len basis ≡ slice at n source
      → Walked basis source (at + n) (push_copy offset len d)
  walk_copy offset len n inside same = record {
    fits = push_copy-Fits (length basis) offset len d small inside w.fits;
    base = push_copy-basis_size offset len d ∙ w.base;
    covers =
        output-push_copy basis (length basis) offset len d w.fits
        ∙ ap₂ (λ (a b : Bytes). a ++ b) w.covers same
        ∙ sym (take-add at n source);
    unchecked = push_copy-checksum offset len d ∙ w.unchecked;
  }

  walk_literal : (n : ℕ) → Walked basis source (at + n) (push_literal (slice at n source) d)
  walk_literal n = record {
    fits = push_literal-Fits (length basis) (slice at n source) d w.fits;
    base = push_literal-basis_size (slice at n source) d ∙ w.base;
    covers =
        output-push_literal basis (slice at n source) d
        ∙ ap (λ (a : Bytes). a ++ slice at n source) w.covers
        ∙ sym (take-add at n source);
    unchecked = push_literal-checksum (slice at n source) d ∙ w.unchecked;
  }

module _ (hash : Bytes → Bytes) (free : CollisionFree hash) (basis source : Bytes)
    (small : length basis < 2 ^ 64) (s : Signature)
    (described : All (Describes hash basis) s.chunks) (max_literal : ℕ) where
  match_chunks-Walked :
      (cs : List ChunkSignature) (at literal_bytes : ℕ) (d : Delta)
      → Walked basis source at d
      → Tiles hash source at cs
      → literal_bytes ≤ at
      → Ends
          (Walked basis source (length source))
          (OverBudget max_literal (length source))
          (match_chunks max_literal source (from_signature s) cs literal_bytes d)
  unfolding match_chunks
  match_chunks-Walked [] at literal_bytes d w end h = rw end at w
  match_chunks-Walked (c ∷ cs) at literal_bytes d w (here, inside, same, tiles) h =
      elim (Option-cases (find c.strong_hash (from_signature s))) [
        | inr (sig, e) ↦
            let (in_basis, bytes) =
              found_same hash basis (slice at c.len source) c sig s free described same e in
            rw (e, match_chunks)
              (match_chunks-Walked cs (at + c.len) literal_bytes _
                (walk_copy basis source small at d w sig.offset sig.len c.len in_basis bytes) tiles
                (omega arith))
        | inl e ↦ elim (Bool-cases (ltb max_literal (literal_bytes + c.len))) [
          | inl much ↦ rw (e, match_chunks) (rw much (refl, ground arith))
          | inr fine ↦
              let n : (length (slice c.offset c.len source) == c.len) ≡ true =
                rw here
                  (ground (arith, length-take c.len (drop at source), length-drop at source)) in
              rw (e, match_chunks)
                (rw (fine, n)
                  (rw here (
                    match_chunks-Walked cs (at + c.len) (literal_bytes + c.len) _
                      (walk_literal basis source small at d w c.len) tiles (omega arith))))
        ]
      ]

-- `compute_delta_from_signatures`, when the chunks of the basis describe it, those of the source
-- cover it in order and no two byte strings have one digest, ends with a delta that rebuilds the
-- source, or with the literal budget's error, and then the source is longer than the budget.
pub compute_delta_from_signatures-Rebuilds :
    (hash : Bytes → Bytes) (basis source : Bytes) (s source_sig : Signature) (max_literal : ℕ)
    → length basis < 2 ^ 64
    → CollisionFree hash
    → All (Describes hash basis) s.chunks
    → s.file_size ≡ length basis
    → Tiles hash source 0 source_sig.chunks
    → source_sig.file_size ≡ length source
    → Ends
        (Rebuilds hash basis source false)
        (OverBudget max_literal (length source))
        (compute_delta_from_signatures source s source_sig max_literal)
unfolding compute_delta_from_signatures
compute_delta_from_signatures-Rebuilds hash basis source s source_sig max_literal small free
      described sized tiles source_sized =
    then-Ends (Walked basis source (length source)) (Rebuilds hash basis source false)
      (OverBudget max_literal (length source)) (OverBudget max_literal (length source)) _
      (match_chunks max_literal source (from_signature s) source_sig.chunks 0 _) (λ e h. h)
      (λ d w. record {
        fits = w.fits;
        base = w.base;
        covers = w.covers ∙ take-length source;
        sized = source_sized;
        checked = w.unchecked;
      })
      (match_chunks-Walked hash free basis source small s described max_literal source_sig.chunks 0
        0 _ (record { fits = tt; base = sized; covers = refl; unchecked = refl }) tiles
        (omega arith))
