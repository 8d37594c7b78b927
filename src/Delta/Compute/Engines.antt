-- ===== src/Delta/Compute/Engines.antt =====
-- src/delta/compute.rs, `compute_delta_rollsum` with its all-literal stream.
use cp.Common.{ℕ, zero, suc, ◌+◌, ◌^◌, ◌≤◌, ◌<◌, ◌≡◌, refl, sym, ap, ◌∙◌, inl, inr, arith}
use cp.Common.{Bytes, [], ◌∷◌, ◌++◌, append-nil, append_assoc, Option, some, All}
use cp.Common.{Bool, ltb, Bool-cases, Option-cases}
use cp.Common.{length, length-append}
use cp.Delta.Error.{DeltaResult, ok, Ends}
use cp.Delta.Ops.{Delta, push_literal}
use cp.Delta.Ops.Output.{output, Fits, output-push_literal}
use cp.Delta.Ops.Bounds.{push_literal-Fits, push_literal-basis_size}
use cp.Delta.Reader.{Reader, content, read, read_bound}
use cp.Delta.Reader.Stream.{Live, Took, read-Live}
use cp.Delta.Scan.{scratch}
use cp.Delta.Scan.Progress.{Describes, CollisionFree, OverBudget}
use cp.Delta.Compute.{
  rollsum_buf, feed, finalize, literal_loop, stream_all_literal, block_of, compute_delta_rollsum,
}
use cp.Delta.Compute.Sound.{fed_with, feed-fed_with}
use cp.Delta.Compute.Whole.{Rebuilds, rollsum_with-Rebuilds, new_hasher-fed_with}
use cp.Delta.Signature.{Signature}

-- What the all-literal stream owes to the source.
record Streamed (basis : Bytes) (verify : Bool) (whole : Bytes) (r : Reader) (hasher : Option Bytes)
    (literal_bytes : ℕ) (d : Delta) : Type 0 where
  pub fits : Fits (length basis) d.ops
  pub base : d.basis_size ≡ length basis
  pub covers : output basis d.ops ++ content r ≡ whole
  pub live : Live r
  pub done : Bytes
  pub hashed : hasher ≡ fed_with verify done
  pub split : done ++ content r ≡ whole
  pub sizes : literal_bytes + length (content r) ≡ length whole

module _ (hash : Bytes → Bytes) (buf_size max_literal : ℕ) (positive : 0 < buf_size) (basis : Bytes)
    (verify : Bool) (whole : Bytes) where
  streamed :
      (r : Reader) (hasher : Option Bytes) (literal_bytes : ℕ) (d : Delta) (bytes : Bytes)
      (r' : Reader)
      → Streamed basis verify whole r hasher literal_bytes d
      → Took r bytes r'
      → Streamed basis verify whole r'
          (feed hasher bytes)
          (literal_bytes + length bytes)
          (push_literal bytes d)
  streamed r hasher literal_bytes d bytes r' s t = record {
    fits = push_literal-Fits (length basis) bytes d s.fits;
    base = push_literal-basis_size bytes d ∙ s.base;
    covers =
        ap (λ (u : Bytes). u ++ content r') (output-push_literal basis bytes d)
        ∙ append_assoc (output basis d.ops) bytes (content r')
        ∙ ap (λ (u : Bytes). output basis d.ops ++ u) (sym t.split)
        ∙ s.covers;
    live = t.live;
    done = s.done ++ bytes;
    hashed = ap (λ (h : Option Bytes). feed h bytes) s.hashed ∙ feed-fed_with verify s.done bytes;
    split =
        append_assoc s.done bytes (content r')
        ∙ ap (λ (u : Bytes). s.done ++ u) (sym t.split)
        ∙ s.split;
    sizes =
        let e : length (content r) ≡ length bytes + length (content r') =
          ap (length {A = ℕ}) t.split ∙ length-append bytes (content r') in
        omega (arith, s.sizes, e);
  }

  ended :
      (r : Reader) (hasher : Option Bytes) (literal_bytes : ℕ) (d : Delta)
      → Streamed basis verify whole r hasher literal_bytes d
      → content r ≡ []
      → Rebuilds hash basis whole verify
          (record d { source_size = literal_bytes; checksum = finalize hash hasher })
  ended r hasher literal_bytes d s empty = record {
    fits = s.fits;
    base = s.base;
    covers =
        sym (append-nil (output basis d.ops))
        ∙ ap (λ (u : Bytes). output basis d.ops ++ u) (sym empty)
        ∙ s.covers;
    sized = let e : length (content r) ≡ 0 = ap (length {A = ℕ}) empty in omega (arith, s.sizes, e);
    checked = ap (finalize hash) (
        s.hashed
        ∙ ap (fed_with verify)
            (sym (append-nil s.done) ∙ ap (λ (u : Bytes). s.done ++ u) (sym empty) ∙ s.split));
  }

  abbrev EndsStreamed : DeltaResult Delta → Type 0
  EndsStreamed = Ends (Rebuilds hash basis whole verify) (OverBudget max_literal (length whole))

  nothing : (r : Reader) (r' : Reader) → Took r [] r' → content r ≡ []
  nothing r r' t = elim t.more [ inl p ↦ absurd (omega arith) | inr (_, e) ↦ e ]

  after_read :
      (fuel : ℕ) (r : Reader) (hasher : Option Bytes) (literal_bytes : ℕ) (d : Delta)
      (bytes : Bytes) (r' : Reader)
      → Streamed basis verify whole r hasher literal_bytes d
      → length (content r) < suc fuel
      → read buf_size r ≡ ok (bytes, r')
      → Took r bytes r'
      → ((r' : Reader) (hasher' : Option Bytes) (literal_bytes' : ℕ) (d' : Delta)
          → Streamed basis verify whole r' hasher' literal_bytes' d'
          → length (content r') < fuel
          → EndsStreamed (literal_loop hash buf_size max_literal fuel r' hasher' literal_bytes' d'))
      → EndsStreamed (literal_loop hash buf_size max_literal (suc fuel) r hasher literal_bytes d)
  unfolding literal_loop
  after_read fuel r hasher literal_bytes d [] r' s h e t ih =
      rw (e, literal_loop) (ended r hasher literal_bytes d s (nothing r r' t))
  after_read fuel r hasher literal_bytes d (b ∷ bytes) r' s h e t ih =
      let n : length (content r) ≡ length (b ∷ bytes) + length (content r') =
        ap (length {A = ℕ}) t.split ∙ length-append (b ∷ bytes) (content r') in
      elim (Bool-cases (ltb max_literal (literal_bytes + length (b ∷ bytes)))) [
        | inl much ↦ rw (e, literal_loop) (rw much (refl, ground (arith, s.sizes, n)))
        | inr fine ↦
            rw (e, literal_loop)
              (rw fine (
                ih r' _ _ _ (streamed r hasher literal_bytes d (b ∷ bytes) r' s t)
                  (omega (arith, n))))
      ]

  literal_loop-Rebuilds :
      (fuel : ℕ) (r : Reader) (hasher : Option Bytes) (literal_bytes : ℕ) (d : Delta)
      → Streamed basis verify whole r hasher literal_bytes d
      → length (content r) < fuel
      → EndsStreamed (literal_loop hash buf_size max_literal fuel r hasher literal_bytes d)
  literal_loop-Rebuilds zero r hasher literal_bytes d s h = absurd (omega arith)
  literal_loop-Rebuilds (suc fuel) r hasher literal_bytes d s h =
      let (bytes, r', e, t, _) = read-Live buf_size r positive s.live in
      after_read fuel r hasher literal_bytes d bytes r' s h e t (literal_loop-Rebuilds fuel)

-- The stream of literals, for a basis that is not looked at.
pub stream_all_literal-Rebuilds :
    (hash : Bytes → Bytes) (basis : Bytes) (source : Reader) (buf_size max_literal : ℕ)
    (verify : Bool)
    → 0 < buf_size
    → Live source
    → Ends
        (Rebuilds hash basis (content source) verify)
        (OverBudget max_literal (length (content source)))
        (stream_all_literal hash source buf_size (length basis) max_literal verify)
unfolding stream_all_literal
stream_all_literal-Rebuilds hash basis source buf_size max_literal verify positive live =
    literal_loop-Rebuilds hash buf_size max_literal positive basis verify (content source)
      (read_bound source) source _ 0 _
      (record {
        fits = tt;
        base = refl;
        covers = refl;
        live = live;
        done = [];
        hashed = new_hasher-fed_with verify;
        split = refl;
        sizes = omega arith;
      })
      (omega arith)

-- `compute_delta_rollsum` of a reader that does not fail, over chunks that describe the basis and a
-- digest without collisions, with weak sums or without, ends with a delta that rebuilds the source
-- and is within the basis, or with the literal budget's error, and then the source is longer than
-- the budget. It does not panic, when the block length that the chunks give is at most the scratch.
pub compute_delta_rollsum-Rebuilds :
    (basis : Bytes) (hash : Bytes → Bytes) (source : Reader) (signature : Signature)
    (max_literal : ℕ) (verify : Bool)
    → length basis < 2 ^ 64
    → CollisionFree hash
    → All (Describes hash basis) signature.chunks
    → signature.file_size ≡ length basis
    → ((k : ℕ) → block_of hash signature.chunks ≡ some k → (0 < k) × (k ≤ scratch))
    → Live source
    → Ends
        (Rebuilds hash basis (content source) verify)
        (OverBudget max_literal (length (content source)))
        (compute_delta_rollsum hash source signature max_literal verify)
unfolding compute_delta_rollsum
compute_delta_rollsum-Rebuilds basis hash source signature max_literal verify small free described
      sized fits live =
    elim (Option-cases (block_of hash signature.chunks)) [
      | inl e ↦
          rw (e, compute_delta_rollsum)
            (rw sized (
              stream_all_literal-Rebuilds hash basis source rollsum_buf max_literal verify
                (omega arith) live))
      | inr (k, e) ↦
          let (positive, h) = fits k e in
          rw (e, compute_delta_rollsum)
            (rollsum_with-Rebuilds basis hash k source signature max_literal verify small free
              described sized positive h live)
    ]
