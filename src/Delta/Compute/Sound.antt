-- ===== src/Delta/Compute/Sound.antt =====
-- The rolling-sum engine, `compute_delta_rollsum`: what its work stands for in every round.
use cp.Common.{ℕ, zero, suc, ◌+◌, ◌^◌, ◌≤◌, ◌<◌, ◌≡◌, refl, sym, ap, ◌∙◌, inl, inr, arith}
use cp.Common.{Bytes, List, [], ◌∷◌, ◌++◌, append_assoc, Option, none, some, All}
use cp.Common.{Bool, true, false, not, ◌&&◌, ltb, Bool-cases}
use cp.Common.{length, length-append, length-drop, drop}
use cp.Delta.Error.{Ends, then-Ends}
use cp.Delta.Ops.{push_literal}
use cp.Delta.Ops.Output.{output, Fits, output-push_literal}
use cp.Delta.Ops.Bounds.{push_literal-Fits, push_literal-basis_size}
use cp.Delta.Reader.{Reader, content}
use cp.Delta.Reader.Stream.{Live, Took, fill-Live}
use cp.Delta.Scan.{scratch, Scanned, scan_region, is_nil}
use cp.Delta.Scan.Progress.{Describes, CollisionFree, Paid, OverBudget}
use cp.Delta.Scan.Sound.{scan_region-Paid}
use cp.Delta.Compute.{rollsum_buf, Work, feed, refill, scan_buffered}
use cp.Delta.Signature.{ChunkSignature}
use cp.Delta.Table.{Index}
use cp.Delta.Table.Range.{Valid}

-- The bytes that a hasher was fed, when there is one.
abbrev pub fed_with : Bool → Bytes → Option Bytes
fed_with true bytes = some bytes
fed_with false bytes = none

pub feed-fed_with : (b : Bool) (x y : Bytes) → feed (fed_with b x) y ≡ fed_with b (x ++ y)
feed-fed_with true x y = refl
feed-fed_with false x y = refl

-- What the engine's work owes to the source: the delta over the basis, the pending literals, the
-- buffer and what is unread make up the source, all that was read was hashed, and sizes agree.
pub record Sane (basis : Bytes) (verify : Bool) (whole : Bytes) (w : Work) : Type 0 where
  pub fits : Fits (length basis) w.delta.ops
  pub base : w.delta.basis_size ≡ length basis
  pub covers : output basis w.delta.ops ++ (w.literal ++ (w.pending ++ content w.reader)) ≡ whole
  pub live : Live w.reader
  pub ended : w.eof ≡ true → content w.reader ≡ []
  pub done : Bytes
  pub hashed : w.hasher ≡ fed_with verify done
  pub split : done ++ content w.reader ≡ whole
  pub sizes : w.source_size + (length w.pending + length (content w.reader)) ≡ length whole
  pub literals : w.literal_bytes ≤ w.source_size

-- The loop is over: a window is there, or the end of the stream was seen.
abbrev pub Ready : Bytes → Bool → Bytes → ℕ → ℕ → Work → Type 0
Ready basis verify whole block size w =
    Sane basis verify whole w
    × ((ltb (length w.pending) block && not w.eof) ≡ false)
    × (w.source_size ≡ size)

is_nil-content :
    (r : Reader) (bytes : Bytes) (r' : Reader)
    → Took r bytes r'
    → is_nil bytes ≡ true
    → content r' ≡ []
is_nil-content r [] r' t e = elim t.more [
  | inl p ↦ absurd (omega arith)
  | inr (_, nothing) ↦ sym t.split ∙ nothing
]
is_nil-content r (b ∷ bytes) r' t e = cc

module _ (hash : Bytes → Bytes) (block : ℕ) (basis : Bytes) (verify : Bool) (whole : Bytes) where
  -- One refill of the buffer.
  refilled :
      (w : Work) (bytes : Bytes) (r : Reader)
      → Sane basis verify whole w
      → Took w.reader bytes r
      → Sane basis verify whole (record w {
        reader = r;
        pending = w.pending ++ bytes;
        eof = is_nil bytes;
        hasher = feed w.hasher bytes;
      })
  refilled w bytes r s t = record {
    fits = s.fits;
    base = s.base;
    covers =
        ap (λ (u : Bytes). output basis w.delta.ops ++ (w.literal ++ u))
          (append_assoc w.pending bytes (content r)
            ∙ ap (λ (u : Bytes). w.pending ++ u) (sym t.split))
        ∙ s.covers;
    live = t.live;
    ended = is_nil-content w.reader bytes r t;
    done = s.done ++ bytes;
    hashed = ap (λ (h : Option Bytes). feed h bytes) s.hashed ∙ feed-fed_with verify s.done bytes;
    split =
        append_assoc s.done bytes (content r)
        ∙ ap (λ (u : Bytes). s.done ++ u) (sym t.split)
        ∙ s.split;
    sizes =
        let e : length (content w.reader) ≡ length bytes + length (content r) =
          ap (length {A = ℕ}) t.split ∙ length-append bytes (content r) in
        omega (arith, s.sizes, e, length-append w.pending bytes);
    literals = s.literals;
  }

  grown :
      (fuel : ℕ) (pending bytes : Bytes)
      → (ltb (length (pending ++ bytes)) block && not (is_nil bytes)) ≡ true
      → block < suc fuel + length pending
      → block < fuel + length (pending ++ bytes)
  grown fuel pending [] again h = ground arith
  grown fuel pending (b ∷ bytes) again h = omega (arith, h, length-append pending (b ∷ bytes))

  pub refill-Ready :
      (fuel : ℕ) (w : Work)
      → Sane basis verify whole w
      → 0 < block
      → (ltb (length w.pending) block && not w.eof ≡ true → block < fuel + length w.pending)
      → Ends (Ready basis verify whole block w.source_size) (λ _. ⊥) (refill hash block fuel w)
  unfolding refill
  refill-Ready zero w s positive enough =
      elim (Bool-cases (ltb (length w.pending) block && not w.eof)) [
        | inl more ↦ absurd (ground (arith, enough more))
        | inr ready ↦ rw (ready, refill) (s, ready, refl)
      ]
  refill-Ready (suc fuel) w s positive enough =
      elim (Bool-cases (ltb (length w.pending) block && not w.eof)) [
        | inl more ↦
            let (bytes, r, e, t) =
              fill-Live rollsum_buf rollsum_buf w.reader (omega arith) (omega arith) s.live in
            rw (more, refill)
              (rw e (
                refill-Ready fuel _ (refilled w bytes r s t) positive
                  (λ again. grown fuel w.pending bytes again (enough more))))
        | inr ready ↦ rw (ready, refill) (s, ready, refl)
      ]

-- The work when its loop is over: the stream is at its end, and less than a window is left.
abbrev pub Over : Bytes → Bool → Bytes → ℕ → Work → Type 0
Over basis verify whole block w =
    Sane basis verify whole w × (length w.pending < block) × (content w.reader ≡ [])

module _ (basis : Bytes) (small : length basis < 2 ^ 64) (hash : Bytes → Bytes)
    (free : CollisionFree hash) (chunks : List ChunkSignature)
    (described : All (Describes hash basis) chunks) (x : Index) (valid : Valid (length chunks) x)
    (block : ℕ) (positive : 0 < block) (fits : block ≤ scratch) (max_literal : ℕ) (verify : Bool)
    (whole : Bytes) where
  scanned :
      (w : Work) (r : Scanned)
      → Sane basis verify whole w
      → Paid basis block w.pending
          (output basis (push_literal w.literal w.delta).ops ++ w.pending)
          r
      → Sane basis verify whole (record w {
        pending = drop r.consumed w.pending;
        literal = r.literal;
        literal_bytes = w.literal_bytes + r.literal_bytes;
        source_size = w.source_size + (r.matched + r.literal_bytes);
        delta = r.delta;
      })
  scanned w r s p = record {
    fits = p.fits;
    base = p.base;
    covers =
        let rest = content w.reader in
        ap (λ (u : Bytes). output basis r.delta.ops ++ u)
          (sym (append_assoc r.literal (drop r.consumed w.pending) rest))
        ∙ sym
            (append_assoc (output basis r.delta.ops) (r.literal ++ drop r.consumed w.pending) rest)
        ∙ ap (λ (u : Bytes). u ++ rest)
            (p.covers
              ∙ ap (λ (u : Bytes). u ++ w.pending) (output-push_literal basis w.literal w.delta))
        ∙ append_assoc (output basis w.delta.ops ++ w.literal) w.pending rest
        ∙ append_assoc (output basis w.delta.ops) w.literal (w.pending ++ rest)
        ∙ s.covers;
    live = s.live;
    ended = s.ended;
    done = s.done;
    hashed = s.hashed;
    split = s.split;
    sizes = omega (arith, s.sizes, p.counts, p.within, length-drop r.consumed w.pending);
    literals = omega (arith, s.literals);
  }

  pub scan_buffered-Sane :
      (w : Work)
      → Sane basis verify whole w
      → block ≤ length w.pending
      → Ends
          (λ w'. Sane basis verify whole w' × (w.source_size + block ≤ w'.source_size))
          (OverBudget max_literal (length whole))
          (scan_buffered hash block max_literal chunks x w)
  unfolding scan_buffered
  scan_buffered-Sane w s window =
      then-Ends
        (Paid basis block w.pending
          (output basis (push_literal w.literal w.delta).ops ++ w.pending))
        (λ w'. Sane basis verify whole w' × (w.source_size + block ≤ w'.source_size))
        (OverBudget max_literal (length w.pending)) (OverBudget max_literal (length whole)) _
        (scan_region block max_literal hash chunks x w.pending (push_literal w.literal w.delta))
        (λ e (same, h). (same, omega (arith, s.sizes)))
        (λ r p. (scanned w r s p, omega (arith, p.counts, p.progress)))
        (scan_region-Paid basis hash block max_literal chunks x w.pending
          (push_literal w.literal w.delta) small free described valid positive fits
          (push_literal-Fits (length basis) w.literal w.delta s.fits)
          (push_literal-basis_size w.literal w.delta ∙ s.base) window)
