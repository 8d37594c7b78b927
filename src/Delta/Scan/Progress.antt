-- ===== src/Delta/Scan/Progress.antt =====
-- src/delta/compute.rs, `scan_region`: what a round owes, and the rounds without a match.
use cp.Common.{ℕ, zero, suc, ◌+◌, ◌≤◌, ◌<◌, ◌≡◌, refl, sym, ap, ◌∙◌, inl, inr, arith}
use cp.Common.{Bytes, List, [], ◌∷◌, ◌++◌, append-nil, append_assoc, some, All}
use cp.Common.{Bool, true, false, ◌&&◌, ltb, leb, ◌==◌, Bool-cases, if◌then◌else◌, get_elem?}
use cp.Common.{length, drop, get_or}
use cp.Delta.Error.{DeltaError, Ends, literal_budget_exceeded}
use cp.Delta.Ops.{Delta, push_literal}
use cp.Delta.Ops.Output.{slice, output, Fits, output-push_literal, drop-add}
use cp.Delta.Ops.Bounds.{push_literal-Fits, push_literal-basis_size}
use cp.Delta.Scan.{scratch, Position, Scanned, Outcome, return, resume, miss}
use cp.Delta.Signature.{ChunkSignature}
use mathlib.Core.Option.{some-injective}
use mathlib.Core.List.{tail}

-- A chunk tells the truth about a basis: where it lies, and the digest of its bytes.
pub record Describes (hash : Bytes → Bytes) (basis : Bytes) (c : ChunkSignature) : Type 0 where
  pub inside : c.offset + c.len ≤ length basis
  pub digest : c.strong_hash ≡ hash (slice c.offset c.len basis)

-- No two byte strings with one digest: what the engine trusts BLAKE3 for.
abbrev pub CollisionFree : (Bytes → Bytes) → Type 0
CollisionFree hash = (a b : Bytes) → hash a ≡ hash b → a ≡ b

-- The chunk at an index is one of those that describe the basis.
pub All-get_elem? :
    (P : ChunkSignature → Type 0) (cs : List ChunkSignature) (m : ℕ) (c : ChunkSignature)
    → All P cs
    → get_elem? cs m ≡ some c
    → P c
All-get_elem? P [] m c h e = cc
All-get_elem? P (d ∷ cs) zero c (hd, h) e = rw (some-injective d c e) at hd
All-get_elem? P (d ∷ cs) (suc m) c (_, h) e = All-get_elem? P cs m c h e

head_tail : (rest : Bytes) → 0 < length rest → (get_or rest 0 0 ∷ []) ++ tail rest ≡ rest
head_tail [] h = absurd (omega arith)
head_tail (b ∷ rest) h = refl

tail-drop : (rest : Bytes) → tail rest ≡ drop 1 rest
tail-drop [] = refl
tail-drop (b ∷ rest) = refl

shorter_tail : (rest : Bytes) → 0 < length rest → length (tail rest) + 1 ≡ length rest
shorter_tail [] h = absurd (omega arith)
shorter_tail (b ∷ rest) h = omega arith

-- What a position owes: over the basis, its delta, its pending literals and what is left of the
-- region make up `whole`, and its counters tell how far it has come.
pub record Owes (basis : Bytes) (block : ℕ) (region whole : Bytes) (s : Position) : Type 0 where
  pub fits : Fits (length basis) s.delta.ops
  pub base : s.delta.basis_size ≡ length basis
  pub covers : output basis s.delta.ops ++ (s.lit ++ s.rest) ≡ whole
  pub place : s.rest ≡ drop s.q region
  pub counts : s.literal_bytes + s.matched ≡ s.q
  pub within : s.q + length s.rest ≡ length region
  pub window : block ≤ length s.rest

-- What a scanned region has paid.
pub record Paid (basis : Bytes) (block : ℕ) (region whole : Bytes) (r : Scanned) : Type 0 where
  pub fits : Fits (length basis) r.delta.ops
  pub base : r.delta.basis_size ≡ length basis
  pub covers : output basis r.delta.ops ++ (r.literal ++ drop r.consumed region) ≡ whole
  pub counts : r.literal_bytes + r.matched ≡ r.consumed
  pub progress : block ≤ r.consumed
  pub within : r.consumed ≤ length region

-- The one error of the scan, and only with more input than the budget allows.
abbrev pub OverBudget : ℕ → ℕ → DeltaError → Type 0
OverBudget max_literal size e = (e ≡ literal_budget_exceeded max_literal) × (max_literal < size)

abbrev pub Goes : Bytes → ℕ → Bytes → Bytes → ℕ → ℕ → Outcome → Type 0
Goes basis block region whole max_literal left (return r) =
    Ends (Paid basis block region whole) (OverBudget max_literal (length region)) r
Goes basis block region whole max_literal left (resume s) =
    Owes basis block region whole s × (length s.rest < left)

-- Flushing the scratch changes nothing of what the delta and the scratch stand for together.
output-spill :
    (b : Bool) (basis lit r : Bytes) (d : Delta)
    → output basis (if b then push_literal lit d else d).ops ++ ((if b then [] else lit) ++ r)
      ≡ output basis d.ops ++ (lit ++ r)
output-spill true basis lit r d =
    ap (λ (t : Bytes). t ++ r) (output-push_literal basis lit d)
    ∙ append_assoc (output basis d.ops) lit r
output-spill false basis lit r d = refl

spill-Fits :
    (b : Bool) (size : ℕ) (lit : Bytes) (d : Delta)
    → Fits size d.ops
    → Fits size (if b then push_literal lit d else d).ops
spill-Fits true size lit d f = push_literal-Fits size lit d f
spill-Fits false size lit d f = f

spill-basis_size :
    (b : Bool) (lit : Bytes) (d : Delta)
    → (if b then push_literal lit d else d).basis_size ≡ d.basis_size
spill-basis_size true lit d = push_literal-basis_size lit d
spill-basis_size false lit d = refl

drop-length : (xs : Bytes) → drop (length xs) xs ≡ []
drop-length [] = refl
drop-length (x ∷ xs) = drop-length xs

module _ (basis : Bytes) (block max_literal : ℕ) (region whole : Bytes) (s : Position)
    (o : Owes basis block region whole s) where
  -- The end of the region is a whole window of literals.
  finished :
      (b : Bool)
      → length s.rest ≡ block
      → Paid basis block region whole (record {
        consumed = s.q + length s.rest;
        literal = [];
        literal_bytes = s.literal_bytes + block;
        matched = s.matched;
        delta =
            push_literal
              ((if b then [] else s.lit) ++ s.rest)
              (if b then push_literal s.lit s.delta else s.delta);
      })
  finished b e =
      let d = if b then push_literal s.lit s.delta else s.delta in
      let kept : Bytes = if b then [] else s.lit in
      let used : drop (s.q + length s.rest) region ≡ [] =
        drop-add s.q (length s.rest) region
        ∙ ap (drop (length s.rest)) (sym o.place)
        ∙ drop-length s.rest in
      record {
        fits =
            push_literal-Fits (length basis) (kept ++ s.rest) d
              (spill-Fits b (length basis) s.lit s.delta o.fits);
        base =
            push_literal-basis_size (kept ++ s.rest) d ∙ spill-basis_size b s.lit s.delta ∙ o.base;
        covers =
            rw (used, append-nil)
              (output-push_literal basis (kept ++ s.rest) d
                ∙ output-spill b basis s.lit s.rest s.delta
                ∙ o.covers);
        counts = omega (arith, o.counts);
        progress = omega arith;
        within = omega (arith, o.within);
      }

  -- One byte on, and that byte is literal.
  rolled :
      (b : Bool) (st : ℕ)
      → block < length s.rest
      → let out = get_or s.rest 0 0 in
        let lit = s.lit ++ (out ∷ []) in
        Owes basis block region whole (record {
          q = s.q + 1;
          rest = tail s.rest;
          st = st;
          lit = if b then [] else lit;
          literal_bytes = s.literal_bytes + 1;
          matched = s.matched;
          delta = if b then push_literal lit s.delta else s.delta;
        })
  rolled b st h =
      let out = get_or s.rest 0 0 in
      let lit : Bytes = s.lit ++ (out ∷ []) in
      let shorter : length (tail s.rest) + 1 ≡ length s.rest = shorter_tail s.rest (omega arith) in
      record {
        fits = spill-Fits b (length basis) lit s.delta o.fits;
        base = spill-basis_size b lit s.delta ∙ o.base;
        covers =
            output-spill b basis lit (tail s.rest) s.delta
            ∙ ap (λ (t : Bytes). output basis s.delta.ops ++ t)
                (append_assoc s.lit (out ∷ []) (tail s.rest)
                  ∙ ap (λ (t : Bytes). s.lit ++ t) (head_tail s.rest (omega arith)))
            ∙ o.covers;
        place = tail-drop s.rest ∙ ap (drop 1) o.place ∙ sym (drop-add s.q 1 region);
        counts = omega (arith, o.counts);
        within = omega (arith, o.within);
        window = omega arith;
      }

  pub miss-Goes :
      block ≤ scratch
      → Goes basis block region whole max_literal (length s.rest) (miss block max_literal s)
  unfolding miss
  miss-Goes hs = elim (Bool-cases (leb (length s.rest) block)) [
    | inl end ↦
        let spill = ltb scratch (length s.lit + block) && ltb 0 (length s.lit) in
        let e : length s.rest ≡ block = ground (arith, o.window) in
        let room : ltb scratch (length {A = ℕ} (if spill then [] else s.lit) + block) ≡ false =
          ground arith in
        let exact : (length s.rest == block) ≡ true = ground arith in
        rw end (elim (Bool-cases (ltb max_literal (s.literal_bytes + block))) [
          | inl over ↦ rw (room, exact, over) (refl, ground (arith, o.counts, o.within))
          | inr fine ↦ rw (room, exact, fine) (finished spill e)
        ])
    | inr more ↦ elim (Bool-cases (ltb max_literal (s.literal_bytes + 1))) [
      | inl over ↦ rw (more, over) (refl, ground (arith, o.counts, o.within))
      | inr fine ↦
          rw (more, fine)
            (
              rolled (length (s.lit ++ (get_or s.rest 0 0 ∷ [])) == scratch) _ (ground arith),
              ground (arith, shorter_tail s.rest),
            )
    ]
  ]
