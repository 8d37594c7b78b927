-- ===== src/Delta/Scan/Sound.antt =====
-- The scan of a region: matches, rounds and the loop.
use cp.Common.{ℕ, zero, suc, ◌+◌, ◌^◌, ◌≤◌, ◌<◌, ◌≡◌, refl, sym, ap, ◌∙◌, inl, inr, arith}
use cp.Common.{Bytes, List, ◌++◌, append_assoc, Option, none, some, All}
use cp.Common.{false, not, ◌%◌, ◌||◌, ltb, ◌==◌, Bool-cases}
use cp.Common.{length, length-drop, take, drop, take-append-drop}
use cp.Common.Word.{u32, shr}
use cp.Common.{bit_and}
use cp.Delta.Error.{DeltaResult, ok, Ends}
use cp.Delta.Ops.{Delta, push_copy, push_literal}
use cp.Delta.Ops.Output.{slice, output, Fits, output-push_copy, output-push_literal, drop-add}
use cp.Delta.Ops.Bounds.{
  push_copy-Fits, push_literal-Fits, push_literal-basis_size, push_copy-basis_size,
}
use cp.Delta.Rollsum.{state_value, state_bucket}
use cp.Delta.Scan.{
  scratch, Position, Scanned, Outcome, return, resume, jump, found, probe, head_entry, round,
  scan_loop, scan_region,
}
use cp.Delta.Scan.Progress.{
  Describes, CollisionFree, All-get_elem?, Owes, Paid, OverBudget, Goes, miss-Goes,
}
use cp.Delta.Signature.{ChunkSignature}
use cp.Delta.Table.{Index, u64_max, scan_first}
use cp.Delta.Table.Probe.{Accepted, probe_bucket-Accepted}
use cp.Delta.Table.Range.{Valid, head-Entry, Entry-in_range}
use cp.Delta.Table.Walk.{probe_bucket_ends}

module _ (basis : Bytes) (small : length basis < 2 ^ 64) (block max_literal : ℕ)
    (region whole : Bytes) (s : Position) (o : Owes basis block region whole s) where
  module _ (c : ChunkSignature) (inside : c.offset + c.len ≤ length basis) (len : c.len ≡ block)
      (same : slice c.offset c.len basis ≡ take block s.rest) where
    jumped_covers :
        output basis (push_copy c.offset c.len (push_literal s.lit s.delta)).ops
          ++ drop block s.rest
        ≡ whole
    jumped_covers =
        let d = push_literal s.lit s.delta in
        ap (λ (t : Bytes). t ++ drop block s.rest)
          (output-push_copy basis (length basis) c.offset c.len d
              (push_literal-Fits (length basis) s.lit s.delta o.fits)
            ∙ ap (λ (t : Bytes). t ++ slice c.offset c.len basis)
                (output-push_literal basis s.lit s.delta)
            ∙ ap (λ (t : Bytes). (output basis s.delta.ops ++ s.lit) ++ t) same)
        ∙ append_assoc (output basis s.delta.ops ++ s.lit) (take block s.rest) (drop block s.rest)
        ∙ ap (λ (t : Bytes). (output basis s.delta.ops ++ s.lit) ++ t)
            (take-append-drop block s.rest)
        ∙ append_assoc (output basis s.delta.ops) s.lit s.rest
        ∙ o.covers

    jumped-Fits : Fits (length basis) (push_copy c.offset c.len (push_literal s.lit s.delta)).ops
    jumped-Fits =
        push_copy-Fits (length basis) c.offset c.len (push_literal s.lit s.delta) small inside
          (push_literal-Fits (length basis) s.lit s.delta o.fits)

    jumped_base : (push_copy c.offset c.len (push_literal s.lit s.delta)).basis_size ≡ length basis
    jumped_base =
        push_copy-basis_size c.offset c.len (push_literal s.lit s.delta)
        ∙ push_literal-basis_size s.lit s.delta
        ∙ o.base

    jumped_place : drop block s.rest ≡ drop (s.q + block) region
    jumped_place = ap (drop block) o.place ∙ sym (drop-add s.q block region)

    jump-Goes :
        0 < block
        → Goes basis block region whole max_literal (length s.rest) (jump block max_literal c s)
    unfolding jump
    jump-Goes positive = elim (Bool-cases (ltb (length (drop block s.rest)) block)) [
      | inl end ↦ rw end (record {
        fits = jumped-Fits;
        base = jumped_base;
        covers = rw (← jumped_place) jumped_covers;
        counts = omega (arith, o.counts);
        progress = omega arith;
        within = omega (arith, o.within, o.window);
      })
      | inr more ↦ rw more (
        record {
          fits = jumped-Fits;
          base = jumped_base;
          covers = jumped_covers;
          place = jumped_place;
          counts = omega (arith, o.counts);
          within = omega (arith, o.within, o.window, length-drop block s.rest);
          window = ground arith;
        },
        omega (arith, o.window, length-drop block s.rest),
      )
    ]

  module _ (hash : Bytes → Bytes) (free : CollisionFree hash) (chunks : List ChunkSignature)
      (described : All (Describes hash basis) chunks) (x : Index) (valid : Valid (length chunks) x)
      (positive : 0 < block) (fits : block ≤ scratch) where
    found-Goes :
        (m : Option ℕ)
        → ((i : ℕ) → m ≡ some i → Accepted hash chunks block (take block s.rest) i)
        → Goes basis block region whole max_literal
            (length s.rest)
            (found block max_literal hash chunks x (ok m) s)
    unfolding found
    found-Goes none h = miss-Goes basis block max_literal region whole s o fits
    found-Goes (some i) h =
        let a = h i refl in
        let d = All-get_elem? (Describes hash basis) chunks i a.chunk described a.at in
        rw (a.at, Goes)
          (jump-Goes a.chunk d.inside a.same_len (free _ _ (sym d.digest ∙ sym a.same_digest))
            positive)

    probe-Accepted :
        (e i : ℕ)
        → probe block max_literal hash chunks x e s ≡ ok (some i)
        → Accepted hash chunks block (take block s.rest) i
    unfolding probe
    probe-Accepted e i h =
        elim (Bool-cases (u32 e == state_value s.st || not (bit_and (shr e 48) 0xffff == 0xffff))) [
          | inl walk ↦
              probe_bucket-Accepted hash chunks x.chain (state_value s.st) block (take block s.rest)
                (scan_first e) i (rw walk at h)
          | inr skip ↦ let h' = rw skip at h in cc
        ]

    probe_ends :
        (e : ℕ)
        → scan_first e < length chunks
        → (m : Option ℕ) × (probe block max_literal hash chunks x e s ≡ ok m)
    unfolding probe
    probe_ends e inside =
        elim (Bool-cases (u32 e == state_value s.st || not (bit_and (shr e 48) 0xffff == 0xffff))) [
          | inl walk ↦ rw walk (
              probe_bucket_ends hash chunks x.chain valid.down (state_value s.st) block
                (take block s.rest) (scan_first e) inside)
          | inr skip ↦ rw skip (none, refl)
        ]

    head_entry-in_range :
        (head_entry block max_literal hash chunks x s.st == u64_max) ≡ false
        → scan_first (head_entry block max_literal hash chunks x s.st) < length chunks
    unfolding head_entry
    head_entry-in_range full =
        (Entry-in_range x.big (length chunks) (head_entry block max_literal hash chunks x s.st)
          (head-Entry (length chunks) (state_value s.st % x.tablesize) (state_bucket s.st) x valid)
          full).0

    round-Goes :
        Goes basis block region whole max_literal
          (length s.rest)
          (round block max_literal hash chunks x s)
    unfolding round
    round-Goes =
        let e = head_entry block max_literal hash chunks x s.st in
        elim (Bool-cases (e == u64_max)) [
          | inl empty ↦ rw empty (miss-Goes basis block max_literal region whole s o fits)
          | inr hit ↦
              let (m, ends) = probe_ends e (head_entry-in_range hit) in
              rw (hit, ends) (found-Goes m (λ i same. probe-Accepted e i (ends ∙ ap ok same)))
        ]

module _ (basis : Bytes) (small : length basis < 2 ^ 64) (block max_literal : ℕ)
    (region whole : Bytes) (hash : Bytes → Bytes) (free : CollisionFree hash)
    (chunks : List ChunkSignature) (described : All (Describes hash basis) chunks) (x : Index)
    (valid : Valid (length chunks) x) (positive : 0 < block) (fits : block ≤ scratch) where
  abbrev Stopped : DeltaResult Scanned → Type 0
  Stopped r = Ends (Paid basis block region whole) (OverBudget max_literal (length region)) r

  Stopped-after :
      (fuel left : ℕ) (out : Outcome)
      → Goes basis block region whole max_literal left out
      → ((s' : Position)
          → Owes basis block region whole s'
          → length s'.rest < left
          → Stopped (scan_loop block max_literal hash chunks x fuel s'))
      → Stopped (elim out [
        | return r ↦ r
        | resume s' ↦ scan_loop block max_literal hash chunks x fuel s'
      ])
  Stopped-after fuel left (return r) g ih = g
  Stopped-after fuel left (resume s') (o, h) ih = ih s' o h

  scan_loop-Stopped :
      (fuel : ℕ) (s : Position)
      → Owes basis block region whole s
      → length s.rest < fuel
      → Stopped (scan_loop block max_literal hash chunks x fuel s)
  unfolding scan_loop
  scan_loop-Stopped zero s o h = absurd (omega arith)
  scan_loop-Stopped (suc fuel) s o h =
      Stopped-after fuel (length s.rest) (round block max_literal hash chunks x s)
        (round-Goes basis small block max_literal region whole s o hash free chunks described x
          valid positive fits)
        (λ s' o' h'. scan_loop-Stopped fuel s' o' (omega arith))

-- Over a basis that its chunks describe, a scan of a region of a window at least ends, with a delta
-- and a literal rest that stand for the old delta and the region, or over the budget.
pub scan_region-Paid :
    (basis : Bytes) (hash : Bytes → Bytes) (block max_literal : ℕ) (chunks : List ChunkSignature)
    (x : Index) (region : Bytes) (d : Delta)
    → length basis < 2 ^ 64
    → CollisionFree hash
    → All (Describes hash basis) chunks
    → Valid (length chunks) x
    → 0 < block
    → block ≤ scratch
    → Fits (length basis) d.ops
    → d.basis_size ≡ length basis
    → block ≤ length region
    → Ends
        (Paid basis block region (output basis d.ops ++ region))
        (OverBudget max_literal (length region))
        (scan_region block max_literal hash chunks x region d)
unfolding scan_region
scan_region-Paid basis hash block max_literal chunks x region d small free described valid positive
      fits f base window =
    scan_loop-Stopped basis small block max_literal region (output basis d.ops ++ region) hash free
      chunks described x valid positive fits (length region + 1) _
      (record {
        fits = f;
        base = base;
        covers = refl;
        place = refl;
        counts = refl;
        within = omega arith;
        window = window;
      })
      (omega arith)
