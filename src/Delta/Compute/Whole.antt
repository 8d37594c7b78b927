-- ===== src/Delta/Compute/Whole.antt =====
-- The rolling-sum engine as a whole: its main loop, its tail and its result.
use cp.Common.{ℕ, zero, suc, ◌+◌, ◌^◌, ◌≤◌, ◌<◌, ◌≡◌, refl, sym, ap, ◌∙◌, ap₂, inl, inr, arith}
use cp.Common.{Bytes, List, [], ◌++◌, append-nil, append_assoc, Option, none, some, All}
use cp.Common.{Bool, true, false, not, ◌%◌, ◌&&◌, ltb, ◌==◌, Bool-cases, if◌then◌else◌}
use cp.Common.{length}
use cp.Delta.Error.{DeltaResult, ok, Ends, then-Ends, match-Ends}
use cp.Delta.Ops.{Delta, new, push_copy, push_literal}
use cp.Delta.Ops.Output.{output, Fits, output-push_copy, output-push_literal}
use cp.Delta.Ops.Bounds.{
  push_copy-Fits, push_literal-Fits, push_literal-basis_size, push_copy-basis_size,
}
use cp.Delta.Reader.{Reader, content}
use cp.Delta.Reader.Stream.{Live}
use cp.Delta.Rollsum.{weak_init, weak_value, bucket_traditional}
use cp.Delta.Scan.{scratch}
use cp.Delta.Scan.Progress.{Describes, CollisionFree, All-get_elem?, OverBudget}
use cp.Delta.Compute.{
  Work, new_hasher, refill, scan_buffered, main_loop, last_len, tail_match, literal_tail,
  copied_tail, finish_tail, finalize, with_totals, rollsum_with,
}
use cp.Delta.Compute.Sound.{fed_with, Sane, Over, Ready, refill-Ready, scan_buffered-Sane}
use cp.Delta.Signature.{ChunkSignature, Signature}
use cp.Delta.Table.{Index, build_index, u64_max, tail_first}
use cp.Delta.Table.Probe.{Accepted, probe_bucket-Accepted}
use cp.Delta.Table.Range.{Valid, build_index-Valid, head-Entry, Entry-in_range}
use cp.Delta.Table.Walk.{probe_bucket_ends}

-- What a computed delta promises: over the basis it stands for the source, its copies lie within
-- the basis, and its sizes and its checksum are those of the basis and the source.
pub record Rebuilds (hash : Bytes → Bytes) (basis source : Bytes) (verify : Bool) (d : Delta)
    : Type 0 where
  pub fits : Fits (length basis) d.ops
  pub base : d.basis_size ≡ length basis
  pub covers : output basis d.ops ≡ source
  pub sized : d.source_size ≡ length source
  pub checked : d.checksum ≡ finalize hash (fed_with verify source)

module _ (basis : Bytes) (small : length basis < 2 ^ 64) (hash : Bytes → Bytes)
    (free : CollisionFree hash) (chunks : List ChunkSignature)
    (described : All (Describes hash basis) chunks) (x : Index) (valid : Valid (length chunks) x)
    (block : ℕ) (positive : 0 < block) (max_literal : ℕ) (verify : Bool) (whole : Bytes) where
  over :
      (size : ℕ) (w : Work)
      → Ready basis verify whole block size w
      → ltb (length w.pending) block ≡ true
      → Over basis verify whole block w
  over size w (s, ready, same) short = elim (Bool-cases w.eof) [
    | inl e ↦ (s, ground arith, s.ended e)
    | inr e ↦ absurd (ground arith)
  ]

  main_loop-Over :
      (fuel : ℕ) (w : Work)
      → block ≤ scratch
      → Sane basis verify whole w
      → length whole < w.source_size + fuel
      → Ends
          (Over basis verify whole block)
          (OverBudget max_literal (length whole))
          (main_loop hash block max_literal chunks x fuel w)
  unfolding main_loop
  main_loop-Over zero w fits s enough = absurd (omega (arith, s.sizes, enough))
  main_loop-Over (suc fuel) w fits s enough =
      match-Ends (Ready basis verify whole block w.source_size) (Over basis verify whole block)
        (λ _. ⊥) (OverBudget max_literal (length whole)) _ (refill hash block (block + 1) w)
        (λ e h. absurd h)
        (λ w' (s', ready, same). elim (Bool-cases (ltb (length w'.pending) block)) [
          | inl short ↦ rw short (over w.source_size w' (s', ready, same) short)
          | inr window ↦ rw window (
              match-Ends
                (λ w''. Sane basis verify whole w'' × (w'.source_size + block ≤ w''.source_size))
                (Over basis verify whole block) (OverBudget max_literal (length whole))
                (OverBudget max_literal (length whole))
                (main_loop hash block max_literal chunks x fuel)
                (scan_buffered hash block max_literal chunks x w') (λ e h. h)
                (λ w'' (s'', h''). main_loop-Over fuel w'' fits s'' (omega (arith, h'', same)))
                (scan_buffered-Sane basis small hash free chunks described x valid block positive
                  fits max_literal verify whole w' s' (ground arith)))
        ])
        (refill-Ready hash block basis verify whole (block + 1) w s positive (λ _. omega arith))

  -- The delta of the end of the work, when it has taken up the pending bytes.
  rebuilt :
      (w : Work) (size : ℕ) (d : Delta)
      → Over basis verify whole block w
      → size ≡ w.source_size + length w.pending
      → Fits (length basis) d.ops
      → d.basis_size ≡ length basis
      → output basis d.ops ≡ output basis w.delta.ops ++ (w.literal ++ w.pending)
      → Rebuilds hash basis whole verify
          (record d { source_size = size; checksum = finalize hash w.hasher })
  rebuilt w size d (s, short, empty) counted f base out = record {
    fits = f;
    base = base;
    covers =
        out
        ∙ ap (λ (u : Bytes). output basis w.delta.ops ++ (w.literal ++ u))
            (sym (append-nil w.pending) ∙ ap (λ (u : Bytes). w.pending ++ u) (sym empty))
        ∙ s.covers;
    sized =
        let e : length (content w.reader) ≡ 0 = ap (length {A = ℕ}) empty in
        omega (arith, s.sizes, e);
    checked = ap (finalize hash) (
        s.hashed
        ∙ ap (fed_with verify)
            (sym (append-nil s.done) ∙ ap (λ (u : Bytes). s.done ++ u) (sym empty) ∙ s.split));
  }

  abbrev EndsRebuilt : DeltaResult Work → Type 0
  EndsRebuilt r =
      Ends (λ w. Rebuilds hash basis whole verify (with_totals hash w))
        (OverBudget max_literal (length whole)) r

  literal_end :
      (w : Work)
      → Over basis verify whole block w
      → EndsRebuilt (literal_tail hash block max_literal chunks x w)
  unfolding literal_tail
  literal_end w (s, short, empty) =
      elim (Bool-cases (ltb max_literal (w.literal_bytes + length w.pending))) [
        | inl much ↦ rw much (refl, ground (arith, s.sizes, s.literals))
        | inr fine ↦ rw fine (
            rebuilt w (w.source_size + length w.pending)
              (push_literal (w.literal ++ w.pending) w.delta) (s, short, empty) refl
              (push_literal-Fits (length basis) (w.literal ++ w.pending) w.delta s.fits)
              (push_literal-basis_size (w.literal ++ w.pending) w.delta ∙ s.base)
              (output-push_literal basis (w.literal ++ w.pending) w.delta))
      ]

  copied_end :
      (w : Work) (c : ChunkSignature)
      → Over basis verify whole block w
      → Describes hash basis c
      → c.len ≡ length w.pending
      → hash w.pending ≡ c.strong_hash
      → Rebuilds hash basis whole verify
          (with_totals hash (copied_tail hash block max_literal chunks x c w))
  unfolding copied_tail
  copied_end w c (s, short, empty) d same_len same_digest =
      let flushed = push_literal w.literal w.delta in
      let f = push_literal-Fits (length basis) w.literal w.delta s.fits in
      rebuilt w (w.source_size + c.len) (push_copy c.offset c.len flushed) (s, short, empty)
        (omega (arith, same_len))
        (push_copy-Fits (length basis) c.offset c.len flushed small d.inside f)
        (push_copy-basis_size c.offset c.len flushed
          ∙ push_literal-basis_size w.literal w.delta
          ∙ s.base)
        (output-push_copy basis (length basis) c.offset c.len flushed f
          ∙ ap₂ (λ (a b : Bytes). a ++ b) (output-push_literal basis w.literal w.delta)
              (free _ _ (sym d.digest ∙ sym same_digest))
          ∙ append_assoc (output basis w.delta.ops) w.literal w.pending)

  finish_tail-EndsRebuilt :
      (m : Option ℕ) (w : Work)
      → Over basis verify whole block w
      → ((i : ℕ) → m ≡ some i → Accepted hash chunks (length w.pending) w.pending i)
      → EndsRebuilt (finish_tail hash block max_literal chunks x m w)
  unfolding finish_tail
  finish_tail-EndsRebuilt none w o h = literal_end w o
  finish_tail-EndsRebuilt (some i) w o h =
      let a = h i refl in
      let d = All-get_elem? (Describes hash basis) chunks i a.chunk described a.at in
      rw (a.at, finish_tail) (copied_end w a.chunk o d a.same_len a.same_digest)

  tail_match-Accepted :
      (tail : Bytes) (i : ℕ)
      → tail_match hash block max_literal chunks x tail ≡ ok (some i)
      → Accepted hash chunks (length tail) tail i
  unfolding tail_match
  tail_match-Accepted tail i h =
      let (a, b) = weak_init tail in
      let sum = weak_value a b in
      let e =
        if x.big then x.head_vec (sum % x.tablesize) else x.head_arr (bucket_traditional a b) in
      let k = last_len hash block max_literal chunks x chunks in
      elim (Bool-cases (length tail == k && ltb 0 k && not (e == u64_max))) [
        | inl walk ↦
            let same : k ≡ length tail = ground arith in
            rw same at (
              probe_bucket-Accepted hash chunks x.chain sum k tail (tail_first x.big e) i
                (rw walk at h))
        | inr skip ↦ let h' = rw skip at h in cc
      ]

  tail_match_ends :
      (tail : Bytes) → (m : Option ℕ) × (tail_match hash block max_literal chunks x tail ≡ ok m)
  unfolding tail_match
  tail_match_ends tail =
      let (a, b) = weak_init tail in
      let sum = weak_value a b in
      let slot = sum % x.tablesize in
      let bucket = bucket_traditional a b in
      let e = if x.big then x.head_vec slot else x.head_arr bucket in
      let k = last_len hash block max_literal chunks x chunks in
      elim (Bool-cases (length tail == k && ltb 0 k && not (e == u64_max))) [
        | inr skip ↦ rw skip (none, refl)
        | inl walk ↦
            let full : (e == u64_max) ≡ false = ground arith in
            let entry = head-Entry (length chunks) slot bucket x valid in
            rw walk (
              probe_bucket_ends hash chunks x.chain valid.down sum k tail (tail_first x.big e)
                (Entry-in_range x.big (length chunks) e entry full).1)
      ]

pub new_hasher-fed_with : (b : Bool) → new_hasher b ≡ fed_with b []
new_hasher-fed_with true = refl
new_hasher-fed_with false = refl

begun :
    (basis : Bytes) (source : Reader) (verify : Bool) (file_size : ℕ)
    → file_size ≡ length basis
    → Live source
    → Sane basis verify (content source) (record {
      reader = source;
      pending = [];
      eof = false;
      hasher = new_hasher verify;
      source_size = 0;
      literal = [];
      literal_bytes = 0;
      delta = new 0 file_size;
    })
begun basis source verify file_size sized live = record {
  fits = tt;
  base = sized;
  covers = refl;
  live = live;
  ended = λ e. cc;
  done = [];
  hashed = new_hasher-fed_with verify;
  split = refl;
  sizes = omega arith;
  literals = omega arith;
}

-- The engine at a block length: it neither panics nor fails to end, its only error is the literal
-- budget, and the delta rebuilds the source.
pub rollsum_with-Rebuilds :
    (basis : Bytes) (hash : Bytes → Bytes) (block : ℕ) (source : Reader) (signature : Signature)
    (max_literal : ℕ) (verify : Bool)
    → length basis < 2 ^ 64
    → CollisionFree hash
    → All (Describes hash basis) signature.chunks
    → signature.file_size ≡ length basis
    → 0 < block
    → block ≤ scratch
    → Live source
    → Ends
        (Rebuilds hash basis (content source) verify)
        (OverBudget max_literal (length (content source)))
        (rollsum_with hash block source signature max_literal verify)
unfolding rollsum_with
rollsum_with-Rebuilds basis hash block source signature max_literal verify small free described
      sized positive fits live =
    let whole = content source in
    let chunks = signature.chunks in
    let x = build_index chunks in
    let Q = OverBudget max_literal (length whole) in
    then-Ends (Over basis verify whole block) (Rebuilds hash basis whole verify) Q Q _
      (main_loop hash block max_literal chunks x (length whole + 1) _) (λ e h. h)
      (λ w o.
        let (m, matched) =
          tail_match_ends basis small hash free chunks described x (build_index-Valid chunks) block
            positive max_literal verify whole w.pending in
        rw matched (
          then-Ends (λ w'. Rebuilds hash basis whole verify (with_totals hash w'))
            (Rebuilds hash basis whole verify) Q Q (λ w'. ok (with_totals hash w'))
            (finish_tail hash block max_literal chunks x m w) (λ e h. h) (λ w' r. r)
            (finish_tail-EndsRebuilt basis small hash free chunks described x
              (build_index-Valid chunks) block positive max_literal verify whole m w o
              (λ i same.
                tail_match-Accepted basis small hash free chunks described x
                  (build_index-Valid chunks) block positive max_literal verify whole w.pending i
                  (matched ∙ ap ok same)))))
      (main_loop-Over basis small hash free chunks described x (build_index-Valid chunks) block
        positive max_literal verify whole (length whole + 1) _ fits
        (begun basis source verify signature.file_size sized live) (omega arith))
