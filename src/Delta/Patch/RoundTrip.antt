-- ===== src/Delta/Patch/RoundTrip.antt =====
-- The engines and `apply_patch` together.
use cp.Common.{ℕ, ◌-◌, ◌^◌, ◌≤◌, ◌<◌, ◌≡◌, refl, arith}
use cp.Common.{Bytes, [], some, All, true, length}
use cp.Delta.Error.{◌>>=◌, Ends, then-Ends}
use cp.Delta.Reader.{Reader, content}
use cp.Delta.Reader.Stream.{Live}
use cp.Delta.Scan.{scratch}
use cp.Delta.Scan.Progress.{Describes, CollisionFree, OverBudget}
use cp.Delta.Compute.{block_of, compute_delta_rollsum}
use cp.Delta.Compute.Whole.{Rebuilds}
use cp.Delta.Compute.Engines.{compute_delta_rollsum-Rebuilds}
use cp.Delta.Signature.{Signature}
use cp.Delta.Patch.{Sink, apply_patch}
use cp.Delta.Patch.Rebuild.{apply_patch-Rebuilds}

-- The delta of a source, applied to the basis with a hasher and with room for the source, writes
-- the source, for a reader that does not fail, chunks that describe the basis and a digest without
-- collisions; or the engine ended with the literal budget's error on a source longer than it.
pub apply_patch-compute_delta_rollsum :
    (basis : Bytes) (hash : Bytes → Bytes) (source : Reader) (signature : Signature)
    (max_literal room : ℕ)
    → length basis < 2 ^ 64 - 1
    → CollisionFree hash
    → All (Describes hash basis) signature.chunks
    → signature.file_size ≡ length basis
    → ((k : ℕ) → block_of hash signature.chunks ≡ some k → (0 < k) × (k ≤ scratch))
    → Live source
    → length (content source) ≤ room
    → Ends
        (λ (out : Sink). out.written ≡ content source)
        (OverBudget max_literal (length (content source)))
        (compute_delta_rollsum hash source signature max_literal true >>= λ d.
          apply_patch hash basis d (record { written = []; room = room }) (some []))
apply_patch-compute_delta_rollsum basis hash source signature max_literal room small free described
      sized fits live enough =
    then-Ends (Rebuilds hash basis (content source) true)
      (λ (out : Sink). out.written ≡ content source)
      (OverBudget max_literal (length (content source)))
      (OverBudget max_literal (length (content source)))
      (λ d. apply_patch hash basis d (record { written = []; room = room }) (some []))
      (compute_delta_rollsum hash source signature max_literal true) (λ e h. h)
      (λ d r.
        rw
          (apply_patch-Rebuilds hash basis (content source) true true d
            (record { written = []; room = room }) small r enough)
          refl)
      (compute_delta_rollsum-Rebuilds basis hash source signature max_literal true (omega arith)
        free described sized fits live)
