-- ===== src/Delta/Runs.antt =====
-- Runs of the delta engines on a small basis, and the theorems at concrete inputs.
-- The digest of a byte string is the byte string, which has no collisions.
use cp.Common.{◌⊎◌, ℕ, ◌+◌, ◌*◌, ◌%◌, ◌≤◌, ◌<◌, ◌≡◌, refl, arith}
use cp.Common.{Bytes, [], ◌∷◌, some, All, true, false}
use cp.Delta.Error.{ok, ◌>>=◌, Ends}
use cp.Delta.Ops.{copy, literal, Delta, push_copy, push_literal}
use cp.Delta.Rollsum.{
  weak_init, weak_value, state_pack, state_value, state_bucket, state_roll, block_size,
}
use cp.Delta.Rollsum.Roll.{state_roll-slides}
use cp.Delta.Rollsum.Root.{block_size_rounded}
use cp.Delta.Signature.{ChunkSignature, Signature}
use cp.Delta.Reader.{Reader, available, fill, read}
use cp.Delta.Reader.Stream.{Live}
use cp.Delta.Table.{head_big, scan_first, tail_first, build_index, probe_bucket}
use cp.Delta.Table.Heads.{head_big-scan_first}
use cp.Delta.Scan.{scratch, scan_region}
use cp.Delta.Scan.Progress.{Describes, CollisionFree, OverBudget}
use cp.Delta.Compute.{block_of, compute_delta_rollsum, compute_delta_from_signatures}
use cp.Delta.Compute.Whole.{Rebuilds}
use cp.Delta.Compute.Engines.{compute_delta_rollsum-Rebuilds}
use cp.Delta.Compute.Offline.{Tiles, compute_delta_from_signatures-Rebuilds}
use cp.Delta.Patch.{Sink, apply_patch}
use cp.Delta.Patch.Rebuild.{apply_patch-Rebuilds}
use cp.Delta.Patch.Checked.{Carries, apply_patch-Carries}
use mathlib.Core.Option.{some-injective}
use cp.Delta.Patch.RoundTrip.{apply_patch-compute_delta_rollsum}

abbrev identity : Bytes → Bytes
identity bytes = bytes

identity-CollisionFree : CollisionFree identity
identity-CollisionFree a b e = e

abbrev small_basis : Bytes
small_basis = 1 ∷ 2 ∷ 3 ∷ 4 ∷ []

-- Blocks of two bytes, each with the rolling sum of its bytes.
abbrev chunk : ℕ → Bytes → ChunkSignature
chunk offset bytes = record {
  offset = offset;
  len = 2;
  weak = some (weak_value (weak_init bytes).0 (weak_init bytes).1);
  strong_hash = bytes;
}

abbrev small_signature : Signature
small_signature = record {
  file_size = 4;
  chunks = chunk 0 (1 ∷ 2 ∷ []) ∷ chunk 2 (3 ∷ 4 ∷ []) ∷ [];
}

-- Three reads: a byte that the basis lacks, and then its bytes.
abbrev small_source : Reader
small_source = available (9 ∷ 1 ∷ []) ∷ available (2 ∷ 3 ∷ []) ∷ available (4 ∷ []) ∷ []

small-Describes : All (Describes identity small_basis) small_signature.chunks
small-Describes = (
  record { inside = omega arith; digest = refl },
  (record { inside = omega arith; digest = refl }, tt),
)

small_block : (k : ℕ) → block_of identity small_signature.chunks ≡ some k → (0 < k) × (k ≤ scratch)
unfolding block_of
small_block k e = let e' : 2 ≡ k = some-injective 2 k e in (omega arith, omega arith)

compute_delta_rollsum_run :
    compute_delta_rollsum identity small_source small_signature 100 true
    ≡ ok (record {
      source_size = 5;
      basis_size = 4;
      ops = literal (9 ∷ []) ∷ copy 0 4 ∷ [];
      checksum = some (9 ∷ small_basis);
    })
unfolding compute_delta_rollsum fill read scan_region build_index weak_value weak_init state_bucket
    state_pack state_roll state_value probe_bucket scan_first push_literal push_copy
compute_delta_rollsum_run = refl

abbrev small_delta : Delta
small_delta = record {
  source_size = 5;
  basis_size = 4;
  ops = literal (9 ∷ []) ∷ copy 0 4 ∷ [];
  checksum = some (9 ∷ small_basis);
}

small-Live : Live small_source
small-Live = (omega arith, (omega arith, (omega arith, tt)))

small-Rebuilds : Rebuilds identity small_basis (9 ∷ small_basis) true small_delta
small-Rebuilds = record {
  fits = (tt, ((omega arith, omega arith), tt));
  base = refl;
  covers = refl;
  sized = refl;
  checked = refl;
}

apply_patch-compute_delta_rollsum_example :
    Ends
      (λ (out : Sink). out.written ≡ 9 ∷ small_basis)
      (OverBudget 100 5)
      (compute_delta_rollsum identity small_source small_signature 100 true >>= λ d.
        apply_patch identity small_basis d (record { written = []; room = 10 }) (some []))
apply_patch-compute_delta_rollsum_example =
    apply_patch-compute_delta_rollsum small_basis identity small_source small_signature 100 10
      (omega arith) identity-CollisionFree small-Describes refl small_block small-Live (omega arith)

compute_delta_rollsum-Rebuilds_example :
    Ends
      (Rebuilds identity small_basis (9 ∷ small_basis) false)
      (OverBudget 0 5)
      (compute_delta_rollsum identity small_source small_signature 0 false)
compute_delta_rollsum-Rebuilds_example =
    compute_delta_rollsum-Rebuilds small_basis identity small_source small_signature 0 false
      (omega arith) identity-CollisionFree small-Describes refl small_block small-Live

-- The source's own chunks: one that the basis has, and one that it lacks.
abbrev source_signature : Signature
source_signature = record {
  file_size = 4;
  chunks = chunk 0 (3 ∷ 4 ∷ []) ∷ chunk 2 (5 ∷ 6 ∷ []) ∷ [];
}

source-Tiles : Tiles identity (3 ∷ 4 ∷ 5 ∷ 6 ∷ []) 0 source_signature.chunks
source-Tiles = (refl, omega arith, refl, (refl, omega arith, refl, refl))

compute_delta_from_signatures-Rebuilds_example :
    Ends
      (Rebuilds identity small_basis (3 ∷ 4 ∷ 5 ∷ 6 ∷ []) false)
      (OverBudget 100 4)
      (compute_delta_from_signatures (3 ∷ 4 ∷ 5 ∷ 6 ∷ []) small_signature source_signature 100)
compute_delta_from_signatures-Rebuilds_example =
    compute_delta_from_signatures-Rebuilds identity small_basis (3 ∷ 4 ∷ 5 ∷ 6 ∷ []) small_signature
      source_signature 100 (omega arith) identity-CollisionFree small-Describes refl source-Tiles
      refl

apply_patch-Rebuilds_example :
    apply_patch identity small_basis small_delta (record { written = []; room = 10 }) (some [])
    ≡ ok (record { written = 9 ∷ small_basis; room = 5 })
apply_patch-Rebuilds_example =
    apply_patch-Rebuilds identity small_basis (9 ∷ small_basis) true true small_delta
      (record { written = []; room = 10 }) (omega arith) small-Rebuilds (omega arith)

apply_patch-Carries_example :
    Ends
      (λ (out : Sink). Carries identity (some (9 ∷ small_basis)) out.written)
      (λ e. Unit)
      (apply_patch identity
        (7 ∷ 7 ∷ 7 ∷ 7 ∷ [])
        small_delta
        (record { written = []; room = 10 })
        (some []))
apply_patch-Carries_example = apply_patch-Carries identity (7 ∷ 7 ∷ 7 ∷ 7 ∷ []) small_delta 10

state_roll-slides_example :
    state_roll (state_pack (weak_init (250 ∷ 2 ∷ [])).0 (weak_init (250 ∷ 2 ∷ [])).1) 2 250 7
    ≡ state_pack (weak_init (2 ∷ 7 ∷ [])).0 (weak_init (2 ∷ 7 ∷ [])).1
state_roll-slides_example = state_roll-slides 250 7 (2 ∷ []) (omega arith) (omega arith)

head_big-scan_first_example :
    (tail_first true (head_big 5 65536) ≡ 65536) × (scan_first (head_big 5 65536) ≡ 0)
head_big-scan_first_example = head_big-scan_first 5 65536 (omega arith) (omega arith)

block_size_rounded_example :
    (700 ≤ block_size 1000000)
    × (block_size 1000000 ≤ 32768)
    × (((block_size 1000000 ≡ 700) × (1000000 < 704 * 704))
        ⊎ (((block_size 1000000 ≡ 32768) × (32768 * 32768 ≤ 1000000))
            ⊎ ((block_size 1000000 % 8 ≡ 0)
                × (block_size 1000000 * block_size 1000000 ≤ 1000000)
                × (1000000 < (block_size 1000000 + 8) * (block_size 1000000 + 8)))))
block_size_rounded_example = block_size_rounded 1000000
