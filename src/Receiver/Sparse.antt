-- ===== src/Receiver/Sparse.antt =====
-- src/sync/receiver.rs, `SparseWriter`: a writer that turns long runs of zeros into holes. Writes to
-- the file succeed; the loop of `write` is fuelled by the length of its buffer.
pub mod Stream
pub mod Whole
use cp.Common.{ℕ, zero, suc, ◌+◌, ◌^◌}
use cp.Common.{Bytes, [], ◌∷◌, length, Bool, true, false, ◌==◌, leb, ltb, if◌then◌else◌, replicate}
use cp.Platform.Result.{Result, ok, err, ◌>>=◌}
use cp.Platform.File.{File, write_all, seek_current, set_len}

abbrev pub sparse_run_min : ℕ
sparse_run_min = 4096

pub record SparseWriter : Type 0 where
  pub inner : File
  pub enabled : Bool
  pub total : ℕ
  pub zeros_pending : ℕ

unfoldable pub new : File → ℕ → Bool → SparseWriter
new inner total enabled = record {
  inner = inner;
  enabled = enabled;
  total = total;
  zeros_pending = 0;
}

pub flush_zeros : SparseWriter → SparseWriter
unfolding write_all
flush_zeros w =
    if ltb 0 w.zeros_pending
    then record w { inner = write_all (replicate w.zeros_pending 0) w.inner; zeros_pending = 0 }
    else w

unfoldable pub finish : SparseWriter → SparseWriter
unfolding flush_zeros set_len
finish w = let w = flush_zeros w in record w { inner = set_len w.total w.inner }

unfoldable pub cut : ℕ → SparseWriter → SparseWriter
unfolding set_len
cut size w = record w { inner = set_len size w.inner; zeros_pending = 0 }

-- `i64::try_from` of the pending count
pub buffer_zeros : ℕ → SparseWriter → Result SparseWriter
unfolding seek_current
buffer_zeros n w =
    let pending = w.zeros_pending + n in
    if leb sparse_run_min pending
    then (if ltb pending (2 ^ 63)
        then ok (record w { inner = seek_current pending w.inner; zeros_pending = 0 })
        else err "zero run exceeds file offset range")
    else ok (record w { zeros_pending = pending })

-- The run of zeros that a buffer starts with, and what is behind it.
pub zero_run : Bytes → ℕ × Bytes
zero_run [] = (0, [])
zero_run (b ∷ buf) = if b == 0 then (suc (zero_run buf).0, (zero_run buf).1) else (0, b ∷ buf)

-- The run of other bytes that a buffer starts with, and what is behind it.
pub byte_run : Bytes → Bytes × Bytes
byte_run [] = ([], [])
byte_run (b ∷ buf) = if b == 0 then ([], b ∷ buf) else (b ∷ (byte_run buf).0, (byte_run buf).1)

pub write_runs : ℕ → Bytes → SparseWriter → Result SparseWriter
write_runs fuel [] w = ok w
write_runs zero (b ∷ buf) w = err "out of fuel"
write_runs (suc fuel) (b ∷ buf) w =
    let zeros =
      buffer_zeros (zero_run (b ∷ buf)).0 w >>= λ w. write_runs fuel (zero_run (b ∷ buf)).1 w in
    let flushed = flush_zeros w in
    let bytes =
      write_runs fuel (byte_run (b ∷ buf)).1
        (record flushed { inner = write_all (byte_run (b ∷ buf)).0 flushed.inner }) in
    if b == 0 then zeros else bytes

unfoldable pub write : Bytes → SparseWriter → Result SparseWriter
unfolding write_runs zero_run byte_run buffer_zeros flush_zeros write_all
write buf w =
    if w.enabled
    then write_runs (length buf) buf w
    else ok (record w { inner = write_all buf w.inner })
