-- ===== src/Delta/Patch.antt =====
-- src/delta/compute.rs, `apply_patch`. The basis is a file's bytes; the output is what was written
-- and the room that is left, so a write can fail; a hasher is the bytes that it was fed.
pub mod Rebuild
pub mod Checked
pub mod RoundTrip
use cp.Common.{ℕ, zero, suc, ◌+◌, ◌-◌, ◌*◌, min, Bytes, List, [], ◌∷◌, ◌++◌, Option, none, some}
use cp.Common.{length, take, drop, Bool, true, false, not, ltb, ◌==◌, bytes_eq, if◌then◌else◌}
use cp.Delta.Error.{DeltaResult, ok, err, panic, stuck, patch, checksum_mismatch, ◌>>=◌}
use cp.Delta.Ops.{DeltaOp, copy, literal, Delta, validate}
use cp.Delta.Compute.{feed}

abbrev pub copy_stream_chunk : ℕ
copy_stream_chunk = 1024 * 1024

pub record Sink : Type 0 where
  pub written : Bytes
  pub room : ℕ

abbrev pub write_all : Bytes → Sink → DeltaResult Sink
write_all bytes s =
    if ltb s.room (length bytes)
    then err (patch "write error")
    else ok (record { written = s.written ++ bytes; room = s.room - length bytes })

-- The output, and the hasher when the caller gave one.
pub record Target : Type 0 where
  pub sink : Sink
  pub hasher : Option Bytes

abbrev pub put : Bytes → Target → DeltaResult Target
put bytes t = write_all bytes t.sink >>= λ s. ok (record { sink = s; hasher = feed t.hasher bytes })

-- `read_exact` of `n` bytes at a position of the basis
abbrev pub read_exact : Bytes → ℕ → ℕ → DeltaResult Bytes
read_exact basis position n =
    if length (take n (drop position basis)) == n
    then ok (take n (drop position basis))
    else err (patch "read error")

-- `while remaining > 0`: one bounded chunk a round.
pub copy_loop : ℕ → Bytes → ℕ → ℕ → Target → DeltaResult Target
copy_loop zero basis position remaining t = if remaining == 0 then ok t else stuck
copy_loop (suc fuel) basis position remaining t = elim (remaining == 0) [
  | true ↦ ok t
  | false ↦
      let n = min remaining copy_stream_chunk in
      elim (read_exact basis position n) [
        | err e ↦ err e
        | panic ↦ panic
        | stuck ↦ stuck
        | ok bytes ↦ elim (put bytes t) [
          | err e ↦ err e
          | panic ↦ panic
          | stuck ↦ stuck
          | ok t' ↦ copy_loop fuel basis (position + n) (remaining - n) t'
        ]
      ]
]

pub apply_op : Bytes → DeltaOp → Target → DeltaResult Target
unfolding copy_loop
apply_op basis (copy offset len) t = copy_loop len basis offset len t
apply_op basis (literal bytes) t = put bytes t

pub apply_ops : Bytes → List DeltaOp → Target → DeltaResult Target
unfolding apply_op
apply_ops basis [] t = ok t
apply_ops basis (op ∷ ops) t = apply_op basis op t >>= λ t'. apply_ops basis ops t'

module _ (hash : Bytes → Bytes) where
  -- The comparison is made only when the delta carries a checksum and the caller gave a hasher.
  pub verify_checksum : Option Bytes → Target → DeltaResult Sink
  verify_checksum none t = ok t.sink
  verify_checksum (some expected) t = elim t.hasher [
    | none ↦ ok t.sink
    | some fed ↦
        if bytes_eq (hash fed) expected
        then ok t.sink
        else err (checksum_mismatch expected (hash fed))
  ]

  unfoldable pub apply_patch : Bytes → Delta → Sink → Option Bytes → DeltaResult Sink
  unfolding apply_ops verify_checksum bytes_eq
  apply_patch basis delta output hasher = validate delta >>= λ _.
      (apply_ops basis delta.ops (record { sink = output; hasher = hasher }) >>= λ t.
      verify_checksum delta.checksum t)
