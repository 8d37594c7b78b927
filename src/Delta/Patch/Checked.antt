-- ===== src/Delta/Patch/Checked.antt =====
-- src/delta/compute.rs, `apply_patch` of any delta over any basis.
use cp.Common.{ℕ, zero, suc, ◌+◌, ◌-◌, ◌≤◌, ◌≡◌, refl, inl, inr, arith, min}
use cp.Common.{Bytes, List, [], ◌∷◌, Option, none, some}
use cp.Common.{ltb, ◌==◌, Bool-cases, suc==zero, bytes_eq, bytes_eq_iff}
use cp.Common.{length, take, drop}
use cp.Delta.Error.{DeltaError, Ends, then-Ends, match-Ends}
use cp.Delta.Ops.{DeltaOp, copy, literal, Delta, validate, validate_ops, saturating_add}
use cp.Delta.Patch.{
  copy_stream_chunk, Sink, Target, put, read_exact, copy_loop, apply_op, apply_ops, verify_checksum,
  apply_patch,
}

-- The hasher was fed what was written.
abbrev Tracks : Target → Type 0
Tracks t = t.hasher ≡ some t.sink.written

abbrev Any : DeltaError → Type 0
Any e = Unit

put-Tracks : (bytes : Bytes) (t : Target) → Tracks t → Ends Tracks Any (put bytes t)
put-Tracks bytes t h = elim (Bool-cases (ltb t.sink.room (length bytes))) [
  | inl full ↦ rw full tt
  | inr room ↦ rw room (rw h refl)
]

read_exact-Ends : (basis : Bytes) (at n : ℕ) → Ends (λ _. Unit) Any (read_exact basis at n)
read_exact-Ends basis at n = elim (Bool-cases (length (take n (drop at basis)) == n)) [
  | inl e ↦ rw e tt
  | inr e ↦ rw e tt
]

copy_loop-Tracks :
    (fuel : ℕ) (basis : Bytes) (at n : ℕ) (t : Target)
    → n ≤ fuel
    → Tracks t
    → Ends Tracks Any (copy_loop fuel basis at n t)
unfolding copy_loop
copy_loop-Tracks zero basis at zero t enough h = h
copy_loop-Tracks (suc fuel) basis at zero t enough h = h
copy_loop-Tracks zero basis at (suc n) t enough h = absurd (omega arith)
copy_loop-Tracks (suc fuel) basis at (suc n) t enough h =
    let m = min (suc n) copy_stream_chunk in
    rw (suc==zero n, copy_loop)
      (match-Ends (λ _. Unit) Tracks Any Any _ (read_exact basis at m) (λ e u. tt)
        (λ bytes u.
          match-Ends Tracks Tracks Any Any (copy_loop fuel basis (at + m) (suc n - m)) (put bytes t)
            (λ e u. tt)
            (λ t' h'. copy_loop-Tracks fuel basis (at + m) (suc n - m) t' (omega arith) h')
            (put-Tracks bytes t h))
        (read_exact-Ends basis at m))

apply_op-Tracks :
    (basis : Bytes) (op : DeltaOp) (t : Target) → Tracks t → Ends Tracks Any (apply_op basis op t)
unfolding apply_op
apply_op-Tracks basis (copy offset len) t h =
    copy_loop-Tracks len basis offset len t (omega arith) h
apply_op-Tracks basis (literal bytes) t h = put-Tracks bytes t h

apply_ops-Tracks :
    (basis : Bytes) (ops : List DeltaOp) (t : Target)
    → Tracks t
    → Ends Tracks Any (apply_ops basis ops t)
unfolding apply_ops
apply_ops-Tracks basis [] t h = h
apply_ops-Tracks basis (op ∷ ops) t h =
    then-Ends Tracks Tracks Any Any (apply_ops basis ops) (apply_op basis op t) (λ e u. tt)
      (λ t' h'. apply_ops-Tracks basis ops t' h') (apply_op-Tracks basis op t h)

validate_ops-Ends : (size : ℕ) (ops : List DeltaOp) → Ends (λ _. Unit) Any (validate_ops size ops)
unfolding validate_ops
validate_ops-Ends size [] = tt
validate_ops-Ends size (literal bytes ∷ ops) = validate_ops-Ends size ops
validate_ops-Ends size (copy offset len ∷ ops) =
    elim (Bool-cases (ltb size (saturating_add offset len))) [
      | inl e ↦ rw (e, validate_ops) tt
      | inr e ↦ rw (e, validate_ops) (validate_ops-Ends size ops)
    ]

-- The bytes carry the digest, when there is one to carry.
abbrev pub Carries : (Bytes → Bytes) → Option Bytes → Bytes → Type 0
Carries hash none bytes = Unit
Carries hash (some expected) bytes = hash bytes ≡ expected

verify_checksum-Carries :
    (hash : Bytes → Bytes) (checksum : Option Bytes) (t : Target)
    → Tracks t
    → Ends (λ (out : Sink). Carries hash checksum out.written) Any (verify_checksum hash checksum t)
unfolding verify_checksum
verify_checksum-Carries hash none t h = tt
verify_checksum-Carries hash (some expected) t h =
    let w = t.sink.written in
    elim (Bool-cases (bytes_eq (hash w) expected)) [
      | inl same ↦ rw (h, verify_checksum) (rw (same) ((bytes_eq_iff (hash w) expected).0 same))
      | inr other ↦ rw (h, verify_checksum) (rw other tt)
    ]

-- `apply_patch` of any delta over any basis, with a fresh hasher and a fresh output, ends without a
-- panic, and an output that it accepts has the digest that the delta carries, if it carries one.
pub apply_patch-Carries :
    (hash : Bytes → Bytes) (basis : Bytes) (d : Delta) (room : ℕ)
    → Ends
        (λ (out : Sink). Carries hash d.checksum out.written)
        (λ e. Unit)
        (apply_patch hash basis d (record { written = []; room = room }) (some []))
unfolding apply_patch validate
apply_patch-Carries hash basis d room =
    then-Ends (λ _. Unit) (λ (out : Sink). Carries hash d.checksum out.written) Any Any _
      (validate_ops d.basis_size d.ops) (λ e u. tt)
      (λ v u.
        then-Ends Tracks (λ (out : Sink). Carries hash d.checksum out.written) Any Any
          (verify_checksum hash d.checksum) (apply_ops basis d.ops _) (λ e u. tt)
          (λ t h. verify_checksum-Carries hash d.checksum t h)
          (apply_ops-Tracks basis d.ops _ refl))
      (validate_ops-Ends d.basis_size d.ops)
