-- ===== src/Delta/Patch/Rebuild.antt =====
-- `apply_patch`: what it writes.
use cp.Common.{ℕ, zero, suc, ◌+◌, ◌-◌, ◌^◌, ◌≤◌, ◌<◌, ◌≡◌, refl, sym, ap, ◌∙◌, arith, min}
use cp.Common.{Bytes, List, [], ◌∷◌, ◌++◌, append-nil, append_assoc, Option, none, some}
use cp.Common.{Bool, true, false, ltb, ◌==◌, suc==zero, bytes_eq_refl}
use cp.Common.{length, length-append, take, drop}
use cp.Delta.Error.{ok}
use cp.Delta.Ops.{DeltaOp, copy, literal, Delta}
use cp.Delta.Ops.Output.{slice, output, output_op, FitsOp, Fits, slice-add}
use cp.Delta.Ops.Bounds.{validate_iff, length-slice}
use cp.Delta.Compute.{feed, finalize}
use cp.Delta.Compute.Sound.{fed_with, feed-fed_with}
use cp.Delta.Compute.Whole.{Rebuilds}
use cp.Delta.Patch.{
  copy_stream_chunk, Sink, Target, put, read_exact, copy_loop, apply_op, apply_ops, verify_checksum,
  apply_patch,
}

-- A target with more bytes on it.
abbrev pub after : Bytes → Target → Target
after bytes t = record {
  sink = record { written = t.sink.written ++ bytes; room = t.sink.room - length bytes };
  hasher = feed t.hasher bytes;
}

feed-append : (h : Option Bytes) (x y : Bytes) → feed (feed h x) y ≡ feed h (x ++ y)
feed-append none x y = refl
feed-append (some b) x y = ap (λ (t : Bytes). some t) (append_assoc b x y)

target_path :
    (w w' : Bytes) (r r' : ℕ) (h h' : Option Bytes)
    → w ≡ w'
    → r ≡ r'
    → h ≡ h'
    → ◌≡◌ {A = Target}
        (record { sink = record { written = w; room = r }; hasher = h })
        (record { sink = record { written = w'; room = r' }; hasher = h' })
target_path w w' r r' h h' p q s = rw (p, q, s) refl

after-append : (x y : Bytes) (t : Target) → after y (after x t) ≡ after (x ++ y) t
after-append x y t =
    target_path _ _ _ _ _ _ (append_assoc t.sink.written x y) (omega (arith, length-append x y))
      (feed-append t.hasher x y)

after_none : (t : Target) → after [] t ≡ t
after_none t = target_path _ _ _ _ _ _ (append-nil t.sink.written) (omega arith) (fed t.hasher)
  where
    fed : (h : Option Bytes) → feed h [] ≡ h
    fed none = refl
    fed (some b) = ap (λ (x : Bytes). some x) (append-nil b)

put-after :
    (bytes : Bytes) (t : Target) → length bytes ≤ t.sink.room → put bytes t ≡ ok (after bytes t)
put-after bytes t h = let e : ltb t.sink.room (length bytes) ≡ false = ground arith in rw e refl

read_exact-slice :
    (basis : Bytes) (at n : ℕ)
    → at + n ≤ length basis
    → read_exact basis at n ≡ ok (slice at n basis)
read_exact-slice basis at n h =
    let e : (length (slice at n basis) == n) ≡ true = ground (arith, length-slice at n basis) in
    rw e refl

slice_none : (at : ℕ) (basis : Bytes) → slice at 0 basis ≡ []
slice_none at basis = none_of (drop at basis)
  where
    none_of : (xs : Bytes) → ◌≡◌ {A = Bytes} (take 0 xs) []
    none_of [] = refl
    none_of (x ∷ xs) = refl

-- The rounds of a copy write the slice that it names.
copy_loop-slice :
    (fuel : ℕ) (basis : Bytes) (at n : ℕ) (t : Target)
    → n ≤ fuel
    → at + n ≤ length basis
    → n ≤ t.sink.room
    → copy_loop fuel basis at n t ≡ ok (after (slice at n basis) t)
unfolding copy_loop
copy_loop-slice zero basis at zero t enough inside room =
    rw (slice_none at basis) (ap (λ (x : Target). ok x) (sym (after_none t)))
copy_loop-slice (suc fuel) basis at zero t enough inside room =
    rw (slice_none at basis) (ap (λ (x : Target). ok x) (sym (after_none t)))
copy_loop-slice zero basis at (suc n) t enough inside room = absurd (omega arith)
copy_loop-slice (suc fuel) basis at (suc n) t enough inside room =
    let m = min (suc n) copy_stream_chunk in
    let piece = slice at m basis in
    let size : length piece ≡ m = length-slice at m basis (omega arith) in
    let read = read_exact-slice basis at m (omega arith) in
    let wrote = put-after piece t (omega arith) in
    let both : m + (suc n - m) ≡ suc n = omega arith in
    rw (suc==zero n, copy_loop)
      (rw (read, copy_loop)
        (rw (wrote, copy_loop)
          (copy_loop-slice fuel basis (at + m) (suc n - m) (after piece t) (omega arith)
              (omega arith) (omega arith)
            ∙ ap (λ (x : Target). ok x)
                (after-append piece (slice (at + m) (suc n - m) basis) t
                  ∙ ap (λ (x : Bytes). after x t)
                      (sym (slice-add at m (suc n - m) basis)
                        ∙ ap (λ (k : ℕ). slice at k basis) both)))))

apply_op-after :
    (basis : Bytes) (op : DeltaOp) (t : Target)
    → FitsOp (length basis) op
    → length (output_op basis op) ≤ t.sink.room
    → apply_op basis op t ≡ ok (after (output_op basis op) t)
unfolding apply_op
apply_op-after basis (copy offset len) t (inside, _) room =
    copy_loop-slice len basis offset len t (omega arith) inside
      (omega (arith, length-slice offset len basis))
apply_op-after basis (literal bytes) t inside room = put-after bytes t room

apply_ops-after :
    (basis : Bytes) (ops : List DeltaOp) (t : Target)
    → Fits (length basis) ops
    → length (output basis ops) ≤ t.sink.room
    → apply_ops basis ops t ≡ ok (after (output basis ops) t)
unfolding apply_ops
apply_ops-after basis [] t f room = ap (λ (x : Target). ok x) (sym (after_none t))
apply_ops-after basis (op ∷ ops) t (here, f) room =
    let o = output_op basis op in
    let n = length-append o (output basis ops) in
    rw (apply_op-after basis op t here (omega (arith, n))) (
      apply_ops-after basis ops (after o t) f (omega (arith, n))
      ∙ ap (λ (x : Target). ok x) (after-append o (output basis ops) t))

verified :
    (hash : Bytes → Bytes) (source : Bytes) (verify check : Bool) (checksum : Option Bytes)
    (t : Target)
    → checksum ≡ finalize hash (fed_with verify source)
    → t.hasher ≡ fed_with check source
    → verify_checksum hash checksum t ≡ ok t.sink
unfolding verify_checksum
verified hash source false check checksum t e f = rw (e, verify_checksum) refl
verified hash source true false checksum t e f =
    rw (e, verify_checksum) (rw (f, verify_checksum) refl)
verified hash source true true checksum t e f =
    rw (e, verify_checksum) (rw (f, verify_checksum) (rw (bytes_eq_refl (hash source)) refl))

-- `apply_patch` of a delta that rebuilds a source writes exactly the source, when the output has
-- room for it, with a fresh hasher or with none; the copies are validated and the checksum holds.
pub apply_patch-Rebuilds :
    (hash : Bytes → Bytes) (basis source : Bytes) (verify check : Bool) (d : Delta) (out : Sink)
    → length basis < 2 ^ 64 - 1
    → Rebuilds hash basis source verify d
    → length source ≤ out.room
    → apply_patch hash basis d out (fed_with check [])
      ≡ ok (record { written = out.written ++ source; room = out.room - length source })
unfolding apply_patch
apply_patch-Rebuilds hash basis source verify check d out small r room =
    let t : Target = record { sink = out; hasher = fed_with check [] } in
    let e : d.basis_size ≡ length basis = r.base in
    let valid = (validate_iff d (omega (arith, e))).1 (rw (← e) at r.fits) in
    let n : length (output basis d.ops) ≡ length source = ap (length {A = ℕ}) r.covers in
    rw valid (
      rw (apply_ops-after basis d.ops t r.fits (omega (arith, n))) (
        rw (r.covers) (
          verified hash source verify check d.checksum _ r.checked
            (feed-fed_with check [] source))))
