-- ===== src/Delta/Ops/Bounds.antt =====
-- Bounds of the copies, what `validate` decides, and the two byte counts.
use cp.Common.{ℕ, zero, suc, ◌+◌, ◌-◌, ◌^◌, ◌≤◌, ◌<◌, ◌≡◌, ◌↔◌, refl, arith}
use cp.Common.{Bytes, List, [], ◌∷◌, inl, inr}
use cp.Common.{drop, length, length-append, length-take, length-drop, ltb, suc==zero, Bool-cases}
use cp.Delta.Error.{ok}
use cp.Delta.Ops.{DeltaOp, copy, literal, Delta, extends_copy, saturating_add}
use cp.Delta.Ops.{push_copy_op, push_copy, push_literal_op, push_literal}
use cp.Delta.Ops.{sum_matched, sum_literal, bytes_matched, bytes_literal, validate_ops, validate}
use cp.Delta.Ops.Output.{slice, output, Fits}

push_copy_op-Fits :
    (size offset len : ℕ) (ops : List DeltaOp)
    → size < 2 ^ 64
    → offset + len ≤ size
    → Fits size ops
    → Fits size (push_copy_op offset len ops)
unfolding push_copy_op
push_copy_op-Fits size offset len [] hs h f = ((h, hs), tt)
push_copy_op-Fits size offset len (op ∷ next ∷ ops) hs h (g, f) =
    (g, push_copy_op-Fits size offset len (next ∷ ops) hs h f)
push_copy_op-Fits size offset len (copy o l ∷ []) hs h ((inside, small), _) =
    elim (Bool-cases (extends_copy o l offset len)) [
      | inl e ↦ let at : offset ≡ o + l = ground arith in rw e ((omega arith, hs), tt)
      | inr e ↦ rw e ((inside, small), ((h, hs), tt))
    ]
push_copy_op-Fits size offset len (literal bytes ∷ []) hs h f = (tt, ((h, hs), tt))

-- A copy within the basis keeps a delta within the basis.
pub push_copy-Fits :
    (size offset len : ℕ) (d : Delta)
    → size < 2 ^ 64
    → offset + len ≤ size
    → Fits size d.ops
    → Fits size (push_copy offset len d).ops
unfolding push_copy
push_copy-Fits size offset zero d hs h f = f
push_copy-Fits size offset (suc len) d hs h f =
    rw (suc==zero len) (push_copy_op-Fits size offset (suc len) d.ops hs h f)

push_literal_op-Fits :
    (size : ℕ) (bytes : Bytes) (ops : List DeltaOp)
    → Fits size ops
    → Fits size (push_literal_op bytes ops)
unfolding push_literal_op
push_literal_op-Fits size bytes [] f = (tt, tt)
push_literal_op-Fits size bytes (op ∷ next ∷ ops) (g, f) =
    (g, push_literal_op-Fits size bytes (next ∷ ops) f)
push_literal_op-Fits size bytes (literal prev ∷ []) f = (tt, tt)
push_literal_op-Fits size bytes (copy o l ∷ []) (g, _) = (g, (tt, tt))

pub push_literal-Fits :
    (size : ℕ) (bytes : Bytes) (d : Delta) → Fits size d.ops → Fits size (push_literal bytes d).ops
unfolding push_literal
push_literal-Fits size [] d f = f
push_literal-Fits size (b ∷ bytes) d f = push_literal_op-Fits size (b ∷ bytes) d.ops f

pub push_literal-basis_size :
    (bytes : Bytes) (d : Delta) → (push_literal bytes d).basis_size ≡ d.basis_size
unfolding push_literal
push_literal-basis_size [] d = refl
push_literal-basis_size (b ∷ bytes) d = refl

pub push_copy-basis_size :
    (offset len : ℕ) (d : Delta) → (push_copy offset len d).basis_size ≡ d.basis_size
unfolding push_copy
push_copy-basis_size offset zero d = refl
push_copy-basis_size offset (suc len) d = rw (suc==zero len)

validate_ops_iff :
    (size : ℕ) (ops : List DeltaOp)
    → size < 2 ^ 64 - 1
    → (validate_ops size ops ≡ ok tt) ↔ Fits size ops
unfolding validate_ops
validate_ops_iff size [] h = (λ _. tt, λ _. refl)
validate_ops_iff size (literal bytes ∷ ops) h =
    let ih = validate_ops_iff size ops h in (λ e. (tt, ih.0 e), λ (_, f). ih.1 f)
validate_ops_iff size (copy o l ∷ ops) h = elim (Bool-cases (ltb size (saturating_add o l))) [
  | inl out ↦ rw out (λ e. cc, λ ((inside, _), _). absurd (ground arith))
  | inr fits ↦
      let ih = validate_ops_iff size ops h in
      rw fits (λ e. ((ground arith, omega arith), ih.0 e), λ (_, f). ih.1 f)
]

-- `validate` accepts a delta exactly when every copy ends within the basis, for every basis size
-- below the largest u64, at which the saturated end of an overlong copy would slip through.
pub validate_iff :
    (d : Delta) → d.basis_size < 2 ^ 64 - 1 → (validate d ≡ ok tt) ↔ Fits d.basis_size d.ops
unfolding validate
validate_iff d h = validate_ops_iff d.basis_size d.ops h

pub length-slice :
    (offset len : ℕ) (basis : Bytes)
    → offset + len ≤ length basis
    → length (slice offset len basis) ≡ len
length-slice offset len basis h =
    omega (arith, length-take len (drop offset basis), length-drop offset basis)

length-output :
    (basis : Bytes) (ops : List DeltaOp)
    → Fits (length basis) ops
    → length (output basis ops) ≡ sum_matched ops + sum_literal ops
unfolding sum_matched sum_literal
length-output basis [] f = omega arith
length-output basis (copy o l ∷ ops) ((inside, _), f) = omega (
  arith,
  length-append (slice o l basis) (output basis ops),
  length-slice o l basis inside,
  length-output basis ops f,
)
length-output basis (literal bytes ∷ ops) (_, f) =
    omega (arith, length-append bytes (output basis ops), length-output basis ops f)

-- The matched and the literal bytes of a delta within the basis add up to the length of what it
-- stands for.
bytes_matched-add-bytes_literal :
    (basis : Bytes) (d : Delta)
    → Fits (length basis) d.ops
    → bytes_matched d + bytes_literal d ≡ length (output basis d.ops)
unfolding bytes_matched bytes_literal
bytes_matched-add-bytes_literal basis d f = omega (arith, length-output basis d.ops f)
