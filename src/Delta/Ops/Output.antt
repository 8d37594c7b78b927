-- ===== src/Delta/Ops/Output.antt =====
-- What a delta stands for: the bytes that its operations describe over a basis.
use cp.Common.{ℕ, zero, suc, ◌+◌, ◌^◌, ◌≤◌, ◌<◌, ◌≡◌, refl, sym, ap, arith}
use cp.Common.{Bytes, List, [], ◌∷◌, ◌++◌, append-nil, append_assoc, inl, inr}
use cp.Common.{take, drop, Bool-cases, suc==zero, All}
use cp.Delta.Ops.{
  DeltaOp, copy, literal, Delta, extends_copy, push_copy_op, push_copy, push_literal_op,
  push_literal,
}

-- `len` bytes from `offset` on
abbrev pub slice : ℕ → ℕ → Bytes → Bytes
slice offset len basis = take len (drop offset basis)

abbrev pub output_op : Bytes → DeltaOp → Bytes
output_op basis (copy offset len) = slice offset len basis
output_op basis (literal bytes) = bytes

abbrev pub output : Bytes → List DeltaOp → Bytes
output basis [] = []
output basis (op ∷ ops) = output_op basis op ++ output basis ops

-- Every copy lies within the basis, and offsets fit a u64.
abbrev pub FitsOp : ℕ → DeltaOp → Type 0
FitsOp size (copy offset len) = (offset + len ≤ size) × (size < 2 ^ 64)
FitsOp size (literal bytes) = Unit

abbrev pub Fits : ℕ → List DeltaOp → Type 0
Fits size = All (FitsOp size)

pub take-add : (m n : ℕ) (xs : Bytes) → take (m + n) xs ≡ take m xs ++ take n (drop m xs)
take-add zero n xs = ap (λ (k : ℕ). take k xs) (omega arith)
take-add (suc m) n [] = let e : suc m + n ≡ suc (m + n) = omega arith in rw e (nil n)
  where
    nil : (n : ℕ) → ◌≡◌ {A = Bytes} [] (take n [])
    nil zero = refl
    nil (suc n) = refl
take-add (suc m) n (x ∷ xs) =
    let e : suc m + n ≡ suc (m + n) = omega arith in rw e (ap (◌∷◌ x) (take-add m n xs))

pub drop-add : (m n : ℕ) (xs : Bytes) → drop (m + n) xs ≡ drop n (drop m xs)
drop-add zero n xs = ap (λ (k : ℕ). drop k xs) (omega arith)
drop-add (suc m) n [] = let e : suc m + n ≡ suc (m + n) = omega arith in rw e (nil n)
  where
    nil : (n : ℕ) → ◌≡◌ {A = Bytes} [] (drop n [])
    nil zero = refl
    nil (suc n) = refl
drop-add (suc m) n (x ∷ xs) =
    let e : suc m + n ≡ suc (m + n) = omega arith in rw e (drop-add m n xs)

-- Adjacent slices are one slice.
pub slice-add :
    (offset m n : ℕ) (basis : Bytes)
    → slice offset (m + n) basis ≡ slice offset m basis ++ slice (offset + m) n basis
slice-add offset m n basis = rw drop-add (take-add m n (drop offset basis))

output-push_copy_op :
    (basis : Bytes) (size offset len : ℕ) (ops : List DeltaOp)
    → Fits size ops
    → output basis (push_copy_op offset len ops) ≡ output basis ops ++ slice offset len basis
unfolding push_copy_op
output-push_copy_op basis size offset len [] f = append-nil _
output-push_copy_op basis size offset len (op ∷ next ∷ ops) (_, f) =
    rw (output-push_copy_op basis size offset len (next ∷ ops) f)
      (sym (append_assoc (output_op basis op) (output basis (next ∷ ops)) (slice offset len basis)))
output-push_copy_op basis size offset len (copy o l ∷ []) ((inside, small), _) =
    elim (Bool-cases (extends_copy o l offset len)) [
      | inl e ↦
          let at : offset ≡ o + l = ground arith in
          rw (e, at, append-nil, append-nil) (slice-add o l len basis)
      | inr e ↦ rw (e, append-nil, append-nil) refl
    ]
output-push_copy_op basis size offset len (literal bytes ∷ []) f = rw (append-nil, append-nil) refl

-- Appending a copy to a delta within bounds appends exactly the copied bytes to what it stands for,
-- merged into the last operation or not; so does a copy of no bytes.
pub output-push_copy :
    (basis : Bytes) (size offset len : ℕ) (d : Delta)
    → Fits size d.ops
    → output basis (push_copy offset len d).ops ≡ output basis d.ops ++ slice offset len basis
unfolding push_copy
output-push_copy basis size offset zero d f = sym (append-nil _)
output-push_copy basis size offset (suc len) d f =
    rw (suc==zero len) (output-push_copy_op basis size offset (suc len) d.ops f)

output-push_literal_op :
    (basis bytes : Bytes) (ops : List DeltaOp)
    → output basis (push_literal_op bytes ops) ≡ output basis ops ++ bytes
unfolding push_literal_op
output-push_literal_op basis bytes [] = append-nil _
output-push_literal_op basis bytes (op ∷ next ∷ ops) =
    rw (output-push_literal_op basis bytes (next ∷ ops))
      (sym (append_assoc (output_op basis op) (output basis (next ∷ ops)) bytes))
output-push_literal_op basis bytes (literal prev ∷ []) = rw (append-nil, append-nil) refl
output-push_literal_op basis bytes (copy o l ∷ []) = rw (append-nil, append-nil) refl

-- Appending literal bytes to a delta appends them to what it stands for, merged or not.
pub output-push_literal :
    (basis bytes : Bytes) (d : Delta)
    → output basis (push_literal bytes d).ops ≡ output basis d.ops ++ bytes
unfolding push_literal
output-push_literal basis [] d = sym (append-nil _)
output-push_literal basis (b ∷ bytes) d = output-push_literal_op basis (b ∷ bytes) d.ops
