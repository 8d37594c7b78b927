-- ===== src/Delta/Ops.antt =====
-- src/delta/ops.rs: a delta and its operations. A digest is its 32 bytes.
pub mod Output
pub mod Bounds
use cp.Common.{ℕ, ◌+◌, ◌%◌, ◌^◌, ◌-◌, Bytes, List, [], ◌∷◌, ◌++◌, Option, none, some}
use cp.Common.{Bool, true, false, ◌&&◌, ltb, ◌==◌, if◌then◌else◌, length, min}
use cp.Delta.Error.{DeltaResult, ok, err, invalid_copy_bounds}

pub data DeltaOp : Type 0 where
  copy : ℕ → ℕ → DeltaOp
  literal : Bytes → DeltaOp

pub record Delta : Type 0 where
  pub source_size : ℕ
  pub basis_size : ℕ
  pub ops : List DeltaOp
  pub checksum : Option Bytes

-- `Delta::new`
abbrev pub new : ℕ → ℕ → Delta
new source_size basis_size = record {
  source_size = source_size;
  basis_size = basis_size;
  ops = [];
  checksum = none;
}

-- `*prev_offset + u64::from(*prev_len) == offset` on u64, and `prev_len.checked_add(len)` on u32.
abbrev extends_copy : ℕ → ℕ → ℕ → ℕ → Bool
extends_copy prev_offset prev_len offset len =
    (prev_offset + prev_len) % 2 ^ 64 == offset && ltb (prev_len + len) (2 ^ 32)

-- The new operation list, by a walk to the last operation.
push_copy_op : ℕ → ℕ → List DeltaOp → List DeltaOp
push_copy_op offset len [] = copy offset len ∷ []
push_copy_op offset len (op ∷ next ∷ ops) = op ∷ push_copy_op offset len (next ∷ ops)
push_copy_op offset len (copy prev_offset prev_len ∷ []) =
    if extends_copy prev_offset prev_len offset len
    then copy prev_offset (prev_len + len) ∷ []
    else copy prev_offset prev_len ∷ copy offset len ∷ []
push_copy_op offset len (literal bytes ∷ []) = literal bytes ∷ copy offset len ∷ []

unfoldable pub push_copy : ℕ → ℕ → Delta → Delta
unfolding push_copy_op
push_copy offset len d = if len == 0 then d else record d { ops = push_copy_op offset len d.ops }

push_literal_op : Bytes → List DeltaOp → List DeltaOp
push_literal_op bytes [] = literal bytes ∷ []
push_literal_op bytes (op ∷ next ∷ ops) = op ∷ push_literal_op bytes (next ∷ ops)
push_literal_op bytes (literal prev ∷ []) = literal (prev ++ bytes) ∷ []
push_literal_op bytes (copy offset len ∷ []) = copy offset len ∷ literal bytes ∷ []

-- `push_literal`, and `push_literal_owned`, which differs in who owns the buffer.
unfoldable pub push_literal : Bytes → Delta → Delta
unfolding push_literal_op
push_literal [] d = d
push_literal (b ∷ bytes) d = record d { ops = push_literal_op (b ∷ bytes) d.ops }

sum_matched : List DeltaOp → ℕ
sum_matched [] = 0
sum_matched (copy offset len ∷ ops) = len + sum_matched ops
sum_matched (literal bytes ∷ ops) = sum_matched ops

sum_literal : List DeltaOp → ℕ
sum_literal [] = 0
sum_literal (copy offset len ∷ ops) = sum_literal ops
sum_literal (literal bytes ∷ ops) = length bytes + sum_literal ops

unfoldable pub bytes_matched : Delta → ℕ
unfolding sum_matched
bytes_matched d = sum_matched d.ops

unfoldable pub bytes_literal : Delta → ℕ
unfolding sum_literal
bytes_literal d = sum_literal d.ops

-- `offset.saturating_add(len)` on u64
abbrev pub saturating_add : ℕ → ℕ → ℕ
saturating_add a b = min (a + b) (2 ^ 64 - 1)

unfoldable pub validate_ops : ℕ → List DeltaOp → DeltaResult (Unit {0})
validate_ops basis_size [] = ok tt
validate_ops basis_size (literal bytes ∷ ops) = validate_ops basis_size ops
validate_ops basis_size (copy offset len ∷ ops) =
    if ltb basis_size (saturating_add offset len)
    then err (invalid_copy_bounds offset len basis_size)
    else validate_ops basis_size ops

unfoldable pub validate : Delta → DeltaResult (Unit {0})
unfolding validate_ops
validate d = validate_ops d.basis_size d.ops
