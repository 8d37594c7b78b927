-- ===== src/Delta/Signature.antt =====
-- src/delta/signature.rs: the signature of a basis and its lookup table.
-- The table's map from digest to first index is a list of its entries.
pub mod Lookup
use cp.Common.{ℕ, suc, ◌+◌, Bytes, List, [], ◌∷◌, ◌++◌, Option, none, some}
use cp.Common.{Bool, true, false, if◌then◌else◌, get_elem?, bytes_eq}

pub record ChunkSignature : Type 0 where
  pub offset : ℕ
  pub len : ℕ
  pub weak : Option ℕ
  pub strong_hash : Bytes

pub record Signature : Type 0 where
  pub file_size : ℕ
  pub chunks : List ChunkSignature

-- `ChunkSignature::from_parts`
abbrev pub from_parts : ℕ → ℕ → Bytes → ChunkSignature
from_parts offset len strong_hash = record {
  offset = offset;
  len = len;
  weak = none;
  strong_hash = strong_hash;
}

pub record SignatureTable : Type 0 where
  pub by_hash : List (Bytes × ℕ)
  pub signature : Signature

hash_get : Bytes → List (Bytes × ℕ) → Option ℕ
hash_get h [] = none
hash_get h ((k, i) ∷ m) = if bytes_eq k h then some i else hash_get h m

-- `by_hash.entry(hash).or_insert(i)`
or_insert : Bytes → ℕ → List (Bytes × ℕ) → List (Bytes × ℕ)
or_insert h i [] = (h, i) ∷ []
or_insert h i ((k, j) ∷ m) = if bytes_eq k h then (k, j) ∷ m else (k, j) ∷ or_insert h i m

-- The loop over `chunks.iter().enumerate()`
insert_chunks : ℕ → List ChunkSignature → List (Bytes × ℕ) → List (Bytes × ℕ)
insert_chunks i [] m = m
insert_chunks i (c ∷ cs) m = insert_chunks (i + 1) cs (or_insert c.strong_hash i m)

unfoldable pub from_signature : Signature → SignatureTable
unfolding insert_chunks or_insert bytes_eq
from_signature signature = record {
  by_hash = insert_chunks 0 signature.chunks [];
  signature = signature;
}

-- An index that the map holds is within the chunks, so the `none` of `get_elem?` is not met.
unfoldable pub find : Bytes → SignatureTable → Option ChunkSignature
unfolding hash_get bytes_eq
find strong table = elim (hash_get strong table.by_hash) [
  | none ↦ none
  | some i ↦ get_elem? table.signature.chunks i
]

abbrev pub no_chunks : List ChunkSignature → Bool
no_chunks [] = true
no_chunks (c ∷ cs) = false

-- `SignatureTable::is_empty`
unfoldable pub is_empty : SignatureTable → Bool
is_empty table = no_chunks table.signature.chunks
