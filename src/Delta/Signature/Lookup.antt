-- ===== src/Delta/Signature/Lookup.antt =====
-- src/delta/signature.rs, the lookup table, against a walk over the chunks.
use cp.Common.{ℕ, ◌+◌, ◌≡◌, refl, arith, Bytes, List, [], ◌∷◌, ◌++◌, Option, none, some}
use cp.Common.{
  inl, inr, if◌then◌else◌, get_elem?, bytes_eq, bytes_eq_iff, Bool-cases, length, length-append,
  append_assoc,
}
use cp.Delta.Signature.{
  ChunkSignature, Signature, hash_get, or_insert, insert_chunks, from_signature, find,
}

-- A walk over the chunks from the front.
unfoldable pub first_with : Bytes → List ChunkSignature → Option ChunkSignature
first_with h [] = none
first_with h (c ∷ cs) = if bytes_eq c.strong_hash h then some c else first_with h cs

index_with : Bytes → ℕ → List ChunkSignature → Option ℕ
index_with h i [] = none
index_with h i (c ∷ cs) = if bytes_eq c.strong_hash h then some i else index_with h (i + 1) cs

abbrev or_else : Option ℕ → Option ℕ → Option ℕ
or_else none o = o
or_else (some i) o = some i

hash_get-or_insert :
    (h k : Bytes) (i : ℕ) (m : List (Bytes × ℕ))
    → hash_get h (or_insert k i m) ≡ or_else (hash_get h m) (if bytes_eq k h then some i else none)
unfolding hash_get or_insert
hash_get-or_insert h k i [] = ground arith
hash_get-or_insert h k i ((j, n) ∷ m) =
    ground (arith, hash_get-or_insert h k i m, bytes_eq_iff j h, bytes_eq_iff k h, bytes_eq_iff j k)

hash_get-insert_chunks :
    (h : Bytes) (i : ℕ) (cs : List ChunkSignature) (m : List (Bytes × ℕ))
    → hash_get h (insert_chunks i cs m) ≡ or_else (hash_get h m) (index_with h i cs)
unfolding insert_chunks index_with
hash_get-insert_chunks h i [] m = ground arith
hash_get-insert_chunks h i (c ∷ cs) m = ground (
  arith,
  hash_get-insert_chunks h (i + 1) cs (or_insert c.strong_hash i m),
  hash_get-or_insert h c.strong_hash i m,
)

abbrev at : List ChunkSignature → Option ℕ → Option ChunkSignature
at cs none = none
at cs (some i) = get_elem? cs i

get_elem?-length :
    (ds cs : List ChunkSignature) (c : ChunkSignature)
    → get_elem? (ds ++ (c ∷ cs)) (length ds) ≡ some c
get_elem?-length [] cs c = refl
get_elem?-length (d ∷ ds) cs c = get_elem?-length ds cs c

index_with-first :
    (h : Bytes) (ds cs : List ChunkSignature)
    → at (ds ++ cs) (index_with h (length ds) cs) ≡ first_with h cs
unfolding index_with first_with
index_with-first h ds [] = refl
index_with-first h ds (c ∷ cs) = elim (Bool-cases (bytes_eq c.strong_hash h)) [
  | inl e ↦ rw e (get_elem?-length ds cs c)
  | inr e ↦ rw e (
      let ih = index_with-first h (ds ++ (c ∷ [])) cs in
      let n : length (ds ++ (c ∷ [])) ≡ length ds + 1 = omega (arith, length-append ds (c ∷ [])) in
      rw (append_assoc, n) at ih)
]

-- Looking a digest up in the table of a signature gives the first chunk that carries it, and
-- nothing when no chunk does.
pub find-from_signature :
    (h : Bytes) (s : Signature) → find h (from_signature s) ≡ first_with h s.chunks
unfolding find from_signature
find-from_signature h s =
    rw (hash_get-insert_chunks h 0 s.chunks [], find) (unfold hash_get in found)
  where
    found : at s.chunks (index_with h 0 s.chunks) ≡ first_with h s.chunks
    found = index_with-first h [] s.chunks
