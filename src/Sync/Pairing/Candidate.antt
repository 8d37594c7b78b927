-- ===== src/Sync/Pairing/Candidate.antt =====
-- Which entry `indexed_candidate` of src/sync/sender.rs finds.
use mathlib.Core.List.{Memᴰ}
use mathlib.Core.List.Memᴰ
use cp.Common.{
  ℕ, ◌≤◌, ◌<◌, ◌^◌, ◌≡◌, ◌⊎◌, sym, subst, ap, inl, inr, List, Option, none, some, Bytes, arith,
}
use cp.Sync.Pairing.{
  StemKey, StemEntry, Best, found_of, no_basis, stem_key, proper_prefixes, indexed_candidate,
  cross_basis_min,
}
use cp.Sync.Pairing.Stems.{IsProperPrefix, proper_prefixes_sound, proper_prefixes_complete}
use cp.Sync.Pairing.Nearest.{
  IsNear, distance, Chosen, Sized, UnderStems, consider_all-Chosen, consider_prefixes-Chosen,
}
use cp.Sync.Pairing.Index.{register_all, register_all-by_stem, register_all-extends, Large}

-- Same parent and extension, one stem a proper prefix of the other
abbrev pub AreSiblings : StemKey → StemKey → Type 0
AreSiblings k k' = (k.0 ≡ k'.0) × (k.1 ≡ k'.1) × (IsProperPrefix k.2 k'.2 ⊎ IsProperPrefix k'.2 k.2)

-- An earlier sibling whose size is within a factor of two
abbrev pub IsBasis : List StemEntry → Bytes → ℕ → StemEntry → Type 0
IsBasis prior rel size o =
    Memᴰ o prior × AreSiblings (stem_key rel) (stem_key o.rel) × IsNear size o

-- No entry may be the basis, or the one found may and none that may is nearer in size.
abbrev pub IsClosest : List StemEntry → Bytes → ℕ → Option (Bytes × ℕ) → Type 0
IsClosest prior rel size none = (o : StemEntry) → ¬ (IsBasis prior rel size o)
IsClosest prior rel size (some (r, n)) =
    (e : StemEntry) × (e.rel ≡ r)
    × (e.size ≡ n)
    × IsBasis prior rel size e
    × ((o : StemEntry) → IsBasis prior rel size o → distance size e ≤ distance size o)

module _ (prior : List StemEntry) (rel : Bytes) (size : ℕ) where
  -- What the two passes of the search see
  abbrev Seen : StemEntry → Type 0
  Seen o =
      (Memᴰ o (no_basis.by_stem (stem_key rel))
        ⊎ UnderStems (stem_key rel) (register_all prior no_basis).by_stem
            (proper_prefixes (stem_key rel).2) o)
      ⊎ Memᴰ o ((register_all prior no_basis).extends (stem_key rel))

  abbrev Sibling : StemEntry → Type 0
  Sibling o = Memᴰ o prior × AreSiblings (stem_key rel) (stem_key o.rel)

  Seen-Sibling : (o : StemEntry) → Seen o → Sibling o
  Seen-Sibling o (inl (inl m)) = absurd (Memᴰ.not-nil m)
  Seen-Sibling o (inl (inr (p, prefix, m))) =
      elim ((register_all-by_stem ((stem_key rel).0, (stem_key rel).1, p) prior o no_basis).0 m) [
        | inl old ↦ absurd (Memᴰ.not-nil old)
        | inr ((big, at_key), member) ↦ (
          member,
          (
            sym (ap (λ (k : StemKey). k.0) at_key),
            sym (ap (λ (k : StemKey). k.1) at_key),
            inr (
                subst (λ s. IsProperPrefix s (stem_key rel).2)
                  (sym (ap (λ (k : StemKey). k.2) at_key))
                  (proper_prefixes_sound p (stem_key rel).2 prefix)),
          ),
        )
      ]
  Seen-Sibling o (inr m) = elim ((register_all-extends (stem_key rel) prior o no_basis).0 m) [
    | inl old ↦ absurd (Memᴰ.not-nil old)
    | inr ((big, (parent, ext, prefix)), member) ↦ (
      member,
      (sym parent, sym ext, inl (proper_prefixes_sound (stem_key rel).2 (stem_key o.rel).2 prefix)),
    )
  ]

  Sibling-Seen : (o : StemEntry) → Large o → Sibling o → Seen o
  Sibling-Seen o big (member, (parent, ext, inl prefix)) = inr (
      (register_all-extends (stem_key rel) prior o no_basis).1 (
        inr (
          (
            big,
            (
              sym parent,
              sym ext,
              proper_prefixes_complete (stem_key rel).2 (stem_key o.rel).2 prefix,
            ),
          ),
          member,
        )))
  Sibling-Seen o big (member, (parent, ext, inr prefix)) = inl (
      inr (
        (stem_key o.rel).2,
        proper_prefixes_complete (stem_key o.rel).2 (stem_key rel).2 prefix,
        (register_all-by_stem ((stem_key rel).0, (stem_key rel).1, (stem_key o.rel).2) prior o
              no_basis).1
            (inr ((big, λ i. (sym parent i, sym ext i, (stem_key o.rel).2)), member)),
      ))

  near-Large : (o : StemEntry) → cross_basis_min ≤ size → IsNear size o → Large o
  near-Large o h near = omega (arith, h, near)

  Chosen-IsClosest :
      (best : Best)
      → cross_basis_min ≤ size
      → Chosen size Seen best
      → IsClosest prior rel size (found_of best)
  Chosen-IsClosest none h all = λ o basis.
      let (member, siblings, near) = basis in
      all o (Sibling-Seen o (near-Large o h near) (member, siblings)) near
  Chosen-IsClosest (some (d, (r, n))) h (e, seen, near, name, size_of, diff, least) = (
    e,
    name,
    size_of,
    ((Seen-Sibling e seen).0, (Seen-Sibling e seen).1, near),
    λ o basis.
        let (member, siblings, nearo) = basis in
        subst (λ x. x ≤ distance size o) diff
          (least o (Sibling-Seen o (near-Large o h nearo) (member, siblings)) nearo),
  )

  by_stem-Sized : Sized prior → (k : StemKey) → Sized ((register_all prior no_basis).by_stem k)
  by_stem-Sized sized k o m = elim ((register_all-by_stem k prior o no_basis).0 m) [
    | inl old ↦ absurd (Memᴰ.not-nil old)
    | inr (at_key, member) ↦ sized o member
  ]

  extends-Sized : Sized prior → (k : StemKey) → Sized ((register_all prior no_basis).extends k)
  extends-Sized sized k o m = elim ((register_all-extends k prior o no_basis).0 m) [
    | inl old ↦ absurd (Memᴰ.not-nil old)
    | inr (at_key, member) ↦ sized o member
  ]

  -- Over the index of the earlier files, for a file of at least `CROSS_BASIS_MIN` and sizes of 64
  -- bits, the candidate is an earlier file of the same directory and extension whose stem is a proper
  -- prefix of the file's or the other way round, with a size within a factor of two, and no other such
  -- file is nearer in size; nothing is found exactly when there is no such file, however small the
  -- files that were not registered.
  pub indexed_candidate-IsClosest :
      cross_basis_min ≤ size
      → size < 2 ^ 64
      → Sized prior
      → IsClosest prior rel size (indexed_candidate (register_all prior no_basis) rel size)
  unfolding indexed_candidate
  indexed_candidate-IsClosest big small sized = Chosen-IsClosest _ big (
      consider_all-Chosen size
        (λ o.
          Memᴰ o (no_basis.by_stem (stem_key rel))
          ⊎ UnderStems (stem_key rel) (register_all prior no_basis).by_stem
              (proper_prefixes (stem_key rel).2) o)
        ((register_all prior no_basis).extends (stem_key rel)) _ small
        (extends-Sized sized (stem_key rel))
        (consider_prefixes-Chosen size (stem_key rel) (register_all prior no_basis).by_stem
          (λ o. Memᴰ o (no_basis.by_stem (stem_key rel))) (proper_prefixes (stem_key rel).2) none
          small (by_stem-Sized sized) (λ o m. absurd (Memᴰ.not-nil m))))
