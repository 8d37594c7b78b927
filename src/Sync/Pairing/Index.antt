-- ===== src/Sync/Pairing/Index.antt =====
-- What `register_basis_entry` leaves in the two indices.
use mathlib.Core.List.{Memᴰ}
use mathlib.Core.List.Memᴰ
use cp.Common.{
  ◌≤◌, ◌≡◌, ◌⊎◌, ◌↔◌, sym, subst, ap, inl, inr, List, [], ◌∷◌, Option, true, false, Bool-cases,
  Bytes, ltb, arith,
}
use cp.Sync.Pairing.{
  StemKey, StemEntry, StemMap, BasisIndex, stem_key, proper_prefixes, key_eq, push_entry,
  push_prefixes, register_basis_entry,
}
use cp.Sync.Pairing.Stems.{key_eq_iff}

-- Registering the entries of a list in order
unfoldable pub register_all : List StemEntry → BasisIndex → BasisIndex
unfolding register_basis_entry
register_all [] index = index
register_all (e ∷ es) index = register_all es (register_basis_entry e.rel e.size index)

push_entry-mem :
    (key k : StemKey) (e o : StemEntry) (m : StemMap)
    → Memᴰ o (push_entry key e m k) ↔ (Memᴰ o (m k) ⊎ ((key ≡ k) × (o ≡ e)))
push_entry-mem key k e o m = (to, from)
  where
    to : Memᴰ o (push_entry key e m k) → Memᴰ o (m k) ⊎ ((key ≡ k) × (o ≡ e))
    to member = elim (Bool-cases (key_eq key k)) [
      | inr other ↦ inl (rw other at member)
      | inl same ↦ elim (Memᴰ.append_cases (m k) (rw same at member)) [
        | inl old ↦ inl old
        | inr new ↦ inr ((key_eq_iff key k).0 same, Memᴰ.eq_of_singleton new)
      ]
    ]

    from : Memᴰ o (m k) ⊎ ((key ≡ k) × (o ≡ e)) → Memᴰ o (push_entry key e m k)
    from (inl old) = elim (Bool-cases (key_eq key k)) [
      | inr other ↦ rw other old
      | inl same ↦ rw same (Memᴰ.append_left (e ∷ []) old)
    ]
    from (inr (same, is)) = rw ((key_eq_iff key k).1 same) (Memᴰ.append_right (m k) (Memᴰ.head is))

push_prefixes-mem :
    (parent : Bytes) (ext : Option Bytes) (ps : List Bytes) (k : StemKey) (e o : StemEntry)
    (m : StemMap)
    → Memᴰ o (push_prefixes parent ext ps e m k)
      ↔ (Memᴰ o (m k) ⊎ (((parent ≡ k.0) × (ext ≡ k.1) × Memᴰ k.2 ps) × (o ≡ e)))
unfolding push_prefixes
push_prefixes-mem parent ext [] k e o m = (
  λ member. inl member,
  λ s. elim s [ inl old ↦ old | inr ((p, x, none_of), is) ↦ absurd (Memᴰ.not-nil none_of) ],
)
push_prefixes-mem parent ext (p ∷ ps) k e o m = (
  λ member. elim ((push_prefixes-mem parent ext ps k e o later).0 member) [
    | inr ((a, b, below), is) ↦ inr ((a, b, Memᴰ.tail below), is)
    | inl old ↦ elim ((push_entry-mem (parent, ext, p) k e o m).0 old) [
      | inl older ↦ inl older
      | inr (same, is) ↦
          let stem : k.2 ≡ p = ap (λ (x : StemKey). x.2) (sym same) in
          inr ((ap (λ (x : StemKey). x.0) same, ap (λ (x : StemKey). x.1) same, Memᴰ.head stem), is)
    ]
  ],
  λ s. (push_prefixes-mem parent ext ps k e o later).1 (elim s [
    | inl old ↦ inl ((push_entry-mem (parent, ext, p) k e o m).1 (inl old))
    | inr ((a, b, below), is) ↦ elim (Memᴰ.cases_cons below) [
      | inr deeper ↦ inr ((a, b, deeper), is)
      | inl here ↦
          inl ((push_entry-mem (parent, ext, p) k e o m).1 (inr (λ i. (a i, b i, sym here i), is)))
    ]
  ]),
)
  where
    later : StemMap
    later = push_entry (parent, ext, p) e m

-- Registered at a key, and at those of its proper prefixes
abbrev pub AtStem : StemKey → StemEntry → Type 0
AtStem k o = stem_key o.rel ≡ k

abbrev pub Extending : StemKey → StemEntry → Type 0
Extending k o =
    ((stem_key o.rel).0 ≡ k.0)
    × ((stem_key o.rel).1 ≡ k.1)
    × Memᴰ k.2 (proper_prefixes (stem_key o.rel).2)

abbrev pub Large : StemEntry → Type 0
Large o = 524288 ≤ o.size

module _ (e o : StemEntry) (Q : StemEntry → Type 0) {Y : Type 0} where
  -- A small entry is not registered.
  unregistered_entry : ltb e.size 524288 ≡ true → Y ↔ (Y ⊎ ((Large o × Q o) × (o ≡ e)))
  unregistered_entry small = (
    λ y. inl y,
    λ s. elim s [ inl y ↦ y | inr ((big, q), is) ↦ absurd (refuted (subst Large is big)) ],
  )
    where
      refuted : ¬ (524288 ≤ e.size)
      refuted h = ground arith

  registered_entry :
      {X : Type 0}
      → ltb e.size 524288 ≡ false
      → X ↔ (Y ⊎ (Q e × (o ≡ e)))
      → X ↔ (Y ⊎ ((Large o × Q o) × (o ≡ e)))
  registered_entry large (to, from) = (
    λ x. elim (to x) [
      | inl y ↦ inl y
      | inr (q, is) ↦ inr ((subst Large (sym is) big, subst Q (sym is) q), is)
    ],
    λ s. elim s [ inl y ↦ from (inl y) | inr ((b, q), is) ↦ from (inr (subst Q is q, is)) ],
  )
    where
      big : 524288 ≤ e.size
      big = ground arith

register-by_stem :
    (k : StemKey) (e o : StemEntry) (index : BasisIndex)
    → Memᴰ o ((register_basis_entry e.rel e.size index).by_stem k)
      ↔ (Memᴰ o (index.by_stem k) ⊎ ((Large o × AtStem k o) × (o ≡ e)))
unfolding register_basis_entry
register-by_stem k e o index = elim (Bool-cases (ltb e.size 524288)) [
  | inl small ↦ rw small (unregistered_entry e o (AtStem k) small)
  | inr large ↦
      rw large (
        registered_entry e o (AtStem k) large (push_entry-mem (stem_key e.rel) k e o index.by_stem))
]

register-extends :
    (k : StemKey) (e o : StemEntry) (index : BasisIndex)
    → Memᴰ o ((register_basis_entry e.rel e.size index).extends k)
      ↔ (Memᴰ o (index.extends k) ⊎ ((Large o × Extending k o) × (o ≡ e)))
unfolding register_basis_entry
register-extends k e o index = elim (Bool-cases (ltb e.size 524288)) [
  | inl small ↦ rw small (unregistered_entry e o (Extending k) small)
  | inr large ↦ rw large (
      registered_entry e o (Extending k) large (
        push_prefixes-mem (stem_key e.rel).0 (stem_key e.rel).1 (proper_prefixes (stem_key e.rel).2)
          k e o index.extends))
]

module _ (look : BasisIndex → List StemEntry) (P : StemEntry → Type 0)
    (step : (e o : StemEntry) (index : BasisIndex)
      → Memᴰ o (look (register_basis_entry e.rel e.size index))
        ↔ (Memᴰ o (look index) ⊎ (P o × (o ≡ e)))) where
  register_all-mem :
      (es : List StemEntry) (o : StemEntry) (index : BasisIndex)
      → Memᴰ o (look (register_all es index)) ↔ (Memᴰ o (look index) ⊎ (P o × Memᴰ o es))
  unfolding register_all
  register_all-mem [] o index =
      (λ m. inl m, λ s. elim s [ inl m ↦ m | inr (p, m) ↦ absurd (Memᴰ.not-nil m) ])
  register_all-mem (e ∷ es) o index =
      let (to, from) = register_all-mem es o (register_basis_entry e.rel e.size index) in
      let (to', from') = step e o index in
      (
        λ m. elim (to m) [
          | inr (p, later) ↦ inr (p, Memᴰ.tail later)
          | inl now ↦ elim (to' now) [ inl old ↦ inl old | inr (p, is) ↦ inr (p, Memᴰ.head is) ]
        ],
        λ s. elim s [
          | inl old ↦ from (inl (from' (inl old)))
          | inr (p, m) ↦ elim (Memᴰ.cases_cons m) [
            | inl is ↦ from (inl (from' (inr (p, is))))
            | inr later ↦ from (inr (p, later))
          ]
        ],
      )

pub register_all-by_stem :
    (k : StemKey) (es : List StemEntry) (o : StemEntry) (index : BasisIndex)
    → Memᴰ o ((register_all es index).by_stem k)
      ↔ (Memᴰ o (index.by_stem k) ⊎ ((Large o × AtStem k o) × Memᴰ o es))
register_all-by_stem k =
    register_all-mem (λ index. index.by_stem k) (λ o. Large o × AtStem k o) (register-by_stem k)

pub register_all-extends :
    (k : StemKey) (es : List StemEntry) (o : StemEntry) (index : BasisIndex)
    → Memᴰ o ((register_all es index).extends k)
      ↔ (Memᴰ o (index.extends k) ⊎ ((Large o × Extending k o) × Memᴰ o es))
register_all-extends k =
    register_all-mem (λ index. index.extends k) (λ o. Large o × Extending k o) (register-extends k)
