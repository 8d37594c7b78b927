-- ===== src/Sync/Pairing/Nearest.antt =====
-- The search for the entry that is nearest in size, over the candidates of a key.
use mathlib.Core.List.{Memᴰ}
use mathlib.Core.List.Memᴰ
use cp.Common.{
  ℕ, ◌<◌, ◌≤◌, ◌*◌, ◌^◌, ◌-◌, min, max, ◌≡◌, ◌⊎◌, refl, inl, inr, List, [], ◌∷◌, none, some, true,
  false, Bool, Bool-cases, Bytes, arith, leb, subst, sym,
}
use cp.Sync.Pairing.{
  StemKey, StemEntry, StemMap, Best, is_nearer, consider, consider_all, consider_prefixes,
}

-- Within a factor of two
abbrev pub IsNear : ℕ → StemEntry → Type 0
IsNear size e = max size e.size ≤ 2 * min size e.size

abbrev pub distance : ℕ → StemEntry → ℕ
distance size e = max size e.size - min size e.size

-- The best of the entries seen: none is near, or it is near and none is nearer
abbrev pub Chosen : ℕ → (StemEntry → Type 0) → Best → Type 0
Chosen size Seen none = (o : StemEntry) → Seen o → ¬ (IsNear size o)
Chosen size Seen (some (d, (r, n))) =
    (e : StemEntry) × Seen e
    × IsNear size e
    × (e.rel ≡ r)
    × (e.size ≡ n)
    × (d ≡ distance size e)
    × ((o : StemEntry) → Seen o → IsNear size o → d ≤ distance size o)

abbrev within : ℕ → StemEntry → Bool
within size e = leb (max size e.size) (min (min size e.size * 2) (2 ^ 64 - 1))

within_sound : (size : ℕ) (e : StemEntry) → within size e ≡ true → IsNear size e
within_sound size e h = ground arith

within_complete :
    (size : ℕ) (e : StemEntry)
    → size < 2 ^ 64
    → e.size < 2 ^ 64
    → within size e ≡ false
    → ¬ (IsNear size e)
within_complete size e h h' f near = ground arith

is_nearer_sound : (k d : ℕ) (found : Bytes × ℕ) → is_nearer k (some (d, found)) ≡ true → k < d
is_nearer_sound k d found h = ground arith

is_nearer_complete : (k d : ℕ) (found : Bytes × ℕ) → is_nearer k (some (d, found)) ≡ false → d ≤ k
is_nearer_complete k d found h = ground arith

abbrev With : (StemEntry → Type 0) → StemEntry → StemEntry → Type 0
With Seen e o = Seen o ⊎ (o ≡ e)

module _ (size : ℕ) (Seen : StemEntry → Type 0) (e : StemEntry) where
  -- Passing over an entry that is not near
  passed :
      (best : Best) → ¬ (IsNear size e) → Chosen size Seen best → Chosen size (With Seen e) best
  passed none far chosen = λ o seen near. elim seen [
    | inl s ↦ chosen o s near
    | inr same ↦ far (subst (IsNear size) same near)
  ]
  passed (some (d, (r, n))) far (b, seen, near, name, size_of, diff, least) = (
    b,
    inl seen,
    near,
    name,
    size_of,
    diff,
    λ o s nearo. elim s [
      | inl s' ↦ least o s' nearo
      | inr same ↦ absurd (far (subst (IsNear size) same nearo))
    ],
  )

  taken :
      (best : Best)
      → IsNear size e
      → is_nearer (distance size e) best ≡ true
      → Chosen size Seen best
      → Chosen size (With Seen e) (some (distance size e, (e.rel, e.size)))
  taken best near nearer chosen = (
    e,
    inr refl,
    near,
    refl,
    refl,
    refl,
    λ o s nearo. elim s [
      | inl s' ↦ least best nearer chosen o s' nearo
      | inr same ↦ subst (λ x. distance size e ≤ distance size x) (sym same) (omega arith)
    ],
  )
    where
      least :
          (best' : Best)
          → is_nearer (distance size e) best' ≡ true
          → Chosen size Seen best'
          → (o : StemEntry) → Seen o
          → IsNear size o
          → distance size e ≤ distance size o
      least none h all o s nearo = absurd (all o s nearo)
      least (some (d, found)) h (b, seen, nearb, name, size_of, diff, below) o s nearo =
          omega (arith, is_nearer_sound (distance size e) d found h, below o s nearo)

  kept :
      (best : Best)
      → is_nearer (distance size e) best ≡ false
      → Chosen size Seen best
      → Chosen size (With Seen e) best
  kept none h chosen = cc h
  kept (some (d, found)) h (b, seen, near, name, size_of, diff, least) = (
    b,
    inl seen,
    near,
    name,
    size_of,
    diff,
    λ o s nearo. elim s [
      | inl s' ↦ least o s' nearo
      | inr same ↦
          subst (λ x. d ≤ distance size x) (sym same)
            (is_nearer_complete (distance size e) d found h)
    ],
  )

  consider-Chosen :
      (best : Best)
      → size < 2 ^ 64
      → e.size < 2 ^ 64
      → Chosen size Seen best
      → Chosen size (With Seen e) (consider size e best)
  consider-Chosen best h h' chosen = elim (Bool-cases (within size e)) [
    | inr far ↦ rw far (passed best (within_complete size e h h' far) chosen)
    | inl near ↦ elim (Bool-cases (is_nearer (distance size e) best)) [
      | inl nearer ↦ rw (near, nearer) (taken best (within_sound size e near) nearer chosen)
      | inr no_nearer ↦ rw (near, no_nearer) (kept best no_nearer chosen)
    ]
  ]

pub Chosen-same :
    (size : ℕ) (S T : StemEntry → Type 0) (best : Best)
    → ((o : StemEntry) → S o → T o)
    → ((o : StemEntry) → T o → S o)
    → Chosen size S best
    → Chosen size T best
Chosen-same size S T none to from all = λ o t near. all o (from o t) near
Chosen-same size S T (some (d, (r, n))) to from (b, seen, near, name, size_of, diff, least) =
    (b, to b seen, near, name, size_of, diff, λ o t nearo. least o (from o t) nearo)

-- Sizes of 64 bits
abbrev pub Sized : List StemEntry → Type 0
Sized es = (o : StemEntry) → Memᴰ o es → o.size < 2 ^ 64

pub consider_all-Chosen :
    (size : ℕ) (S : StemEntry → Type 0) (es : List StemEntry) (best : Best)
    → size < 2 ^ 64
    → Sized es
    → Chosen size S best
    → Chosen size (λ o. S o ⊎ Memᴰ o es) (consider_all size es best)
consider_all-Chosen size S [] best h sized chosen =
    Chosen-same size S (λ o. S o ⊎ Memᴰ o []) best (λ o s. inl s)
      (λ o s. elim s [ inl s' ↦ s' | inr m ↦ absurd (Memᴰ.not-nil m) ]) chosen
consider_all-Chosen size S (e ∷ es) best h sized chosen =
    Chosen-same size (λ o. With S e o ⊎ Memᴰ o es) (λ o. S o ⊎ Memᴰ o (e ∷ es))
      (consider_all size es (consider size e best)) to from
      (consider_all-Chosen size (With S e) es (consider size e best) h
        (λ o m. sized o (Memᴰ.tail m))
        (consider-Chosen size S e best h (sized e (Memᴰ.head refl)) chosen))
  where
    to : (o : StemEntry) → With S e o ⊎ Memᴰ o es → S o ⊎ Memᴰ o (e ∷ es)
    to o (inl (inl s)) = inl s
    to o (inl (inr same)) = inr (Memᴰ.head same)
    to o (inr m) = inr (Memᴰ.tail m)

    from : (o : StemEntry) → S o ⊎ Memᴰ o (e ∷ es) → With S e o ⊎ Memᴰ o es
    from o (inl s) = inl (inl s)
    from o (inr m) = elim (Memᴰ.cases_cons m) [ inl same ↦ inl (inr same) | inr m' ↦ inr m' ]

-- An entry under one of the keys with these stems
abbrev pub UnderStems : StemKey → StemMap → List Bytes → StemEntry → Type 0
UnderStems key m ps o = (p : Bytes) × Memᴰ p ps × Memᴰ o (m (key.0, key.1, p))

pub consider_prefixes-Chosen :
    (size : ℕ) (key : StemKey) (m : StemMap) (S : StemEntry → Type 0) (ps : List Bytes)
    (best : Best)
    → size < 2 ^ 64
    → ((k : StemKey) → Sized (m k))
    → Chosen size S best
    → Chosen size (λ o. S o ⊎ UnderStems key m ps o) (consider_prefixes size key m ps best)
consider_prefixes-Chosen size key m S [] best h sized chosen =
    Chosen-same size S (λ o. S o ⊎ UnderStems key m [] o) best (λ o s. inl s)
      (λ o s. elim s [ inl s' ↦ s' | inr (p, member, under) ↦ absurd (Memᴰ.not-nil member) ]) chosen
consider_prefixes-Chosen size key m S (p ∷ ps) best h sized chosen =
    Chosen-same size (λ o. (S o ⊎ Memᴰ o here) ⊎ UnderStems key m ps o)
      (λ o. S o ⊎ UnderStems key m (p ∷ ps) o)
      (consider_prefixes size key m ps (consider_all size here best)) to from
      (consider_prefixes-Chosen size key m (λ o. S o ⊎ Memᴰ o here) ps (consider_all size here best)
        h sized (consider_all-Chosen size S here best h (sized (key.0, key.1, p)) chosen))
  where
    here : List StemEntry
    here = m (key.0, key.1, p)

    to :
        (o : StemEntry)
        → (S o ⊎ Memᴰ o here) ⊎ UnderStems key m ps o
        → S o ⊎ UnderStems key m (p ∷ ps) o
    to o (inl (inl s)) = inl s
    to o (inl (inr member)) = inr (p, Memᴰ.head refl, member)
    to o (inr (q, member, under)) = inr (q, Memᴰ.tail member, under)

    from :
        (o : StemEntry)
        → S o ⊎ UnderStems key m (p ∷ ps) o
        → (S o ⊎ Memᴰ o here) ⊎ UnderStems key m ps o
    from o (inl s) = inl (inl s)
    from o (inr (q, member, under)) = elim (Memᴰ.cases_cons member) [
      | inl same ↦ inl (inr (subst (λ x. Memᴰ o (m (key.0, key.1, x))) same under))
      | inr deeper ↦ inr (q, deeper, under)
    ]
