-- ===== src/Target/Address/Split.antt =====
-- Splitting a text at a character.
use cp.Common.{
  ℕ, ◌≡◌, ◌⊎◌, refl, ap, inl, inr, [], ◌∷◌, ◌++◌, none, some, Bool, true, false, ◌||◌, ◌==◌, ==_iff,
  Bool-cases, Bytes,
}
use cp.Target.Address.{before, split_once, contains, ends_with}

pub or-false : (a b : Bool) → (a || b) ≡ false → (a ≡ false) × (b ≡ false)
or-false true b h = cc
or-false false b h = (refl, h)

-- The first time the character stands
pub split_once-at :
    (c : ℕ) (text rest : Bytes)
    → contains c text ≡ false
    → split_once c (text ++ (c ∷ rest)) ≡ some (text, rest)
unfolding split_once
split_once-at c [] rest h = rw ((==_iff c c).1 refl) refl
split_once-at c (x ∷ text) rest h =
    let (other, none_in) = or-false (x == c) (contains c text) h in
    rw other (ap (before x) (split_once-at c text rest none_in))

pub contains-append :
    (c : ℕ) (text rest : Bytes)
    → contains c text ≡ false
    → contains c rest ≡ false
    → contains c (text ++ rest) ≡ false
contains-append c [] rest h k = k
contains-append c (x ∷ text) rest h k =
    let (other, none_in) = or-false (x == c) (contains c text) h in
    rw other (contains-append c text rest none_in k)

pub split_once-none : (c : ℕ) (text : Bytes) → contains c text ≡ false → split_once c text ≡ none
unfolding split_once
split_once-none c [] h = refl
split_once-none c (x ∷ text) h =
    let (other, none_in) = or-false (x == c) (contains c text) h in
    rw other (ap (before x) (split_once-none c text none_in))

-- A text is its two parts around the first character it is split at, or does not hold it.
pub split_once-cases :
    (c : ℕ) (text : Bytes)
    → (contains c text ≡ false) ⊎ ((s p : Bytes) × (contains c s ≡ false) × (text ≡ s ++ (c ∷ p)))
split_once-cases c [] = inl refl
split_once-cases c (x ∷ text) = elim (Bool-cases (x == c)) [
  | inl here ↦ inr ([], text, refl, ap (λ y. y ∷ text) ((==_iff x c).0 here))
  | inr other ↦ elim (split_once-cases c text) [
    | inl none_in ↦ inl (rw other none_in)
    | inr (s, p, none_in, at) ↦ inr (x ∷ s, p, rw other none_in, ap (λ t. x ∷ t) at)
  ]
]

-- The end of a text with another before it
pub ends_with-append :
    (c x : ℕ) (text rest : Bytes) → ends_with c (text ++ (x ∷ rest)) ≡ ends_with c (x ∷ rest)
unfolding ends_with
ends_with-append c x [] rest = refl
ends_with-append c x (y ∷ []) rest = refl
ends_with-append c x (y ∷ z ∷ text) rest = ends_with-append c x (z ∷ text) rest
