-- ===== src/Sync/Pairing/Stems.antt =====
-- The prefixes of a stem, and when two keys are equal.
use mathlib.Core.List.{Memᴰ}
use mathlib.Core.List.Memᴰ
use cp.Common.{
  ℕ, ◌≡◌, ◌↔◌, refl, ap, inl, inr, List, [], ◌∷◌, ◌++◌, Option, none, some, true, Bool-cases, Bytes,
  bytes_eq_iff, arith,
}
use cp.Sync.Pairing.{StemKey, starts_char, longer, proper_prefixes, option_eq, key_eq}

-- A prefix with at least one byte that ends, before at least one more, where a character does
abbrev pub IsProperPrefix : Bytes → Bytes → Type 0
IsProperPrefix p s =
    (c : ℕ) × (q : Bytes) × (d : ℕ) × (r : Bytes) × (p ≡ c ∷ q)
    × (s ≡ (c ∷ q) ++ (d ∷ r))
    × (starts_char d ≡ true)

pub option_eq_iff : (a b : Option Bytes) → (option_eq a b ≡ true) ↔ (a ≡ b)
option_eq_iff none none = (λ _. refl, λ _. refl)
option_eq_iff none (some b) = (λ h. cc h, λ h. cc h)
option_eq_iff (some a) none = (λ h. cc h, λ h. cc h)
option_eq_iff (some a) (some b) =
    (λ h. ap some ((bytes_eq_iff a b).0 h), λ h. (bytes_eq_iff a b).1 (cc h))

pub key_eq_iff : (k k' : StemKey) → (key_eq k k' ≡ true) ↔ (k ≡ k')
key_eq_iff (p, e, s) (p', e', s') =
    ground (arith, bytes_eq_iff p p', option_eq_iff e e', bytes_eq_iff s s')

longer-mem : (c : ℕ) (p : Bytes) (ps : List Bytes) → Memᴰ p ps → Memᴰ (c ∷ p) (longer c ps)
longer-mem c p [] m = absurd (Memᴰ.not-nil m)
longer-mem c p (q ∷ ps) m = elim (Memᴰ.cases_cons m) [
  | inl e ↦ Memᴰ.head (ap (◌∷◌ c) e)
  | inr m' ↦ Memᴰ.tail (longer-mem c p ps m')
]

mem-longer :
    (c : ℕ) (p : Bytes) (ps : List Bytes)
    → Memᴰ p (longer c ps)
    → (q : Bytes) × (p ≡ c ∷ q) × Memᴰ q ps
mem-longer c p [] m = absurd (Memᴰ.not-nil m)
mem-longer c p (q ∷ ps) m = elim (Memᴰ.cases_cons m) [
  | inl e ↦ (q, e, Memᴰ.head refl)
  | inr m' ↦ let (q', e, m'') = mem-longer c p ps m' in (q', e, Memᴰ.tail m'')
]

pub proper_prefixes_sound : (p s : Bytes) → Memᴰ p (proper_prefixes s) → IsProperPrefix p s
unfolding proper_prefixes
proper_prefixes_sound p [] m = absurd (Memᴰ.not-nil m)
proper_prefixes_sound p (c ∷ []) m = absurd (Memᴰ.not-nil m)
proper_prefixes_sound p (c ∷ (d ∷ s)) m = elim (Bool-cases (starts_char d)) [
  | inr inside ↦ below (λ q. proper_prefixes_sound q (d ∷ s)) (rw inside at m)
  | inl starts ↦ elim (Memᴰ.cases_cons (rw starts at m)) [
    | inl e ↦ (c, [], d, s, e, refl, starts)
    | inr m' ↦ below (λ q. proper_prefixes_sound q (d ∷ s)) m'
  ]
]
  where
    below :
        ((q : Bytes) → Memᴰ q (proper_prefixes (d ∷ s)) → IsProperPrefix q (d ∷ s))
        → Memᴰ p (longer c (proper_prefixes (d ∷ s)))
        → IsProperPrefix p (c ∷ (d ∷ s))
    below deeper m' =
        let (q, e, m'') = mem-longer c p (proper_prefixes (d ∷ s)) m' in
        let (c', q', d', r, e', whole, starts) = deeper q m'' in
        (c, q, d', r, e, ap (◌∷◌ c) (rw e' whole), starts)

pub proper_prefixes_complete : (p s : Bytes) → IsProperPrefix p s → Memᴰ p (proper_prefixes s)
unfolding proper_prefixes
proper_prefixes_complete p [] (c, q, d, r, e, whole, starts) = cc whole
proper_prefixes_complete p (x ∷ []) (c, [], d, r, e, whole, starts) = cc whole
proper_prefixes_complete p (x ∷ []) (c, y ∷ q, d, r, e, whole, starts) = cc whole
proper_prefixes_complete p (x ∷ (y ∷ s)) (c, [], d, r, e, whole, starts) =
    let here : d ≡ y = cc whole in
    let same : p ≡ x ∷ [] = cc (whole, e) in
    let at_char : starts_char y ≡ true = cc (here, starts) in rw at_char (Memᴰ.head same)
proper_prefixes_complete p (x ∷ (y ∷ s)) (c, z ∷ q, d, r, e, whole, starts) =
    let tail : ◌≡◌ {A = Bytes} (y ∷ s) ((z ∷ q) ++ (d ∷ r)) = cc whole in
    let same : p ≡ x ∷ (z ∷ q) = cc (whole, e) in
    let m = proper_prefixes_complete (z ∷ q) (y ∷ s) (z, q, d, r, refl, tail, starts) in
    let m' : Memᴰ p (longer x (proper_prefixes (y ∷ s))) = rw same (longer-mem x (z ∷ q) _ m) in
    elim (Bool-cases (starts_char y)) [
      | inl at_char ↦ rw at_char (Memᴰ.tail m')
      | inr inside ↦ rw inside m'
    ]
