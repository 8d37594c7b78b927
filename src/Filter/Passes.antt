-- ===== src/Filter/Passes.antt =====
-- src/sync/filter.rs, `FilterSet::passes`: which paths pass.
use cp.Common.{
  ◌≡◌, ◌↔◌, ◌⊎◌, refl, inl, inr, Bytes, [], ◌∷◌, List, Bool, true, false, not, ◌||◌, ◌==◌, any,
  Bool-cases, if◌then◌else◌,
}
use cp.Filter.{slash, contains_slash, pattern_matches, last_segment, passes}
use cp.Filter.Search.{NoStar}
use cp.Filter.Patterns.{IsCore, Selected, pattern_matches_iff, passes_precedence}

NoStar-last_segment : (path : Bytes) → NoStar path → NoStar (last_segment path)
unfolding last_segment
NoStar-last_segment [] h = h
NoStar-last_segment (c ∷ cs) h = elim (Bool-cases (contains_slash cs)) [
  | inl deeper ↦ rw deeper (NoStar-last_segment cs h.1)
  | inr last ↦ elim (Bool-cases (c == slash)) [
    | inl at_slash ↦ rw (last, at_slash) h.1
    | inr other ↦ rw (last, other) h
  ]
]

-- A pattern of a list, as it is written: with a slash before its core when it is anchored
abbrev pub written : List (Bool × Bytes) → List Bytes
written [] = []
written ((anchored, core) ∷ qs) = (if anchored then slash ∷ core else core) ∷ written qs

abbrev pub AreCores : List (Bool × Bytes) → Type 0
AreCores [] = Unit
AreCores ((anchored, core) ∷ qs) = IsCore core × AreCores qs

-- Some pattern of the list selects the path.
abbrev pub AnySelects : List (Bool × Bytes) → Bytes → Type 0
AnySelects [] path = ⊥
AnySelects ((anchored, core) ∷ qs) path =
    Selected anchored core path (last_segment path) ⊎ AnySelects qs path

or_iff : (a b : Bool) (P Q : Type 0) → (a ≡ true) ↔ P → (b ≡ true) ↔ Q → ((a || b) ≡ true) ↔ (P ⊎ Q)
or_iff true b P Q p q = (λ e. inl (p.0 refl), λ s. refl)
or_iff false b P Q p q =
    (λ e. inr (q.0 e), λ s. elim s [ inl x ↦ absurd (cc (p.1 x)) | inr y ↦ q.1 y ])

not_iff : (b : Bool) (P : Type 0) → (b ≡ true) ↔ P → (not b ≡ true) ↔ (¬ P)
not_iff true P p = (λ e. absurd (cc e), λ n. absurd (n (p.0 refl)))
not_iff false P p = (λ e x. absurd (cc (p.1 x)), λ n. refl)

any_iff :
    (qs : List (Bool × Bytes)) (path : Bytes)
    → AreCores qs
    → NoStar path
    → (any (λ p. pattern_matches p path (last_segment path)) (written qs) ≡ true)
      ↔ AnySelects qs path
any_iff [] path cores h = (λ e. cc e, λ s. absurd s)
any_iff ((anchored, core) ∷ qs) path (k, cores) h =
    let (to, from) =
      pattern_matches_iff anchored core path (last_segment path) k h (NoStar-last_segment path h) in
    let (to', from') = any_iff qs path cores h in or_iff _ _ _ _ (to, from) (to', from')

-- Over lists of patterns whose cores are not empty, have no slash at their ends and no `**/` before
-- them, a path without `*` bytes passes exactly when some include selects it or no exclude does, in
-- the sense of each pattern's kind; with no pattern at all every path passes.
pub passes_iff :
    (includes excludes : List (Bool × Bytes)) (path : Bytes)
    → AreCores includes
    → AreCores excludes
    → NoStar path
    → (passes (record { includes = written includes; excludes = written excludes }) path ≡ true)
      ↔ (AnySelects includes path ⊎ ¬ (AnySelects excludes path))
passes_iff includes excludes path hi he h =
    rw
      (passes_precedence (record { includes = written includes; excludes = written excludes }) path)
      (or_iff _ _ (AnySelects includes path) (¬ (AnySelects excludes path))
        (any_iff includes path hi h)
        (not_iff _ (AnySelects excludes path) (any_iff excludes path he h)))
