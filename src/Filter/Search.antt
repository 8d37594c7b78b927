-- ===== src/Filter/Search.antt =====
-- The backtracking loop of `glob`, round by round.
use cp.Common.{ℕ, zero, suc, ◌+◌, ◌≡◌, ◌≢◌, ◌↔◌, refl, sym, ap, ◌∙◌, ◌⊎◌, inl, inr}
use cp.Common.{arith, Bytes, [], ◌∷◌, ◌++◌, Option, none, some, All, true, false}
use cp.Common.{length, drop, ◌==◌, Bool-cases}
use cp.Filter.{star, all_stars}
use cp.Filter.Spec.{HeadMatches, Matches}
use mathlib.Core.List.{tail}

abbrev pub NoStar : Bytes → Type 0
NoStar = All (λ c. c ≢ star)

-- A later alternative of the remembered star: its run takes at least one byte more.
abbrev pub Alternative : Option (Bytes × Bytes) → Type 0
Alternative none = ⊥
Alternative (some (p, t)) = (d : ℕ) × Matches p (drop (suc d) t)

abbrev pub Goal : Bytes → Bytes → Option (Bytes × Bytes) → Type 0
Goal p t saved = Matches p t ⊎ Alternative saved

-- A pattern byte that is `*`, and one that is not.
pub Matches-run :
    (x : ℕ) (p t : Bytes)
    → (x == star) ≡ true
    → Matches (x ∷ p) t ↔ ((k : ℕ) × Matches p (drop k t))
Matches-run x p t s = rw s (λ m. m, λ m. m)

pub Matches-one :
    (x : ℕ) (p t : Bytes)
    → (x == star) ≡ false
    → Matches (x ∷ p) t ↔ (HeadMatches x t × Matches p (tail t))
Matches-one x p t s = rw s (λ m. m, λ m. m)

pub drop-nil : (n : ℕ) → drop {A = ℕ} n [] ≡ []
drop-nil zero = refl
drop-nil (suc n) = refl

pub drop-drop : (a b : ℕ) (t : Bytes) → drop a (drop b t) ≡ drop (b + a) t
drop-drop a zero t = ap (λ (n : ℕ). drop n t) (omega arith)
drop-drop a (suc b) [] = drop-nil a ∙ sym (drop-nil (suc b + a))
drop-drop a (suc b) (x ∷ t) =
    let e : suc b + a ≡ suc (b + a) = omega arith in rw e (drop-drop a b t)

-- A match of a pattern that begins with `*` is one of any text that is longer in front.
pub Matches-run_longer :
    (x : ℕ) (p t : Bytes) (d : ℕ)
    → (x == star) ≡ true
    → Matches (x ∷ p) (drop d t)
    → Matches (x ∷ p) t
Matches-run_longer x p t d s m =
    let (k, n) = (Matches-run x p (drop d t) s).0 m in
    (Matches-run x p t s).1 (d + k, rw (drop-drop k d t) at n)

pub all_stars_iff : (p : Bytes) → (all_stars p ≡ true) ↔ Matches p []
unfolding all_stars
all_stars_iff [] = (λ h. refl, λ m. refl)
all_stars_iff (x ∷ p) = elim (Bool-cases (x == star)) [
  | inl s ↦ (
    λ h. (Matches-run x p [] s).1 (0, (all_stars_iff p).0 (ground arith)),
    λ m.
        let (k, n) = (Matches-run x p [] s).0 m in
        rw s ((all_stars_iff p).1 (rw (drop-nil k) at n)),
  )
  | inr s ↦ (λ h. ground arith, λ m. absurd ((Matches-one x p [] s).0 m).0)
]

-- A run of pattern bytes that are no `*` takes a text byte each.
Matches-plain : (q r t : Bytes) → NoStar q → Matches (q ++ r) t → Matches r (drop (length q) t)
Matches-plain [] r t h m = m
Matches-plain (x ∷ q) r [] (hx, h) m = absurd ((Matches-one x (q ++ r) [] (ground arith)).0 m).0
Matches-plain (x ∷ q) r (c ∷ t) (hx, h) m =
    Matches-plain q r t h ((Matches-one x (q ++ r) (c ∷ t) (ground arith)).0 m).1

-- What the search knows of its remembered star: the pattern bytes since then, none a `*`, have
-- taken as many bytes of the text.
pub record Since (p t sp st : Bytes) : Type 0 where
  pub taken : Bytes
  pub plain : NoStar taken
  pub pattern_split : sp ≡ taken ++ p
  pub text_split : t ≡ drop (length taken) st

abbrev pub Follows : Bytes → Bytes → Option (Bytes × Bytes) → Type 0
Follows p t none = Unit {0}
Follows p t (some (sp, st)) = Since p t sp st

-- An alternative of the remembered star is a match of the present pattern further on.
pub Alternative-further :
    (p t sp st : Bytes)
    → Since p t sp st
    → (d : ℕ) → Matches sp (drop (suc d) st)
    → Matches p (drop (suc d) t)
Alternative-further p t sp st since d m =
    let q = since.taken in
    let a : Matches (q ++ p) (drop (suc d) st) = rw since.pattern_split at m in
    let b : Matches p (drop (length q) (drop (suc d) st)) = Matches-plain q p _ since.plain a in
    let e : drop (length q) (drop (suc d) st) ≡ drop (suc d) (drop (length q) st) =
      drop-drop (length q) (suc d) st
      ∙ ap (λ (n : ℕ). drop n st) (omega arith)
      ∙ sym (drop-drop (suc d) (length q) st) in
    rw since.text_split (rw e at b)
