-- ===== src/Filter/Sound.antt =====
-- src/sync/filter.rs, `glob`: searches that succeed.
use cp.Common.{ℕ, zero, suc, ◌≡◌, refl, inl, inr}
use cp.Common.{arith, Bytes, [], ◌∷◌, Option, none, some, true, false}
use cp.Common.{◌==◌, Bool-cases}
use cp.Filter.{star, one_matches, at_star, glob_loop}
use cp.Filter.Spec.{Matches}
use cp.Filter.Search.{Alternative, Goal, Matches-run, Matches-one}
use cp.Filter.Search.{drop-nil, all_stars_iff}
use mathlib.Core.List.{tail}
use cp.Filter.Rounds.{round_one, round_star, round_retry, round_fail}

-- What the two tests say of a match.
one_matches-Matches :
    (x : ℕ) (p : Bytes) (c : ℕ) (t : Bytes)
    → one_matches (x ∷ p) c ≡ true
    → Matches p t
    → Matches (x ∷ p) (c ∷ t)
unfolding one_matches
one_matches-Matches x p c t o m = elim (Bool-cases (x == star)) [
  | inl s ↦ (Matches-run x p (c ∷ t) s).1 (1, m)
  | inr s ↦ (Matches-one x p (c ∷ t) s).1 (ground arith, m)
]

-- An alternative of a star that was just met is a longer run of it.
Goal-star : (x : ℕ) (p t : Bytes) → (x == star) ≡ true → Goal p t (some (p, t)) → Matches (x ∷ p) t
Goal-star x p t s (inl m) = (Matches-run x p t s).1 (0, m)
Goal-star x p t s (inr (d, m)) = (Matches-run x p t s).1 (suc d, m)

Goal-retry : (sp st : Bytes) → Goal sp (tail st) (some (sp, tail st)) → Alternative (some (sp, st))
Goal-retry sp [] (inl m) = (0, m)
Goal-retry sp [] (inr (d, m)) = (0, rw (drop-nil (suc d)) at m)
Goal-retry sp (c ∷ st) (inl m) = (0, m)
Goal-retry sp (c ∷ st) (inr (d, m)) = (suc d, m)

sound_mismatch :
    (f : ℕ) (p : Bytes) (c : ℕ) (t : Bytes) (saved : Option (Bytes × Bytes))
    → ((sp st : Bytes) → glob_loop f sp st (some (sp, st)) ≡ true → Goal sp st (some (sp, st)))
    → one_matches p c ≡ false
    → at_star p ≡ false
    → glob_loop (suc f) p (c ∷ t) saved ≡ true
    → Alternative saved
sound_mismatch f p c t none ih o s h = cc (round_fail f p c t o s)
sound_mismatch f p c t (some (sp, st)) ih o s h =
    Goal-retry sp st (ih sp (tail st) (rw (round_retry f p c t sp st o s) at h))

-- A search that succeeds has found a match, now or behind the remembered star.
pub sound :
    (f : ℕ) (p t : Bytes) (saved : Option (Bytes × Bytes))
    → glob_loop f p t saved ≡ true
    → Goal p t saved
sound zero p t saved h = unfold glob_loop in cc
sound (suc f) p [] saved h = inl ((all_stars_iff p).0 (unfold glob_loop in h))
sound (suc f) [] (c ∷ t) saved h = inr (
    sound_mismatch f [] c t saved (λ sp st. sound f sp st (some (sp, st)))
      (unfold one_matches in refl) (unfold at_star in refl) h)
sound (suc f) (x ∷ p) (c ∷ t) saved h = elim (Bool-cases (one_matches (x ∷ p) c)) [
  | inl o ↦ elim (sound f p t saved (rw (round_one f (x ∷ p) c t saved o) at h)) [
    | inl m ↦ inl (one_matches-Matches x p c t o m)
    | inr a ↦ inr a
  ]
  | inr o ↦ elim (Bool-cases (at_star (x ∷ p))) [
    | inl s ↦ inl (
        Goal-star x p (c ∷ t) (unfold at_star in s)
          (sound f p (c ∷ t) _ (rw (round_star f (x ∷ p) c t saved o s) at h)))
    | inr s ↦
        inr (sound_mismatch f (x ∷ p) c t saved (λ sp st. sound f sp st (some (sp, st))) o s h)
  ]
]
