-- ===== src/Filter/Glob.antt =====
-- src/sync/filter.rs, `glob`, against the meaning of a pattern.
use cp.Common.{ℕ, ◌+◌, ◌≡◌, ◌≢◌, ◌↔◌, refl, sym, ap₂, ◌⊎◌, inl, inr}
use cp.Common.{arith, Bytes, [], ◌∷◌, none, true, false}
use cp.Common.{length, ◌==◌, Bool-cases}
use cp.Common.{bytes_eq_iff}
use cp.Filter.{star, question, has_wildcards, glob}
use cp.Filter.Spec.{Matches}
use cp.Filter.Search.{NoStar, Goal, Matches-one}
use cp.Filter.Sound.{sound}
use cp.Filter.Complete.{complete}

-- A pattern with no wildcard matches itself alone.
Matches-literal : (p t : Bytes) → has_wildcards p ≡ false → Matches p t ↔ (p ≡ t)
unfolding has_wildcards
Matches-literal [] t h = (λ m. sym m, λ e. sym e)
Matches-literal (x ∷ p) [] h = (λ m. absurd ((Matches-one x p [] (ground arith)).0 m).0, λ e. cc)
Matches-literal (x ∷ p) (c ∷ t) h =
    let s : (x == star) ≡ false = ground arith in
    let ih = Matches-literal p t (ground arith) in
    (
      λ m.
          ap₂ ◌∷◌ (literal ((Matches-one x p (c ∷ t) s).0 m).0)
            (ih.0 ((Matches-one x p (c ∷ t) s).0 m).1),
      λ e. (Matches-one x p (c ∷ t) s).1 (inr (ground arith), ih.1 (ground arith)),
    )
  where
    literal : (x ≡ question) ⊎ (x ≡ c) → x ≡ c
    literal o = ground arith

-- A pattern that `glob` accepts does match, whatever the text.
glob_sound : (p t : Bytes) → glob p t ≡ true → Matches p t
unfolding glob
glob_sound p t h = elim (Bool-cases (has_wildcards p)) [
  | inl w ↦ found (sound _ p t none (rw w at h))
  | inr w ↦ (Matches-literal p t w).1 ((bytes_eq_iff p t).0 (rw w at h))
]
  where
    found : Goal p t none → Matches p t
    found (inl m) = m
    found (inr a) = absurd a

-- On every text without a `*` byte `glob` accepts exactly the patterns that match it byte for byte,
-- where `?` is any one byte, not any one character: the greedy search with one remembered star misses
-- no match, and it ends within its fuel.
pub glob_iff : (p t : Bytes) → NoStar t → (glob p t ≡ true) ↔ Matches p t
glob_iff p t h = (
  glob_sound p t,
  λ m. elim (Bool-cases (has_wildcards p)) [
    | inl w ↦
        unfold glob in
        rw w
          (complete _ (length t + length p + 1) p t none (h, tt, omega arith, omega arith) (inl m))
    | inr w ↦ unfold glob in rw w ((bytes_eq_iff p t).1 ((Matches-literal p t w).0 m))
  ],
)

-- A text that begins with a `*` byte, then a byte other than `x`, then `x`, is matched by the
-- pattern `*x`, and `glob` rejects it: the pattern's star is spent on the text's own star.
pub glob-star_text_missed :
    (x y : ℕ)
    → x ≢ star
    → x ≢ question
    → x ≢ y
    → Matches (star ∷ x ∷ []) (star ∷ y ∷ x ∷ [])
      × (glob (star ∷ x ∷ []) (star ∷ y ∷ x ∷ []) ≡ false)
unfolding glob
glob-star_text_missed x y hs hq hy =
    ((2, (Matches-one x [] (x ∷ []) (ground arith)).1 (inr refl, refl)), ground arith)
