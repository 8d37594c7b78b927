-- ===== src/Filter/Complete.antt =====
-- src/sync/filter.rs, `glob`: searches with a match ahead of them.
use cp.Common.{ℕ, zero, suc, ◌+◌, ◌*◌, ◌≤◌, ◌<◌, ◌≡◌, ◌≢◌, refl, sym, ap, ◌∙◌, ◌⊎◌, inl, inr}
use cp.Common.{arith, Bytes, [], ◌∷◌, ◌++◌, append_assoc, Option, none, some, true, false}
use cp.Common.{length, length-append, length-drop, drop, ◌==◌, Bool-cases}
use cp.Filter.{star, question, one_matches, at_star, glob_loop}
use cp.Filter.Spec.{Matches}
use cp.Filter.Search.{NoStar, Alternative, Goal, Since, Matches-run, Matches-one}
use cp.Filter.Search.{drop-drop, Matches-run_longer, all_stars_iff, Alternative-further}
use cp.Filter.Rounds.{round_one, round_star, round_retry}

-- The remembered star with what is known of it, and the bound `k` on what it goes back to.
abbrev pub Saved : ℕ → Bytes → Bytes → Option (Bytes × Bytes) → Type 0
Saved k p t none = Unit {0}
Saved k p t (some (sp, st)) = Since p t sp st × NoStar st × (length st + length sp < k)

abbrev pub room : Bytes → Option (Bytes × Bytes) → ℕ
room t none = length t + 1
room t (some (sp, st)) = length st

abbrev pub Ready : ℕ → ℕ → Bytes → Bytes → Option (Bytes × Bytes) → Type 0
Ready f k p t saved =
    NoStar t
    × Saved k p t saved
    × (length t + length p < k)
    × (room t saved * k + length t + length p < f)

Since-next :
    (x c : ℕ) (p t sp st : Bytes) → x ≢ star → Since (x ∷ p) (c ∷ t) sp st → Since p t sp st
Since-next x c p t sp st h since =
    let q = since.taken in
    record {
      taken = q ++ (x ∷ []);
      plain = All-append q h since.plain;
      pattern_split = since.pattern_split ∙ sym (append_assoc q (x ∷ []) p);
      text_split =
          ap (drop 1) since.text_split
          ∙ drop-drop 1 (length q) st
          ∙ ap (λ (n : ℕ). drop n st) (sym (length-append q (x ∷ [])));
    }
  where
    All-append : (q : Bytes) → x ≢ star → NoStar q → NoStar (q ++ (x ∷ []))
    All-append [] h u = (h, tt)
    All-append (y ∷ q) h (hy, u) = (hy, All-append q h u)

Since-length : (p t sp st : Bytes) → Since p t sp st → length t ≤ length st
Since-length p t sp st since =
    omega (arith, ap length since.text_split, length-drop (length (since.taken)) st)

complete_mismatch :
    (f k : ℕ) (p : Bytes) (c : ℕ) (t : Bytes) (saved : Option (Bytes × Bytes))
    → ((sp st : Bytes)
        → Ready f k sp st (some (sp, st))
        → Goal sp st (some (sp, st))
        → glob_loop f sp st (some (sp, st)) ≡ true)
    → one_matches p c ≡ false
    → at_star p ≡ false
    → Ready (suc f) k p (c ∷ t) saved
    → Alternative saved
    → glob_loop (suc f) p (c ∷ t) saved ≡ true
complete_mismatch f k p c t none ih o s r a = absurd a
complete_mismatch f k p c t (some (sp, [])) ih o s (_, (since, _, _), _, _) a =
    absurd (omega (arith, Since-length p (c ∷ t) sp [] since))
complete_mismatch f k p c t (some (sp, b ∷ st)) ih o s (_, (since, (_, hs), fits), _, m) a =
    rw (round_retry f p c t sp (b ∷ st) o s)
      (ih sp st (hs, (fresh sp st, hs, omega arith), omega arith, omega arith) (goal a))
  where
    fresh : (sp st : Bytes) → Since sp st sp st
    fresh sp st = record { taken = []; plain = tt; pattern_split = refl; text_split = refl }

    goal : Alternative (some (sp, b ∷ st)) → Goal sp st (some (sp, st))
    goal (zero, m) = inl m
    goal (suc d, m) = inr (d, m)

one_matches-plain : (x : ℕ) (p : Bytes) (c : ℕ) → one_matches (x ∷ p) c ≡ true → c ≢ star → x ≢ star
unfolding one_matches
one_matches-plain x p c o h e = ground arith

module _ (f k x : ℕ) (p : Bytes) (c : ℕ) (t : Bytes) where
  Ready-one :
      (saved : Option (Bytes × Bytes))
      → x ≢ star
      → Ready (suc f) k (x ∷ p) (c ∷ t) saved
      → Ready f k p t saved
  Ready-one none h ((_, u), _, b, m) = (u, tt, omega arith, omega arith)
  Ready-one (some (sp, st)) h ((_, u), (since, v, fits), b, m) =
      (u, (Since-next x c p t sp st h since, v, fits), omega arith, omega arith)

  Ready-star :
      (saved : Option (Bytes × Bytes))
      → Ready (suc f) k (x ∷ p) (c ∷ t) saved
      → Ready f k p (c ∷ t) (some (p, c ∷ t))
  Ready-star saved (u, r, b, m) = (u, (fresh, u, omega arith), omega arith, fuel saved r m)
    where
      fresh : Since p (c ∷ t) p (c ∷ t)
      fresh = record { taken = []; plain = tt; pattern_split = refl; text_split = refl }

      fuel :
          (saved : Option (Bytes × Bytes))
          → Saved k (x ∷ p) (c ∷ t) saved
          → room (c ∷ t) saved * k + length (c ∷ t) + length (x ∷ p) < suc f
          → length (c ∷ t) * k + length (c ∷ t) + length p < f
      fuel none r m = omega arith
      fuel (some (sp, st)) (since, _, _) m =
          let longer = Since-length (x ∷ p) (c ∷ t) sp st since in grind arith

module _ (x : ℕ) (p : Bytes) (c : ℕ) (t : Bytes) where
  Goal-one :
      (saved : Option (Bytes × Bytes))
      → (x == star) ≡ false
      → Goal (x ∷ p) (c ∷ t) saved
      → Goal p t saved
  Goal-one saved s (inl m) = inl ((Matches-one x p (c ∷ t) s).0 m).1
  Goal-one saved s (inr a) = inr a

  only-Alternative :
      (saved : Option (Bytes × Bytes))
      → one_matches (x ∷ p) c ≡ false
      → (x == star) ≡ false
      → Goal (x ∷ p) (c ∷ t) saved
      → Alternative saved
  unfolding one_matches
  only-Alternative saved o s (inl m) =
      let head : (x ≡ question) ⊎ (x ≡ c) = ((Matches-one x p (c ∷ t) s).0 m).0 in
      absurd (ground arith)
  only-Alternative saved o s (inr a) = a

-- Whatever match there is when the pattern stands at a star is a match of the present pattern.
Goal-star :
    (k x : ℕ) (p t : Bytes) (saved : Option (Bytes × Bytes))
    → (x == star) ≡ true
    → Saved k (x ∷ p) t saved
    → Goal (x ∷ p) t saved
    → Matches (x ∷ p) t
Goal-star k x p t saved s r (inl m) = m
Goal-star k x p t none s r (inr a) = absurd a
Goal-star k x p t (some (sp, st)) s r (inr (d, m)) =
    Matches-run_longer x p t (suc d) s (Alternative-further (x ∷ p) t sp st r.0 d m)

star-Goal : (x : ℕ) (p t : Bytes) → (x == star) ≡ true → Matches (x ∷ p) t → Goal p t (some (p, t))
star-Goal x p t s m = runs ((Matches-run x p t s).0 m)
  where
    runs : ((k : ℕ) × Matches p (drop k t)) → Goal p t (some (p, t))
    runs (zero, m) = inl m
    runs (suc d, m) = inr (d, m)

-- A search that has a match, now or behind the remembered star, succeeds within its fuel.
pub complete :
    (f k : ℕ) (p t : Bytes) (saved : Option (Bytes × Bytes))
    → Ready f k p t saved
    → Goal p t saved
    → glob_loop f p t saved ≡ true
complete zero k p t saved (_, _, _, m) g = absurd (omega arith)
complete (suc f) k p [] saved (_, r, _, _) g =
    unfold glob_loop in (all_stars_iff p).1 (here saved r g)
  where
    here : (saved : Option (Bytes × Bytes)) → Saved k p [] saved → Goal p [] saved → Matches p []
    here saved r (inl m) = m
    here none r (inr a) = absurd a
    here (some (sp, st)) r (inr (d, m)) = Alternative-further p [] sp st r.0 d m
complete (suc f) k [] (c ∷ t) saved r (inl m) = cc
complete (suc f) k [] (c ∷ t) saved r (inr a) =
    complete_mismatch f k [] c t saved (λ sp st. complete f k sp st (some (sp, st)))
      (unfold one_matches in refl) (unfold at_star in refl) r a
complete (suc f) k (x ∷ p) (c ∷ t) saved r g = elim (Bool-cases (one_matches (x ∷ p) c)) [
  | inl o ↦
      let plain : x ≢ star = one_matches-plain x p c o r.0.0 in
      let s : (x == star) ≡ false = ground arith in
      rw (round_one f (x ∷ p) c t saved o)
        (complete f k p t saved (Ready-one f k x p c t saved plain r) (Goal-one x p c t saved s g))
  | inr o ↦ elim (Bool-cases (at_star (x ∷ p))) [
    | inl s ↦
        let here : Matches (x ∷ p) (c ∷ t) =
          Goal-star k x p (c ∷ t) saved (unfold at_star in s) r.1 g in
        rw (round_star f (x ∷ p) c t saved o s) (
          complete f k p (c ∷ t) (some (p, c ∷ t)) (Ready-star f k x p c t saved r)
            (star-Goal x p (c ∷ t) (unfold at_star in s) here))
    | inr s ↦
        complete_mismatch f k (x ∷ p) c t saved (λ sp st. complete f k sp st (some (sp, st))) o s r
          (only-Alternative x p c t saved o (unfold at_star in s) g)
  ]
]
