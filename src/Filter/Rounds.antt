-- ===== src/Filter/Rounds.antt =====
-- One round of the search, by the outcome of its tests.
use cp.Common.{ℕ, suc, ◌≡◌}
use cp.Common.{Bytes, ◌∷◌, Option, none, some, true, false}
use cp.Filter.{one_matches, at_star, retry, step, glob_loop}
use mathlib.Core.List.{tail}

module _ (f : ℕ) (p : Bytes) (c : ℕ) (t : Bytes) where
  round_step :
      (saved : Option (Bytes × Bytes)) {p' t' : Bytes} {saved' : Option (Bytes × Bytes)}
      → step p c t saved ≡ some (p', t', saved')
      → glob_loop (suc f) p (c ∷ t) saved ≡ glob_loop f p' t' saved'
  unfolding glob_loop
  round_step saved e = rw (e, glob_loop)

  pub round_one :
      (saved : Option (Bytes × Bytes))
      → one_matches p c ≡ true
      → glob_loop (suc f) p (c ∷ t) saved ≡ glob_loop f (tail p) t saved
  round_one saved o = round_step saved (unfold step in rw o)

  pub round_star :
      (saved : Option (Bytes × Bytes))
      → one_matches p c ≡ false
      → at_star p ≡ true
      → glob_loop (suc f) p (c ∷ t) saved ≡ glob_loop f (tail p) (c ∷ t) (some (tail p, c ∷ t))
  round_star saved o s = round_step saved (unfold step in rw (o, s))

  pub round_retry :
      (sp st : Bytes)
      → one_matches p c ≡ false
      → at_star p ≡ false
      → glob_loop (suc f) p (c ∷ t) (some (sp, st)) ≡ glob_loop f sp (tail st) (some (sp, tail st))
  round_retry sp st o s = round_step _ (unfold step retry in rw (o, s))

  pub round_fail :
      one_matches p c ≡ false → at_star p ≡ false → glob_loop (suc f) p (c ∷ t) none ≡ false
  unfolding glob_loop
  round_fail o s =
      let e : step p c t none ≡ none = (unfold step retry in rw (o, s)) in rw (e, glob_loop)
