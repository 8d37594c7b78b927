-- ===== src/Filter/Meaning.antt =====
-- What the searches behind the kinds of pattern find.
use cp.Common.{ℕ, zero, suc, ◌≡◌, ◌↔◌, refl, sym, ap, ◌∙◌, ◌⊎◌, inl, inr}
use cp.Common.{arith, Bytes, [], ◌∷◌, ◌++◌, Bool, true, false, ◌&&◌, ◌||◌}
use cp.Common.{
  length, length-append, take, take-length-append, drop, take-append-drop, get_elem?, any,
  Bool-cases,
}
use cp.Common.{leb, bytes_eq, bytes_eq_iff}
use cp.Filter.{slash, glob, starts_with, prefix_matches, is_slash, is_empty}
use cp.Filter.{glob_any_suffix, windows}
use cp.Filter.Spec.{Matches}
use cp.Filter.Search.{NoStar}
use cp.Filter.Glob.{glob_iff}
use mathlib.Core.Bool.{false≢true, true≢false}

-- The path lies in the directory that the pattern names byte for byte.
abbrev pub Below : Bytes → Bytes → Type 0
Below p path = (r : Bytes) × (path ≡ p ++ (slash ∷ r))

starts_with-Below :
    (path p : Bytes)
    → ((starts_with path p && is_slash (get_elem? path (length p))) ≡ true) ↔ Below p path
unfolding starts_with
starts_with-Below [] [] = (λ h. cc, λ (r, e). cc)
starts_with-Below (c ∷ path) [] = (λ h. (path, ground arith), λ (r, e). ground arith)
starts_with-Below [] (x ∷ p) = (λ h. cc, λ (r, e). cc)
starts_with-Below (c ∷ path) (x ∷ p) =
    let ih = starts_with-Below path p in
    (
      λ h. let (r, e) = ih.0 (ground arith) in (r, ground arith),
      λ (r, e). let t = ih.1 (r, ground arith) in ground arith,
    )

-- An anchored pattern names a root entry and what lies below it.
pub prefix_matches_iff :
    (p path : Bytes)
    → NoStar path
    → (prefix_matches p path ≡ true) ↔ (Matches p path ⊎ Below p path)
unfolding prefix_matches
prefix_matches_iff p path h = elim (Bool-cases (glob p path)) [
  | inl g ↦ rw g (λ _. inl ((glob_iff p path h).0 g), λ _. refl)
  | inr g ↦
      rw g
        (λ b. inr ((starts_with-Below path p).0 b), λ m. (starts_with-Below path p).1 (below g m))
]
  where
    below : glob p path ≡ false → Matches p path ⊎ Below p path → Below p path
    below g (inl m) = let t = (glob_iff p path h).1 m in absurd (cc)
    below g (inr b) = b

or_iff : (a b : Bool) → ((a || b) ≡ true) ↔ ((a ≡ true) ⊎ (b ≡ true))
or_iff true b = (λ h. inl refl, λ h. refl)
or_iff false b = (λ h. inr h, or_false)
  where
    or_false : (false ≡ true) ⊎ (b ≡ true) → b ≡ true
    or_false h = ground arith

Matches-nil_drop : (p : Bytes) (k : ℕ) → Matches p (drop k []) → Matches p []
Matches-nil_drop p zero m = m
Matches-nil_drop p (suc k) m = m

pub glob_any_suffix-Matches :
    (p path : Bytes)
    → NoStar path
    → glob_any_suffix p path ≡ true
    → (k : ℕ) × Matches p (drop k path)
unfolding glob_any_suffix
glob_any_suffix-Matches p [] h g = (0, (glob_iff p [] h).0 g)
glob_any_suffix-Matches p (c ∷ cs) h g = elim ((or_iff (glob p (c ∷ cs)) _).0 g) [
  | inl m ↦ (0, (glob_iff p (c ∷ cs) h).0 m)
  | inr m ↦ let (k, n) = glob_any_suffix-Matches p cs h.1 m in (suc k, n)
]

pub Matches-glob_any_suffix :
    (p path : Bytes)
    → NoStar path
    → (k : ℕ) → Matches p (drop k path)
    → glob_any_suffix p path ≡ true
unfolding glob_any_suffix
Matches-glob_any_suffix p [] h k m = (glob_iff p [] h).1 (Matches-nil_drop p k m)
Matches-glob_any_suffix p (c ∷ cs) h zero m = (or_iff _ _).1 (inl ((glob_iff p (c ∷ cs) h).1 m))
Matches-glob_any_suffix p (c ∷ cs) h (suc k) m =
    (or_iff (glob p (c ∷ cs)) _).1 (inr (Matches-glob_any_suffix p cs h.1 k m))

-- The pattern's bytes stand somewhere in the path.
abbrev pub Occurs : Bytes → Bytes → Type 0
Occurs p path = (u : Bytes) × (v : Bytes) × (path ≡ u ++ (p ++ v))

windows-Occurs :
    (p path : Bytes) → any (λ w. bytes_eq w p) (windows (length p) path) ≡ true → Occurs p path
unfolding windows
windows-Occurs p [] h = cc
windows-Occurs p (c ∷ cs) h = elim (Bool-cases (leb (length p) (suc (length cs)))) [
  | inr short ↦ absurd (false≢true (rw short at h))
  | inl fits ↦ elim ((or_iff (bytes_eq (take (length p) (c ∷ cs)) p) _).0 (rw fits at h)) [
    | inl here ↦ (
      [],
      drop (length p) (c ∷ cs),
      sym (take-append-drop (length p) (c ∷ cs))
          ∙ ap (λ (t : Bytes). t ++ drop (length p) (c ∷ cs)) ((bytes_eq_iff _ p).0 here),
    )
    | inr later ↦ let (u, v, e) = windows-Occurs p cs later in (c ∷ u, v, ap (◌∷◌ c) e)
  ]
]

Occurs-windows :
    (x : ℕ) (p u v : Bytes)
    → any (λ w. bytes_eq w (x ∷ p)) (windows (suc (length p)) (u ++ ((x ∷ p) ++ v))) ≡ true
unfolding windows
Occurs-windows x p [] v =
    let fits : leb (suc (length p)) (suc (length (p ++ v))) ≡ true =
      ground (arith, length-append p v) in
    let first : bytes_eq (take (suc (length p)) (x ∷ (p ++ v))) (x ∷ p) ≡ true =
      (bytes_eq_iff _ _).1 (ap (◌∷◌ x) (take-length-append p v)) in
    rw fits ((or_iff _ _).1 (inl first))
Occurs-windows x p (y ∷ u) v =
    let fits : leb (suc (length p)) (suc (length (u ++ ((x ∷ p) ++ v)))) ≡ true =
      ground (arith, length-append u ((x ∷ p) ++ v), length-append p v) in
    rw fits (
      (or_iff (bytes_eq (take (suc (length p)) (y ∷ (u ++ ((x ∷ p) ++ v)))) (x ∷ p)) _).1
        (inr (Occurs-windows x p u v)))

pub Occurs-iff :
    (core path : Bytes)
    → is_empty core ≡ false
    → (any (λ w. bytes_eq w core) (windows (length core) path) ≡ true) ↔ Occurs core path
Occurs-iff [] path h = absurd (true≢false h)
Occurs-iff (x ∷ p) path h =
    (windows-Occurs (x ∷ p) path, λ (u, v, e). rw e (Occurs-windows x p u v))
