-- ===== src/Filter/Runs.antt =====
-- Runs of the filters, and their theorems at concrete inputs.
use cp.Common.{Bytes, [], ◌∷◌, ◌≡◌, ◌↔◌, refl, arith, true, false, ◌⊎◌, codes}
use cp.Filter.{
  FilterSet, slash, star, glob, pattern_matches, passes, starts_with_slash, starts_with,
  strip_any_depth,
}
use cp.Filter.Spec.{Matches}
use cp.Filter.Search.{NoStar}
use cp.Filter.Glob.{glob_iff, glob-star_text_missed}
use cp.Filter.Patterns.{IsCore, Selected, pattern_matches_iff}
use cp.Filter.Passes.{AreCores, AnySelects, passes_iff}

-- `*b`, and the path `a/b`
abbrev any_b : Bytes
any_b = star ∷ 98 ∷ []

abbrev a_b : Bytes
a_b = 97 ∷ slash ∷ 98 ∷ []

a_b-NoStar : NoStar a_b
a_b-NoStar = ((λ e. omega (arith, e)), ((λ e. omega (arith, e)), ((λ e. omega (arith, e)), tt)))

b-NoStar : NoStar (98 ∷ [])
b-NoStar = ((λ e. omega (arith, e)), tt)

any_b-IsCore : IsCore any_b
unfolding starts_with_slash strip_any_depth starts_with
any_b-IsCore = record {
  nonempty = refl;
  no_slash_before = refl;
  no_slash_behind = refl;
  no_any_depth = refl;
}

a_any-IsCore : IsCore (97 ∷ slash ∷ star ∷ [])
unfolding starts_with_slash strip_any_depth starts_with
a_any-IsCore = record {
  nonempty = refl;
  no_slash_before = refl;
  no_slash_behind = refl;
  no_any_depth = refl;
}

glob-any_b : glob any_b a_b ≡ true
unfolding glob
glob-any_b = refl

glob_iff_example : (glob any_b a_b ≡ true) ↔ Matches any_b a_b
glob_iff_example = glob_iff any_b a_b a_b-NoStar

glob-star_text_missed_example :
    Matches (star ∷ 98 ∷ []) (star ∷ 97 ∷ 98 ∷ [])
    × (glob (star ∷ 98 ∷ []) (star ∷ 97 ∷ 98 ∷ []) ≡ false)
glob-star_text_missed_example =
    glob-star_text_missed 98 97 (λ e. omega (arith, e)) (λ e. omega (arith, e))
      (λ e. omega (arith, e))

pattern_matches_iff_example :
    (pattern_matches (97 ∷ slash ∷ star ∷ []) a_b (98 ∷ []) ≡ true)
    ↔ Selected false (97 ∷ slash ∷ star ∷ []) a_b (98 ∷ [])
pattern_matches_iff_example =
    pattern_matches_iff false (97 ∷ slash ∷ star ∷ []) a_b (98 ∷ []) a_any-IsCore a_b-NoStar
      b-NoStar

-- `*b` is included, everything is excluded.
abbrev only_b : FilterSet
only_b = record { includes = any_b ∷ []; excludes = (star ∷ []) ∷ [] }

any_file-AreCores : AreCores ((false, star ∷ []) ∷ [])
unfolding starts_with_slash strip_any_depth starts_with
any_file-AreCores = (
  record { nonempty = refl; no_slash_before = refl; no_slash_behind = refl; no_any_depth = refl },
  tt,
)

passes_iff_example :
    (passes only_b a_b ≡ true)
    ↔ (AnySelects ((false, any_b) ∷ []) a_b ⊎ ¬ (AnySelects ((false, star ∷ []) ∷ []) a_b))
passes_iff_example =
    passes_iff ((false, any_b) ∷ []) ((false, star ∷ []) ∷ []) a_b (any_b-IsCore, tt)
      any_file-AreCores a_b-NoStar

-- `?` is one byte: `?.txt` does not match the name of `é` and `.txt`.
question_run : glob (codes "?.txt") (195 ∷ 169 ∷ codes ".txt") ≡ false
unfolding glob
question_run = refl

-- A pattern with a slash is found inside names: `a/b` and `a/*` select `xa/bc`.
inside_run :
    (pattern_matches (codes "a/b") (codes "xa/bc") (codes "bc") ≡ true)
    × (pattern_matches (codes "a/*") (codes "xa/bc") (codes "bc") ≡ true)
unfolding pattern_matches
inside_run = (refl, refl)
