-- ===== src/Filter/Patterns.antt =====
-- What each kind of pattern means, and how the lists of patterns are combined.
use cp.Common.{inl, inr, Bool-cases, ℕ, ◌≡◌, ◌↔◌, refl, ◌⊎◌}
use cp.Common.{arith, Bytes, [], ◌∷◌, List, Bool, true, false, not, ◌||◌}
use cp.Common.{drop, any, if◌then◌else◌}
use cp.Filter.{slash, has_wildcards, glob, contains_slash, prefix_matches, is_empty}
use cp.Filter.{match_slashed, match_core, starts_with_slash}
use cp.Filter.{trim_start_slashes, trim_end_slashes, strip_any_depth, pattern_matches}
use cp.Filter.{FilterSet, is_active, last_segment, passes}
use cp.Filter.Spec.{Matches}
use cp.Filter.Search.{NoStar}
use cp.Filter.Glob.{glob_iff}
use mathlib.Core.List.{reverse, reverse-reverse}
use cp.Filter.Meaning.{
  Below, Occurs, prefix_matches_iff, glob_any_suffix-Matches, Matches-glob_any_suffix, Occurs-iff,
}

-- A pattern as it is left when the slashes round it and a leading `**/` are taken off.
pub record IsCore (core : Bytes) : Type 0 where
  pub nonempty : is_empty core ≡ false
  pub no_slash_before : starts_with_slash core ≡ false
  pub no_slash_behind : starts_with_slash (reverse core) ≡ false
  pub no_any_depth : strip_any_depth core ≡ core

trimmed : (s : Bytes) → starts_with_slash s ≡ false → trim_start_slashes s ≡ s
unfolding trim_start_slashes starts_with_slash
trimmed [] h = refl
trimmed (c ∷ s) h = rw h

module _ (core path basename : Bytes) (k : IsCore core) where
  pattern_matches-core : pattern_matches core path basename ≡ match_core false core path basename
  unfolding pattern_matches trim_end_slashes
  pattern_matches-core = rw (
    trimmed core k.no_slash_before,
    trimmed (reverse core) k.no_slash_behind,
    reverse-reverse core,
    k.no_any_depth,
    k.no_slash_before,
  )

  pattern_matches-anchored :
      pattern_matches (slash ∷ core) path basename ≡ match_core true core path basename
  unfolding pattern_matches trim_end_slashes
  pattern_matches-anchored =
      let leading : starts_with_slash (slash ∷ core) ≡ true = (unfold starts_with_slash in refl) in
      let trim : trim_start_slashes (slash ∷ core) ≡ trim_start_slashes core =
        (unfold trim_start_slashes in refl) in
      rw (
        leading,
        trim,
        trimmed core k.no_slash_before,
        trimmed (reverse core) k.no_slash_behind,
        reverse-reverse core,
        k.no_any_depth,
      )

-- The four kinds of pattern, on a path without `*` bytes.
pattern_matches_kinds :
    (core path basename : Bytes)
    → IsCore core
    → NoStar path
    → NoStar basename
    → ((pattern_matches (slash ∷ core) path basename ≡ true)
        ↔ (Matches core path ⊎ Below core path))
      × (contains_slash core ≡ false
          → (pattern_matches core path basename ≡ true) ↔ Matches core basename)
      × (contains_slash core ≡ true
          → has_wildcards core ≡ true
          → (pattern_matches core path basename ≡ true) ↔ ((k : ℕ) × Matches core (drop k path)))
      × (contains_slash core ≡ true
          → has_wildcards core ≡ false
          → (pattern_matches core path basename ≡ true) ↔ Occurs core path)
unfolding match_core match_slashed
pattern_matches_kinds core path basename k hp hb =
    rw
      (
        pattern_matches-core core path basename k,
        pattern_matches-anchored core path basename k,
        k.nonempty,
      )
      (
        rw (anchored (contains_slash core)) (prefix_matches_iff core path hp),
        λ s. rw s (glob_iff core basename hb),
        λ s w.
            rw (s, w)
              (
                glob_any_suffix-Matches core path hp,
                λ (d, m). Matches-glob_any_suffix core path hp d m,
              ),
        λ s w. rw (s, w) (Occurs-iff core path k.nonempty),
      )
  where
    anchored :
        (b : Bool)
        → (if b
            then prefix_matches core path
            else if true
            then prefix_matches core path
            else glob core basename)
          ≡ prefix_matches core path
    anchored true = refl
    anchored false = refl

-- What a pattern selects, by its kind: anchored, by some end of the path, by a part, by the base name
abbrev pub Selected : Bool → Bytes → Bytes → Bytes → Type 0
Selected anchored core path basename =
    if anchored
    then (Matches core path ⊎ Below core path)
    else if contains_slash core
    then (if has_wildcards core then ((k : ℕ) × Matches core (drop k path)) else Occurs core path)
    else Matches core basename

-- A pattern that is not empty, has no slash at its ends and no `**/` before it selects on a path
-- without `*` bytes, byte for byte, `?` being any one byte: with a `/` before it, the root entry that
-- it matches and what lies below the directory of that very name; else, with no slash, by the base
-- name alone; with a slash and a wildcard, the paths of which it matches some end, that may begin
-- inside a name; with a slash and no wildcard, the paths that contain its bytes, also inside names.
pub pattern_matches_iff :
    (anchored : Bool) (core path basename : Bytes)
    → IsCore core
    → NoStar path
    → NoStar basename
    → (pattern_matches (if anchored then slash ∷ core else core) path basename ≡ true)
      ↔ Selected anchored core path basename
pattern_matches_iff true core path basename k hp hb =
    let (anchored, _, _, _) = pattern_matches_kinds core path basename k hp hb in anchored
pattern_matches_iff false core path basename k hp hb =
    let (_, named, suffixed, contained) = pattern_matches_kinds core path basename k hp hb in
    elim (Bool-cases (contains_slash core)) [
      | inr one ↦ rw one (named one)
      | inl several ↦ elim (Bool-cases (has_wildcards core)) [
        | inl wild ↦ rw (several, wild) (suffixed several wild)
        | inr plain ↦ rw (several, plain) (contained several plain)
      ]
    ]

-- An include beats every exclude.
pub passes_precedence :
    (fs : FilterSet) (path : Bytes)
    → let matched = λ (ps : List Bytes). any (λ p. pattern_matches p path (last_segment path)) ps in
      passes fs path ≡ (matched fs.includes || not (matched fs.excludes))
unfolding passes is_active
passes_precedence fs path = combine fs.includes fs.excludes
  where
    m : List Bytes → Bool
    m = any (λ p. pattern_matches p path (last_segment path))

    combine :
        (is es : List Bytes)
        → (if not (not (is_empty is) || not (is_empty es))
            then true
            else if m is
            then true
            else if m es
            then false
            else true)
          ≡ (m is || not (m es))
    combine [] [] = refl
    combine [] (e ∷ es) = ground arith
    combine (i ∷ is) es = ground arith

-- No path has a `/` in its last component.
pub contains_slash-last_segment : (path : Bytes) → contains_slash (last_segment path) ≡ false
unfolding last_segment
contains_slash-last_segment [] = refl
contains_slash-last_segment (c ∷ cs) = ground (arith, contains_slash-last_segment cs)
