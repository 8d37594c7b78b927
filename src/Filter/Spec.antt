-- ===== src/Filter/Spec.antt =====
-- What a wildcard pattern means byte for byte, with no reference to the search. The documentation of
-- src/sync/filter.rs says that `?` matches one character; the code compares bytes, and one byte is
-- one character in ASCII alone.
use cp.Common.{ℕ, Bytes, [], ◌∷◌, ◌≡◌, ◌⊎◌, drop, ◌==◌, if◌then◌else◌}
use cp.Filter.{star, question}
use mathlib.Core.List.{tail}

-- The first byte of a text is there, and is the pattern's byte unless that is `?`.
abbrev pub HeadMatches : ℕ → Bytes → Type 0
HeadMatches x [] = ⊥
HeadMatches x (c ∷ t) = (x ≡ question) ⊎ (x ≡ c)

-- `*` stands for any run of bytes, `?` for one byte, and any other byte for itself.
abbrev pub Matches : Bytes → Bytes → Type 0
Matches [] t = t ≡ []
Matches (x ∷ p) t =
    if x == star then ((k : ℕ) × Matches p (drop k t)) else HeadMatches x t × Matches p (tail t)
