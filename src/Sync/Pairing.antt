-- ===== src/Sync/Pairing.antt =====
-- src/sync/sender.rs, the cross-file bases: the index of the files that may serve as the basis of another,
-- and the loop of `apply_plan` that pairs the files of a plan. A path is one that `wire_rel` gives:
-- names with a slash between them. A hash map is a function.
pub mod Stems
pub mod Index
pub mod Nearest
pub mod Candidate
pub mod Tasks
mod Runs
use cp.Common.{
  ℕ, List, [], ◌∷◌, ◌++◌, Option, none, some, Bool, true, false, not, ◌&&◌, ◌||◌, ◌==◌, ltb, leb,
  is_some, if◌then◌else◌, Bytes, bytes_eq, min, max, ◌-◌, ◌*◌, ◌^◌,
}

abbrev pub cross_basis_min : ℕ
cross_basis_min = 1048576

-- Parent, extension and stem
abbrev pub StemKey : Type 0
StemKey = Bytes × Option Bytes × Bytes

pub record StemEntry : Type 0 where
  pub size : ℕ
  pub rel : Bytes

-- `str::rsplit_once` of one character
unfoldable pub rsplit_once : ℕ → Bytes → Option (Bytes × Bytes)
rsplit_once c [] = none
rsplit_once c (x ∷ text) = elim (rsplit_once c text) [
  | some (before, after) ↦ some (x ∷ before, after)
  | none ↦ if x == c then some ([], text) else none
]

-- `Path::parent` and `Path::file_name`
unfoldable pub split_parent : Bytes → Bytes × Bytes
unfolding rsplit_once
split_parent rel = elim (rsplit_once 47 rel) [ some parts ↦ parts | none ↦ ([], rel) ]

-- `Path::extension` and `Path::file_stem` of a file name: a dot in front makes no extension.
unfoldable pub split_stem : Bytes → Option Bytes × Bytes
unfolding rsplit_once bytes_eq
split_stem name = if bytes_eq name (46 ∷ 46 ∷ []) then (none, []) else elim (rsplit_once 46 name) [
  | none ↦ (none, name)
  | some ([], after) ↦ (none, name)
  | some (c ∷ stem, after) ↦ (some after, c ∷ stem)
]

unfoldable pub stem_key : Bytes → StemKey
unfolding split_parent split_stem
stem_key rel =
    let parts = split_parent rel in let stem = split_stem parts.1 in (parts.0, stem.0, stem.1)

-- `str::is_char_boundary` in front of a byte: it does not continue a character.
abbrev pub starts_char : ℕ → Bool
starts_char c = ltb c 128 || leb 192 c

abbrev pub longer : ℕ → List Bytes → List Bytes
longer c [] = []
longer c (p ∷ ps) = (c ∷ p) ∷ longer c ps

-- The slices `stem[..i]` for the character boundaries `i` in `1..stem.len()`
unfoldable pub proper_prefixes : Bytes → List Bytes
proper_prefixes [] = []
proper_prefixes (c ∷ []) = []
proper_prefixes (c ∷ (d ∷ stem)) =
    let rest = longer c (proper_prefixes (d ∷ stem)) in
    if starts_char d then (c ∷ []) ∷ rest else rest

abbrev pub option_eq : Option Bytes → Option Bytes → Bool
option_eq none none = true
option_eq none (some b) = false
option_eq (some a) none = false
option_eq (some a) (some b) = bytes_eq a b

abbrev pub key_eq : StemKey → StemKey → Bool
key_eq (p, e, s) (p', e', s') = bytes_eq p p' && (option_eq e e' && bytes_eq s s')

abbrev pub StemMap : Type 0
StemMap = StemKey → List StemEntry

-- `entry(key).or_default().push(e)`
abbrev pub push_entry : StemKey → StemEntry → StemMap → StemMap
push_entry key e m k = if key_eq key k then m k ++ (e ∷ []) else m k

unfoldable pub push_prefixes : Bytes → Option Bytes → List Bytes → StemEntry → StemMap → StemMap
push_prefixes parent ext [] e m = m
push_prefixes parent ext (p ∷ ps) e m =
    push_prefixes parent ext ps e (push_entry (parent, ext, p) e m)

pub record BasisIndex : Type 0 where
  pub by_stem : StemMap
  pub extends : StemMap

abbrev pub no_basis : BasisIndex
no_basis = record { by_stem = λ k. []; extends = λ k. [] }

unfoldable pub register_basis_entry : Bytes → ℕ → BasisIndex → BasisIndex
unfolding stem_key proper_prefixes push_prefixes
register_basis_entry rel size index =
    if ltb size 524288
    then index
    else let key = stem_key rel in
      let e : StemEntry = record { size = size; rel = rel } in
      record {
        by_stem = push_entry key e index.by_stem;
        extends = push_prefixes key.0 key.1 (proper_prefixes key.2) e index.extends;
      }

-- The difference of the sizes, the path and its size
abbrev pub Best : Type 0
Best = Option (ℕ × (Bytes × ℕ))

abbrev pub is_nearer : ℕ → Best → Bool
is_nearer diff none = true
is_nearer diff (some (d, found)) = ltb diff d

abbrev pub consider : ℕ → StemEntry → Best → Best
consider size e best =
    let lo = min size e.size in
    let hi = max size e.size in
    let diff = hi - lo in
    if leb hi (min (lo * 2) (2 ^ 64 - 1)) && is_nearer diff best
    then some (diff, (e.rel, e.size))
    else best

abbrev pub consider_all : ℕ → List StemEntry → Best → Best
consider_all size [] best = best
consider_all size (e ∷ es) best = consider_all size es (consider size e best)

abbrev pub consider_prefixes : ℕ → StemKey → StemMap → List Bytes → Best → Best
consider_prefixes size key m [] best = best
consider_prefixes size key m (p ∷ ps) best =
    consider_prefixes size key m ps (consider_all size (m (key.0, key.1, p)) best)

abbrev pub found_of : Best → Option (Bytes × ℕ)
found_of none = none
found_of (some (d, found)) = some found

unfoldable pub indexed_candidate : BasisIndex → Bytes → ℕ → Option (Bytes × ℕ)
unfolding stem_key proper_prefixes
indexed_candidate index rel size =
    let key = stem_key rel in
    let best = consider_prefixes size key index.by_stem (proper_prefixes key.2) none in
    found_of (consider_all size (index.extends key) best)
