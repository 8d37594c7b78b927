-- ===== src/Filter.antt =====
-- src/sync/filter.rs: include and exclude patterns. Patterns and paths are their bytes.
pub mod Spec
mod Search
mod Rounds
mod Sound
mod Complete
pub mod Glob
mod Meaning
pub mod Patterns
pub mod Passes
mod Runs
use cp.Common.{ℕ, zero, suc, ◌+◌, ◌*◌, Bytes, List, [], ◌∷◌, Option, none, some}
use cp.Common.{Bool, true, false, not, ◌&&◌, ◌||◌, leb, ◌==◌, if◌then◌else◌}
use cp.Common.{any, length, take, drop, get_elem?, bytes_eq}
use mathlib.Core.List.{tail, reverse}

abbrev pub slash : ℕ
slash = b'/'

abbrev pub star : ℕ
star = b'*'

abbrev pub question : ℕ
question = b'?'

pub record FilterSet : Type 0 where
  pub includes : List Bytes
  pub excludes : List Bytes

abbrev pub is_empty {ℓ} : {A : Type ℓ} → List A → Bool
is_empty [] = true
is_empty (x ∷ xs) = false

pub is_active : FilterSet → Bool
is_active fs = not (is_empty fs.includes) || not (is_empty fs.excludes)

abbrev is_wildcard : ℕ → Bool
is_wildcard b = b == star || b == question

pub has_wildcards : Bytes → Bool
has_wildcards pattern = any is_wildcard pattern

-- `pattern[p] == b'?' || pattern[p] == text[t]`, within the pattern
pub one_matches : Bytes → ℕ → Bool
one_matches [] c = false
one_matches (x ∷ p) c = x == question || x == c

pub at_star : Bytes → Bool
at_star [] = false
at_star (x ∷ p) = x == star

-- What is left of the pattern and of the text, and the remembered star: the pattern behind it and
-- the text where its run began to be extended (`star_p + 1` and `star_t`).
abbrev pub Scan : Type 0
Scan = Bytes × Bytes × Option (Bytes × Bytes)

pub retry : Option (Bytes × Bytes) → Option Scan
retry none = none
retry (some (p, t)) = some (p, tail t, some (p, tail t))

-- One round of the loop at a text that is not used up; `none` is the mismatch that ends it.
pub step : Bytes → ℕ → Bytes → Option (Bytes × Bytes) → Option Scan
step p c t saved =
    if one_matches p c
    then some (tail p, t, saved)
    else if at_star p
    then some (tail p, c ∷ t, some (tail p, c ∷ t))
    else retry saved

-- The loop behind the main one, and the last test.
pub all_stars : Bytes → Bool
all_stars [] = true
all_stars (x ∷ p) = x == star && all_stars p

-- `while t < text.len()`, with fuel.
pub glob_loop : ℕ → Bytes → Bytes → Option (Bytes × Bytes) → Bool
glob_loop zero p t saved = false
glob_loop (suc fuel) p [] saved = all_stars p
glob_loop (suc fuel) p (c ∷ t) saved = elim (step p c t saved) [
  | none ↦ false
  | some (p', t', saved') ↦ glob_loop fuel p' t' saved'
]

-- Each round shortens the pattern, or the text, or the text behind the remembered star.
abbrev glob_fuel : Bytes → Bytes → ℕ
glob_fuel pattern text = (length text + 2) * (length text + length pattern + 1)

unfoldable pub glob : Bytes → Bytes → Bool
unfolding glob_loop step retry one_matches at_star all_stars has_wildcards bytes_eq
glob pattern text =
    if has_wildcards pattern
    then glob_loop (glob_fuel pattern text) pattern text none
    else bytes_eq pattern text

unfoldable pub starts_with : Bytes → Bytes → Bool
starts_with text [] = true
starts_with [] (x ∷ p) = false
starts_with (c ∷ text) (x ∷ p) = c == x && starts_with text p

abbrev is_slash : Option ℕ → Bool
is_slash none = false
is_slash (some c) = c == slash

pub prefix_matches : Bytes → Bytes → Bool
unfolding glob starts_with
prefix_matches pattern path =
    if glob pattern path
    then true
    else starts_with path pattern && is_slash (get_elem? path (length pattern))

pub trim_start_slashes : Bytes → Bytes
trim_start_slashes [] = []
trim_start_slashes (c ∷ cs) = if c == slash then trim_start_slashes cs else c ∷ cs

pub trim_end_slashes : Bytes → Bytes
unfolding trim_start_slashes
trim_end_slashes s = reverse (trim_start_slashes (reverse s))

-- `strip_prefix("**/").unwrap_or(pattern)`
pub strip_any_depth : Bytes → Bytes
strip_any_depth (a ∷ b ∷ c ∷ rest) =
    if a == star && b == star && c == slash then rest else a ∷ b ∷ c ∷ rest
strip_any_depth s = s

abbrev pub contains_slash : Bytes → Bool
contains_slash = any (λ c. c == slash)

-- `(0..=bytes.len()).any(|start| glob(pat, &bytes[start..]))`
pub glob_any_suffix : Bytes → Bytes → Bool
unfolding glob
glob_any_suffix pat [] = glob pat []
glob_any_suffix pat (c ∷ cs) = glob pat (c ∷ cs) || glob_any_suffix pat cs

pub windows : ℕ → Bytes → List Bytes
windows k [] = []
windows k (c ∷ cs) = if leb k (length (c ∷ cs)) then take k (c ∷ cs) ∷ windows k cs else []

-- An unanchored pattern that contains a slash.
pub match_slashed : Bytes → Bytes → Bool
unfolding glob has_wildcards glob_any_suffix windows bytes_eq
match_slashed pattern path =
    if has_wildcards pattern
    then glob_any_suffix pattern path
    else any (λ w. bytes_eq w pattern) (windows (length pattern) path)

-- The tests behind the normalisation of the pattern.
pub match_core : Bool → Bytes → Bytes → Bytes → Bool
unfolding glob prefix_matches match_slashed
match_core anchored pattern path basename =
    if is_empty pattern
    then false
    else if contains_slash pattern
    then (if anchored then prefix_matches pattern path else match_slashed pattern path)
    else if anchored
    then prefix_matches pattern path
    else glob pattern basename

pub starts_with_slash : Bytes → Bool
starts_with_slash [] = false
starts_with_slash (c ∷ cs) = c == slash

unfoldable pub pattern_matches : Bytes → Bytes → Bytes → Bool
unfolding match_core starts_with_slash trim_start_slashes trim_end_slashes strip_any_depth
pattern_matches pattern path basename =
    match_core (starts_with_slash pattern)
      (strip_any_depth (trim_end_slashes (trim_start_slashes pattern))) path basename

-- `path.rsplit('/').next()`
pub last_segment : Bytes → Bytes
last_segment [] = []
last_segment (c ∷ cs) =
    if contains_slash cs then last_segment cs else if c == slash then cs else c ∷ cs

unfoldable pub passes : FilterSet → Bytes → Bool
unfolding is_active last_segment pattern_matches
passes fs path =
    if not (is_active fs)
    then true
    else (let basename = last_segment path in
        let matched = any (λ p. pattern_matches p path basename) in
        if matched fs.includes then true else if matched fs.excludes then false else true)
