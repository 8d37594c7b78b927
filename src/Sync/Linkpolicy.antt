-- ===== src/Sync/Linkpolicy.antt =====
-- src/sync/linkpolicy.rs, on Unix paths: the mode of a file on the wire, the classification of a link
-- and the rewriting of its target. A path is its components; the calls that resolve a path on the file
-- system are a parameter.
pub mod Rewrite
mod Runs
use cp.Common.{
  ℕ, zero, suc, bit_and, List, [], ◌∷◌, ◌++◌, Option, none, some, Bool, true, false, ◌&&◌, ◌||◌,
  ◌==◌, leb, if◌then◌else◌, Bytes, length, drop, replicate, get_or,
}
use cp.Common.{◌+◌, ◌*◌, ◌^◌}
use cp.Security.Sanitizer.{
  Component, root_dir, cur_dir, parent_dir, normal, component_eq, starts_with, parent,
}

pub data TargetOs : Type 0 where
  unix : TargetOs
  windows : TargetOs

unfoldable pub final_mode : TargetOs → TargetOs → ℕ → Bool → Bool → Bool → Bool → ℕ
final_mode source_os target_os raw_mode is_dir exec_hint no_perms keep_special_bits =
    if no_perms then (if is_dir then 0o755 else 0o644) else elim source_os [
      | unix ↦ bit_and raw_mode (if keep_special_bits then 0o7777 else 0o777)
      | windows ↦ if is_dir || exec_hint then 0o755 else 0o644
    ]

-- How many components two paths share at their start
pub common_prefix : List Component → List Component → ℕ
common_prefix [] to = 0
common_prefix (a ∷ from) [] = 0
common_prefix (a ∷ from) (b ∷ to) =
    let n = common_prefix from to in if component_eq a b then suc n else 0

-- An empty path is written `.`.
abbrev pub or_dot : List Component → List Component
or_dot [] = cur_dir ∷ []
or_dot (c ∷ path) = c ∷ path

-- Both paths are rooted in the same tree: either both are relative or both start at the root, and `.`
-- stands only alone.
unfoldable pub rel_path : List Component → List Component → List Component
unfolding common_prefix
rel_path from to =
    let common = common_prefix from to in
    or_dot (replicate (length (drop common from)) parent_dir ++ drop common to)

abbrev pub or_empty : Option (List Component) → List Component
or_empty none = []
or_empty (some front) = front

abbrev pub parent_or_empty : List Component → List Component
parent_or_empty path = or_empty (parent path)

unfoldable pub rewrite_internal_target : List Component → List Component → List Component
unfolding rel_path parent
rewrite_internal_target link_rel target_rel = rel_path (parent_or_empty link_rel) target_rel

abbrev pub is_absolute_path : List Component → Bool
is_absolute_path (root_dir ∷ path) = true
is_absolute_path _ = false

-- `Path::join` of a relative path: a leading `.` is kept at the start of a path only.
abbrev pub join_relative : List Component → List Component → List Component
join_relative [] target = target
join_relative (c ∷ front) (cur_dir ∷ target) = (c ∷ front) ++ target
join_relative (c ∷ front) target = (c ∷ front) ++ target

unfoldable pub resolve_target : List Component → List Component → List Component
unfolding parent
resolve_target link_path target =
    if is_absolute_path target then target else join_relative (parent_or_empty link_path) target

-- What `..` leaves of the parts before it, the latest first
abbrev pub cancel : List Component → List Component
cancel (normal s ∷ parts) = parts
cancel parts = parts

-- The parts that survive, the latest first
pub normalize_loop : List Component → List Component → List Component
normalize_loop parts [] = parts
normalize_loop parts (parent_dir ∷ path) = normalize_loop (cancel parts) path
normalize_loop parts (cur_dir ∷ path) = normalize_loop parts path
normalize_loop parts (root_dir ∷ path) = normalize_loop (root_dir ∷ parts) path
normalize_loop parts (normal s ∷ path) = normalize_loop (normal s ∷ parts) path

pub rev_onto : List Component → List Component → List Component
rev_onto [] out = out
rev_onto (c ∷ path) out = rev_onto path (c ∷ out)

unfoldable pub lexical_normalize : List Component → List Component
unfolding normalize_loop rev_onto
lexical_normalize path = rev_onto (normalize_loop [] path) []

pub data LinkClass : Type 0 where
  internal : LinkClass
  external_file : LinkClass
  external_dir : LinkClass
  dangling_external : LinkClass

-- What resolves a path: strictly, for a path that may not exist, and whether it is a directory
pub record Resolver : Type 0 where
  pub canonicalize : List Component → Option (List Component)
  pub soft_canonicalize : List Component → Option (List Component)
  pub is_dir : List Component → Bool

module _ (fs : Resolver) where
  pub dangling_class : List Component → List Component → LinkClass
  unfolding lexical_normalize
  dangling_class resolved root =
      let normalized : List Component = elim (fs.soft_canonicalize resolved) [
        | some path ↦ path
        | none ↦ lexical_normalize resolved
      ] in
      if starts_with normalized root then internal else dangling_external

  unfoldable pub classify_link : List Component → List Component → List Component → LinkClass
  unfolding resolve_target dangling_class
  classify_link link_path target root =
      let resolved = resolve_target link_path target in
      elim (fs.canonicalize resolved) [
        | none ↦ dangling_class resolved root
        | some real ↦
            if starts_with real root
            then internal
            else if fs.is_dir real
            then external_dir
            else external_file
      ]

unfoldable pub is_lnk_magic : Bytes → Bool
is_lnk_magic content =
    leb 4 (length content)
    && get_or content 0 0
        + 2 ^ 8 * get_or content 1 0
        + 2 ^ 16 * get_or content 2 0
        + 2 ^ 24 * get_or content 3 0
      == 0x4C
