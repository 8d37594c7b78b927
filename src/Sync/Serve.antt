-- ===== src/Sync/Serve.antt =====
-- src/sync/executor.rs: how a server resolves the paths and patterns that a peer asks for, on Unix paths.
-- The file system, the glob library and the order of a sort are parameters.
pub mod Contained
pub mod Listed
pub mod Dropped
mod Runs
use Prim.Native.String.{String}
use cp.Common.{
  ℕ, List, [], ◌∷◌, ◌++◌, Option, none, some, Bool, true, false, not, ◌||◌, ◌&&◌, ◌==◌,
  if◌then◌else◌, Bytes, bytes_eq, any, codes,
}
use cp.Platform.Result.{Result, ok, err, ◌>>=◌}
use cp.Security.Sanitizer.{
  Component, parent_dir, root_dir, cur_dir, normal, components, is_absolute, join_path,
  PathSanitizer, SecurityResult, SecurityError,
}
use cp.Security.Sanitizer

-- `PathSanitizer::new` is `open_root` of a root; `glob` is `glob_expand`.
pub record Outside : Type 0 where
  pub open_root : Bytes → Option Bytes
  pub soft_canonicalize : List Component → Option (List Component)
  pub exists : Bytes → Bool
  pub glob : Bytes → Option (List Bytes)
  pub sort : List Bytes → List Bytes

abbrev pub is_parent : Component → Bool
is_parent parent_dir = true
is_parent _ = false

unfoldable pub has_parent : Bytes → Bool
unfolding components
has_parent path = any is_parent (components path)

-- `*`, `?` or `[`
abbrev pub is_meta : ℕ → Bool
is_meta c = c == 42 || c == 63 || c == 91

abbrev pub has_glob_metachars : Bytes → Bool
has_glob_metachars s = any is_meta s

-- What stands before the first metacharacter, and the rest
pub split_meta : Bytes → Bytes × Bytes
split_meta [] = ([], [])
split_meta (c ∷ s) =
    let rest = split_meta s in if is_meta c then ([], c ∷ s) else (c ∷ rest.0, rest.1)

abbrev pub is_separator : ℕ → Bool
is_separator c = c == 47 || c == 92

-- What stands before the last separator, if there is one
pub before_last_separator : Bytes → Option Bytes
before_last_separator [] = none
before_last_separator (c ∷ s) = elim (before_last_separator s) [
  | some front ↦ some (c ∷ front)
  | none ↦ if is_separator c then some [] else none
]

abbrev pub base_text : Bytes → Bytes
base_text prefix = elim (before_last_separator prefix) [ some front ↦ front | none ↦ [] ]

abbrev pub accepted : SecurityResult Bytes → Result Bytes
accepted (Sanitizer.ok path) = ok path
accepted (Sanitizer.err e) = err "Unsafe path"

-- `Component::as_os_str`
abbrev pub os_str : Component → Bytes
os_str root_dir = codes "/"
os_str cur_dir = codes "."
os_str parent_dir = codes ".."
os_str (normal s) = s

-- `take_while` of the prefix and the root: a Unix path has no prefix.
unfoldable pub root_components : List Component → List Component
root_components [] = []
root_components (root_dir ∷ rest) = root_dir ∷ root_components rest
root_components (cur_dir ∷ rest) = []
root_components (parent_dir ∷ rest) = []
root_components (normal s ∷ rest) = []

-- `collect::<PathBuf>()`: each component is pushed.
unfoldable pub collect_path : Bytes → List Component → Bytes
unfolding join_path
collect_path path [] = path
collect_path path (c ∷ rest) = collect_path (join_path path (os_str c)) rest

abbrev pub or_slash : Bytes → Bytes
or_slash [] = codes "/"
or_slash (c ∷ root) = c ∷ root

unfoldable pub path_root : Bytes → Bytes
unfolding root_components collect_path components
path_root path = or_slash (collect_path [] (root_components (components path)))

unfoldable pub is_outside : Bytes → Bytes → Bool
unfolding Sanitizer.starts_with
is_outside base path = not (Sanitizer.starts_with (components path) (components base))

-- All entries must have the first one's filesystem root.
unfoldable pub under_root : Bytes → List Bytes → Result (Bytes × List Bytes)
unfolding is_outside
under_root base roots =
    if any (is_outside base) roots
    then err "remote --files-from entries must be on the same filesystem root"
    else ok (base, roots)

-- `roots[0]` of no entries, which is a panic, is not met, since two are asked for at least.
unfoldable pub from_root : List Bytes → Result (Bytes × List Bytes)
unfolding path_root under_root
from_root [] = err "index out of bounds"
from_root (r ∷ roots) = under_root (path_root r) (r ∷ roots)

module _ (io : Outside) where
  unfoldable pub sanitize_join : Bytes → Bytes → Result Bytes
  unfolding Sanitizer.join
  sanitize_join root rel = elim (io.open_root root) [
    | none ↦ err "Path sanitizer"
    | some real ↦ accepted (Sanitizer.join io.soft_canonicalize (record { root = real }) rel)
  ]

  unfoldable pub resolve_serve_path : Bytes → Bytes → Result Bytes
  unfolding sanitize_join
  resolve_serve_path root [] = ok root
  resolve_serve_path root (c ∷ path) =
      if is_absolute (c ∷ path)
      then (if has_parent (c ∷ path) then err ".. is not allowed" else ok (c ∷ path))
      else sanitize_join root (c ∷ path)

  unfoldable pub remote_glob_needs_expansion : Bytes → Bytes → Result Bool
  unfolding resolve_serve_path
  remote_glob_needs_expansion root pattern =
      if not (has_glob_metachars pattern)
      then ok false
      else resolve_serve_path root pattern >>= λ literal. ok (not (io.exists literal))

  -- The directory that a pattern is expanded in, by the text before it
  unfoldable pub glob_base : Bytes → Bytes → Result Bytes
  unfolding sanitize_join bytes_eq
  glob_base root [] = ok root
  glob_base root (c ∷ text) =
      if bytes_eq (c ∷ text) (codes ".")
      then ok root
      else if c == 47
      then ok (c ∷ text)
      else sanitize_join root (c ∷ text)

  abbrev pub sorted_matches : Bytes → Option (List Bytes) → Result (Option (Bytes × List Bytes))
  sorted_matches base none = err "glob error"
  sorted_matches base (some []) = ok none
  sorted_matches base (some (m ∷ matches)) = ok (some (base, io.sort (m ∷ matches)))

  -- The pattern without a literal of that name
  unfoldable pub expand_pattern : Bytes → Bytes → Result (Option (Bytes × List Bytes))
  unfolding split_meta before_last_separator glob_base join_path
  expand_pattern root pattern =
      let (prefix, fragment) = split_meta pattern in
      glob_base root (base_text prefix) >>= λ base.
      sorted_matches base (io.glob (join_path base fragment))

  unfoldable pub expand_remote_glob : Bytes → Bytes → Result (Option (Bytes × List Bytes))
  unfolding resolve_serve_path expand_pattern
  expand_remote_glob root pattern =
      if not (has_glob_metachars pattern)
      then ok none
      else resolve_serve_path root pattern >>= λ literal.
          if io.exists literal then ok none else expand_pattern root pattern

  abbrev pub found_matches : Option (Bytes × List Bytes) → Result (Bytes × List Bytes)
  found_matches none = err "no files match remote source pattern"
  found_matches (some m) = ok m

  unfoldable pub resolve_all : Bytes → List Bytes → Result (List Bytes)
  unfolding resolve_serve_path
  resolve_all root [] = ok []
  resolve_all root (p ∷ paths) =
      if not (is_absolute p)
      then err "remote --files-from entries must be absolute paths on the server"
      else resolve_serve_path root p >>= λ path. resolve_all root paths >>= λ rest. ok (path ∷ rest)

  unfoldable pub resolve_pull_roots : Bytes → List Bytes → Result (Bytes × List Bytes)
  unfolding expand_remote_glob resolve_all from_root
  resolve_pull_roots root [] = err "pull request has no paths"
  resolve_pull_roots root (p ∷ []) = expand_remote_glob root p >>= found_matches
  resolve_pull_roots root (p ∷ q ∷ paths) = resolve_all root (p ∷ q ∷ paths) >>= from_root
