-- ===== src/Security/Sanitizer.antt =====
-- src/security/path_sanitizer.rs, on Unix paths. A path is its bytes; `Path::components`, `join` and
-- `parent` are those of the standard library. `soft_canonicalize` is a parameter, on components.
pub mod Inside
use cp.Common.{
  ℕ, Bytes, List, [], ◌∷◌, ◌++◌, Option, none, some, Bool, true, false, ◌==◌, ◌&&◌, bytes_eq,
  if◌then◌else◌,
}

pub data SecurityError : Type 0 where
  absolute_path_not_allowed : SecurityError
  traversal_attempt : SecurityError

pub data SecurityResult (A : Type 0) : Type 0 where
  ok : A → SecurityResult A
  err : SecurityError → SecurityResult A

infixl 5 ◌>>=◌
abbrev pub ◌>>=◌ : {A B : Type 0} → SecurityResult A → (A → SecurityResult B) → SecurityResult B
ok a >>= f = f a
err e >>= f = err e

-- A Unix path has no prefix.
pub data Component : Type 0 where
  root_dir : Component
  cur_dir : Component
  parent_dir : Component
  normal : Bytes → Component

abbrev pub is_dot : Bytes → Bool
is_dot s = bytes_eq s (46 ∷ [])

abbrev pub is_dot_dot : Bytes → Bool
is_dot_dot s = bytes_eq s (46 ∷ 46 ∷ [])

-- A byte in front of the first segment, or a slash in front of a new one
abbrev put_byte : ℕ → List Bytes → List Bytes
put_byte b [] = (b ∷ []) ∷ []
put_byte b (s ∷ rest) = if b == 47 then [] ∷ s ∷ rest else (b ∷ s) ∷ rest

-- The segments between the slashes, one at least
unfoldable pub segments : Bytes → List Bytes
segments [] = [] ∷ []
segments (b ∷ path) = put_byte b (segments path)

-- Empty segments and `.` are passed over.
unfoldable pub plain_components : List Bytes → List Component
plain_components [] = []
plain_components ([] ∷ rest) = plain_components rest
plain_components ((b ∷ s) ∷ rest) =
    let others = plain_components rest in
    if is_dot (b ∷ s)
    then others
    else if is_dot_dot (b ∷ s)
    then parent_dir ∷ others
    else normal (b ∷ s) ∷ others

abbrev pub is_absolute : Bytes → Bool
is_absolute [] = false
is_absolute (b ∷ path) = b == 47

-- A leading `.` is kept.
abbrev pub head_component : List Bytes → List Component
head_component [] = []
head_component (s ∷ rest) = if is_dot s then cur_dir ∷ [] else []

-- `Path::components`
unfoldable pub components : Bytes → List Component
unfolding segments plain_components
components path =
    (if is_absolute path then root_dir ∷ [] else head_component (segments path))
    ++ plain_components (segments path)

unfoldable pub check_components : List Component → SecurityResult (Unit {0})
check_components [] = ok tt
check_components (parent_dir ∷ rest) = err traversal_attempt
check_components (root_dir ∷ rest) = err absolute_path_not_allowed
check_components (cur_dir ∷ rest) = check_components rest
check_components (normal s ∷ rest) = check_components rest

unfoldable pub validate_components : Bytes → SecurityResult Bytes
unfolding check_components components
validate_components [] = err absolute_path_not_allowed
validate_components (b ∷ path) = check_components (components (b ∷ path)) >>= λ _. ok (b ∷ path)

abbrev pub ends_with_slash : Bytes → Bool
ends_with_slash [] = false
ends_with_slash (b ∷ []) = b == 47
ends_with_slash (b ∷ c ∷ path) = ends_with_slash (c ∷ path)

-- An empty path takes no separator.
abbrev pub takes_no_slash : Bytes → Bool
takes_no_slash [] = true
takes_no_slash (b ∷ path) = ends_with_slash (b ∷ path)

-- `Path::join`
unfoldable pub join_path : Bytes → Bytes → Bytes
join_path root path =
    if is_absolute path
    then path
    else if takes_no_slash root
    then root ++ path
    else root ++ (47 ∷ path)

-- The components of `Path::parent`: all but the last; a root has no parent.
unfoldable pub parent : List Component → Option (List Component)
parent [] = none
parent (root_dir ∷ []) = none
parent (cur_dir ∷ []) = some []
parent (parent_dir ∷ []) = some []
parent (normal s ∷ []) = some []
parent (c ∷ d ∷ rest) = elim (parent (d ∷ rest)) [
  | none ↦ some (c ∷ [])
  | some front ↦ some (c ∷ front)
]

abbrev pub component_eq : Component → Component → Bool
component_eq root_dir root_dir = true
component_eq cur_dir cur_dir = true
component_eq parent_dir parent_dir = true
component_eq (normal s) (normal t) = bytes_eq s t
component_eq _ _ = false

-- `Path::starts_with`
unfoldable pub starts_with : List Component → List Component → Bool
unfolding bytes_eq
starts_with path [] = true
starts_with [] (c ∷ prefix) = false
starts_with (d ∷ path) (c ∷ prefix) = component_eq d c && starts_with path prefix

-- The decision on what a path resolves to
pub within_root : List Component → Option (List Component) → SecurityResult (Unit {0})
unfolding starts_with
within_root root none = err traversal_attempt
within_root root (some real) = if starts_with real root then ok tt else err traversal_attempt

pub record PathSanitizer : Type 0 where
  pub root : Bytes

module _ (soft_canonicalize : List Component → Option (List Component))
    (sanitizer : PathSanitizer) where
  unfoldable pub ensure_within_root : List Component → SecurityResult (Unit {0})
  unfolding components within_root
  ensure_within_root path = within_root (components sanitizer.root) (soft_canonicalize path)

  abbrev pub parent_or_root : Bytes → List Component
  parent_or_root joined = elim (parent (components joined)) [
    | none ↦ components sanitizer.root
    | some front ↦ front
  ]

  unfoldable pub join : Bytes → SecurityResult Bytes
  unfolding validate_components join_path ensure_within_root parent
  join user_path = do
    path ← validate_components user_path
    let joined = join_path sanitizer.root path
    _ ← ensure_within_root (parent_or_root joined)
    ok joined

  unfoldable pub join_preverified : Bytes → SecurityResult Bytes
  unfolding validate_components join_path
  join_preverified user_path = do
    path ← validate_components user_path
    ok (join_path sanitizer.root path)

  unfoldable pub verify_parent : Bytes → SecurityResult (Unit {0})
  unfolding ensure_within_root
  verify_parent path = ensure_within_root (components path)
