-- ===== src/Security/Runs.antt =====
-- Runs of the sanitizer below `/r`, where every path resolves to itself.
use cp.Common.{◌≡◌, refl, List, [], ◌∷◌, Option, some, bytes_eq}
use cp.Security.Sanitizer.{
  Component, PathSanitizer, ok, err, traversal_attempt, absolute_path_not_allowed, join,
  join_preverified, verify_parent,
}

abbrev root : PathSanitizer
root = record { root = 47 ∷ 114 ∷ [] }

abbrev itself : List Component → Option (List Component)
itself path = some path

-- `a/../b`, `/etc`, and `.`, whose parent is the root's
dot_dot_run : join itself root (97 ∷ 47 ∷ 46 ∷ 46 ∷ 47 ∷ 98 ∷ []) ≡ err traversal_attempt
unfolding join bytes_eq
dot_dot_run = refl

absolute_run : join itself root (47 ∷ 101 ∷ []) ≡ err absolute_path_not_allowed
unfolding join bytes_eq
absolute_run = refl

dot_run : join itself root (46 ∷ []) ≡ err traversal_attempt
unfolding join bytes_eq
dot_run = refl

preverified_run : join_preverified itself root (46 ∷ []) ≡ ok (47 ∷ 114 ∷ 47 ∷ 46 ∷ [])
unfolding join_preverified bytes_eq
preverified_run = refl

verify_parent_run : verify_parent itself root (47 ∷ 115 ∷ []) ≡ err traversal_attempt
unfolding verify_parent bytes_eq
verify_parent_run = refl
