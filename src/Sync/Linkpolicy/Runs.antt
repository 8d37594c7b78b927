-- ===== src/Sync/Linkpolicy/Runs.antt =====
-- Runs of the link policy.
use cp.Common.{◌≡◌, refl, Bytes, [], ◌∷◌, none, true, false, bytes_eq}
use cp.Security.Sanitizer.{Component, root_dir, cur_dir, parent_dir, normal, starts_with}
use cp.Sync.Linkpolicy.{
  unix, final_mode, rel_path, rewrite_internal_target, resolve_target, lexical_normalize,
  dangling_external, Resolver, classify_link, is_lnk_magic,
}
use cp.Sync.Linkpolicy.Rewrite.{lexical_normalize-rewrite_internal_target}

abbrev name : Bytes → Component
name s = normal s

-- `a/b/l` to `a/c`: the link holds `../c`.
rewrite_run :
    rewrite_internal_target
      (name (97 ∷ []) ∷ name (98 ∷ []) ∷ name (108 ∷ []) ∷ [])
      (name (97 ∷ []) ∷ name (99 ∷ []) ∷ [])
    ≡ parent_dir ∷ name (99 ∷ []) ∷ []
unfolding rewrite_internal_target bytes_eq
rewrite_run = refl

same_run : rel_path (name (97 ∷ []) ∷ []) (name (97 ∷ []) ∷ []) ≡ cur_dir ∷ []
unfolding rel_path bytes_eq
same_run = refl

lexical_normalize-rewrite_internal_target_example :
    lexical_normalize (
      resolve_target (name (97 ∷ []) ∷ name (98 ∷ []) ∷ name (108 ∷ []) ∷ []) (
        rewrite_internal_target
          (name (97 ∷ []) ∷ name (98 ∷ []) ∷ name (108 ∷ []) ∷ [])
          (name (97 ∷ []) ∷ name (99 ∷ []) ∷ [])))
    ≡ name (97 ∷ []) ∷ name (99 ∷ []) ∷ []
lexical_normalize-rewrite_internal_target_example =
    lexical_normalize-rewrite_internal_target
      (name (97 ∷ []) ∷ name (98 ∷ []) ∷ name (108 ∷ []) ∷ [])
      (name (97 ∷ []) ∷ name (99 ∷ []) ∷ []) (tt, (tt, (tt, tt))) (tt, (tt, tt))

abbrev bare : Resolver
bare = record { canonicalize = λ p. none; soft_canonicalize = λ p. none; is_dir = λ p. false }

-- A dangling link below `/r` that climbs out of it
classify_run :
    classify_link bare
      (root_dir ∷ name (114 ∷ []) ∷ name (108 ∷ []) ∷ [])
      (parent_dir ∷ name (120 ∷ []) ∷ [])
      (root_dir ∷ name (114 ∷ []) ∷ [])
    ≡ dangling_external
unfolding classify_link lexical_normalize starts_with bytes_eq
classify_run = refl

mode_run : final_mode unix unix 0o4755 false false false false ≡ 0o755
unfolding final_mode
mode_run = refl

magic_run : is_lnk_magic (0x4C ∷ 0 ∷ 0 ∷ 0 ∷ 1 ∷ []) ≡ true
unfolding is_lnk_magic
magic_run = refl
