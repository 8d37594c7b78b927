-- ===== src/Sync/Linkpolicy/Rewrite.antt =====
-- A rewritten link leads where the link led.
use cp.Common.{
  ℕ, zero, suc, ◌≡◌, refl, sym, ap, ap₂, ◌∙◌, inl, inr, List, [], ◌∷◌, ◌++◌, append-nil, Option,
  none, some, Bool, true, false, bytes_eq_iff, Bool-cases, All, length, drop, take,
  take-append-drop, replicate, if◌then◌else◌,
}
use cp.Security.Sanitizer.{Component, root_dir, cur_dir, parent_dir, normal, component_eq, parent}
use cp.Security.Sanitizer.Inside.{IsNormal}
use cp.Sync.Linkpolicy.{
  common_prefix, or_empty, or_dot, rel_path, rewrite_internal_target, parent_or_empty,
  join_relative, resolve_target, is_absolute_path, normalize_loop, rev_onto, lexical_normalize,
}

component_eq-eq : (a b : Component) → component_eq a b ≡ true → a ≡ b
component_eq-eq root_dir root_dir h = refl
component_eq-eq cur_dir cur_dir h = refl
component_eq-eq parent_dir parent_dir h = refl
component_eq-eq (normal s) (normal t) h = ap normal ((bytes_eq_iff s t).0 h)
component_eq-eq root_dir cur_dir h = cc
component_eq-eq root_dir parent_dir h = cc
component_eq-eq root_dir (normal t) h = cc
component_eq-eq cur_dir root_dir h = cc
component_eq-eq cur_dir parent_dir h = cc
component_eq-eq cur_dir (normal t) h = cc
component_eq-eq parent_dir root_dir h = cc
component_eq-eq parent_dir cur_dir h = cc
component_eq-eq parent_dir (normal t) h = cc
component_eq-eq (normal s) root_dir h = cc
component_eq-eq (normal s) cur_dir h = cc
component_eq-eq (normal s) parent_dir h = cc

-- What two paths share is the same in both.
take-common_prefix :
    (from to : List Component) → take (common_prefix from to) from ≡ take (common_prefix from to) to
unfolding common_prefix
take-common_prefix [] to = refl
take-common_prefix (a ∷ from) [] = refl
take-common_prefix (a ∷ from) (b ∷ to) = elim (Bool-cases (component_eq a b)) [
  | inl same ↦ rw same (ap₂ ◌∷◌ (component_eq-eq a b same) (take-common_prefix from to))
  | inr other ↦ rw other refl
]

drop-All : (n : ℕ) (path : List Component) → All IsNormal path → All IsNormal (drop n path)
drop-All zero path h = h
drop-All (suc n) [] h = h
drop-All (suc n) (c ∷ path) h = drop-All n path h.1

-- Names pile up, and as many `..` take them down again.
loop-names :
    (parts path rest : List Component)
    → All IsNormal path
    → normalize_loop parts (path ++ rest) ≡ normalize_loop (rev_onto path parts) rest
unfolding normalize_loop rev_onto
loop-names parts [] rest h = refl
loop-names parts (normal s ∷ path) rest h = loop-names (normal s ∷ parts) path rest h.1
loop-names parts (root_dir ∷ path) rest h = absurd h.0
loop-names parts (cur_dir ∷ path) rest h = absurd h.0
loop-names parts (parent_dir ∷ path) rest h = absurd h.0

replicate-suc :
    (n : ℕ) (rest : List Component)
    → replicate (suc n) parent_dir ++ rest ≡ replicate n parent_dir ++ (parent_dir ∷ rest)
replicate-suc zero rest = refl
replicate-suc (suc n) rest = ap (◌∷◌ parent_dir) (replicate-suc n rest)

loop-parents :
    (parts path rest : List Component)
    → All IsNormal path
    → normalize_loop (rev_onto path parts) (replicate (length path) parent_dir ++ rest)
      ≡ normalize_loop parts rest
unfolding normalize_loop rev_onto
loop-parents parts [] rest h = refl
loop-parents parts (normal s ∷ path) rest h =
    ap (normalize_loop (rev_onto path (normal s ∷ parts))) (replicate-suc (length path) rest)
    ∙ loop-parents (normal s ∷ parts) path (parent_dir ∷ rest) h.1
loop-parents parts (root_dir ∷ path) rest h = absurd h.0
loop-parents parts (cur_dir ∷ path) rest h = absurd h.0
loop-parents parts (parent_dir ∷ path) rest h = absurd h.0

rev_onto-rev_onto :
    (path parts out : List Component)
    → rev_onto (rev_onto path parts) out ≡ rev_onto parts (path ++ out)
unfolding rev_onto
rev_onto-rev_onto [] parts out = refl
rev_onto-rev_onto (c ∷ path) parts out = rev_onto-rev_onto path (c ∷ parts) out

rev_onto-append :
    (xs ys out : List Component) → rev_onto (xs ++ ys) out ≡ rev_onto ys (rev_onto xs out)
unfolding rev_onto
rev_onto-append [] ys out = refl
rev_onto-append (x ∷ xs) ys out = rev_onto-append xs ys (x ∷ out)

loop-or_dot :
    (parts path : List Component) → normalize_loop parts (or_dot path) ≡ normalize_loop parts path
unfolding normalize_loop
loop-or_dot parts [] = refl
loop-or_dot parts (c ∷ path) = refl

loop-nil : (parts : List Component) → normalize_loop parts [] ≡ parts
unfolding normalize_loop
loop-nil parts = refl

-- From the directory that it is relative to, a relative path leads to its target.
loop-rel_path :
    (from to : List Component)
    → All IsNormal from
    → All IsNormal to
    → normalize_loop (rev_onto from []) (rel_path from to) ≡ rev_onto to []
unfolding rel_path
loop-rel_path from to f t =
    let n = common_prefix from to in
    let shared = rev_onto (take n from) [] in
    let up = replicate (length (drop n from)) parent_dir in
    let down = drop n to in
    loop-or_dot (rev_onto from []) (up ++ down)
    ∙ ap (λ (p : List Component). normalize_loop (rev_onto p []) (up ++ down))
        (sym (take-append-drop n from))
    ∙ ap (λ (p : List Component). normalize_loop p (up ++ down))
        (rev_onto-append (take n from) (drop n from) [])
    ∙ loop-parents shared (drop n from) down (drop-All n from f)
    ∙ ap (normalize_loop shared) (sym (append-nil down))
    ∙ loop-names shared down [] (drop-All n to t)
    ∙ loop-nil (rev_onto down shared)
    ∙ ap (λ (p : List Component). rev_onto down (rev_onto p [])) (take-common_prefix from to)
    ∙ sym (rev_onto-append (take n to) down [])
    ∙ ap (λ (p : List Component). rev_onto p []) (take-append-drop n to)

parent-IsNormal : (path : List Component) → All IsNormal path → All IsNormal (parent_or_empty path)
unfolding parent
parent-IsNormal [] h = tt
parent-IsNormal (root_dir ∷ path) h = absurd h.0
parent-IsNormal (cur_dir ∷ path) h = absurd h.0
parent-IsNormal (parent_dir ∷ path) h = absurd h.0
parent-IsNormal (normal s ∷ []) h = tt
parent-IsNormal (normal s ∷ d ∷ path) h =
    let grows =
      elim (parent (d ∷ path))
        as (λ (o : Option (List Component)).
          All IsNormal (or_empty o)
          → All IsNormal (
              or_empty (elim o as (λ _. Option (List Component)) [
                | none ↦ some (normal s ∷ [])
                | some front ↦ some (normal s ∷ front)
              ]))) [ none ↦ λ k. (tt, tt) | some front ↦ λ k. (tt, k) ] in
    grows (parent-IsNormal (d ∷ path) h.1)

relative :
    (n : ℕ) (names : List Component)
    → All IsNormal names
    → is_absolute_path (or_dot (replicate n parent_dir ++ names)) ≡ false
relative (suc n) names h = refl
relative zero [] h = refl
relative zero (normal s ∷ names) h = refl
relative zero (cur_dir ∷ names) h = refl
relative zero (parent_dir ∷ names) h = refl
relative zero (root_dir ∷ names) h = absurd h.0

rev_onto-nil : (out : List Component) → rev_onto [] out ≡ out
unfolding rev_onto
rev_onto-nil out = refl

rel_path_relative :
    (from to : List Component) → All IsNormal to → is_absolute_path (rel_path from to) ≡ false
unfolding rel_path
rel_path_relative from to h =
    let n = common_prefix from to in relative (length (drop n from)) (drop n to) (drop-All n to h)

loop-join_relative :
    (front path : List Component)
    → All IsNormal front
    → normalize_loop [] (join_relative front path) ≡ normalize_loop (rev_onto front []) path
unfolding normalize_loop rev_onto
loop-join_relative [] path h = refl
loop-join_relative (c ∷ front) [] h = loop-names [] (c ∷ front) [] h
loop-join_relative (c ∷ front) (cur_dir ∷ path) h = loop-names [] (c ∷ front) path h
loop-join_relative (c ∷ front) (root_dir ∷ path) h = loop-names [] (c ∷ front) (root_dir ∷ path) h
loop-join_relative (c ∷ front) (parent_dir ∷ path) h =
    loop-names [] (c ∷ front) (parent_dir ∷ path) h
loop-join_relative (c ∷ front) (normal s ∷ path) h = loop-names [] (c ∷ front) (normal s ∷ path) h

-- A link inside the tree that is rewritten to a path relative to itself leads, resolved against its own
-- directory at the destination, to the target's path inside the tree, whatever the two paths of names
-- share.
pub lexical_normalize-rewrite_internal_target :
    (link_rel target_rel : List Component)
    → All IsNormal link_rel
    → All IsNormal target_rel
    → lexical_normalize (resolve_target link_rel (rewrite_internal_target link_rel target_rel))
      ≡ target_rel
unfolding lexical_normalize resolve_target rewrite_internal_target
lexical_normalize-rewrite_internal_target link_rel target_rel l t =
    let dir = parent_or_empty link_rel in
    let rel = rel_path dir target_rel in
    let d = parent-IsNormal link_rel l in
    ap (λ (b : Bool). rev_onto (normalize_loop [] (if b then rel else join_relative dir rel)) [])
      (rel_path_relative dir target_rel t)
    ∙ ap (λ (p : List Component). rev_onto p [])
        (loop-join_relative dir rel d ∙ loop-rel_path dir target_rel d t)
    ∙ rev_onto-rev_onto target_rel [] []
    ∙ rev_onto-nil (target_rel ++ [])
    ∙ append-nil target_rel
