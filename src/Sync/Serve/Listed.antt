-- ===== src/Sync/Serve/Listed.antt =====
-- Which lists of paths `resolve_pull_roots` of src/sync/executor.rs accepts.
use cp.Common.{
  ◌≡◌, ap, ◌∙◌, ◌↔◌, refl, inl, inr, List, [], ◌∷◌, true, false, Bool-cases, Bytes, All, codes, any,
}
use cp.Platform.Result.{ok, ◌>>=◌, Result-cases}
use cp.Security.Sanitizer.{
  is_absolute, is_dot, is_dot_dot, components, plain_components, segments, starts_with, join_path,
}
use cp.Sync.Serve.{
  Outside, has_parent, resolve_serve_path, from_root, under_root, is_outside, root_components,
  collect_path, path_root, resolve_all, resolve_pull_roots,
}

-- An absolute path without `..`
abbrev pub Plain : Bytes → Type 0
Plain path = (is_absolute path ≡ true) × (has_parent path ≡ false)

-- No component behind the first is a root.
root_components-plain_components :
    (parts : List Bytes) → root_components (plain_components parts) ≡ []
unfolding root_components plain_components
root_components-plain_components [] = refl
root_components-plain_components ([] ∷ parts) = root_components-plain_components parts
root_components-plain_components ((b ∷ s) ∷ parts) = elim (Bool-cases (is_dot (b ∷ s))) [
  | inl dot ↦ rw dot (root_components-plain_components parts)
  | inr other ↦ elim (Bool-cases (is_dot_dot (b ∷ s))) [
    | inl up ↦ rw (other, up) refl
    | inr name ↦ rw (other, name) refl
  ]
]

path_root-absolute : (path : Bytes) → is_absolute path ≡ true → path_root path ≡ codes "/"
unfolding path_root components collect_path root_components join_path
path_root-absolute path h = rw (h, root_components-plain_components (segments path)) refl

starts_with-slash :
    (path : Bytes)
    → is_absolute path ≡ true
    → starts_with (components path) (components (codes "/")) ≡ true
unfolding starts_with components plain_components segments
starts_with-slash path h = rw h refl

-- Absolute paths are all below the root `/`.
any-is_outside : (paths : List Bytes) → All Plain paths → any (is_outside (codes "/")) paths ≡ false
unfolding is_outside
any-is_outside [] h = refl
any-is_outside (p ∷ paths) (h, hs) = rw (starts_with-slash p h.0, any-is_outside paths hs) refl

under_root-Plain :
    (paths : List Bytes) → All Plain paths → under_root (codes "/") paths ≡ ok (codes "/", paths)
unfolding under_root
under_root-Plain paths h = rw (any-is_outside paths h) refl

from_root-Plain :
    (p : Bytes) (paths : List Bytes)
    → All Plain (p ∷ paths)
    → from_root (p ∷ paths) ≡ ok (codes "/", p ∷ paths)
unfolding from_root
from_root-Plain p paths h =
    ap (λ b. under_root b (p ∷ paths)) (path_root-absolute p h.0.0) ∙ under_root-Plain (p ∷ paths) h

module _ (io : Outside) (root : Bytes) where
  resolve_serve_path-Plain : (path : Bytes) → Plain path → resolve_serve_path io root path ≡ ok path
  unfolding resolve_serve_path
  resolve_serve_path-Plain [] (a, b) = cc a
  resolve_serve_path-Plain (c ∷ path) (a, b) = rw (a, b) refl

  Plain-resolve_serve_path :
      (path p : Bytes)
      → is_absolute path ≡ true
      → resolve_serve_path io root path ≡ ok p
      → has_parent path ≡ false
  unfolding resolve_serve_path
  Plain-resolve_serve_path [] p a h = cc a
  Plain-resolve_serve_path (c ∷ path) p a h = elim (Bool-cases (has_parent (c ∷ path))) [
    | inl up ↦ cc (rw (a, up) at h)
    | inr plain ↦ plain
  ]

  resolve_all-Plain : (paths : List Bytes) → All Plain paths → resolve_all io root paths ≡ ok paths
  unfolding resolve_all
  resolve_all-Plain [] h = refl
  resolve_all-Plain (p ∷ paths) (h, hs) =
      rw (h.0, resolve_serve_path-Plain p h, resolve_all-Plain paths hs) refl

  Plain-resolve_all :
      (paths roots : List Bytes) → resolve_all io root paths ≡ ok roots → All Plain paths
  unfolding resolve_all
  Plain-resolve_all [] roots h = tt
  Plain-resolve_all (p ∷ paths) roots h = elim (Bool-cases (is_absolute p)) [
    | inr below ↦ cc (rw below at h)
    | inl rooted ↦ elim (Result-cases (resolve_serve_path io root p)) [
      | inr (e, no_path) ↦ cc (rw (rooted, no_path) at h)
      | inl (q, path) ↦ elim (Result-cases (resolve_all io root paths)) [
        | inr (e, no_rest) ↦ cc (rw (rooted, path, no_rest) at h)
        | inl (rest, all) ↦
            ((rooted, Plain-resolve_serve_path p q rooted path), Plain-resolve_all paths rest all)
      ]
    ]
  ]

  -- A request for two paths or more is accepted exactly when each is absolute and has no `..`; it is then
  -- served as it stands, from the root of the file system.
  pub resolve_pull_roots_iff :
      (p q : Bytes) (paths : List Bytes) (base : Bytes) (roots : List Bytes)
      → (resolve_pull_roots io root (p ∷ q ∷ paths) ≡ ok (base, roots))
        ↔ (All Plain (p ∷ q ∷ paths) × (base ≡ codes "/") × (roots ≡ p ∷ q ∷ paths))
  unfolding resolve_pull_roots
  resolve_pull_roots_iff p q paths base roots = (forth, back)
    where
      all : List Bytes
      all = p ∷ q ∷ paths

      back :
          All Plain all × (base ≡ codes "/") × (roots ≡ all)
          → (resolve_all io root all >>= from_root) ≡ ok (base, roots)
      back (h, b, r) = rw (resolve_all-Plain all h, b, r) (from_root-Plain p (q ∷ paths) h)

      forth :
          (resolve_all io root all >>= from_root) ≡ ok (base, roots)
          → All Plain all × (base ≡ codes "/") × (roots ≡ all)
      forth h = elim (Result-cases (resolve_all io root all)) [
        | inr (e, refused) ↦ cc (rw refused at h)
        | inl (r, done) ↦
            let plain = Plain-resolve_all all r done in
            let h' = rw (resolve_all-Plain all plain) at h in
            let same = from_root-Plain p (q ∷ paths) plain in (plain, cc (same, h'), cc (same, h'))
      ]
