-- ===== src/Sync/Serve/Contained.antt =====
-- Where a path that a peer asks of `resolve_serve_path` (src/sync/executor.rs) leads.
use cp.Common.{◌≡◌, refl, inl, inr, [], ◌∷◌, some, Option-cases, true, false, Bool-cases, Bytes}
use cp.Platform.Result.{ok}
use cp.Security.Sanitizer.{is_absolute, PathSanitizer, SecurityResult}
use cp.Security.Sanitizer
use cp.Security.Sanitizer.Inside.{Inside, join-Inside}
use cp.Sync.Serve.{Outside, has_parent, accepted, sanitize_join, resolve_serve_path}

accepted-eq-ok : (r : SecurityResult Bytes) (p : Bytes) → accepted r ≡ ok p → r ≡ Sanitizer.ok p
accepted-eq-ok (Sanitizer.ok q) p h = cc h
accepted-eq-ok (Sanitizer.err e) p h = cc h

-- What is served: the root, an absolute path without `..`, or a path inside the root as it resolves
pub data Served (io : Outside) (root path p : Bytes) : Type 0 where
  whole : path ≡ [] → p ≡ root → Served io root path p
  absolute : is_absolute path ≡ true → has_parent path ≡ false → p ≡ path → Served io root path p
  relative :
      (real : Bytes)
      → is_absolute path ≡ false
      → io.open_root root ≡ some real
      → (is_absolute real ≡ true → Inside io.soft_canonicalize (record { root = real }) p)
      → Served io root path p

module _ (io : Outside) (root : Bytes) where
  sanitize_join-Inside :
      (path p : Bytes)
      → sanitize_join io root path ≡ ok p
      → (real : Bytes) × (io.open_root root ≡ some real)
        × (is_absolute real ≡ true → Inside io.soft_canonicalize (record { root = real }) p)
  unfolding sanitize_join
  sanitize_join-Inside path p h = elim (Option-cases (io.open_root root)) [
    | inl e ↦ cc (rw (e, sanitize_join) at h)
    | inr (real, e) ↦ (
      real,
      e,
      λ a.
          join-Inside io.soft_canonicalize (record { root = real }) path p a
            (accepted-eq-ok _ p (rw (e, sanitize_join) at h)),
    )
  ]

  -- A path that a server resolves for a peer is its root, for the empty path; the absolute path that was
  -- asked for, which has no `..`; or, for a relative path and a root that opens to an absolute one, a path
  -- inside that root both by its names and by what its directory resolves to.
  pub resolve_serve_path-Served :
      (path p : Bytes) → resolve_serve_path io root path ≡ ok p → Served io root path p
  unfolding resolve_serve_path
  resolve_serve_path-Served [] p h = Served.whole refl (cc h)
  resolve_serve_path-Served (c ∷ path) p h = elim (Bool-cases (is_absolute (c ∷ path))) [
    | inl rooted ↦ elim (Bool-cases (has_parent (c ∷ path))) [
      | inl up ↦ cc (rw (rooted, up) at h)
      | inr plain ↦ Served.absolute rooted plain (cc (rw (rooted, plain) at h))
    ]
    | inr below ↦
        let (real, e, inside) = sanitize_join-Inside (c ∷ path) p (rw below at h) in
        Served.relative real below e inside
  ]
