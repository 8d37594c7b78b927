-- ===== src/Transport/Ssh/Platforms.antt =====
-- The platforms that src/transport/ssh.rs recognises.
use cp.Common.{
  ◌≡◌, refl, inl, inr, ◌⊎◌, List, [], ◌∷◌, some, Bool-cases, arith, Bytes, bytes_eq, codes, ◌||◌,
}
use cp.Transport.Ssh.{
  normalize_os, normalize_arch, normalize_platform, remote_triple, sidecar_candidates,
  to_ascii_lowercase,
}

normalize_os-cases :
    (os o : Bytes)
    → normalize_os os ≡ some o
    → (o ≡ codes "linux") ⊎ ((o ≡ codes "macos") ⊎ (o ≡ codes "windows"))
unfolding normalize_os
normalize_os-cases os o h = elim (Bool-cases (bytes_eq os (codes "linux"))) [
  | inl a ↦ inl (cc (rw a at h))
  | inr a ↦ elim (Bool-cases (bytes_eq os (codes "darwin"))) [
    | inl b ↦ inr (inl (cc (rw (a, b) at h)))
    | inr b ↦ elim (Bool-cases (bytes_eq os (codes "windows"))) [
      | inl c ↦ inr (inr (cc (rw (a, b, c) at h)))
      | inr c ↦ absurd (cc (rw (a, b, c) at h))
    ]
  ]
]

normalize_arch-cases :
    (arch a : Bytes) → normalize_arch arch ≡ some a → (a ≡ codes "x86_64") ⊎ (a ≡ codes "aarch64")
unfolding normalize_arch
normalize_arch-cases arch a h =
    elim (Bool-cases (bytes_eq arch (codes "x86_64") || bytes_eq arch (codes "amd64"))) [
      | inl e ↦ inl (cc (rw e at h))
      | inr e ↦
          elim (Bool-cases (bytes_eq arch (codes "aarch64") || bytes_eq arch (codes "arm64"))) [
            | inl f ↦ inr (cc (rw (e, f) at h))
            | inr f ↦ absurd (cc (rw (e, f) at h))
          ]
    ]

normalize_platform-parts :
    (os arch o a : Bytes)
    → normalize_platform os arch ≡ some (o, a)
    → (normalize_os (to_ascii_lowercase os) ≡ some o)
      × (normalize_arch (to_ascii_lowercase arch) ≡ some a)
unfolding normalize_platform
normalize_platform-parts os arch o a h = ground arith

-- The candidates of a recognised platform, its own triple first
sidecar_candidates_known :
    (o a : Bytes)
    → ((o ≡ codes "linux") ⊎ ((o ≡ codes "macos") ⊎ (o ≡ codes "windows")))
    → ((a ≡ codes "x86_64") ⊎ (a ≡ codes "aarch64"))
    → (triple : Bytes) × (others : List Bytes) × (remote_triple o a ≡ some triple)
      × (sidecar_candidates o a ≡ triple ∷ others)
unfolding remote_triple sidecar_candidates bytes_eq
sidecar_candidates_known o a (inl e) (inl f) =
    rw (e, f) (codes "x86_64-unknown-linux-musl", [], refl, refl)
sidecar_candidates_known o a (inl e) (inr f) =
    rw (e, f) (codes "aarch64-unknown-linux-musl", [], refl, refl)
sidecar_candidates_known o a (inr (inl e)) (inl f) =
    rw (e, f) (codes "x86_64-apple-darwin", [], refl, refl)
sidecar_candidates_known o a (inr (inl e)) (inr f) =
    rw (e, f) (codes "aarch64-apple-darwin", [], refl, refl)
sidecar_candidates_known o a (inr (inr e)) (inl f) =
    rw (e, f) (codes "x86_64-pc-windows-msvc", codes "x86_64-pc-windows-gnu" ∷ [], refl, refl)
sidecar_candidates_known o a (inr (inr e)) (inr f) =
    rw (e, f) (codes "aarch64-pc-windows-msvc", codes "aarch64-pc-windows-gnu" ∷ [], refl, refl)

-- Every platform that the probe recognises has a target triple, and a sidecar of that triple is the first
-- candidate for a deploy.
sidecar_candidates-normalize_platform :
    (os arch o a : Bytes)
    → normalize_platform os arch ≡ some (o, a)
    → (triple : Bytes) × (others : List Bytes) × (remote_triple o a ≡ some triple)
      × (sidecar_candidates o a ≡ triple ∷ others)
sidecar_candidates-normalize_platform os arch o a h =
    let (p, q) = normalize_platform-parts os arch o a h in
    sidecar_candidates_known o a (normalize_os-cases _ o p) (normalize_arch-cases _ a q)
