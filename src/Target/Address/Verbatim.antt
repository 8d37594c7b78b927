-- ===== src/Target/Address/Verbatim.antt =====
-- Which paths are read as they are written.
use cp.Common.{
  ℕ, ◌+◌, ◌≡◌, ◌≢◌, ◌<◌, ◌≤◌, ◌⊎◌, ◌↔◌, arith, refl, sym, ap, ◌∙◌, inl, inr, [], ◌∷◌, ◌++◌,
  append_assoc, Bool, true, false, not, ◌==◌, Bool-cases, if◌then◌else◌, Bytes, length,
  length-append, pair_path,
}
use cp.Target.Address.{
  RemoteTarget, remote, at, colon, slash, open_bracket, display, contains, ends_with, join_suffix,
  parse_host, parse_remote, has_separator, parse,
}
use cp.Target.Address.Split.{
  or-false, split_once-at, split_once-none, contains-append, ends_with-append,
}

-- A text that starts with another character than `c`
unfoldable pub starts_other : ℕ → Bytes → Bool
starts_other c [] = false
starts_other c (x ∷ text) = not (x == c)

-- A target whose user and host are words without separators, at the default port
pub record IsPlain (t : RemoteTarget) : Type 0 where
  pub user_at : contains at t.user ≡ false
  pub user_separator : has_separator t.user ≡ false
  pub host_separator : has_separator t.host ≡ false
  pub host_colon : contains colon t.host ≡ false
  pub host_start : starts_other open_bracket t.host ≡ true
  pub default_port : t.port ≡ 22

-- A path around its first slash: the part before it is empty, or it does not end with a colon and a
-- part follows that starts with no slash.
pub Kept : Bytes → Bytes → Type 0
unfolding ends_with starts_other
Kept s p = (s ≡ []) ⊎ ((ends_with colon s ≡ false) × (starts_other slash p ≡ true))

abbrev pub Verbatim : Bytes → Type 0
Verbatim path =
    (contains slash path ≡ false)
    ⊎ ((s p : Bytes) × (contains slash s ≡ false) × (path ≡ s ++ (slash ∷ p)) × Kept s p)

not-true : (b : Bool) → not b ≡ true → b ≡ false
not-true true h = cc
not-true false h = refl

join_suffix-nil : (suffix : Bytes) → join_suffix [] suffix ≡ suffix
unfolding join_suffix
join_suffix-nil [] = refl
join_suffix-nil (s ∷ suffix) = refl

parse_host-colon :
    (host s path : Bytes)
    → contains colon host ≡ false
    → starts_other open_bracket host ≡ true
    → parse_host (host ++ (colon ∷ s)) path ≡ (host, join_suffix path s)
unfolding parse_host starts_other
parse_host-colon [] s path h k = cc
parse_host-colon (x ∷ host) s path h k =
    let (other, none_in) = or-false (x == colon) (contains colon host) h in
    rw (not-true (x == open_bracket) k, other, split_once-at colon host s none_in, parse_host) refl

-- The path that is read where `s` comes before the first slash and `p` after it
pub heard : Bytes → Bytes → Bytes
heard s p = join_suffix (if ends_with colon (colon ∷ s) then slash ∷ p else p) s

ends_with-colon : (s : Bytes) (x : ℕ) → ends_with colon (colon ∷ x ∷ s) ≡ ends_with colon (x ∷ s)
unfolding ends_with
ends_with-colon s x = refl

pub parse_remote-slash :
    (host s p : Bytes)
    → contains colon host ≡ false
    → starts_other open_bracket host ≡ true
    → contains slash host ≡ false
    → contains slash s ≡ false
    → parse_remote (host ++ (colon ∷ (s ++ (slash ∷ p)))) ≡ (host, heard s p)
unfolding parse_remote heard
parse_remote-slash host s p h k l m =
    let split = sym (append_assoc host (colon ∷ s) (slash ∷ p)) in
    let none_in = contains-append slash host (colon ∷ s) l m in
    rw
      (
        split,
        split_once-at slash (host ++ (colon ∷ s)) p none_in,
        ends_with-append colon colon host s,
        parse_remote,
      )
      (parse_host-colon host s (if ends_with colon (colon ∷ s) then slash ∷ p else p) h k)

pub parse_remote-word :
    (host path : Bytes)
    → contains colon host ≡ false
    → starts_other open_bracket host ≡ true
    → contains slash host ≡ false
    → contains slash path ≡ false
    → parse_remote (host ++ (colon ∷ path)) ≡ (host, path)
unfolding parse_remote
parse_remote-word host path h k l m =
    rw
      (
        split_once-none slash (host ++ (colon ∷ path))
            (contains-append slash host (colon ∷ path) l m),
        parse_remote,
      )
      (parse_host-colon host path [] h k ∙ pair_path refl (join_suffix-nil path))

pub parse-display :
    (t : RemoteTarget) (path : Bytes)
    → IsPlain t
    → parse_remote (t.host ++ (colon ∷ t.path)) ≡ (t.host, path)
    → parse (display t) ≡ remote (record { user = t.user; host = t.host; port = 22; path = path })
unfolding parse display
parse-display t path h e =
    rw
      (
        split_once-at at t.user (t.host ++ (colon ∷ t.path)) h.user_at,
        h.user_separator,
        e,
        h.host_separator,
        parse,
      )
      refl

shorter : (short long : Bytes) → length short < length long → short ≢ long
shorter short long h e = omega (arith, h, ap length e)

heard-colon : (x : ℕ) (s p : Bytes) → ends_with colon (x ∷ s) ≡ true → heard (x ∷ s) p ≡ slash ∷ p
unfolding heard join_suffix ends_with
heard-colon x s p e = rw e refl

heard-nil : (x : ℕ) (s : Bytes) → ends_with colon (x ∷ s) ≡ false → heard (x ∷ s) [] ≡ x ∷ s
unfolding heard join_suffix ends_with
heard-nil x s e = rw e refl

heard-slash :
    (x : ℕ) (s : Bytes) (c : ℕ) (p : Bytes)
    → ends_with colon (x ∷ s) ≡ false
    → (c == slash) ≡ true
    → heard (x ∷ s) (c ∷ p) ≡ c ∷ p
unfolding heard join_suffix ends_with
heard-slash x s c p e f = rw (e, f) refl

heard-other :
    (x : ℕ) (s : Bytes) (c : ℕ) (p : Bytes)
    → ends_with colon (x ∷ s) ≡ false
    → (c == slash) ≡ false
    → heard (x ∷ s) (c ∷ p) ≡ (x ∷ s) ++ (slash ∷ c ∷ p)
unfolding heard join_suffix ends_with
heard-other x s c p e f = rw (e, f) refl

Kept-parts :
    (x : ℕ) (s p : Bytes)
    → Kept (x ∷ s) p
    → (ends_with colon (x ∷ s) ≡ false) × (starts_other slash p ≡ true)
unfolding Kept
Kept-parts x s p (inl h) = cc
Kept-parts x s p (inr h) = h

-- What is not read back and not kept
neither :
    (s p read : Bytes)
    → length read ≤ length s + length p
    → heard s p ≡ read
    → ¬ Kept s p
    → (heard s p ≡ s ++ (slash ∷ p)) ↔ Kept s p
neither s p read short e k = (
  λ h. absurd (
      shorter read (s ++ (slash ∷ p)) (omega (arith, short, length-append s (slash ∷ p)))
        (sym e ∙ h)),
  λ h. absurd (k h),
)

heard-words :
    (x : ℕ) (s p : Bytes)
    → ends_with colon (x ∷ s) ≡ false
    → (heard (x ∷ s) p ≡ (x ∷ s) ++ (slash ∷ p)) ↔ Kept (x ∷ s) p
unfolding Kept starts_other
heard-words x s [] e =
    neither (x ∷ s) [] (x ∷ s) (omega arith) (heard-nil x s e) (λ k. cc ((Kept-parts x s [] k).1))
heard-words x s (c ∷ p) e = elim (Bool-cases (c == slash)) [
  | inl f ↦
      neither (x ∷ s) (c ∷ p) (c ∷ p) (omega arith) (heard-slash x s c p e f)
        (λ k. cc (not-true (c == slash) (Kept-parts x s (c ∷ p) k).1, f))
  | inr f ↦ (λ h. inr (e, rw f refl), λ k. heard-other x s c p e f)
]

-- What is read is what was written when the parts around the first slash are kept.
pub heard_iff : (s p : Bytes) → (heard s p ≡ s ++ (slash ∷ p)) ↔ Kept s p
unfolding heard Kept join_suffix ends_with starts_other
heard_iff [] p = (λ h. inl refl, λ h. refl)
heard_iff (x ∷ s) p = elim (Bool-cases (ends_with colon (x ∷ s))) [
  | inl e ↦
      neither (x ∷ s) p (slash ∷ p) (omega arith) (heard-colon x s p e)
        (λ k. cc ((Kept-parts x s p k).0, e))
  | inr e ↦ heard-words x s p e
]
