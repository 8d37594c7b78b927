-- ===== src/Sync/Serve/Dropped.antt =====
-- What `expand_remote_glob` of src/sync/executor.rs makes of the name before a metacharacter.
use cp.Common.{
  ℕ, ◌≡◌, refl, sym, ap, ◌∙◌, [], ◌∷◌, ◌++◌, append_assoc, none, some, Bool, true, false, ◌||◌,
  Bytes, any,
}
use cp.Platform.Result.{ok, ◌>>=◌}
use cp.Security.Sanitizer.{join_path}
use cp.Target.Address.Split.{or-false}
use cp.Sync.Serve.{
  Outside, is_meta, is_separator, has_glob_metachars, split_meta, before_last_separator, base_text,
  glob_base, resolve_serve_path, expand_pattern, expand_remote_glob, sorted_matches,
}

split_meta-append :
    (text : Bytes) (c : ℕ) (rest : Bytes)
    → has_glob_metachars text ≡ false
    → is_meta c ≡ true
    → split_meta (text ++ (c ∷ rest)) ≡ (text, c ∷ rest)
unfolding split_meta
split_meta-append [] c rest h m = rw m refl
split_meta-append (x ∷ text) c rest h m =
    let (other, others) = or-false (is_meta x) (has_glob_metachars text) h in
    rw (other, split_meta-append text c rest others m) refl

before_last_separator-none :
    (stem : Bytes) → any is_separator stem ≡ false → before_last_separator stem ≡ none
unfolding before_last_separator
before_last_separator-none [] h = refl
before_last_separator-none (x ∷ stem) h =
    let (other, others) = or-false (is_separator x) (any is_separator stem) h in
    rw (before_last_separator-none stem others, other) refl

before_last_separator-at :
    (dir stem : Bytes)
    → any is_separator stem ≡ false
    → before_last_separator (dir ++ (47 ∷ stem)) ≡ some dir
unfolding before_last_separator
before_last_separator-at [] stem h = rw (before_last_separator-none stem h) refl
before_last_separator-at (x ∷ dir) stem h = rw (before_last_separator-at dir stem h) refl

base_text-at :
    (dir stem : Bytes) → any is_separator stem ≡ false → base_text (dir ++ (47 ∷ stem)) ≡ dir
base_text-at dir stem h = rw (before_last_separator-at dir stem h, base_text) refl

any-append : (p : ℕ → Bool) (xs ys : Bytes) → any p xs ≡ false → any p (xs ++ ys) ≡ any p ys
any-append p [] ys h = refl
any-append p (x ∷ xs) ys h =
    let (other, others) = or-false (p x) (any p xs) h in rw other (any-append p xs ys others)

module _ (io : Outside) (root dir : Bytes) (c : ℕ) (rest : Bytes)
    (plain : has_glob_metachars dir ≡ false) (meta : is_meta c ≡ true) where
  abbrev pattern_of : Bytes → Bytes
  pattern_of stem = dir ++ (47 ∷ (stem ++ (c ∷ rest)))

  split_meta-pattern_of :
      (stem : Bytes)
      → has_glob_metachars stem ≡ false
      → split_meta (pattern_of stem) ≡ (dir ++ (47 ∷ stem), c ∷ rest)
  split_meta-pattern_of stem h =
      ap split_meta (sym (append_assoc dir (47 ∷ stem) (c ∷ rest)))
      ∙ split_meta-append (dir ++ (47 ∷ stem)) c rest (any-append is_meta dir (47 ∷ stem) plain ∙ h)
          meta

  -- The pattern is expanded as if the name stopped where its first metacharacter starts.
  expand_pattern-pattern_of :
      (stem : Bytes)
      → has_glob_metachars stem ≡ false
      → any is_separator stem ≡ false
      → expand_pattern io root (pattern_of stem) ≡ (
          glob_base io root dir >>= λ base.
          sorted_matches io base (io.glob (join_path base (c ∷ rest))))
  unfolding expand_pattern
  expand_pattern-pattern_of stem h k =
      rw (split_meta-pattern_of stem h, base_text-at dir stem k) refl

  has_glob_metachars-pattern_of :
      (stem : Bytes) → has_glob_metachars stem ≡ false → has_glob_metachars (pattern_of stem) ≡ true
  has_glob_metachars-pattern_of stem h =
      any-append is_meta dir (47 ∷ (stem ++ (c ∷ rest))) plain
      ∙ any-append is_meta stem (c ∷ rest) h
      ∙ ap (λ b. b || any is_meta rest) meta

  expand_remote_glob-pattern_of :
      (stem literal : Bytes)
      → has_glob_metachars stem ≡ false
      → resolve_serve_path io root (pattern_of stem) ≡ ok literal
      → io.exists literal ≡ false
      → expand_remote_glob io root (pattern_of stem) ≡ expand_pattern io root (pattern_of stem)
  unfolding expand_remote_glob
  expand_remote_glob-pattern_of stem literal h r absent =
      rw (has_glob_metachars-pattern_of stem h, r, absent) refl

  -- Where the directory part of a pattern has no metacharacter, the literal name in front of the first one
  -- has no effect: with neither pattern naming a file that exists, `dir/stem*rest` asks for the same
  -- files as `dir/*rest`, whatever the stem without metacharacters and separators.
  pub expand_remote_glob-stem_dropped :
      (stem literal bare : Bytes)
      → has_glob_metachars stem ≡ false
      → any is_separator stem ≡ false
      → resolve_serve_path io root (pattern_of stem) ≡ ok literal
      → io.exists literal ≡ false
      → resolve_serve_path io root (pattern_of []) ≡ ok bare
      → io.exists bare ≡ false
      → expand_remote_glob io root (pattern_of stem) ≡ expand_remote_glob io root (pattern_of [])
  expand_remote_glob-stem_dropped stem literal bare h k r absent r' absent' =
      expand_remote_glob-pattern_of stem literal h r absent
      ∙ expand_pattern-pattern_of stem h k
      ∙ sym (
          expand_remote_glob-pattern_of [] bare refl r' absent'
          ∙ expand_pattern-pattern_of [] refl refl)
