-- ===== src/Sync/Sender/Skipped.antt =====
-- Which paths `is_under_skipped` of src/sync/sender.rs protects.
use cp.Common.{
  ℕ, zero, suc, ◌<◌, ◌≡◌, ◌⊎◌, ◌↔◌, refl, ap, ◌∙◌, arith, inl, inr, List, [], ◌∷◌, ◌++◌,
  append_assoc, Option, none, some, Option-cases, true, Bool-cases, ◌==◌, ==_iff, Bytes, length,
  length-append, before_last_slash,
}
use cp.Sync.Sender.{contains, skipped_loop, is_under_skipped}

-- The path itself, or one below it
abbrev pub IsUnder : Bytes → Bytes → Type 0
IsUnder s path = (path ≡ s) ⊎ ((r : Bytes) × (path ≡ s ++ (47 ∷ r)))

-- The last slash of a path with a slash
abbrev front_of : Bytes → Option Bytes → Bytes
front_of s none = s
front_of s (some f) = s ++ (47 ∷ f)

front_of-cons : (c : ℕ) (s : Bytes) (o : Option Bytes) → c ∷ front_of s o ≡ front_of (c ∷ s) o
front_of-cons c s none = refl
front_of-cons c s (some f) = refl

before_last_slash-append :
    (s r : Bytes) → before_last_slash (s ++ (47 ∷ r)) ≡ some (front_of s (before_last_slash r))
unfolding before_last_slash
before_last_slash-append [] r =
    elim (before_last_slash r)
      as (λ o.
        (elim o as (λ x. Option (List ℕ)) [ some front ↦ some (47 ∷ front) | none ↦ some [] ])
        ≡ some (front_of [] o)) [ none ↦ refl | some f ↦ refl ]
before_last_slash-append (c ∷ s) r =
    rw (before_last_slash-append s r) (ap some (front_of-cons c s (before_last_slash r)))

before_last_slash-parts :
    (path front : Bytes)
    → before_last_slash path ≡ some front
    → (r : Bytes) × (path ≡ front ++ (47 ∷ r))
unfolding before_last_slash
before_last_slash-parts [] front h = cc h
before_last_slash-parts (c ∷ path) front h = elim (Option-cases (before_last_slash path)) [
  | inr (f, e) ↦
      let (r, parts) = before_last_slash-parts path f e in
      let whole : c ∷ f ≡ front = cc (rw e at h) in
      (r, ap (◌∷◌ c) parts ∙ ap (λ t. t ++ (47 ∷ r)) whole)
  | inl e ↦ elim (Bool-cases (c == 47)) [
    | inl slash ↦
        let empty : ◌≡◌ {A = Bytes} [] front = cc (rw (e, slash) at h) in
        (path, ap (λ x. x ∷ path) ((==_iff c 47).0 slash) ∙ ap (λ t. t ++ (47 ∷ path)) empty)
    | inr other ↦ absurd (cc (rw (e, other) at h))
  ]
]

-- A path is under what its front is under, and under its front.
IsUnder-front :
    (s path front : Bytes) → before_last_slash path ≡ some front → IsUnder s front → IsUnder s path
IsUnder-front s path front h under =
    let (r, parts) = before_last_slash-parts path front h in inr (longer r parts under)
  where
    longer :
        (r : Bytes)
        → path ≡ front ++ (47 ∷ r)
        → IsUnder s front
        → (q : Bytes) × (path ≡ s ++ (47 ∷ q))
    longer r parts (inl e) = (r, parts ∙ ap (λ t. t ++ (47 ∷ r)) e)
    longer r parts (inr (q, e)) =
        (q ++ (47 ∷ r), parts ∙ ap (λ t. t ++ (47 ∷ r)) e ∙ append_assoc s (47 ∷ q) (47 ∷ r))

-- A path below `s` has a front, and that is `s` or below it.
front-IsUnder :
    (s path : Bytes)
    → (r : Bytes) × (path ≡ s ++ (47 ∷ r))
    → (front : Bytes) × (before_last_slash path ≡ some front) × IsUnder s front
front-IsUnder s path (r, e) = (
  front_of s (before_last_slash r),
  ap before_last_slash e ∙ before_last_slash-append s r,
  place (before_last_slash r),
)
  where
    place : (o : Option Bytes) → IsUnder s (front_of s o)
    place none = inl refl
    place (some f) = inr (f, refl)

shorter_front :
    (path front : Bytes) → before_last_slash path ≡ some front → length front < length path
shorter_front path front h =
    let (r, parts) = before_last_slash-parts path front h in
    omega (arith, ap length parts, length-append front (47 ∷ r))

-- Some skipped path that the path is, or is below of
abbrev pub Protected : Bytes → List Bytes → Type 0
Protected path skipped = (s : Bytes) × (contains skipped s ≡ true) × IsUnder s path

skipped_loop-Protected :
    (fuel : ℕ) (skipped : List Bytes) (cur : Bytes)
    → skipped_loop fuel skipped cur ≡ true
    → Protected cur skipped
unfolding skipped_loop
skipped_loop-Protected zero skipped cur h = cc h
skipped_loop-Protected (suc fuel) skipped cur h = elim (Bool-cases (contains skipped cur)) [
  | inl here ↦ (cur, here, inl refl)
  | inr other ↦ elim (Option-cases (before_last_slash cur)) [
    | inl e ↦ cc (rw (other, e) at h)
    | inr (front, e) ↦
        let (s, member, under) = skipped_loop-Protected fuel skipped front (rw (other, e) at h) in
        (s, member, IsUnder-front s cur front e under)
  ]
]

Protected-skipped_loop :
    (fuel : ℕ) (skipped : List Bytes) (cur : Bytes)
    → length cur < fuel
    → Protected cur skipped
    → skipped_loop fuel skipped cur ≡ true
unfolding skipped_loop
Protected-skipped_loop zero skipped cur h p = absurd (omega (arith, h))
Protected-skipped_loop (suc fuel) skipped cur h (s, member, inl e) = rw (e, member) refl
Protected-skipped_loop (suc fuel) skipped cur h (s, member, inr below) =
    elim (Bool-cases (contains skipped cur)) [
      | inl here ↦ rw here refl
      | inr other ↦
          let (front, e, under) = front-IsUnder s cur below in
          rw (other, e)
            (Protected-skipped_loop fuel skipped front (omega (arith, h, shorter_front cur front e))
              (s, member, under))
    ]

-- A path is protected from a delete exactly when it is a skipped path or lies below one.
pub is_under_skipped_iff :
    (rel : Bytes) (skipped : List Bytes)
    → (is_under_skipped rel skipped ≡ true) ↔ Protected rel skipped
unfolding is_under_skipped
is_under_skipped_iff rel skipped = (
  skipped_loop-Protected (suc (length rel)) skipped rel,
  Protected-skipped_loop (suc (length rel)) skipped rel (omega arith),
)
