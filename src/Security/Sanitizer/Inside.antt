-- ===== src/Security/Sanitizer/Inside.antt =====
-- Where a path that the sanitizer has joined leads.
use cp.Common.{
  ℕ, ◌≡◌, refl, sym, ap, subst, ◌∙◌, arith, inl, inr, Bytes, List, [], ◌∷◌, ◌++◌, append_assoc,
  append-nil, Option, none, some, Bool, true, false, ◌==◌, bytes_eq, bytes_eq_iff, if◌then◌else◌,
  Bool-cases, ==_iff, any, ◌||◌, not, All,
}
use cp.Security.Sanitizer.{
  traversal_attempt, absolute_path_not_allowed, ok, err, Component, root_dir, normal, is_dot,
  is_dot_dot, put_byte, segments, plain_components, is_absolute, head_component, components,
  check_components, validate_components, ends_with_slash, join_path, starts_with, PathSanitizer,
  ensure_within_root, within_root, parent_or_root, join,
}

segments-cons : (b : ℕ) (path : Bytes) → segments (b ∷ path) ≡ put_byte b (segments path)
unfolding segments
segments-cons b path = refl

put_byte-append :
    (b : ℕ) (s : Bytes) (xs ys : List Bytes)
    → put_byte b ((s ∷ xs) ++ ys) ≡ put_byte b (s ∷ xs) ++ ys
put_byte-append b s xs ys =
    elim (b == 47)
      as (λ (t : Bool).
        (if t then [] ∷ s ∷ (xs ++ ys) else (b ∷ s) ∷ (xs ++ ys))
        ≡ (if t then [] ∷ s ∷ xs else (b ∷ s) ∷ xs) ++ ys) [ true ↦ refl | false ↦ refl ]

segments_head : (path : Bytes) → (s : Bytes) × (rest : List Bytes) × (segments path ≡ s ∷ rest)
unfolding segments
segments_head [] = ([], [], refl)
segments_head (b ∷ path) =
    let (s, rest, e) = segments_head path in
    elim (Bool-cases (b == 47)) [
      | inl slash ↦ ([], s ∷ rest, rw e (rw slash refl))
      | inr other ↦ (b ∷ s, rest, rw e (rw other refl))
    ]

-- A slash separates the segments before it from those behind it.
segments-append_slash : (xs ys : Bytes) → segments (xs ++ (47 ∷ ys)) ≡ segments xs ++ segments ys
unfolding segments
segments-append_slash [] ys =
    let (s, rest, e) = segments_head ys in
    segments-cons 47 ys ∙ ap (put_byte 47) e ∙ ap (λ (l : List Bytes). [] ∷ l) (sym e)
segments-append_slash (x ∷ xs) ys =
    let (s, rest, e) = segments_head xs in
    segments-cons x (xs ++ (47 ∷ ys))
    ∙ ap (put_byte x) (segments-append_slash xs ys)
    ∙ ap (λ (l : List Bytes). put_byte x (l ++ segments ys)) e
    ∙ put_byte-append x s rest (segments ys)
    ∙ ap (λ (l : List Bytes). put_byte x l ++ segments ys) (sym e)
    ∙ ap (λ (l : List Bytes). l ++ segments ys) (sym (segments-cons x xs))

before_slash :
    (root : Bytes) → ends_with_slash root ≡ true → (front : Bytes) × (root ≡ front ++ (47 ∷ []))
before_slash [] h = cc
before_slash (b ∷ []) h = ([], ap (λ (x : ℕ). x ∷ []) ((==_iff b 47).0 h))
before_slash (b ∷ c ∷ path) h =
    let (front, e) = before_slash (c ∷ path) h in (b ∷ front, ap (◌∷◌ b) e)

plain-append :
    (xs ys : List Bytes) → plain_components (xs ++ ys) ≡ plain_components xs ++ plain_components ys
unfolding plain_components
plain-append [] ys = refl
plain-append ([] ∷ xs) ys = plain-append xs ys
plain-append ((b ∷ s) ∷ xs) ys = rw (plain-append xs ys) (elim (Bool-cases (is_dot (b ∷ s))) [
  | inl dot ↦ rw dot refl
  | inr other ↦
      rw other
        (elim (Bool-cases (is_dot_dot (b ∷ s))) [ inl up ↦ rw up refl | inr name ↦ rw name refl ])
])

last_slash :
    (front : Bytes)
    → plain_components (segments (front ++ (47 ∷ []))) ≡ plain_components (segments front)
unfolding segments plain_components
last_slash front =
    ap plain_components (segments-append_slash front [])
    ∙ plain-append (segments front) ([] ∷ [])
    ∙ append-nil (plain_components (segments front))

-- A root that ends with a slash takes the path as it is.
plain-ends_with_slash :
    (root path : Bytes)
    → ends_with_slash root ≡ true
    → plain_components (segments (root ++ path))
      ≡ plain_components (segments root) ++ plain_components (segments path)
plain-ends_with_slash root path h =
    let (front, e) = before_slash root h in
    ap (λ (r : Bytes). plain_components (segments (r ++ path))) e
    ∙ ap (λ (r : Bytes). plain_components (segments r)) (append_assoc front (47 ∷ []) path)
    ∙ ap plain_components (segments-append_slash front path)
    ∙ plain-append (segments front) (segments path)
    ∙ ap (λ (l : List Component). l ++ plain_components (segments path)) (sym (last_slash front))
    ∙ ap (λ (r : Bytes). plain_components (segments r) ++ plain_components (segments path)) (sym e)

-- The components of a relative path behind an absolute root are the root's and the path's, without
-- a leading dot.
pub components-join_path :
    (root path : Bytes)
    → is_absolute root ≡ true
    → is_absolute path ≡ false
    → components (join_path root path) ≡ components root ++ plain_components (segments path)
unfolding components join_path
components-join_path [] path r p = cc r
components-join_path (b ∷ root) path r p = rw p (elim (Bool-cases (ends_with_slash (b ∷ root))) [
  | inl slash ↦ rw (slash, r) (ap (◌∷◌ root_dir) (plain-ends_with_slash (b ∷ root) path slash))
  | inr none_there ↦
      rw (none_there, r)
        (ap (◌∷◌ root_dir) (
          ap plain_components (segments-append_slash (b ∷ root) path)
          ∙ plain-append (segments (b ∷ root)) (segments path)))
])

abbrev pub IsNormal : Component → Type 0
IsNormal (normal s) = Unit
IsNormal _ = ⊥

check-IsNormal :
    (segs : List Bytes)
    → check_components (plain_components segs) ≡ ok tt
    → All IsNormal (plain_components segs)
unfolding check_components plain_components
check-IsNormal [] h = tt
check-IsNormal ([] ∷ segs) h = check-IsNormal segs h
check-IsNormal ((b ∷ s) ∷ segs) h = elim (Bool-cases (is_dot (b ∷ s))) [
  | inl dot ↦ let h' = rw dot at h in rw dot (check-IsNormal segs h')
  | inr other ↦ elim (Bool-cases (is_dot_dot (b ∷ s))) [
    | inl up ↦ let h' = rw other at h in let h'' = rw up at h' in cc
    | inr name ↦
        let h' = rw other at h in
        let h'' = rw name at h' in rw other (rw name (tt, check-IsNormal segs h''))
  ]
]

dot_not_dot_dot : (s : Bytes) → is_dot s ≡ true → is_dot_dot s ≡ false
unfolding bytes_eq
dot_not_dot_dot s h = rw ((bytes_eq_iff s (46 ∷ [])).0 h) refl

any_empty : (segs : List Bytes) → any is_dot_dot ([] ∷ segs) ≡ any is_dot_dot segs
unfolding bytes_eq
any_empty segs = refl

-- A relative path passes exactly if none of its segments is `..`.
check-plain :
    (segs : List Bytes)
    → check_components (plain_components segs)
      ≡ (if any is_dot_dot segs then err traversal_attempt else ok tt)
unfolding check_components plain_components
check-plain [] = refl
check-plain ([] ∷ segs) =
    check-plain segs
    ∙ ap (λ (b : Bool). if b then err traversal_attempt else ok tt) (sym (any_empty segs))
check-plain ((b ∷ s) ∷ segs) = elim (Bool-cases (is_dot (b ∷ s))) [
  | inl dot ↦ rw dot (rw (dot_not_dot_dot (b ∷ s) dot) (check-plain segs))
  | inr other ↦ elim (Bool-cases (is_dot_dot (b ∷ s))) [
    | inl up ↦ rw other (rw up refl)
    | inr name ↦ rw other (rw name (check-plain segs))
  ]
]

check-head :
    (segs : List Bytes) (cs : List Component)
    → check_components (head_component segs ++ cs) ≡ check_components cs
unfolding check_components
check-head [] cs = refl
check-head (s ∷ segs) cs = elim (Bool-cases (is_dot s)) [ inl e ↦ rw e refl | inr e ↦ rw e refl ]

abbrev pub is_empty : Bytes → Bool
is_empty [] = true
is_empty (b ∷ path) = false

validate_components_lem :
    (path : Bytes)
    → validate_components path ≡ (
        if is_empty path || is_absolute path
        then err absolute_path_not_allowed
        else if any is_dot_dot (segments path)
        then err traversal_attempt
        else ok path)
unfolding validate_components components check_components
validate_components_lem [] = refl
validate_components_lem (b ∷ path) = elim (Bool-cases (b == 47)) [
  | inl slash ↦ rw slash refl
  | inr other ↦ rw other (
      rw (check-head (segments (b ∷ path)) (plain_components (segments (b ∷ path)))) (
        rw (check-plain (segments (b ∷ path)))
          (elim (Bool-cases (any is_dot_dot (segments (b ∷ path)))) [
            | inl up ↦ rw up refl
            | inr none_there ↦ rw none_there refl
          ])))
]

abbrev outside : Option (List Component) → List Component → Bool
outside none root = true
outside (some real) root = not (starts_with real root)

within_root_lem :
    (root : List Component) (found : Option (List Component))
    → within_root root found ≡ (if outside found root then err traversal_attempt else ok tt)
unfolding within_root
within_root_lem root none = refl
within_root_lem root (some real) = elim (Bool-cases (starts_with real root)) [
  | inl below ↦ rw below refl
  | inr apart ↦ rw apart refl
]

-- A path of a peer is refused as absolute if it is empty or starts with a slash; of the others it is
-- refused as a traversal if one of its segments is `..`, or if the parent of the joined path does not
-- resolve to a path below the root; and every other path is joined to the root.
join_lem :
    (soft_canonicalize : List Component → Option (List Component)) (sanitizer : PathSanitizer)
    (path : Bytes)
    → join soft_canonicalize sanitizer path ≡ (
        if is_empty path || is_absolute path
        then err absolute_path_not_allowed
        else if any is_dot_dot (segments path)
            || outside
                (soft_canonicalize
                  (parent_or_root soft_canonicalize sanitizer (join_path sanitizer.root path)))
                (components sanitizer.root)
        then err traversal_attempt
        else ok (join_path sanitizer.root path))
unfolding join ensure_within_root
join_lem canon sanitizer path =
    rw (validate_components_lem path) (elim (Bool-cases (is_empty path || is_absolute path)) [
      | inl absolute ↦ rw absolute refl
      | inr relative ↦ rw relative (elim (Bool-cases (any is_dot_dot (segments path))) [
        | inl up ↦ rw up refl
        | inr down ↦ rw down (
            let found = canon (parent_or_root canon sanitizer (join_path sanitizer.root path)) in
            let root = components sanitizer.root in
            rw (within_root_lem root found) (elim (Bool-cases (outside found root)) [
              | inl out ↦ rw out refl
              | inr below ↦ rw below refl
            ]))
      ])
    ])

-- Below the root: the root's components and then names, with a parent that resolves below the root
pub record Inside (soft_canonicalize : List Component → Option (List Component))
    (sanitizer : PathSanitizer) (path : Bytes) : Type 0 where
  pub names : List Component
  pub below : components path ≡ components sanitizer.root ++ names
  pub named : All IsNormal names
  pub resolved :
      outside
        (soft_canonicalize (parent_or_root soft_canonicalize sanitizer path))
        (components sanitizer.root)
      ≡ false

-- What the sanitizer joins to an absolute root is inside it.
pub join-Inside :
    (soft_canonicalize : List Component → Option (List Component)) (sanitizer : PathSanitizer)
    (path joined : Bytes)
    → is_absolute sanitizer.root ≡ true
    → join soft_canonicalize sanitizer path ≡ ok joined
    → Inside soft_canonicalize sanitizer joined
join-Inside canon sanitizer path joined absolute h =
    let e = sym (join_lem canon sanitizer path) ∙ h in
    let found = canon (parent_or_root canon sanitizer (join_path sanitizer.root path)) in
    let root = components sanitizer.root in
    elim (Bool-cases (is_empty path || is_absolute path)) [
      | inl bad ↦ let e' = rw bad at e in cc
      | inr fine ↦ elim (Bool-cases (any is_dot_dot (segments path))) [
        | inl up ↦ let e' = rw fine at e in let e'' = rw up at e' in cc
        | inr down ↦ elim (Bool-cases (outside found root)) [
          | inl out ↦ let e1 = rw fine at e in let e2 = rw down at e1 in let e3 = rw out at e2 in cc
          | inr within ↦
              let e1 = rw fine at e in
              let e2 = rw down at e1 in
              let e3 = rw within at e2 in
              let same : join_path sanitizer.root path ≡ joined = ground arith in
              let relative : is_absolute path ≡ false = ground arith in
              let passes =
                check-plain (segments path)
                ∙ ap (λ (b : Bool). if b then err traversal_attempt else ok tt) down in
              subst (Inside canon sanitizer) same (record {
                names = plain_components (segments path);
                below = components-join_path sanitizer.root path absolute relative;
                named = check-IsNormal (segments path) passes;
                resolved = within;
              })
        ]
      ]
    ]
