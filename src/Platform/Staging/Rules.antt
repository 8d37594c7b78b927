-- ===== src/Platform/Staging/Rules.antt =====
-- What a program has to cope with at each call of the file system: a rule for each operation of
-- src/platform/staging.rs, over every way in which its calls are refused.
use cp.Common.{
  ℕ, zero, suc, ◌+◌, ◌<◌, ◌≡◌, ◌≢◌, refl, sym, ap, ◌∙◌, arith, inl, inr, List, [], ◌∷◌, Option,
  none, some, Option-cases, Bool, true, false, Bool-cases, Bytes, bytes_eq, bytes_eq_iff,
  bytes_eq_refl,
}
use cp.Platform.Staging.{
  Node, file, symlink, folder, IoError, not_found, other_error, IoResult, ok, err, Entries, Disk, M,
  try, attempt, update, lookup_op, symlink_metadata, replaces, rename_op, rename, remove_file_op,
  remove_file, remove_dir_op, remove_dir_all, remove_found, remove_path_if_exists, Naming, sibling,
  unique_sibling_path,
}

abbrev pub disk : Entries → List Bool → ℕ → Disk
disk e refusals counter = record { entries = e; refusals = refusals; counter = counter }

-- Whatever is refused and wherever the counter stands, the result and the entries are as `Q` says.
abbrev pub Post : {A : Type 0} → M A → Entries → (IoResult A → Entries → Type 0) → Type 0
Post m e Q =
    (refusals : List Bool) (counter : ℕ)
    → Q ((m (disk e refusals counter)).0) ((m (disk e refusals counter)).1.entries)

pub update_self : (e : Entries) (name : Bytes) (v : Option Node) → update e name v name ≡ v
unfolding update
update_self e name v = rw (bytes_eq_refl name) refl

pub update_other :
    (e : Entries) (name other : Bytes) (v : Option Node)
    → name ≢ other
    → update e name v other ≡ e other
unfolding update
update_other e name other v h = elim (Bool-cases (bytes_eq name other)) [
  | inl same ↦ absurd (h ((bytes_eq_iff name other).0 same))
  | inr differ ↦ rw differ refl
]

module _ {A B : Type 0} (op : Entries → IoResult A × Entries) (k : IoResult A → M B) (e : Entries)
    (Q : IoResult B → Entries → Type 0) where
  -- A call is refused or made.
  pub attempt_rule :
      Post (k (err other_error)) e Q
      → Post (k ((op e).0)) ((op e).1) Q
      → Post (try (attempt op) k) e Q
  attempt_rule refuse made [] counter = made [] counter
  attempt_rule refuse made (true ∷ rest) counter = refuse rest counter
  attempt_rule refuse made (false ∷ rest) counter = made rest counter

module _ {B : Type 0} (name : Bytes) (e : Entries) (Q : IoResult B → Entries → Type 0) where
  pub symlink_metadata_rule :
      (k : IoResult Node → M B)
      → ((node : Node) → e name ≡ some node → Post (k (ok node)) e Q)
      → (e name ≡ none → Post (k (err not_found)) e Q)
      → Post (k (err other_error)) e Q
      → Post (try (symlink_metadata name) k) e Q
  unfolding symlink_metadata
  symlink_metadata_rule k found absent refuse =
      attempt_rule (lookup_op name) k e Q refuse (elim (Option-cases (e name)) [
        | inl h ↦ rw (h, lookup_op) (absent h)
        | inr (node, h) ↦ rw (h, lookup_op) (found node h)
      ])

  pub remove_file_rule :
      (k : IoResult (Unit {0}) → M B)
      → Post (k (ok tt)) (update e name none) Q
      → ((x : IoError) → Post (k (err x)) e Q)
      → Post (try (remove_file name) k) e Q
  unfolding remove_file
  remove_file_rule k gone refuse =
      attempt_rule (remove_file_op name) k e Q (refuse other_error) (elim (Option-cases (e name)) [
        | inl h ↦ rw (h, remove_file_op) (refuse not_found)
        | inr (file b, h) ↦ rw (h, remove_file_op) gone
        | inr (symlink b, h) ↦ rw (h, remove_file_op) gone
        | inr (folder t, h) ↦ rw (h, remove_file_op) (refuse other_error)
      ])

  pub remove_dir_rule :
      (k : IoResult (Unit {0}) → M B)
      → Post (k (ok tt)) (update e name none) Q
      → ((x : IoError) → Post (k (err x)) e Q)
      → Post (try (remove_dir_all name) k) e Q
  unfolding remove_dir_all
  remove_dir_rule k gone refuse =
      attempt_rule (remove_dir_op name) k e Q (refuse other_error) (elim (Option-cases (e name)) [
        | inl h ↦ rw (h, remove_dir_op) (refuse not_found)
        | inr (file b, h) ↦ rw (h, remove_dir_op) (refuse other_error)
        | inr (symlink b, h) ↦ rw (h, remove_dir_op) (refuse other_error)
        | inr (folder t, h) ↦ rw (h, remove_dir_op) gone
      ])

  pub remove_path_if_exists_rule :
      (k : IoResult (Unit {0}) → M B)
      → Post (k (ok tt)) (update e name none) Q
      → (e name ≡ none → Post (k (ok tt)) e Q)
      → ((x : IoError) → Post (k (err x)) e Q)
      → Post (try (remove_path_if_exists name) k) e Q
  unfolding remove_path_if_exists
  remove_path_if_exists_rule k gone absent refuse =
      symlink_metadata_rule (λ r. try (remove_found name r) k) found (λ h. absent h)
        (refuse other_error)
    where
      found : (node : Node) → e name ≡ some node → Post (try (remove_found name (ok node)) k) e Q
      found (file b) h = remove_file_rule k gone refuse
      found (symlink b) h = remove_file_rule k gone refuse
      found (folder t) h = remove_dir_rule k gone refuse

pub rename_rule :
    {B : Type 0} (from to : Bytes) (e : Entries) (Q : IoResult B → Entries → Type 0)
    (k : IoResult (Unit {0}) → M B)
    → ((node : Node)
        → e from ≡ some node
        → Post (k (ok tt)) (update (update e from none) to (some node)) Q)
    → ((x : IoError) → Post (k (err x)) e Q)
    → Post (try (rename from to) k) e Q
unfolding rename
rename_rule from to e Q k moved refuse =
    attempt_rule (rename_op from to) k e Q (refuse other_error) (elim (Option-cases (e from)) [
      | inl h ↦ rw (h, rename_op) (refuse not_found)
      | inr (node, h) ↦
          rw (h, rename_op)
            (elim (Bool-cases (replaces node (e to))) [
              | inl may ↦ rw (may) (moved node h)
              | inr cannot ↦ rw cannot (refuse other_error)
            ])
    ])

-- A taken name is not the free one.
next_free :
    (taken_by : ℕ → Option Node) (node : Node) (fuel counter i : ℕ)
    → i < suc fuel
    → taken_by (counter + i) ≡ none
    → taken_by counter ≡ some node
    → (j : ℕ) × (j < fuel) × (taken_by (suc counter + j) ≡ none)
next_free f node fuel counter zero h free taken =
    let same : counter ≡ counter + 0 = omega arith in
    absurd (cc (sym free ∙ ap f (sym same) ∙ taken))
next_free f node fuel counter (suc i) h free taken =
    (i, omega (arith, h), ap f (omega arith) ∙ free)

module _ (names : Naming) (name : Bytes) (tag : Option Bytes) (e : Entries) {B : Type 0}
    (k : IoResult Bytes → M B) (Q : IoResult B → Entries → Type 0) where
  -- A free name among the next `fuel` ends the search; the name that is found is free.
  pub unique_sibling_path_rule :
      ((b : Bytes) → e b ≡ none → Post (k (ok b)) e Q)
      → ((x : IoError) → Post (k (err x)) e Q)
      → (fuel : ℕ) (refusals : List Bool) (counter i : ℕ) → i < fuel
      → e (sibling names name tag (counter + i)) ≡ none
      → Q
          ((try (unique_sibling_path names fuel name tag) k (disk e refusals counter)).0)
          ((try (unique_sibling_path names fuel name tag) k (disk e refusals counter)).1.entries)
  unfolding unique_sibling_path
  unique_sibling_path_rule found refuse zero refusals counter i h free = absurd (omega (arith, h))
  unique_sibling_path_rule found refuse (suc fuel) (true ∷ rest) counter i h free =
      refuse other_error rest (suc counter)
  unique_sibling_path_rule found refuse (suc fuel) [] counter i h free =
      elim (Option-cases (e (sibling names name tag counter))) [
        | inl absent ↦
            rw (absent, lookup_op, try)
              (found (sibling names name tag counter) absent [] (suc counter))
        | inr (node, taken) ↦
            let (j, below, next) =
              next_free (λ n. e (sibling names name tag n)) node fuel counter i h free taken in
            rw (taken, lookup_op, try)
              (unique_sibling_path_rule found refuse fuel [] (suc counter) j below next)
      ]
  unique_sibling_path_rule found refuse (suc fuel) (false ∷ rest) counter i h free =
      elim (Option-cases (e (sibling names name tag counter))) [
        | inl absent ↦
            rw (absent, lookup_op, try)
              (found (sibling names name tag counter) absent rest (suc counter))
        | inr (node, taken) ↦
            let (j, below, next) =
              next_free (λ n. e (sibling names name tag n)) node fuel counter i h free taken in
            rw (taken, lookup_op, try)
              (unique_sibling_path_rule found refuse fuel rest (suc counter) j below next)
      ]
