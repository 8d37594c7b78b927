-- ===== src/Sync/Pairing/Tasks/Paired.antt =====
-- What the files of a plan wait for.
use mathlib.Core.List.{Memᴰ}
use mathlib.Core.List.Memᴰ
use cp.Common.{
  ℕ, ◌≤◌, ◌<◌, ◌^◌, ◌≡◌, ◌⊎◌, refl, sym, subst, ap, inl, inr, List, [], ◌∷◌, ◌++◌, append_assoc,
  append-nil, Option, none, some, true, false, Bool-cases, Bytes, bytes_eq, bytes_eq_iff, leb, ◌∙◌,
  if◌then◌else◌, Bool, arith,
}
use cp.Sync.Planner.{SyncTask}
use cp.Sync.Strategy.{determine_strategy}
use cp.Sync.Pairing.{StemEntry, BasisIndex, no_basis, cross_basis_min, register_basis_entry}
use cp.Sync.Pairing.Tasks.{
  Pairing, no_pairing, is_contentless, is_copy, is_update, candidate_of, wait_for, register,
  pair_task, pair_tasks,
}
use cp.Sync.Pairing.Nearest.{Sized}
use cp.Sync.Pairing.Index.{register_all}
use cp.Sync.Pairing.Candidate.{IsClosest, indexed_candidate-IsClosest}

abbrev pub entry : SyncTask → StemEntry
entry t = record { size = t.source_size; rel = t.relative_path }

-- The files with content, in the order of the plan
abbrev pub entries : List SyncTask → List StemEntry
entries [] = []
entries (t ∷ ts) = if is_contentless t then entries ts else entry t ∷ entries ts

-- A file with content, below the size for a delta or new, and large enough
abbrev pub IsPaired : SyncTask → Type 0
IsPaired t =
    (is_contentless t ≡ false)
    × (is_copy (determine_strategy t.source_size (is_update t.action)) ≡ true)
    × (cross_basis_min ≤ t.source_size)

-- Some task of that path in the list has the reference as the closest of the files before it.
abbrev pub Waits : List SyncTask → Bytes → Bytes → Type 0
Waits tasks rel ref_rel =
    (before after : List SyncTask) × (t : SyncTask) × (n : ℕ) × (tasks ≡ before ++ (t ∷ after))
    × (t.relative_path ≡ rel)
    × IsPaired t
    × IsClosest (entries before) rel t.source_size (some (ref_rel, n))

entries-append :
    (ts : List SyncTask) (t : SyncTask) → entries (ts ++ (t ∷ [])) ≡ entries ts ++ entries (t ∷ [])
entries-append [] t = refl
entries-append (u ∷ ts) t = elim (Bool-cases (is_contentless u)) [
  | inl without ↦ rw without (entries-append ts t)
  | inr content ↦ rw content (ap (◌∷◌ (entry u)) (entries-append ts t))
]

entries-left :
    (ts us : List SyncTask) (o : StemEntry) → Memᴰ o (entries ts) → Memᴰ o (entries (ts ++ us))
entries-left [] us o m = absurd (Memᴰ.not-nil m)
entries-left (t ∷ ts) us o m = elim (Bool-cases (is_contentless t)) [
  | inl without ↦ rw without (entries-left ts us o (rw without at m))
  | inr content ↦ elim (Memᴰ.cases_cons (rw content at m)) [
    | inl is ↦ rw content (Memᴰ.head is)
    | inr later ↦ rw content (Memᴰ.tail (entries-left ts us o later))
  ]
]

register_all-append :
    (es fs : List StemEntry) (index : BasisIndex)
    → register_all (es ++ fs) index ≡ register_all fs (register_all es index)
unfolding register_all
register_all-append [] fs index = refl
register_all-append (e ∷ es) fs index =
    register_all-append es fs (register_basis_entry e.rel e.size index)

-- What holds behind some tasks of a plan
abbrev Kept : List SyncTask → Pairing → Type 0
Kept done s =
    (s.index ≡ register_all (entries done) no_basis)
    × ((rel r : Bytes) → s.deps rel ≡ some r → Waits done rel r × Memᴰ rel (s.refs r))

Waits-later :
    (done : List SyncTask) (t : SyncTask) (rel r : Bytes)
    → Waits done rel r
    → Waits (done ++ (t ∷ [])) rel r
Waits-later done t rel r (before, after, u, n, e, name, paired, closest) = (
  before,
  after ++ (t ∷ []),
  u,
  n,
  ap (λ x. x ++ (t ∷ [])) e ∙ append_assoc before (u ∷ after) (t ∷ []),
  name,
  paired,
  closest,
)

candidate_of-IsClosest :
    (done : List SyncTask) (t : SyncTask) (r : Bytes) (n : ℕ)
    → Sized (entries done)
    → t.source_size < 2 ^ 64
    → is_contentless t ≡ false
    → candidate_of t (register_all (entries done) no_basis) ≡ some (r, n)
    → IsPaired t × IsClosest (entries done) t.relative_path t.source_size (some (r, n))
unfolding candidate_of
candidate_of-IsClosest done t r n sized small content h =
    let (copied, large) = tests (Bool-cases _) (Bool-cases _) in
    (
      (content, copied, large),
      subst (IsClosest (entries done) t.relative_path t.source_size)
          (rw (copied, leb_true large) at h)
          (indexed_candidate-IsClosest (entries done) t.relative_path t.source_size large small
            sized),
    )
  where
    is_whole : Bool
    is_whole = is_copy (determine_strategy t.source_size (is_update t.action))

    leb_true : cross_basis_min ≤ t.source_size → leb cross_basis_min t.source_size ≡ true
    leb_true l = ground arith

    true_leb : leb cross_basis_min t.source_size ≡ true → cross_basis_min ≤ t.source_size
    true_leb l = ground arith

    tests :
        (is_whole ≡ true) ⊎ (is_whole ≡ false)
        → (leb cross_basis_min t.source_size ≡ true) ⊎ (leb cross_basis_min t.source_size ≡ false)
        → (is_whole ≡ true) × (cross_basis_min ≤ t.source_size)
    tests (inl copied) (inl large) = (copied, true_leb large)
    tests (inl copied) (inr tiny) = absurd (cc (rw (copied, tiny) at h))
    tests (inr other) l = absurd (cc (rw other at h))

-- A dependent that is new, with its reference, or an old one
wait_for-deps :
    (rel q r r' : Bytes) (n : ℕ) (s : Pairing)
    → (wait_for rel (some (r', n)) s).deps q ≡ some r
    → ((rel ≡ q) × (r' ≡ r)) ⊎ (s.deps q ≡ some r)
wait_for-deps rel q r r' n s h = elim (Bool-cases (bytes_eq rel q)) [
  | inl same ↦ inl ((bytes_eq_iff rel q).0 same, cc (rw same at h))
  | inr other ↦ inr (rw other at h)
]

wait_for-refs_kept :
    (rel q r r' : Bytes) (n : ℕ) (s : Pairing)
    → Memᴰ q (s.refs r)
    → Memᴰ q ((wait_for rel (some (r', n)) s).refs r)
wait_for-refs_kept rel q r r' n s m = elim (Bool-cases (bytes_eq r' r)) [
  | inl same ↦ rw same (Memᴰ.append_left (rel ∷ []) m)
  | inr other ↦ rw other m
]

wait_for-refs :
    (rel r : Bytes) (n : ℕ) (s : Pairing) → Memᴰ rel ((wait_for rel (some (r, n)) s).refs r)
wait_for-refs rel r n s =
    rw ((bytes_eq_iff r r).1 refl) (Memᴰ.append_right (s.refs r) (Memᴰ.head refl))

module _ (done : List SyncTask) (t : SyncTask) (s : Pairing)
    (sized : Sized (entries (done ++ (t ∷ [])))) (kept : Kept done s) where
  pair_task-contentless : is_contentless t ≡ true → Kept (done ++ (t ∷ [])) (pair_task t s)
  unfolding pair_task
  pair_task-contentless without = rw without (
    rw (entries-append done t, without, append-nil (entries done)) kept.0,
    λ rel r h. let (waits, m) = kept.1 rel r h in (Waits-later done t rel r waits, m),
  )

  entries_content :
      is_contentless t ≡ false → entries (done ++ (t ∷ [])) ≡ entries done ++ (entry t ∷ [])
  entries_content content = rw (entries-append done t, content) refl

  index_content :
      is_contentless t ≡ false
      → register_basis_entry t.relative_path t.source_size s.index
        ≡ register_all (entries (done ++ (t ∷ []))) no_basis
  unfolding register_all
  index_content content =
      rw (entries_content content, register_all-append (entries done) (entry t ∷ []) no_basis)
        (ap (register_basis_entry t.relative_path t.source_size) kept.0)

  new_wait :
      (r : Bytes) (n : ℕ)
      → is_contentless t ≡ false
      → candidate_of t s.index ≡ some (r, n)
      → Waits (done ++ (t ∷ [])) t.relative_path r
  new_wait r n content h =
      let all = subst Sized (entries_content content) sized in
      let found =
        candidate_of-IsClosest done t r n (λ o m. all o (Memᴰ.append_left (entry t ∷ []) m))
          (all (entry t) (Memᴰ.append_right (entries done) (Memᴰ.head refl))) content
          (subst (λ x. candidate_of t x ≡ some (r, n)) kept.0 h) in
      (done, [], t, n, refl, refl, found.0, found.1)

  registered-Kept :
      (c : Option (Bytes × ℕ))
      → is_contentless t ≡ false
      → candidate_of t s.index ≡ c
      → Kept (done ++ (t ∷ [])) (register t (wait_for t.relative_path c s))
  unfolding register
  registered-Kept none content h = (
    index_content content,
    λ rel r d. let (waits, m) = kept.1 rel r d in (Waits-later done t rel r waits, m),
  )
  registered-Kept (some (r', n)) content h = (
    index_content content,
    λ rel r d. elim (wait_for-deps t.relative_path rel r r' n s d) [
      | inr old ↦
          let (waits, m) = kept.1 rel r old in
          (Waits-later done t rel r waits, wait_for-refs_kept t.relative_path rel r r' n s m)
      | inl (path, ref) ↦
          subst
            (λ q.
              Waits (done ++ (t ∷ [])) q r
              × Memᴰ q ((wait_for t.relative_path (some (r', n)) s).refs r))
            path
            (subst
              (λ x.
                Waits (done ++ (t ∷ [])) t.relative_path x
                × Memᴰ t.relative_path ((wait_for t.relative_path (some (r', n)) s).refs x))
              ref (new_wait r' n content h, wait_for-refs t.relative_path r' n s))
    ],
  )

  pair_task-Kept : Kept (done ++ (t ∷ [])) (pair_task t s)
  unfolding pair_task
  pair_task-Kept = elim (Bool-cases (is_contentless t)) [
    | inl without ↦ pair_task-contentless without
    | inr content ↦ rw content (registered-Kept (candidate_of t s.index) content refl)
  ]

pair_tasks-Kept :
    (done tasks : List SyncTask) (s : Pairing)
    → Sized (entries (done ++ tasks))
    → Kept done s
    → Kept (done ++ tasks) (pair_tasks tasks s)
unfolding pair_tasks
pair_tasks-Kept done [] s sized kept = rw (append-nil done) kept
pair_tasks-Kept done (t ∷ tasks) s sized kept =
    subst (λ x. Kept x (pair_tasks tasks (pair_task t s))) (append_assoc done (t ∷ []) tasks)
      (pair_tasks-Kept (done ++ (t ∷ [])) tasks (pair_task t s) (whole sized)
        (pair_task-Kept done t s (front (whole sized)) kept))
  where
    whole : Sized (entries (done ++ (t ∷ tasks))) → Sized (entries ((done ++ (t ∷ [])) ++ tasks))
    whole = subst (λ x. Sized (entries x)) (sym (append_assoc done (t ∷ []) tasks))

    front : Sized (entries ((done ++ (t ∷ [])) ++ tasks)) → Sized (entries (done ++ (t ∷ [])))
    front all o m = all o (entries-left (done ++ (t ∷ [])) tasks o m)

-- Behind the loop of `apply_plan`, over any tasks whose files have sizes of 64 bits, a file that
-- waits for a signature waits for that of a file that comes before it in the plan: it is itself a file
-- with content that is not sent as a delta and has at least `CROSS_BASIS_MIN` bytes, the one it waits
-- for is the nearest in size of the siblings before it within a factor of two, and the file is among
-- those that the reference's signature is sent to.
pub pair_tasks-Waits :
    (tasks : List SyncTask) (rel r : Bytes)
    → Sized (entries tasks)
    → (pair_tasks tasks no_pairing).deps rel ≡ some r
    → Waits tasks rel r × Memᴰ rel ((pair_tasks tasks no_pairing).refs r)
unfolding register_all
pair_tasks-Waits tasks rel r sized =
    (pair_tasks-Kept [] tasks no_pairing sized (refl, λ q x h. absurd (cc h))).1 rel r
