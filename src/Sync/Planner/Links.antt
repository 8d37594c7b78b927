-- ===== src/Sync/Planner/Links.antt =====
-- What the hard links of a plan point to.
use cp.Common.{ℕ, ◌≡◌, refl, inl, inr, ◌⊎◌, arith, Option, none, some, Option-cases, Bool-cases}
use cp.Common.{
  Bytes, List, [], ◌∷◌, ◌++◌, Bool, true, not, ◌&&◌, ◌||◌, ◌==◌, ==_iff, is_some, bytes_eq, any,
  All, get_elem?,
}
use cp.Sync.Entry.{FileEntry, file, kind_eq}
use cp.Sync.Planner.{
  PlannerConfig, SyncAction, SyncTask, SyncPlan, get_rep, register, task_for, assign_hardlink,
  get_entry, content_matches,
}
use mathlib.Core.Option.{some-injective}

-- A task of the plan transfers content to the path: it is no hard link.
abbrev pub sends : Bytes → List SyncTask → Bool
sends path ts = any (λ t. bytes_eq t.relative_path path && not (is_some t.link_to)) ts

abbrev pub InSource : List FileEntry → FileEntry → Type 0
InSource source src = (i : ℕ) × (get_elem? source i ≡ some src)

-- The path will hold the entry's content: a task sends it, or the content compared equal.
abbrev pub Held : PlannerConfig → List FileEntry → SyncPlan → FileEntry → Type 0
Held config dest p src =
    (((sends src.relative_path p.creates || sends src.relative_path p.updates) ≡ true)
      ⊎ ((dst : FileEntry) × (get_entry src.relative_path dest ≡ some dst)
          × (content_matches config src dst ≡ true)))

-- The path belongs to a regular source file of the inode, and its content will be there.
pub record Represents (config : PlannerConfig) (source dest : List FileEntry) (p : SyncPlan)
    (ino : ℕ) (path : Bytes) : Type 0 where
  pub entry : FileEntry
  pub listed : InSource source entry
  pub named : entry.relative_path ≡ path
  pub inode : entry.inode ≡ some ino
  pub regular : kind_eq entry.kind file ≡ true
  pub held : Held config dest p entry

-- A task that links to a path is for a regular source file of an inode, which the path represents.
abbrev pub Linked :
    PlannerConfig → List FileEntry → List FileEntry → SyncPlan → Bytes → Option Bytes → Type 0
Linked config source dest p path none = Unit
Linked config source dest p path (some target) =
    (src : FileEntry) × (ino : ℕ) × InSource source src
    × (src.relative_path ≡ path)
    × (src.inode ≡ some ino)
    × (kind_eq src.kind file ≡ true)
    × Represents config source dest p ino target

pub any-append :
    (f : SyncTask → Bool) (ts : List SyncTask) (t : SyncTask)
    → any f (ts ++ (t ∷ [])) ≡ (any f ts || f t)
any-append f [] t = ground arith
any-append f (u ∷ ts) t = ground (arith, any-append f ts t)

pub All-weaken :
    (P Q : SyncTask → Type 0) (ts : List SyncTask)
    → ((t : SyncTask) → P t → Q t)
    → All P ts
    → All Q ts
All-weaken P Q [] k h = tt
All-weaken P Q (t ∷ ts) k (h, hs) = (k t h, All-weaken P Q ts k hs)

pub All-append :
    (P : SyncTask → Type 0) (ts : List SyncTask) (t : SyncTask)
    → All P ts
    → P t
    → All P (ts ++ (t ∷ []))
All-append P [] t h p = (p, tt)
All-append P (u ∷ ts) t (h, hs) p = (h, All-append P ts t hs p)

module _ (config : PlannerConfig) (source dest : List FileEntry) where
  abbrev pub Grows : SyncPlan → SyncPlan → Type 0
  Grows p p' =
      (path : Bytes)
      → (sends path p.creates || sends path p.updates) ≡ true
      → (sends path p'.creates || sends path p'.updates) ≡ true

  pub Represents-Grows :
      (p p' : SyncPlan) (ino : ℕ) (path : Bytes)
      → Grows p p'
      → Represents config source dest p ino path
      → Represents config source dest p' ino path
  Represents-Grows p p' ino path g r = record {
    entry = r.entry;
    listed = r.listed;
    named = r.named;
    inode = r.inode;
    regular = r.regular;
    held = elim r.held [ inl h ↦ inl (g r.entry.relative_path h) | inr h ↦ inr h ];
  }

  pub Linked-Grows :
      (p p' : SyncPlan) (path : Bytes) (o : Option Bytes)
      → Grows p p'
      → Linked config source dest p path o
      → Linked config source dest p' path o
  Linked-Grows p p' path none g l = tt
  Linked-Grows p p' path (some target) g (src, ino, i, n, e, k, r) =
      (src, ino, i, n, e, k, Represents-Grows p p' ino target g r)

  abbrev pub Reps : SyncPlan → List (ℕ × Bytes) → Type 0
  Reps p [] = Unit
  Reps p ((ino, path) ∷ reps) = Represents config source dest p ino path × Reps p reps

  pub Reps-Grows :
      (p p' : SyncPlan) (reps : List (ℕ × Bytes)) → Grows p p' → Reps p reps → Reps p' reps
  Reps-Grows p p' [] g h = tt
  Reps-Grows p p' ((ino, path) ∷ reps) g (h, hs) =
      (Represents-Grows p p' ino path g h, Reps-Grows p p' reps g hs)

  get_rep-Represents :
      (p : SyncPlan) (ino : ℕ) (path : Bytes) (reps : List (ℕ × Bytes))
      → Reps p reps
      → get_rep ino reps ≡ some path
      → Represents config source dest p ino path
  get_rep-Represents p ino path [] h e = cc
  get_rep-Represents p ino path ((n, at) ∷ reps) (h, hs) e = elim (Bool-cases (n == ino)) [
    | inl m ↦
        let here : n ≡ ino = (==_iff n ino).0 m in
        let there : at ≡ path = some-injective at path (rw m at e) in rw (here, there) at h
    | inr m ↦ get_rep-Represents p ino path reps hs (rw m at e)
  ]

  pub Reps-register :
      (p : SyncPlan) (ino : ℕ) (path : Bytes) (reps : List (ℕ × Bytes))
      → Reps p reps
      → Represents config source dest p ino path
      → Reps p (register ino path reps)
  Reps-register p ino path reps h r = elim (Option-cases (get_rep ino reps)) [
    | inl e ↦ rw (e, Reps) (r, h)
    | inr (at, e) ↦ rw (e, Reps) h
  ]

  abbrev pub LinkOk : SyncPlan → SyncTask → Type 0
  LinkOk p t = Linked config source dest p t.relative_path t.link_to

  -- A task and its map of representatives, once the task is in a grown plan.
  pub assigned :
      (src : FileEntry) (a : SyncAction) (reps : List (ℕ × Bytes)) (p p' : SyncPlan)
      → InSource source src
      → Reps p reps
      → Grows p p'
      → ((assign_hardlink src (task_for src a) reps).0.link_to ≡ none
          → (sends src.relative_path p'.creates || sends src.relative_path p'.updates) ≡ true)
      → Reps p' (assign_hardlink src (task_for src a) reps).1
        × LinkOk p' (assign_hardlink src (task_for src a) reps).0
  unfolding assign_hardlink
  assigned src a reps p p' i h g sent = elim (Option-cases src.inode) [
    | inl e ↦ rw (e, assign_hardlink) (Reps-Grows p p' reps g h, tt)
    | inr (ino, e) ↦ elim (Bool-cases (kind_eq src.kind file)) [
      | inr k ↦ rw (e, assign_hardlink) (rw k (Reps-Grows p p' reps g h, tt))
      | inl k ↦ elim (Option-cases (get_rep ino reps)) [
        | inl r ↦
            let sent' = rw (e, assign_hardlink) at sent in
            let sent'' = rw k at sent' in
            let s = (rw (r, assign_hardlink) at sent'') refl in
            rw (e, assign_hardlink)
              (rw k (
                rw (r, assign_hardlink)
                  (
                    Reps-register p' ino src.relative_path reps (Reps-Grows p p' reps g h) (record {
                      entry = src;
                      listed = i;
                      named = refl;
                      inode = e;
                      regular = k;
                      held = inl s;
                    }),
                    tt,
                  )))
        | inr (path, r) ↦
            rw (e, assign_hardlink)
              (rw k (
                rw (r, assign_hardlink)
                  (
                    Reps-Grows p p' reps g h,
                    (
                      src,
                      ino,
                      i,
                      refl,
                      e,
                      k,
                      Represents-Grows p p' ino path g (get_rep-Represents p ino path reps h r),
                    ),
                  )))
      ]
    ]
  ]
