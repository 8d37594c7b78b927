-- ===== src/Sync/Planner/Partition.antt =====
-- src/sync/planner.rs, `plan`: how many tasks a plan has for a path.
use cp.Common.{
  ℕ, ◌+◌, ◌≡◌, refl, ◌∙◌, inl, inr, arith, Option, none, some, Option-cases, Bool-cases,
  if◌then◌else◌,
}
use cp.Common.{Bytes, List, [], ◌∷◌, ◌++◌, Bool, true, false, not, ◌&&◌, is_some, bytes_eq}
use cp.Sync.Entry.{FileEntry, file, kind_eq}
use cp.Sync.Planner.{
  PlannerConfig, skip, create, update, meta_only, SyncTask, SyncPlan, Planning, get_rep, task_for,
  assign_hardlink, get_entry, flag_forced_skip, attrs_differ, is_special, push_skip, push_meta,
  push_create, push_update, act, plan_file, plan_files, plan,
}
use cp.Sync.Planner.Decision.{compare-cases}

abbrev one : Bool → ℕ
one b = if b then 1 else 0

-- How many tasks, and how many entries, are for a path.
abbrev pub tasks_of : Bytes → List SyncTask → ℕ
tasks_of path [] = 0
tasks_of path (t ∷ ts) = one (bytes_eq t.relative_path path) + tasks_of path ts

abbrev pub entries_of : Bytes → List FileEntry → ℕ
entries_of path [] = 0
entries_of path (f ∷ fs) = one (bytes_eq f.relative_path path) + entries_of path fs

abbrev pub planned_of : Bytes → SyncPlan → ℕ
planned_of path p =
    tasks_of path p.creates + tasks_of path p.updates + tasks_of path p.skips + tasks_of path p.meta

tasks_of-append :
    (path : Bytes) (ts : List SyncTask) (t : SyncTask)
    → tasks_of path (ts ++ (t ∷ [])) ≡ tasks_of path ts + one (bytes_eq t.relative_path path)
tasks_of-append path [] t = omega arith
tasks_of-append path (u ∷ ts) t = omega (arith, tasks_of-append path ts t)

pub assign_hardlink-relative_path :
    (src : FileEntry) (task : SyncTask) (reps : List (ℕ × Bytes))
    → (assign_hardlink src task reps).0.relative_path ≡ task.relative_path
unfolding assign_hardlink
assign_hardlink-relative_path src task reps = elim (Option-cases src.inode) [
  | inl e ↦ rw (e, assign_hardlink) refl
  | inr (ino, e) ↦ elim (Bool-cases (kind_eq src.kind file)) [
    | inr k ↦ rw (e, assign_hardlink) (rw k refl)
    | inl k ↦ elim (Option-cases (get_rep ino reps)) [
      | inl r ↦ rw (e, assign_hardlink) (rw k (rw (r, assign_hardlink) refl))
      | inr (path, r) ↦ rw (e, assign_hardlink) (rw k (rw (r, assign_hardlink) refl))
    ]
  ]
]

module _ (config : PlannerConfig) (path : Bytes) (src : FileEntry) (s : Planning) where
  abbrev Adds : Planning → Type 0
  Adds s' = planned_of path s'.plan ≡ planned_of path s.plan + one (bytes_eq src.relative_path path)

  push_skip-Adds : Adds (push_skip config src s)
  unfolding push_skip
  push_skip-Adds = omega (arith, tasks_of-append path s.plan.skips (task_for src skip))

  push_meta-Adds : Adds (push_meta config src s)
  unfolding push_meta
  push_meta-Adds = omega (arith, tasks_of-append path s.plan.meta (task_for src meta_only))

  push_create-Adds : Adds (push_create config src s)
  unfolding push_create
  push_create-Adds =
      let task = (assign_hardlink src (task_for src create) s.reps).0 in
      let e = tasks_of-append path s.plan.creates task in
      let e' = rw (assign_hardlink-relative_path src (task_for src create) s.reps) at e in
      omega (arith, e')

  push_update-Adds : Adds (push_update config src s)
  unfolding push_update
  push_update-Adds =
      let task = (assign_hardlink src (task_for src update) s.reps).0 in
      let e = tasks_of-append path s.plan.updates task in
      let e' = rw (assign_hardlink-relative_path src (task_for src update) s.reps) at e in
      omega (arith, e')

  act_skip-Adds : (dst : FileEntry) → Adds (act config skip src dst s)
  unfolding act
  act_skip-Adds dst =
      elim (Bool-cases (
        not src.is_dir
        && not (is_some src.link_target)
        && not (is_special src.kind)
        && not (flag_forced_skip config src dst)
        && attrs_differ config src dst)) [
          | inl e ↦ rw e push_meta-Adds
          | inr e ↦ rw e push_skip-Adds
        ]

  plan_file-Adds : (dst : Option FileEntry) → Adds (plan_file config src dst s)
  unfolding plan_file act
  plan_file-Adds none = elim (Bool-cases (config.existing && not src.is_dir)) [
    | inl e ↦ rw e push_skip-Adds
    | inr e ↦ rw e push_create-Adds
  ]
  plan_file-Adds (some dst) = elim (Bool-cases (src.is_dir && dst.is_dir)) [
    | inl e ↦ rw e push_skip-Adds
    | inr e ↦ rw e (elim (compare-cases config src dst) [
      | inl c ↦ rw (c, act) (act_skip-Adds dst)
      | inr c ↦ rw (c, act) push_update-Adds
    ])
  ]

plan_files-Adds :
    (config : PlannerConfig) (path : Bytes) (dest srcs : List FileEntry) (s : Planning)
    → planned_of path (plan_files config dest srcs s).plan
      ≡ planned_of path s.plan + entries_of path srcs
unfolding plan_files
plan_files-Adds config path dest [] s = omega arith
plan_files-Adds config path dest (src ∷ srcs) s =
    let dst = get_entry src.relative_path dest in
    omega (
      arith,
      plan_files-Adds config path dest srcs (plan_file config src dst s),
      plan_file-Adds config path src s dst,
    )

planned_of-deletes :
    (path : Bytes) (b : Bool) (ts : List SyncTask) (p : SyncPlan)
    → planned_of path (if b then record p { deletes = ts } else p) ≡ planned_of path p
planned_of-deletes path true ts p = refl
planned_of-deletes path false ts p = refl

-- The creates, updates, skips and metadata passes of a plan hold, for every path, as many tasks as
-- the source has entries: no source entry is lost and none is planned twice.
pub plan-entries_of :
    (config : PlannerConfig) (source dest : List FileEntry) (path : Bytes)
    → planned_of path (plan config source dest) ≡ entries_of path source
unfolding plan
plan-entries_of config source dest path =
    planned_of-deletes path config.delete _ _
    ∙ omega (arith, plan_files-Adds config path dest source _)
