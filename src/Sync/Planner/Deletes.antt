-- ===== src/Sync/Planner/Deletes.antt =====
-- What a plan deletes.
use cp.Common.{◌≡◌, refl, ap, ◌∙◌, inl, inr, arith, Option, none, some, Bool-cases, if◌then◌else◌}
use cp.Common.{
  Bytes, List, [], ◌∷◌, Bool, true, false, not, ◌&&◌, is_some, bytes_eq, bytes_eq_iff, any,
}
use cp.Sync.Entry.{FileEntry}
use cp.Sync.Planner.{
  PlannerConfig, SyncAction, skip, create, update, delete, meta_only, SyncPlan, Planning, compare,
  push_skip, push_meta, push_update, push_create, act, plan_file, SyncTask, get_entry,
  delete_in_scope, plan_files, plan_deletes, plan,
}

abbrev pub has_path : Bytes → List FileEntry → Bool
has_path path fs = any (λ f. bytes_eq f.relative_path path) fs

abbrev pub has_task : Bytes → List SyncTask → Bool
has_task path ts = any (λ t. bytes_eq t.relative_path path) ts

get_entry-has_path :
    (path : Bytes) (fs : List FileEntry) → is_some (get_entry path fs) ≡ has_path path fs
unfolding get_entry
get_entry-has_path path [] = refl
get_entry-has_path path (f ∷ fs) = ground (arith, get_entry-has_path path fs)

plan_deletes-has_task :
    (config : PlannerConfig) (path : Bytes) (source dest : List FileEntry)
    → has_task path (plan_deletes config source dest)
      ≡ (has_path path dest && (not (has_path path source) && delete_in_scope config path))
unfolding plan_deletes
plan_deletes-has_task config path source [] = refl
plan_deletes-has_task config path source (dst ∷ dsts) =
    let ih = plan_deletes-has_task config path source dsts in
    let kept =
      not (is_some (get_entry dst.relative_path source))
      && delete_in_scope config dst.relative_path in
    elim (Bool-cases (bytes_eq dst.relative_path path)) [
      | inl m ↦
          let here : dst.relative_path ≡ path = (bytes_eq_iff dst.relative_path path).0 m in
          let same : kept ≡ (not (has_path path source) && delete_in_scope config path) =
            ap (λ (x : Bytes). not (is_some (get_entry x source)) && delete_in_scope config x) here
            ∙ ap (λ b. not b && delete_in_scope config path) (get_entry-has_path path source) in
          elim (Bool-cases kept) [
            | inl k ↦ rw (k, plan_deletes) (ground (arith, same, k, m, ih))
            | inr k ↦ rw (k, plan_deletes) (ground (arith, same, k, m, ih))
          ]
      | inr m ↦ elim (Bool-cases kept) [
        | inl k ↦ rw (k, plan_deletes) (ground (arith, m, ih))
        | inr k ↦ rw (k, plan_deletes) (ground (arith, m, ih))
      ]
    ]

act-deletes :
    (config : PlannerConfig) (a : SyncAction) (src dst : FileEntry) (s : Planning)
    → (act config a src dst s).plan.deletes ≡ s.plan.deletes
unfolding act push_skip push_meta push_update
act-deletes config skip src dst s = ground arith
act-deletes config create src dst s = refl
act-deletes config update src dst s = refl
act-deletes config delete src dst s = refl
act-deletes config meta_only src dst s = refl

plan_file-deletes :
    (config : PlannerConfig) (src : FileEntry) (dst : Option FileEntry) (s : Planning)
    → (plan_file config src dst s).plan.deletes ≡ s.plan.deletes
unfolding plan_file push_skip push_create
plan_file-deletes config src none s = elim (Bool-cases (config.existing && not src.is_dir)) [
  | inl e ↦ rw e refl
  | inr e ↦ rw e refl
]
plan_file-deletes config src (some dst) s = elim (Bool-cases (src.is_dir && dst.is_dir)) [
  | inl e ↦ rw e refl
  | inr e ↦ rw e (act-deletes config (compare config src dst) src dst s)
]

plan_files-deletes :
    (config : PlannerConfig) (dest srcs : List FileEntry) (s : Planning)
    → (plan_files config dest srcs s).plan.deletes ≡ s.plan.deletes
unfolding plan_files
plan_files-deletes config dest [] s = refl
plan_files-deletes config dest (src ∷ srcs) s =
    let s' = plan_file config src (get_entry src.relative_path dest) s in
    plan_files-deletes config dest srcs s'
    ∙ plan_file-deletes config src (get_entry src.relative_path dest) s

has_task-deletes :
    (path : Bytes) (b : Bool) (ts : List SyncTask) (p : SyncPlan)
    → p.deletes ≡ []
    → has_task path (if b then record p { deletes = ts } else p).deletes ≡ (b && has_task path ts)
has_task-deletes path true ts p e = refl
has_task-deletes path false ts p e = rw e refl

-- A plan deletes a path exactly when deleting is on, the destination has the path, the source has
-- not, and the path is in the scope of the deletes.
pub plan-has_task :
    (config : PlannerConfig) (source dest : List FileEntry) (path : Bytes)
    → has_task path (plan config source dest).deletes ≡ (
        config.delete
        && (has_path path dest && (not (has_path path source) && delete_in_scope config path)))
unfolding plan
plan-has_task config source dest path =
    has_task-deletes path config.delete _ _ (plan_files-deletes config dest source _)
    ∙ ap (λ b. config.delete && b) (plan_deletes-has_task config path source dest)
