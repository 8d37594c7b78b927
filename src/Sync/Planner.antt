-- ===== src/Sync/Planner.antt =====
-- src/sync/planner.rs: two manifests to a plan.
mod Plan
pub mod Decision
pub mod Partition
pub mod Deletes
pub mod Links
pub mod Targets
mod Runs
unfoldable pub use Plan.*
use cp.Common.{
  ℕ, ◌+◌, Bytes, List, [], ◌∷◌, ◌++◌, Option, none, some, is_some, bytes_eq, any, bit_and,
}
use cp.Common.{Bool, true, false, not, ◌&&◌, ◌||◌, ◌==◌, if◌then◌else◌}
use cp.Sync.Entry.{
  FileEntry, FileKind, LinkKind, file, fifo, socket, block_device, char_device, int_eq, int_ltb,
  kind_eq,
}

pub record Planning : Type 0 where
  pub plan : SyncPlan
  pub reps : List (ℕ × Bytes)

module _ (config : PlannerConfig) where
  unfoldable pub flag_forced_skip : FileEntry → FileEntry → Bool
  flag_forced_skip src dst =
      (config.update_only && int_ltb src.mtime_sec dst.mtime_sec)
      || (config.ignore_existing && not src.is_dir && not dst.is_dir)

  unfoldable pub attrs_differ : FileEntry → FileEntry → Bool
  attrs_differ src dst =
      (config.preserve_perms && not (bit_and src.mode 0o7777 == bit_and dst.mode 0o7777))
      || (config.preserve_times && not (times_match src dst))

  unfoldable pub content_matches : FileEntry → FileEntry → Bool
  unfolding bytes_eq
  content_matches src dst =
      if config.checksum
      then hashes_match src.file_hash dst.file_hash
      else if config.size_only
      then src.size == dst.size
      else src.size == dst.size && times_match src dst

  unfoldable pub compare : FileEntry → FileEntry → SyncAction
  unfolding bytes_eq
  compare src dst =
      if config.ignore_existing && not src.is_dir && not dst.is_dir
      then skip
      else if not (bool_eq src.is_dir dst.is_dir)
      then update
      else if is_some src.link_target || is_some dst.link_target
      then (if is_some src.link_target && option_bytes_eq src.link_target dst.link_target
          then when (config.checksum || config.size_only || times_match src dst)
          else update)
      else if is_special src.kind || is_special dst.kind
      then when (
          kind_eq src.kind dst.kind
          && option_eq (◌==◌) src.rdev dst.rdev
          && int_eq src.mtime_sec dst.mtime_sec)
      else if config.update_only && int_ltb src.mtime_sec dst.mtime_sec
      then skip
      else if config.ignore_times
      then update
      else if config.checksum
      then when (hashes_match src.file_hash dst.file_hash)
      else if config.size_only
      then when (src.size == dst.size)
      else if not (src.size == dst.size) || not (times_match src dst)
      then update
      else skip

  unfoldable pub delete_in_scope : Bytes → Bool
  unfolding bytes_eq
  delete_in_scope rel = elim config.delete_scope [
    | none ↦ true
    | some scope ↦
        any
          (λ root.
            bytes_eq (to_slashes rel) (to_slashes root)
            || starts_with (to_slashes rel) (to_slashes root ++ (47 ∷ [])))
          scope
  ]

  abbrev pub is_skip : SyncAction → Bool
  is_skip skip = true
  is_skip _ = false

  -- The pre-pass: in-sync entries whose content was compared are hard-link targets.
  unfoldable pub pre_pass : List FileEntry → List FileEntry → List (ℕ × Bytes) → List (ℕ × Bytes)
  unfolding compare content_matches get_entry
  pre_pass dest [] reps = reps
  pre_pass dest (src ∷ srcs) reps = pre_pass dest srcs (elim src.inode [
    | none ↦ reps
    | some ino ↦ elim (get_entry src.relative_path dest) [
      | none ↦ reps
      | some dst ↦
          if kind_eq src.kind file
            && not (is_some dst.link_target)
            && is_skip (compare src dst)
            && content_matches src dst
          then register ino src.relative_path reps
          else reps
    ]
  ])

  unfoldable pub push_skip : FileEntry → Planning → Planning
  push_skip src s = record s {
    plan = record (s.plan) { skips = s.plan.skips ++ (task_for src skip ∷ []) };
  }

  unfoldable pub push_meta : FileEntry → Planning → Planning
  push_meta src s = record s {
    plan = record (s.plan) { meta = s.plan.meta ++ (task_for src meta_only ∷ []) };
  }

  unfoldable pub push_create : FileEntry → Planning → Planning
  unfolding assign_hardlink
  push_create src s =
      let (task, reps) = assign_hardlink src (task_for src create) s.reps in
      record { plan = record (s.plan) { creates = s.plan.creates ++ (task ∷ []) }; reps = reps }

  unfoldable pub push_update : FileEntry → Planning → Planning
  unfolding assign_hardlink
  push_update src s =
      let (task, reps) = assign_hardlink src (task_for src update) s.reps in
      record { plan = record (s.plan) { updates = s.plan.updates ++ (task ∷ []) }; reps = reps }

  -- A file on both sides, by the action that the comparison gives.
  unfoldable pub act : SyncAction → FileEntry → FileEntry → Planning → Planning
  unfolding push_skip push_meta push_update flag_forced_skip attrs_differ
  act skip src dst s =
      if not src.is_dir
        && not (is_some src.link_target)
        && not (is_special src.kind)
        && not (flag_forced_skip src dst)
        && attrs_differ src dst
      then push_meta src s
      else push_skip src s
  act update src dst s = push_update src s
  act _ src dst s = s

  unfoldable pub plan_file : FileEntry → Option FileEntry → Planning → Planning
  unfolding push_skip push_create compare act
  plan_file src none s =
      if config.existing && not src.is_dir then push_skip src s else push_create src s
  plan_file src (some dst) s =
      if src.is_dir && dst.is_dir then push_skip src s else act (compare src dst) src dst s

  unfoldable pub plan_files : List FileEntry → List FileEntry → Planning → Planning
  unfolding plan_file get_entry
  plan_files dest [] s = s
  plan_files dest (src ∷ srcs) s =
      plan_files dest srcs (plan_file src (get_entry src.relative_path dest) s)

  abbrev pub delete_task : FileEntry → SyncTask
  delete_task dst = record {
    relative_path = dst.relative_path;
    action = delete;
    source_size = 0;
    is_dir = dst.is_dir;
    link_target = none;
    link_kind = LinkKind.symlink;
    link_to = none;
    special = none;
    source_path = none;
    dereferenced = false;
  }

  unfoldable pub plan_deletes : List FileEntry → List FileEntry → List SyncTask
  unfolding get_entry delete_in_scope
  plan_deletes source [] = []
  plan_deletes source (dst ∷ dsts) =
      let rest = plan_deletes source dsts in
      if not (is_some (get_entry dst.relative_path source)) && delete_in_scope dst.relative_path
      then delete_task dst ∷ rest
      else rest

  -- `Planner::plan`, of the two manifests' files
  unfoldable pub plan : List FileEntry → List FileEntry → SyncPlan
  unfolding plan_files pre_pass plan_deletes
  plan source dest =
      let empty : SyncPlan = record {
        creates = [];
        updates = [];
        deletes = [];
        skips = [];
        meta = [];
      } in
      let s = plan_files dest source (record { plan = empty; reps = pre_pass dest source [] }) in
      if config.delete then record (s.plan) { deletes = plan_deletes source dest } else s.plan
