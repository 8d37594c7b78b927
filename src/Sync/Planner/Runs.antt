-- ===== src/Sync/Planner/Runs.antt =====
-- Runs of the planner on two small manifests, and its theorems at concrete inputs.
use cp.Common.{arith, ℕ, Bytes, List, [], ◌∷◌, ◌≡◌, refl, none, some, true, false, not, ◌&&◌, All}
use cp.Sync.Entry.{FileEntry, pos, file, LinkKind}
use cp.Sync.Planner.{
  PlannerConfig, tasks, compare, content_matches, flag_forced_skip, delete_in_scope, plan,
}
use cp.Sync.Wire.{manifest_from_file_meta}
use cp.Sync.Wire.RoundTrip.{to_metas, plan-manifest_from_file_meta}
use cp.Sync.Planner.Partition.{planned_of, entries_of, plan-entries_of}
use cp.Sync.Planner.Deletes.{has_path, has_task, plan-has_task}
use cp.Sync.Planner.Links.{Linked}
use cp.Sync.Planner.Targets.{plan-Linked}

abbrev entry : Bytes → ℕ → ℕ → FileEntry
entry path size inode = record {
  relative_path = path;
  size = size;
  mode = 0o644;
  mtime_sec = pos 100;
  mtime_nsec = 0;
  file_hash = none;
  is_dir = false;
  link_target = none;
  link_kind = LinkKind.symlink;
  inode = some inode;
  kind = file;
  rdev = none;
  uid = none;
  gid = none;
  atime_sec = pos 0;
  atime_nsec = 0;
  xattrs = none;
  source_path = none;
  dereferenced = false;
}

abbrev mirror : PlannerConfig
mirror = record {
  checksum = false;
  size_only = false;
  update_only = false;
  ignore_existing = false;
  existing = false;
  ignore_times = false;
  delete = true;
  delete_scope = none;
  preserve_perms = true;
  preserve_times = true;
}

-- Two names of one inode and another file; one of the names is there already, and an extra file.
abbrev here : List FileEntry
here = entry (97 ∷ []) 5 1 ∷ entry (98 ∷ []) 5 1 ∷ entry (99 ∷ []) 7 2 ∷ []

abbrev there : List FileEntry
there = entry (98 ∷ []) 5 8 ∷ entry (99 ∷ []) 6 9 ∷ entry (100 ∷ []) 1 3 ∷ []

-- The missing name links to the one in sync.
plan_run : All (λ t. t.link_to ≡ some (98 ∷ [])) (plan mirror here there).creates
unfolding plan compare content_matches flag_forced_skip delete_in_scope
plan_run = (refl, tt)

plan-entries_of_example : planned_of (97 ∷ []) (plan mirror here there) ≡ entries_of (97 ∷ []) here
plan-entries_of_example = plan-entries_of mirror here there (97 ∷ [])

plan-has_task_example : has_task (100 ∷ []) (plan mirror here there).deletes ≡ (
    true
    && (has_path (100 ∷ []) there
        && (not (has_path (100 ∷ []) here) && delete_in_scope mirror (100 ∷ []))))
plan-has_task_example = plan-has_task mirror here there (100 ∷ [])

plan-Linked_example :
    All
      (λ t. Linked mirror here there (plan mirror here there) t.relative_path t.link_to)
      (tasks (plan mirror here there))
plan-Linked_example = plan-Linked mirror here there

plan-manifest_from_file_meta_example :
    plan mirror here (manifest_from_file_meta (to_metas there)).files ≡ plan mirror here there
plan-manifest_from_file_meta_example = plan-manifest_from_file_meta mirror here there (
  (refl, omega arith, omega arith),
  ((refl, omega arith, omega arith), ((refl, omega arith, omega arith), tt)),
)
