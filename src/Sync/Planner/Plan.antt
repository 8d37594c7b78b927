-- ===== src/Sync/Planner/Plan.antt =====
-- src/sync/planner.rs: the plan and its tasks, the settings, and the lookups that planning makes.
-- A map keyed by path is a walk for the last entry with that path; the map of inode
-- representatives is an association list.
use cp.Common.{ℕ, Bytes, List, [], ◌∷◌, ◌++◌, Option, none, some, bytes_eq}
use cp.Common.{Bool, true, false, not, ◌&&◌, ◌==◌, if◌then◌else◌}
use cp.Sync.Entry.{
  FileEntry, FileKind, LinkKind, file, fifo, socket, block_device, char_device, int_eq, kind_eq,
}

pub data SyncAction : Type 0 where
  skip : SyncAction
  create : SyncAction
  update : SyncAction
  delete : SyncAction
  meta_only : SyncAction

pub record SyncTask : Type 0 where
  pub relative_path : Bytes
  pub action : SyncAction
  pub source_size : ℕ
  pub is_dir : Bool
  pub link_target : Option Bytes
  pub link_kind : LinkKind
  pub link_to : Option Bytes
  pub special : Option (FileKind × Option ℕ)
  pub source_path : Option Bytes
  pub dereferenced : Bool

pub record SyncPlan : Type 0 where
  pub creates : List SyncTask
  pub updates : List SyncTask
  pub deletes : List SyncTask
  pub skips : List SyncTask
  pub meta : List SyncTask

-- `SyncPlan::tasks`
abbrev pub tasks : SyncPlan → List SyncTask
tasks p = p.creates ++ p.updates

pub record PlannerConfig : Type 0 where
  pub checksum : Bool
  pub size_only : Bool
  pub update_only : Bool
  pub ignore_existing : Bool
  pub existing : Bool
  pub ignore_times : Bool
  pub delete : Bool
  pub delete_scope : Option (List Bytes)
  pub preserve_perms : Bool
  pub preserve_times : Bool

abbrev pub option_eq : (ℕ → ℕ → Bool) → Option ℕ → Option ℕ → Bool
option_eq eq none none = true
option_eq eq none (some b) = false
option_eq eq (some a) none = false
option_eq eq (some a) (some b) = eq a b

abbrev pub option_bytes_eq : Option Bytes → Option Bytes → Bool
option_bytes_eq none none = true
option_bytes_eq none (some b) = false
option_bytes_eq (some a) none = false
option_bytes_eq (some a) (some b) = bytes_eq a b

abbrev pub bool_eq : Bool → Bool → Bool
bool_eq true b = b
bool_eq false b = not b

abbrev pub is_special : FileKind → Bool
is_special fifo = true
is_special socket = true
is_special block_device = true
is_special char_device = true
is_special _ = false

abbrev pub times_match : FileEntry → FileEntry → Bool
times_match src dst = int_eq src.mtime_sec dst.mtime_sec && src.mtime_nsec == dst.mtime_nsec

-- `(Some(a), Some(b)) => a == b, _ => false`
abbrev pub hashes_match : Option Bytes → Option Bytes → Bool
hashes_match (some a) (some b) = bytes_eq a b
hashes_match none b = false
hashes_match (some a) none = false

abbrev pub when : Bool → SyncAction
when b = if b then skip else update

-- `str::replace('\\', "/")`
abbrev pub to_slashes : Bytes → Bytes
to_slashes [] = []
to_slashes (b ∷ bs) = (if b == 92 then 47 else b) ∷ to_slashes bs

abbrev pub starts_with : Bytes → Bytes → Bool
starts_with bs [] = true
starts_with [] (p ∷ ps) = false
starts_with (b ∷ bs) (p ∷ ps) = b == p && starts_with bs ps

-- `get` of a map that was collected from the entries: a later entry replaces an earlier one.
unfoldable pub get_entry : Bytes → List FileEntry → Option FileEntry
get_entry path [] = none
get_entry path (f ∷ fs) = elim (get_entry path fs) [
  | some g ↦ some g
  | none ↦ if bytes_eq f.relative_path path then some f else none
]

abbrev pub get_rep : ℕ → List (ℕ × Bytes) → Option Bytes
get_rep ino [] = none
get_rep ino ((n, path) ∷ reps) = if n == ino then some path else get_rep ino reps

-- `entry(ino).or_insert_with(..)`
abbrev pub register : ℕ → Bytes → List (ℕ × Bytes) → List (ℕ × Bytes)
register ino path reps = elim (get_rep ino reps) [ some p ↦ reps | none ↦ (ino, path) ∷ reps ]

-- `Planner::task_for`
abbrev pub task_for : FileEntry → SyncAction → SyncTask
task_for src action = record {
  relative_path = src.relative_path;
  action = action;
  source_size = src.size;
  is_dir = src.is_dir;
  link_target = src.link_target;
  link_kind = src.link_kind;
  link_to = none;
  special = if is_special src.kind then some (src.kind, src.rdev) else none;
  source_path = src.source_path;
  dereferenced = src.dereferenced;
}

-- Members of an inode's group link to its representative; the first one becomes it.
unfoldable pub assign_hardlink :
    FileEntry → SyncTask → List (ℕ × Bytes) → SyncTask × List (ℕ × Bytes)
assign_hardlink src task reps = elim src.inode [
  | none ↦ (task, reps)
  | some ino ↦
      if kind_eq src.kind file
      then elim (get_rep ino reps) [
        | none ↦ (task, register ino src.relative_path reps)
        | some path ↦ (record task { link_to = some path }, reps)
      ]
      else (task, reps)
]
